-- ===== src/Rule/Flags.antt =====
-- `FolderRule::allows` of core/src/state.rs tests that the requested flags are among the rule's.
use puppypeer.Prelude.{
  ℕ, zero, suc, ◌<◌, ◌≡◌, refl, codes, Bool, true, false, ◌&&◌, ◌==◌, arith, bit_and, not,
}
use puppypeer.Rule.{FolderRule, allows}

-- A test that every number below a bound passes, from the bound down.
passes : (test : ℕ → Bool) (bound : ℕ) → Bool
passes test zero = true
passes test (suc top) = passes test top && test top

passes_at : (test : ℕ → Bool) (bound k : ℕ) → k < bound → passes test bound ≡ true → test k ≡ true
unfolding passes
passes_at test zero k lt ok_all = absurd (omega arith)
passes_at test (suc top) k lt ok_all = ground (arith, passes_at test top k)

abbrev bool_eq : Bool → Bool → Bool
bool_eq true b = b
bool_eq false b = not b

bool_eq→eq : (a b : Bool) → bool_eq a b ≡ true → a ≡ b
bool_eq→eq a b h = ground arith

abbrev rule_of : ℕ → FolderRule
rule_of flags = record { path = codes "/"; flags = flags }

-- `access` with the four flags alone.
abbrev requested : ℕ → ℕ
requested access = bit_and access 15

abbrev agrees : ℕ → ℕ → Bool
agrees access flags =
    bool_eq (allows (rule_of flags) access) (bit_and (requested access) flags == requested access)

mask_table : passes (λ access. passes (agrees access) 256) 256 ≡ true
unfolding passes allows
mask_table = refl

mask_row : (access : ℕ) → access < 256 → passes (agrees access) 256 ≡ true
mask_row access h = passes_at _ 256 access h mask_table

-- For every `u8` mask and flags, the branches of `allows` amount to one mask test: the requested
-- ones among the four flags are all set in the rule, and the other bits of the mask do not count.
pub allows-mask :
    (r : FolderRule) (access : ℕ)
    → r.flags < 256
    → access < 256
    → allows r access ≡ (bit_and (bit_and access 15) r.flags == bit_and access 15)
unfolding allows
allows-mask r access hf ha = bool_eq→eq _ _ (passes_at _ 256 r.flags hf (mask_row access ha))
