-- ===== src/State/Access.antt =====
-- Who has access: `has_fs_access` of core/src/state.rs against a specification, and against what
-- `permissions_for_peer` reports.
use puppypeer.Prelude.{
  ℕ, ◌≡◌, refl, ◌↔◌, ◌⊎◌, inl, inr, ◌≢◌, Bool, true, ◌&&◌, ◌==◌, List, [], ◌∷◌, map, any, Any,
  flat_map, arith, All, bit_and, not, ◌!=◌, ==_iff, false, any-append, any-map, any→Any, Any→any,
  Bool-cases, Option,
}
use puppypeer.FilePath.{FilePath}
use puppypeer.FilePath.Prefix.{Under, starts_with_iff}
use puppypeer.Rule.{
  Rule, owner, folder, FolderRule, Permission, I64, permission, allows, can_read, can_write,
  can_execute, can_search,
}
use puppypeer.State.{
  State, PeerId, Relationship, involves, related_rules, permits, rule_permits, folder_permits,
  has_fs_access, permissions_for_peer,
}

-- A number in which a bit is set.
abbrev pub HasBit : ℕ → ℕ → Type 0
HasBit b n = bit_and n b ≢ 0

-- Each of the four bits of reading (1), writing (2), executing (4) and searching (8) that is set in
-- the requested access is set in the flags.
abbrev pub Includes : ℕ → ℕ → Type 0
Includes flags access = All (λ b. HasBit b access → HasBit b flags) (1 ∷ 2 ∷ 4 ∷ 8 ∷ [])

-- What it means that a rule covers an access to a path.
abbrev pub Covers : FilePath → ℕ → FolderRule → Type 0
Covers path access r = Under path r.path × Includes r.flags access

allows→Includes : (r : FolderRule) (access : ℕ) → allows r access ≡ true → Includes r.flags access
unfolding allows can_read can_write can_execute can_search
allows→Includes r access h =
    (λ a f. ground arith, (λ a f. ground arith, (λ a f. ground arith, (λ a f. ground arith, tt))))

refused_bit :
    (b flags access : ℕ)
    → (HasBit b access → HasBit b flags)
    → (bit_and access b != 0 && not (bit_and flags b != 0)) ≡ false
refused_bit b flags access h = elim (Bool-cases (bit_and access b == 0)) [
  | inl e ↦ rw e refl
  | inr e ↦ elim (Bool-cases (bit_and flags b == 0)) [
    | inl f ↦ absurd (h (λ z. ground arith) ((==_iff (bit_and flags b) 0).0 f))
    | inr f ↦ ground arith
  ]
]

Includes→allows : (r : FolderRule) (access : ℕ) → Includes r.flags access → allows r access ≡ true
unfolding allows can_read can_write can_execute can_search
Includes→allows r access h =
    rw
      (
        refused_bit 1 r.flags access h.0,
        refused_bit 2 r.flags access h.1.0,
        refused_bit 4 r.flags access h.1.1.0,
        refused_bit 8 r.flags access h.1.1.1.0,
      )
      refl

abbrev pub RuleCovers : FilePath → ℕ → Rule → Type 0
RuleCovers path access owner = Unit {0}
RuleCovers path access (folder r) = Covers path access r

abbrev pub Involves : PeerId → Relationship → Type 0
Involves src r = (r.src ≡ src) ⊎ (r.target ≡ src)

-- The specification: the node itself, a shared folder, or a rule of a relationship with the peer.
abbrev pub MayAccess : State → PeerId → FilePath → ℕ → Type 0
MayAccess s src path access =
    (src ≡ s.me)
    ⊎ (Any (Covers path access) s.shared_folders
        ⊎ Any (λ r. Involves src r × Any (λ p. RuleCovers path access p.rule) r.rules)
            s.relationships)

module _ (path : FilePath) (access : ℕ) where
  folder_permits_iff :
      (r : FolderRule) → (folder_permits path access r ≡ true) ↔ Covers path access r
  folder_permits_iff r = (
    λ h. ((starts_with_iff path r.path).0 (ground arith), allows→Includes r access (ground arith)),
    λ c. ground (arith, (starts_with_iff path r.path).1 c.0, Includes→allows r access c.1),
  )

  permits_iff : (p : Permission) → (permits path access p ≡ true) ↔ RuleCovers path access p.rule
  permits_iff p = go p.rule
    where
      go : (r : Rule) → (rule_permits path access r ≡ true) ↔ RuleCovers path access r
      go owner = (λ h. tt, λ c. refl)
      go (folder r) = folder_permits_iff r

  related_iff :
      (src : PeerId) (r : Relationship)
      → ((involves src r && any (permits path access) r.rules) ≡ true)
        ↔ (Involves src r × Any (λ p. RuleCovers path access p.rule) r.rules)
  related_iff src r = (
    λ h. (
      ground arith,
      any→Any (permits path access) (λ p. RuleCovers path access p.rule) (λ p. (permits_iff p).0)
          r.rules (ground arith),
    ),
    λ c. ground (
      arith,
      Any→any (permits path access) (λ p. RuleCovers path access p.rule) (λ p. (permits_iff p).1)
          r.rules c.1,
      c.0,
    ),
  )

abbrev Related : PeerId → FilePath → ℕ → Relationship → Type 0
Related src path access r = Involves src r × Any (λ p. RuleCovers path access p.rule) r.rules

abbrev related : PeerId → FilePath → ℕ → Relationship → Bool
related src path access r = involves src r && any (permits path access) r.rules

module _ (s : State) (src : PeerId) (path : FilePath) (access : ℕ) where
  shared_part :
      (any (folder_permits path access) s.shared_folders ≡ true)
      ↔ Any (Covers path access) s.shared_folders
  shared_part = (
    any→Any _ _ (λ r. (folder_permits_iff path access r).0) s.shared_folders,
    Any→any _ _ (λ r. (folder_permits_iff path access r).1) s.shared_folders,
  )

  related_part :
      (any (related src path access) s.relationships ≡ true)
      ↔ Any (Related src path access) s.relationships
  related_part = (
    any→Any _ _ (λ r. (related_iff path access src r).0) s.relationships,
    Any→any _ _ (λ r. (related_iff path access src r).1) s.relationships,
  )

  -- The check answers yes exactly to the node itself, to a peer that asks for something below a
  -- shared folder whose flags include the requested ones, and to a peer with a relationship, in
  -- either direction, that holds an owner rule or such a folder rule.
  pub has_fs_access_iff : (has_fs_access s src path access ≡ true) ↔ MayAccess s src path access
  unfolding has_fs_access
  has_fs_access_iff = (
    λ h. elim (Bool-cases (src == s.me)) [
      | inl e ↦ inl (ground arith)
      | inr e ↦ elim (Bool-cases (any (folder_permits path access) s.shared_folders)) [
        | inl e' ↦ inr (inl (shared_part.0 e'))
        | inr e' ↦ inr (inr (related_part.0 (ground arith)))
      ]
    ],
    λ m. elim m [
      | inl e ↦ ground arith
      | inr (inl a) ↦ ground (arith, shared_part.1 a)
      | inr (inr a) ↦ ground (arith, related_part.1 a)
    ],
  )

any-related :
    (src : PeerId) (path : FilePath) (access : ℕ) (rs : List Relationship)
    → any (related src path access) rs ≡ any (permits path access) (flat_map (related_rules src) rs)
any-related src path access [] = refl
any-related src path access (r ∷ rs) =
    rw any-append (ground (arith, any-related src path access rs))

any-permission :
    (path : FilePath) (access : ℕ) (rs : List FolderRule)
    → any (permits path access) (map (λ r. permission (folder r)) rs)
      ≡ any (folder_permits path access) rs
any-permission path access rs = any-map (permits path access) (λ r. permission (folder r)) rs

-- For every peer but the node itself, access is granted exactly if one of the permissions that
-- `permissions_for_peer` reports for that peer permits it: the report and the check agree.
pub has_fs_access-permissions_for_peer :
    (s : State) (src : PeerId) (path : FilePath) (access : ℕ)
    → src ≢ s.me
    → has_fs_access s src path access ≡ any (permits path access) (permissions_for_peer s src)
unfolding has_fs_access permissions_for_peer
has_fs_access-permissions_for_peer s src path access other =
    rw (any-append, any-permission, ← any-related) (ground arith)

-- A permission with another expiry.
abbrev pub re_expire : (Permission → Option I64) → Permission → Permission
re_expire f p = record p { expires_at = f p }

abbrev pub re_expire_in : (Permission → Option I64) → Relationship → Relationship
re_expire_in f r = record r { rules = map (re_expire f) r.rules }

abbrev pub re_expire_all : (Permission → Option I64) → State → State
re_expire_all f s = record s { relationships = map (re_expire_in f) s.relationships }

any-re_expire :
    (f : Permission → Option I64) (src : PeerId) (path : FilePath) (access : ℕ)
    (rs : List Relationship)
    → any (related src path access) (map (re_expire_in f) rs) ≡ any (related src path access) rs
any-re_expire f src path access [] = refl
any-re_expire f src path access (r ∷ rs) =
    ground (
      arith,
      any-map (permits path access) (re_expire f) r.rules,
      any-re_expire f src path access rs,
    )

-- The expiry of a permission plays no part in the check: whatever expiries the permissions of all
-- relationships are given, every access is decided as before.
pub has_fs_access-re_expire_all :
    (f : Permission → Option I64) (s : State) (src : PeerId) (path : FilePath) (access : ℕ)
    → has_fs_access (re_expire_all f s) src path access ≡ has_fs_access s src path access
unfolding has_fs_access
has_fs_access-re_expire_all f s src path access =
    rw (any-re_expire f src path access s.relationships) refl
