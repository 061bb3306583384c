-- ===== src/Inventory/Stale.antt =====
-- What `remove_stale_cpus` of core/src/db.rs leaves, and the row of a processor as `fetch_cpus` shows it.
use puppypeer.Prelude.{
  ℕ, ◌≡◌, refl, ap, ◌∙◌, inl, inr, String, str_eq, eq_iff, Bool, true, not, ◌&&◌, Option, none,
  some, List, [], ◌∷◌, All, All-retain, map, retain, text_eq, text_eq_iff, if◌then◌else◌,
  Bool-cases, arith, ok,
}
use puppypeer.Os.{Bytes}
use puppypeer.Rule.{I64}
use puppypeer.Inventory.{CpuOf, cpu_as, as_u32}
use puppypeer.Inventory.Keyed.{lookup, lookup-retain}
use puppypeer.Inventory.Save.{Name, name_eq, cpus, is_current, is_of, remove_stale_cpus}
use puppypeer.Inventory.Fetch.{is_id, decode_all, fetched, fetch_cpus}

-- The row of a key is not one that goes.
abbrev pub kept_names : Bytes → List String → CpuOf I64 → Bool
kept_names node_id names c = not (is_of node_id c && not (is_current names c.name))

kept_key :
    (node_id : Bytes) (names : List String) (c : CpuOf I64) (k : Name)
    → name_eq (c.node_id, c.name) k ≡ true
    → kept_names node_id names c ≡ not (text_eq k.0 node_id && not (is_current names k.1))
kept_key node_id names c k e =
    ap (λ x. not (text_eq x node_id && not (is_current names c.name)))
      ((text_eq_iff c.node_id k.0).0 (ground (arith, e)))
    ∙ ap (λ x. not (text_eq k.0 node_id && not (is_current names x)))
        ((eq_iff c.name k.1).0 (ground (arith, e)))

-- Of the node's processors the current ones stay, and of other nodes all.
pub remove_stale_cpus_lem :
    (node_id : Bytes) (names : List String) (k : Name) (rows : List (CpuOf I64))
    → lookup cpus k (remove_stale_cpus none node_id names rows).1 ≡ (
        if not (text_eq k.0 node_id && not (is_current names k.1))
        then lookup cpus k rows
        else none)
unfolding remove_stale_cpus
remove_stale_cpus_lem node_id [] k rows =
    lookup-retain cpus (λ c. not (is_of node_id c)) k _
      (λ c e.
        ap (λ x. not (text_eq x node_id)) ((text_eq_iff c.node_id k.0).0 (ground (arith, e)))
        ∙ ground arith)
      rows
remove_stale_cpus_lem node_id (n ∷ ns) k rows =
    lookup-retain cpus (kept_names node_id (n ∷ ns)) k _ (λ c e. kept_key node_id (n ∷ ns) c k e)
      rows

-- The first processor of a name.
abbrev pub cpu_named : {W : Type 0} → String → List (CpuOf W) → Option (CpuOf W)
cpu_named name [] = none
cpu_named name (c ∷ cs) =
    let rest = cpu_named name cs in if str_eq c.name name then some c else rest

abbrev pub shown : Option (CpuOf I64) → Option (CpuOf ℕ)
shown none = none
shown (some c) = some (cpu_as as_u32 c)

named_lem :
    (node_id : Bytes) (name : String) (rows : List (CpuOf I64))
    → cpu_named name (map (cpu_as as_u32) (retain (λ c. text_eq c.node_id node_id) rows))
      ≡ shown (lookup cpus (node_id, name) rows)
named_lem node_id name [] = refl
named_lem node_id name (c ∷ cs) =
    let ih = named_lem node_id name cs in
    elim (Bool-cases (text_eq c.node_id node_id)) [
      | inl e ↦ elim (Bool-cases (str_eq c.name name)) [
        | inl s ↦ ground (arith, e, s)
        | inr s ↦ ground (arith, e, s, ih)
      ]
      | inr e ↦ ground (arith, e, ih)
    ]

pub decoded :
    {Row A : Type 0} (id_of : Row → Bytes) (decode : Row → A) (rows : List Row)
    → All (λ r. is_id (id_of r) ≡ true) rows
    → decode_all id_of decode rows ≡ some (map decode rows)
decoded id_of decode [] h = refl
decoded id_of decode (r ∷ rs) h = rw (h.0, decoded id_of decode rs h.1) refl

-- The query shows the rows of the node, and each by its name.
pub fetch_cpus_lem :
    (node_id : Bytes) (rows : List (CpuOf I64))
    → All (λ c. is_id c.node_id ≡ true) rows
    → (l : List (CpuOf ℕ)) × (fetch_cpus none node_id rows ≡ some (ok l))
      × ((name : String) → cpu_named name l ≡ shown (lookup cpus (node_id, name) rows))
unfolding fetch_cpus
fetch_cpus_lem node_id rows h =
    let own = retain (λ c. text_eq c.node_id node_id) rows in
    (
      map (cpu_as as_u32) own,
      ap fetched (
          decoded (λ c. c.node_id) (cpu_as as_u32) own
            (All-retain (λ c. is_id c.node_id ≡ true) (λ c. text_eq c.node_id node_id) rows h)),
      λ name. named_lem node_id name rows,
    )
