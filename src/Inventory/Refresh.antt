-- ===== src/Inventory/Refresh.antt =====
-- After `save_sysinfo` of cli/src/sysinfo.rs has refreshed the processors, `fetch_cpus` of
-- core/src/db.rs shows those that the node has now.
use puppypeer.Prelude.{
  ℕ, ◌≡◌, refl, sym, ap, ◌∙◌, inl, inr, String, str_eq, eq_iff, true, false, not, ◌&&◌, none, some,
  List, [], ◌∷◌, All, All-imp, All-retain, Text, text_eq, text_eq_refl, text_eq_iff, if◌then◌else◌,
  Bool-cases, arith, ok,
}
use puppypeer.Os.{Bytes}
use puppypeer.Rule.{I64}
use puppypeer.Inventory.{CpuOf}
use puppypeer.Inventory.Keyed.{lookup, lookup_key, All-upsert}
use puppypeer.Inventory.Save.{Name, name_eq, cpus, cpus-IsKeyed, is_current, remove_stale_cpus}
use puppypeer.Inventory.Fetch.{is_id, fetch_cpus}
use puppypeer.Inventory.Sysinfo.{◌>>=◌, unwrap, CpuReading, names_of, refresh_cpus}
use puppypeer.Inventory.Stale.{remove_stale_cpus_lem, cpu_named, shown, fetch_cpus_lem}
use puppypeer.Inventory.Stored.{
  saved_well, DistinctNames, as_read, stored, save_cpus_lem, stored_other, row_of, All-stored,
  shown_row,
}

-- A name that no reading has, and one that a reading has.
not_current :
    (name : String) (rs : List CpuReading)
    → All (λ r. str_eq r.name name ≡ false) rs
    → is_current (names_of (saved_well rs)) name ≡ false
not_current name [] h = refl
not_current name (r ∷ rs) h = ground (arith, h.0, not_current name rs h.1)

All-current :
    (rs : List CpuReading) → All (λ r. is_current (names_of (saved_well rs)) r.name ≡ true) rs
All-current [] = tt
All-current (r ∷ rs) = (
  ground (arith, (eq_iff r.name r.name).1 refl),
  All-imp _ _ (λ q h. ground (arith, h)) rs (All-current rs),
)

IsId-stored :
    (node_id : Bytes) (rs : List CpuReading) (rows : List (CpuOf I64))
    → is_id node_id ≡ true
    → All (λ c. is_id c.node_id ≡ true) rows
    → All (λ c. is_id c.node_id ≡ true) (stored node_id rs rows)
IsId-stored node_id [] rows i h = h
IsId-stored node_id (r ∷ rs) rows i h =
    IsId-stored node_id rs _ i (All-upsert cpus cpus-IsKeyed (λ k. is_id k.0 ≡ true) _ rows i h)

IsId-remove_stale_cpus :
    (node_id : Bytes) (names : List String) (rows : List (CpuOf I64))
    → All (λ c. is_id c.node_id ≡ true) rows
    → All (λ c. is_id c.node_id ≡ true) (remove_stale_cpus none node_id names rows).1
unfolding remove_stale_cpus
IsId-remove_stale_cpus node_id [] rows h = All-retain (λ c. is_id c.node_id ≡ true) _ rows h
IsId-remove_stale_cpus node_id (n ∷ ns) rows h = All-retain (λ c. is_id c.node_id ≡ true) _ rows h

removes_well :
    (node_id : Bytes) (names : List String) (rows : List (CpuOf I64))
    → unwrap (remove_stale_cpus none node_id names rows)
      ≡ some (remove_stale_cpus none node_id names rows).1
unfolding remove_stale_cpus
removes_well node_id [] rows = refl
removes_well node_id (n ∷ ns) rows = refl

text_unequal_sym : (a b : Text) → text_eq a b ≡ false → text_eq b a ≡ false
text_unequal_sym a b h = elim (Bool-cases (text_eq b a)) [
  | inl e ↦ absurd (ground (arith, h, (text_eq_iff a b).1 (sym ((text_eq_iff b a).0 e))))
  | inr e ↦ e
]

module _ (node_id : Bytes) (rs : List CpuReading) (rows : List (CpuOf I64)) where
  -- The rows after the refresh.
  abbrev after : List (CpuOf I64)
  after = (remove_stale_cpus none node_id (names_of (saved_well rs)) (stored node_id rs rows)).1

  refresh_lem : refresh_cpus node_id none (saved_well rs) rows ≡ some after
  unfolding refresh_cpus
  refresh_lem =
      ap (λ o. o >>= (λ s. unwrap (remove_stale_cpus none node_id (names_of (saved_well rs)) s)))
        (save_cpus_lem node_id rs rows)
      ∙ removes_well node_id (names_of (saved_well rs)) (stored node_id rs rows)

  after_lem :
      (k : Name)
      → lookup cpus k after ≡ (
          if not (text_eq k.0 node_id && not (is_current (names_of (saved_well rs)) k.1))
          then lookup cpus k (stored node_id rs rows)
          else none)
  after_lem k = remove_stale_cpus_lem node_id (names_of (saved_well rs)) k (stored node_id rs rows)

  current_lem :
      (l : List (CpuOf ℕ))
      → ((name : String) → cpu_named name l ≡ shown (lookup cpus (node_id, name) after))
      → (qs : List CpuReading) → All (λ r. is_current (names_of (saved_well rs)) r.name ≡ true) qs
      → All
          (λ r.
            lookup cpus (node_id, r.name) (stored node_id rs rows) ≡ some (row_of node_id r rows))
          qs
      → All
          (λ r. cpu_named r.name l ≡ some (as_read node_id r (lookup cpus (node_id, r.name) rows)))
          qs
  current_lem l named [] c h = tt
  current_lem l named (q ∷ qs) c h =
      let here : lookup cpus (node_id, q.name) after ≡ some (row_of node_id q rows) =
        after_lem (node_id, q.name) ∙ ground (arith, c.0, h.0) in
      (
        named q.name
            ∙ ap shown here
            ∙ shown_row node_id q (lookup cpus (node_id, q.name) rows)
                (λ c' e. lookup_key cpus cpus-IsKeyed (node_id, q.name) rows c' e),
        current_lem l named qs c.1 h.1,
      )

  gone_lem :
      (name : String)
      → All (λ r. str_eq r.name name ≡ false) rs
      → lookup cpus (node_id, name) after ≡ none
  gone_lem name h =
      after_lem (node_id, name) ∙ ground (arith, text_eq_refl node_id, not_current name rs h)

  other_node :
      (k : Name) (qs : List CpuReading)
      → text_eq k.0 node_id ≡ false
      → All (λ r. name_eq (node_id, r.name) k ≡ false) qs
  other_node k [] e = tt
  other_node k (q ∷ qs) e = (ground (arith, text_unequal_sym k.0 node_id e), other_node k qs e)

  others_lem : (k : Name) → text_eq k.0 node_id ≡ false → lookup cpus k after ≡ lookup cpus k rows
  others_lem k e =
      after_lem k ∙ ground (arith, e, stored_other node_id rs k rows (other_node k rs e))

-- If every statement succeeds, ids have 16 bytes and no two readings have one name: after the refresh the
-- query of the node's processors shows each processor that was read, with the usage that was read,
-- the frequency as a `u32`, the moment of the reading as the time of its change, and as that of its
-- creation the one of its first row if it had one; it shows no other name, and the rows of other
-- nodes are as before.
pub refresh_cpus_lem :
    (node_id : Bytes) (rs : List CpuReading) (rows : List (CpuOf I64))
    → is_id node_id ≡ true
    → All (λ c. is_id c.node_id ≡ true) rows
    → DistinctNames rs
    → (after : List (CpuOf I64)) × (refresh_cpus node_id none (saved_well rs) rows ≡ some after)
      × (l : List (CpuOf ℕ)) × (fetch_cpus none node_id after ≡ some (ok l))
      × All
          (λ r. cpu_named r.name l ≡ some (as_read node_id r (lookup cpus (node_id, r.name) rows)))
          rs
      × ((name : String) → All (λ r. str_eq r.name name ≡ false) rs → cpu_named name l ≡ none)
      × ((k : Name) → text_eq k.0 node_id ≡ false → lookup cpus k after ≡ lookup cpus k rows)
refresh_cpus_lem node_id rs rows i h d =
    let (l, fetches, named) = fetch_cpus_lem node_id (after node_id rs rows) (
      IsId-remove_stale_cpus node_id (names_of (saved_well rs)) (stored node_id rs rows)
        (IsId-stored node_id rs rows i h)) in
    (
      after node_id rs rows,
      refresh_lem node_id rs rows,
      l,
      fetches,
      current_lem node_id rs rows l named rs (All-current rs) (All-stored node_id rs rows d),
      λ name away. named name ∙ ap shown (gone_lem node_id rs rows name away),
      others_lem node_id rs rows,
    )
