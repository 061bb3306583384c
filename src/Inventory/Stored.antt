-- ===== src/Inventory/Stored.antt =====
-- The rows of processors that `save_sysinfo` of cli/src/sysinfo.rs has saved.
use puppypeer.Prelude.{
  ℕ, ◌%◌, ◌^◌, ◌≡◌, refl, sym, ap, ◌∙◌, inl, inr, String, str_eq, eq_iff, true, false, Option, none,
  some, List, [], ◌∷◌, All, map, text_eq_refl, if◌then◌else◌, Bool-cases, arith,
}
use puppypeer.Os.{Bytes}
use puppypeer.Rule.{I64}
use puppypeer.Inventory.{CpuOf, cpu_as, as_i64}
use puppypeer.Inventory.Numbers.{as_u32-as_i64}
use puppypeer.Inventory.Keyed.{upsert, lookup, merged, lookup-upsert}
use puppypeer.Inventory.Save.{Name, name_eq, cpus, cpus-IsKeyed, save_cpu}
use puppypeer.Inventory.Sysinfo.{CpuReading, cpu_of, save_cpus}
use puppypeer.Inventory.Stale.{shown}

-- The readings as they are passed on where every statement succeeds.
abbrev pub saved_well : List CpuReading → List (Option String × CpuReading)
saved_well rs = map (λ r. (none, r)) rs

-- No two readings have one name.
abbrev pub DistinctNames : List CpuReading → Type 0
DistinctNames [] = Unit
DistinctNames (r ∷ rs) = All (λ q. str_eq r.name q.name ≡ false) rs × DistinctNames rs

-- When a processor was first seen.
abbrev pub created : CpuReading → Option (CpuOf I64) → ℕ
created r none = r.created_at
created r (some c) = c.created_at

pub unequal_sym : (a b : String) → str_eq a b ≡ false → str_eq b a ≡ false
unequal_sym a b h = elim (Bool-cases (str_eq b a)) [
  | inl e ↦ absurd (ground (arith, h, (eq_iff a b).1 (sym ((eq_iff b a).0 e))))
  | inr e ↦ e
]

module _ (node_id : Bytes) where
  -- A processor as it is read, with the time at which it was first seen.
  abbrev pub as_read : CpuReading → Option (CpuOf I64) → CpuOf ℕ
  as_read r old = record {
    node_id = node_id;
    name = r.name;
    usage = r.usage;
    frequency = r.frequency % 2 ^ 32;
    created_at = created r old;
    modified_at = r.modified_at;
  }

  -- The rows after the readings were saved.
  abbrev pub stored : List CpuReading → List (CpuOf I64) → List (CpuOf I64)
  stored [] rows = rows
  stored (r ∷ rs) rows = stored rs (upsert cpus (cpu_as as_i64 (cpu_of node_id r)) rows)

  pub save_cpus_lem :
      (rs : List CpuReading) (rows : List (CpuOf I64))
      → save_cpus node_id (saved_well rs) rows ≡ some (stored rs rows)
  unfolding save_cpus save_cpu
  save_cpus_lem [] rows = refl
  save_cpus_lem (r ∷ rs) rows =
      save_cpus_lem rs (upsert cpus (cpu_as as_i64 (cpu_of node_id r)) rows)

  -- A key of another node or of another name has the row that it had.
  pub stored_other :
      (rs : List CpuReading) (k : Name) (rows : List (CpuOf I64))
      → All (λ r. name_eq (node_id, r.name) k ≡ false) rs
      → lookup cpus k (stored rs rows) ≡ lookup cpus k rows
  stored_other [] k rows h = refl
  stored_other (r ∷ rs) k rows h =
      stored_other rs k _ h.1
      ∙ lookup-upsert cpus cpus-IsKeyed k (cpu_as as_i64 (cpu_of node_id r)) rows
      ∙ ground (arith, h.0)

  -- The row of a reading.
  abbrev pub row_of : CpuReading → List (CpuOf I64) → CpuOf I64
  row_of r rows =
      merged cpus (lookup cpus (node_id, r.name) rows) (cpu_as as_i64 (cpu_of node_id r))

  same_node :
      (a : String) (rs : List CpuReading)
      → All (λ q. str_eq a q.name ≡ false) rs
      → All (λ q. name_eq (node_id, q.name) (node_id, a) ≡ false) rs
  same_node a [] h = tt
  same_node a (q ∷ qs) h = (ground (arith, unequal_sym a q.name h.0), same_node a qs h.1)

  saved_row :
      (r : CpuReading) (k : Name) (rows : List (CpuOf I64))
      → lookup cpus k (upsert cpus (cpu_as as_i64 (cpu_of node_id r)) rows)
        ≡ (if name_eq (node_id, r.name) k then some (row_of r rows) else lookup cpus k rows)
  saved_row r k rows = lookup-upsert cpus cpus-IsKeyed k (cpu_as as_i64 (cpu_of node_id r)) rows

  self_name : (a : String) → name_eq (node_id, a) (node_id, a) ≡ true
  self_name a = ground (arith, text_eq_refl node_id, (eq_iff a a).1 refl)

  Stored-before :
      (r : CpuReading) (rows after : List (CpuOf I64)) (qs : List CpuReading)
      → All (λ q. str_eq r.name q.name ≡ false) qs
      → All
          (λ q.
            lookup cpus (node_id, q.name) after
            ≡ some (row_of q (upsert cpus (cpu_as as_i64 (cpu_of node_id r)) rows)))
          qs
      → All (λ q. lookup cpus (node_id, q.name) after ≡ some (row_of q rows)) qs
  Stored-before r rows after [] d h = tt
  Stored-before r rows after (q ∷ qs) d h =
      let rows' = upsert cpus (cpu_as as_i64 (cpu_of node_id r)) rows in
      let same : lookup cpus (node_id, q.name) rows' ≡ lookup cpus (node_id, q.name) rows =
        saved_row r (node_id, q.name) rows ∙ ground (arith, d.0) in
      (
        h.0 ∙ ap (λ o. some (merged cpus o (cpu_as as_i64 (cpu_of node_id q)))) same,
        Stored-before r rows after qs d.1 h.1,
      )

  pub All-stored :
      (rs : List CpuReading) (rows : List (CpuOf I64))
      → DistinctNames rs
      → All (λ r. lookup cpus (node_id, r.name) (stored rs rows) ≡ some (row_of r rows)) rs
  All-stored [] rows d = tt
  All-stored (r ∷ rs) rows d =
      let rows' = upsert cpus (cpu_as as_i64 (cpu_of node_id r)) rows in
      (
        stored_other rs (node_id, r.name) rows' (same_node r.name rs d.0)
            ∙ saved_row r (node_id, r.name) rows
            ∙ ground (arith, self_name r.name),
        Stored-before r rows (stored rs rows') rs d.0 (All-stored rs rows' d.1),
      )

  pub shown_row :
      (r : CpuReading) (o : Option (CpuOf I64))
      → ((c : CpuOf I64) → o ≡ some c → ◌≡◌ {A = Name} (c.node_id, c.name) (node_id, r.name))
      → shown (some (merged cpus o (cpu_as as_i64 (cpu_of node_id r)))) ≡ some (as_read r o)
  shown_row r none key =
      ap (λ f. some (record (as_read r none) { frequency = f }))
        (as_u32-as_i64 (r.frequency % 2 ^ 32) (omega arith))
  shown_row r (some c) key =
      ap
        (λ f.
          some (record (as_read r (some c)) { node_id = c.node_id; name = c.name; frequency = f }))
        (as_u32-as_i64 (r.frequency % 2 ^ 32) (omega arith))
      ∙ ap (λ k. some (record (as_read r (some c)) { node_id = k.0; name = k.1 })) (key c refl)
