-- ===== src/Inventory/Keyed.antt =====
-- A table with a primary key, and `INSERT ... ON CONFLICT (key) DO UPDATE` on it, as core/src/db.rs uses
-- it for every table of hardware.
use puppypeer.Prelude.{
  ◌≡◌, ◌≢◌, ◌↔◌, refl, sym, ap, ◌∙◌, inl, inr, Bool, true, false, Option, none, some, List, [], ◌∷◌,
  All, Distinct, retain, if◌then◌else◌, Bool-cases, arith,
}

-- The key of a row, and what an update leaves of a row and the row that was to be inserted.
pub record Keyed (Row : Type 0) : Type 1 where
  pub Key : Type 0
  pub key : Row → Key
  pub key_eq : Key → Key → Bool
  pub on_conflict : Row → Row → Row

pub record IsKeyed {Row : Type 0} (table : Keyed Row) : Type 0 where
  pub key_eq_iff : (a b : table.Key) → (table.key_eq a b ≡ true) ↔ (a ≡ b)
  pub on_conflict-key : (old new : Row) → table.key (table.on_conflict old new) ≡ table.key old

module _ {Row : Type 0} (table : Keyed Row) where
  open table use {Key, key, key_eq, on_conflict}

  unfoldable pub upsert : Row → List Row → List Row
  upsert new [] = new ∷ []
  upsert new (r ∷ rs) =
      let rest = upsert new rs in
      if key_eq (key r) (key new) then on_conflict r new ∷ rs else r ∷ rest

  abbrev pub lookup : Key → List Row → Option Row
  lookup k [] = none
  lookup k (r ∷ rs) = let rest = lookup k rs in if key_eq (key r) k then some r else rest

  -- What the row of a key becomes.
  abbrev pub merged : Option Row → Row → Row
  merged none new = new
  merged (some old) new = on_conflict old new

  -- A filter that decides alike for all rows of a key.
  pub lookup-retain :
      (p : Row → Bool) (k : Key) (b : Bool)
      → ((r : Row) → key_eq (key r) k ≡ true → p r ≡ b)
      → (rows : List Row) → lookup k (retain p rows) ≡ (if b then lookup k rows else none)
  lookup-retain p k b f [] = ground arith
  lookup-retain p k b f (r ∷ rs) =
      let ih = lookup-retain p k b f rs in
      elim (Bool-cases (key_eq (key r) k)) [
        | inl e ↦ elim (Bool-cases (p r)) [
          | inl s ↦ ground (arith, ih, e, s, f r e)
          | inr s ↦ ground (arith, ih, e, s, f r e)
        ]
        | inr e ↦ elim (Bool-cases (p r)) [
          | inl s ↦ ground (arith, ih, e, s)
          | inr s ↦ ground (arith, ih, e, s)
        ]
      ]

  abbrev key_or : Row → Option Row → Key
  key_or r none = key r
  key_or r (some c) = key c

  module _ (laws : IsKeyed table) where
    key_eq_left : (a b k : Key) → key_eq a b ≡ true → key_eq a k ≡ key_eq b k
    key_eq_left a b k e = ap (λ x. key_eq x k) ((laws.key_eq_iff a b).0 e)

    key_eq_right : (k a b : Key) → key_eq a b ≡ true → key_eq k a ≡ key_eq k b
    key_eq_right k a b e = ap (λ x. key_eq k x) ((laws.key_eq_iff a b).0 e)

    -- The row of the key is what the upsert makes of the old and the new one, and all else is as before.
    pub lookup-upsert :
        (k : Key) (new : Row) (rows : List Row)
        → lookup k (upsert new rows) ≡ (
            if key_eq (key new) k then some (merged (lookup (key new) rows) new) else lookup k rows)
    unfolding upsert
    lookup-upsert k new [] = refl
    lookup-upsert k new (r ∷ rs) =
        let ih = lookup-upsert k new rs in
        elim (Bool-cases (key_eq (key r) (key new))) [
          | inl e ↦ ground (
            arith,
            e,
            key_eq_left (key r) (key new) k e,
            ap (λ x. key_eq x k) (laws.on_conflict-key r new),
          )
          | inr e ↦ elim (Bool-cases (key_eq (key new) k)) [
            | inl s ↦ ground (arith, e, s, ih, key_eq_right (key r) (key new) k s)
            | inr s ↦ ground (arith, e, s, ih)
          ]
        ]

    -- A row that is looked up has the key.
    pub lookup_key : (k : Key) (rows : List Row) (c : Row) → lookup k rows ≡ some c → key c ≡ k
    lookup_key k [] c e = absurd (ground (arith, e))
    lookup_key k (r ∷ rs) c e = elim (Bool-cases (key_eq (key r) k)) [
      | inl m ↦
          let q : ◌≡◌ {A = Option Row} (some r) (some c) = ground (arith, m, e) in
          ap (key_or r) (sym q) ∙ (laws.key_eq_iff (key r) k).0 m
      | inr m ↦ lookup_key k rs c (ground (arith, m, e))
    ]

    differs : (a b : Key) → key_eq a b ≡ false → a ≢ b
    differs a b e q = ground (arith, e, (laws.key_eq_iff a b).1 q)

    pub All-upsert :
        (P : Key → Type 0) (new : Row) (rows : List Row)
        → P (key new)
        → All (λ r. P (key r)) rows
        → All (λ r. P (key r)) (upsert new rows)
    unfolding upsert
    All-upsert P new [] p h = (p, tt)
    All-upsert P new (r ∷ rs) p h = elim (Bool-cases (key_eq (key r) (key new))) [
      | inl e ↦ rw e (rw (laws.on_conflict-key r new) h.0, h.1)
      | inr e ↦ rw e (h.0, All-upsert P new rs p h.1)
    ]

    -- One row for a key.
    pub Distinct-upsert :
        (new : Row) (rows : List Row) → Distinct key rows → Distinct key (upsert new rows)
    unfolding upsert
    Distinct-upsert new [] d = (tt, tt)
    Distinct-upsert new (r ∷ rs) d = elim (Bool-cases (key_eq (key r) (key new))) [
      | inl e ↦ rw e (rw (laws.on_conflict-key r new) d.0, d.1)
      | inr e ↦ rw e (
        All-upsert (λ k. k ≢ key r) new rs (λ q. differs (key r) (key new) e (sym q)) d.0,
        Distinct-upsert new rs d.1,
      )
    ]
