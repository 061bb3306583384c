-- ===== src/Shell/Rows.antt =====
-- The rows of cli/src/shell.rs as a map by ids, before and after they are sorted.
use puppypeer.Prelude.{
  ◌≡◌, ◌≢◌, refl, sym, ap, ◌∙◌, true, false, Option, none, some, List, [], ◌∷◌, All, Text, text_eq,
  text_eq_iff, Bool-cases, inl, inr, arith, if◌then◌else◌, Distinct,
}
use puppypeer.Node.Entries.{text_le}
use puppypeer.Shell.Peers.{PeerRow, upsert, insert_row, sort_rows}

-- The row of an id.
abbrev pub row : Text → List PeerRow → Option PeerRow
row t [] = none
row t (x ∷ xs) = if text_eq x.id t then some x else row t xs

abbrev pub status_of : Option PeerRow → Option Text
status_of none = none
status_of (some r) = some r.status

abbrev pub updated : (PeerRow → PeerRow) → PeerRow → Option PeerRow → PeerRow
updated f r none = r
updated f r (some x) = f x

abbrev pub KeepsId : (PeerRow → PeerRow) → Type 0
KeepsId f = (x : PeerRow) → (f x).id ≡ x.id

pub same_test : (a b c : Text) → text_eq a b ≡ true → text_eq c b ≡ text_eq c a
same_test a b c h = ap (text_eq c) (sym ((text_eq_iff a b).0 h))

pub differ : (a b : Text) → a ≢ b → text_eq a b ≡ false
differ a b ne = elim (Bool-cases (text_eq a b)) [
  | inl e ↦ absurd (ne ((text_eq_iff a b).0 e))
  | inr e ↦ e
]

pub row-upsert :
    (f : PeerRow → PeerRow) (r : PeerRow) (t : Text) (xs : List PeerRow)
    → KeepsId f
    → row t (upsert f r xs)
      ≡ (if text_eq r.id t then some (updated f r (row r.id xs)) else row t xs)
unfolding upsert
row-upsert f r t [] k = refl
row-upsert f r t (x ∷ xs) k = elim (Bool-cases (text_eq x.id r.id)) [
  | inl e ↦
      ground
        (arith, ap (λ u. text_eq u t) (k x), ap (λ u. text_eq u t) ((text_eq_iff x.id r.id).0 e))
  | inr e ↦ elim (Bool-cases (text_eq r.id t)) [
    | inl m ↦ ground (arith, same_test r.id t x.id m, row-upsert f r t xs k)
    | inr m ↦ ground (arith, row-upsert f r t xs k)
  ]
]

-- Rows have distinct ids.
abbrev pub IsKeyed : List PeerRow → Type 0
IsKeyed xs = Distinct (λ x. x.id) xs

row-insert_row :
    (r : PeerRow) (t : Text) (xs : List PeerRow)
    → All (λ x. x.id ≢ r.id) xs
    → row t (insert_row r xs) ≡ (if text_eq r.id t then some r else row t xs)
unfolding insert_row
row-insert_row r t [] h = refl
row-insert_row r t (x ∷ xs) h = elim (Bool-cases (text_eq r.id t)) [
  | inl m ↦ ground (arith, same_test r.id t x.id m, differ x.id r.id h.0, row-insert_row r t xs h.1)
  | inr m ↦ ground (arith, row-insert_row r t xs h.1)
]

-- What holds of a row and of all the others holds of all after an insertion.
All-insert_row :
    (P : PeerRow → Type 0) (r : PeerRow) (xs : List PeerRow)
    → P r
    → All P xs
    → All P (insert_row r xs)
unfolding insert_row
All-insert_row P r [] p h = (p, tt)
All-insert_row P r (x ∷ xs) p h = ground (arith, All-insert_row P r xs p h.1)

IsKeyed-insert_row :
    (r : PeerRow) (xs : List PeerRow)
    → All (λ x. x.id ≢ r.id) xs
    → IsKeyed xs
    → IsKeyed (insert_row r xs)
unfolding insert_row
IsKeyed-insert_row r [] h d = (tt, tt)
IsKeyed-insert_row r (x ∷ xs) h d = elim (Bool-cases (text_le r.id x.id)) [
  | inl e ↦ rw e (h, d)
  | inr e ↦ rw e (
    All-insert_row (λ y. y.id ≢ x.id) r xs (λ q. h.0 (sym q)) d.0,
    IsKeyed-insert_row r xs h.1 d.1,
  )
]

All-sort_rows : (P : PeerRow → Type 0) (xs : List PeerRow) → All P xs → All P (sort_rows xs)
unfolding sort_rows
All-sort_rows P [] h = tt
All-sort_rows P (x ∷ xs) h = All-insert_row P x (sort_rows xs) h.0 (All-sort_rows P xs h.1)

pub IsKeyed-sort_rows : (xs : List PeerRow) → IsKeyed xs → IsKeyed (sort_rows xs)
unfolding sort_rows
IsKeyed-sort_rows [] d = tt
IsKeyed-sort_rows (x ∷ xs) d =
    IsKeyed-insert_row x (sort_rows xs) (All-sort_rows _ xs d.0) (IsKeyed-sort_rows xs d.1)

pub row-sort_rows : (t : Text) (xs : List PeerRow) → IsKeyed xs → row t (sort_rows xs) ≡ row t xs
unfolding sort_rows
row-sort_rows t [] d = refl
row-sort_rows t (x ∷ xs) d =
    ground
      (arith, row-insert_row x t (sort_rows xs) (All-sort_rows _ xs d.0), row-sort_rows t xs d.1)

All-upsert :
    (key : Text) (f : PeerRow → PeerRow) (r : PeerRow) (xs : List PeerRow)
    → KeepsId f
    → r.id ≢ key
    → All (λ x. x.id ≢ key) xs
    → All (λ x. x.id ≢ key) (upsert f r xs)
unfolding upsert
All-upsert key f r [] k n h = (n, tt)
All-upsert key f r (x ∷ xs) k n h = elim (Bool-cases (text_eq x.id r.id)) [
  | inl e ↦ rw e ((λ q. h.0 (sym (k x) ∙ q)), h.1)
  | inr e ↦ rw e (h.0, All-upsert key f r xs k n h.1)
]

pub IsKeyed-upsert :
    (f : PeerRow → PeerRow) (r : PeerRow) (xs : List PeerRow)
    → KeepsId f
    → IsKeyed xs
    → IsKeyed (upsert f r xs)
unfolding upsert
IsKeyed-upsert f r [] k d = (tt, tt)
IsKeyed-upsert f r (x ∷ xs) k d = elim (Bool-cases (text_eq x.id r.id)) [
  | inl e ↦ rw e (rw (k x) d.0, d.1)
  | inr e ↦ rw e (
    All-upsert x.id f r xs k (λ q. ground (arith, (text_eq_iff x.id r.id).1 (sym q))) d.0,
    IsKeyed-upsert f r xs k d.1,
  )
]
