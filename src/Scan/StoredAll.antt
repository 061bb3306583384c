-- ===== src/Scan/StoredAll.antt =====
-- The whole loop over the scanned files in core/src/scan.rs.
use puppypeer.Prelude.{
  ◌≡◌, refl, sym, ◌∙◌, inl, inr, Bool, true, false, Option, none, some, List, [], ◌∷◌, All, Text,
  text_eq, text_eq_iff, if◌then◌else◌, Bool-cases, arith,
}
use puppypeer.Scan.{NodeId, FileLocation, FileRow, location_eq, find_location}
use puppypeer.Scan.Store.{Progress, ScanResult, store_file, store_files}
use puppypeer.Scan.Locate.{locate, same_key, locate-snoc_other}
use puppypeer.Scan.Stored.{
  Yields, Yields-imp, bind-Yields, SameFile, location_eq-SameFile, SameFile-euclid, Agrees, Holds,
  KeepsOthers, row_of, update-Holds, update-KeepsOthers, insert_lem, insert-Holds,
}

-- Each path stands before others, and is that of its location.
abbrev pub IsMap : List (Text × FileLocation) → Type 0
IsMap [] = Unit
IsMap (x ∷ xs) = (x.1.path ≡ x.0) × All (λ y. text_eq x.0 y.0 ≡ false) xs × IsMap xs

unequal_sym : (a b : Text) → text_eq a b ≡ false → text_eq b a ≡ false
unequal_sym a b h = elim (Bool-cases (text_eq b a)) [
  | inl e ↦ absurd (ground (arith, h, (text_eq_iff a b).1 (sym ((text_eq_iff b a).0 e))))
  | inr e ↦ e
]

module _ (node : NodeId) where
  -- The file is stored, and nothing else is touched.
  abbrev Stores : FileLocation → List FileRow → Progress → Type 0
  Stores l rows pr = Holds node l.path l pr.0 × KeepsOthers node l.path rows pr.0

  Stores-if :
      (l : FileLocation) (rows : List FileRow) (b : Bool) (x y : Progress)
      → (b ≡ true → Stores l rows x)
      → Stores l rows y
      → Yields (Stores l rows) (if b then some x else some y)
  Stores-if l rows true x y hx hy = hx refl
  Stores-if l rows false x y hx hy = hy

  store_file-Yields :
      (o : Option FileLocation) (l : FileLocation) (rows : List FileRow) (c : ScanResult)
      → Agrees node l.path o rows
      → Yields (Stores l rows) (store_file node o l (rows, c))
  store_file-Yields none l rows c h =
      rw (insert_lem node l rows h)
        (insert-Holds node l rows h, λ n p s. locate-snoc_other n p (row_of node l) rows s)
  store_file-Yields (some prev) l rows c h =
      Stores-if l rows (location_eq l prev) (rows, c) _
        (λ e. (
          Yields-imp (λ k. SameFile k prev) (λ k. SameFile k l) (locate node l.path rows)
              (λ k s. SameFile-euclid k l prev s (location_eq-SameFile l prev e)) h,
          λ n p s. refl,
        ))
        (update-Holds node prev l rows h, update-KeepsOthers node l rows)

  Agrees-kept :
      (q p : Text) (o : Option FileLocation) (rows rows' : List FileRow)
      → KeepsOthers node q rows rows'
      → text_eq q p ≡ false
      → Agrees node p o rows
      → Agrees node p o rows'
  Agrees-kept q p none rows rows' k e h = rw (k node p (ground (arith, e))) h
  Agrees-kept q p (some prev) rows rows' k e h = rw (k node p (ground (arith, e))) h

  AllAgree-kept :
      (existing : List FileLocation) (q : Text) (xs : List (Text × FileLocation))
      (rows rows' : List FileRow)
      → KeepsOthers node q rows rows'
      → All (λ y. text_eq q y.0 ≡ false) xs
      → All (λ y. Agrees node y.0 (find_location y.0 existing) rows) xs
      → All (λ y. Agrees node y.0 (find_location y.0 existing) rows') xs
  AllAgree-kept existing q [] rows rows' k d h = tt
  AllAgree-kept existing q (y ∷ ys) rows rows' k d h = (
    Agrees-kept q y.0 (find_location y.0 existing) rows rows' k d.0 h.0,
    AllAgree-kept existing q ys rows rows' k d.1 h.1,
  )

  -- Keys that are not among those of the list.
  abbrev pub IsApart : List (Text × FileLocation) → NodeId → Text → Type 0
  IsApart xs n p = All (λ y. same_key node y.0 n p ≡ false) xs

  apart :
      (q : Text) (xs : List (Text × FileLocation))
      → All (λ y. text_eq q y.0 ≡ false) xs
      → IsApart xs node q
  apart q [] d = tt
  apart q (y ∷ ys) d = (ground (arith, d.0, unequal_sym q y.0 d.0), apart q ys d.1)

  abbrev AllStored : List (Text × FileLocation) → List FileRow → Progress → Type 0
  AllStored xs rows pr =
      All (λ y. Holds node y.0 y.1 pr.0) xs
      × ((n : NodeId) (p : Text) → IsApart xs n p → locate n p pr.0 ≡ locate n p rows)

  pub store_files-Yields :
      (existing : List FileLocation) (xs : List (Text × FileLocation)) (rows : List FileRow)
      (c : ScanResult)
      → IsMap xs
      → All (λ y. Agrees node y.0 (find_location y.0 existing) rows) xs
      → Yields
          (λ pr.
            All (λ y. Holds node y.0 y.1 pr.0) xs
            × ((n : NodeId) (p : Text) → IsApart xs n p → locate n p pr.0 ≡ locate n p rows))
          (store_files node existing xs (rows, c))
  unfolding store_files
  store_files-Yields existing [] rows c m h = (tt, λ n p d. refl)
  store_files-Yields existing (x ∷ xs) rows c m h =
      bind-Yields (Stores x.1 rows) (AllStored (x ∷ xs) rows)
        (store_file node (find_location x.0 existing) x.1 (rows, c)) _
        (store_file-Yields (find_location x.0 existing) x.1 rows c (rw m.0 h.0))
        (λ pr s.
          Yields-imp (AllStored xs pr.0) (AllStored (x ∷ xs) rows) (store_files node existing xs pr)
            (λ q k. (
              (rw (k.1 node x.0 (apart x.0 xs m.1)) (rw⁻¹ m.0 s.0), k.0),
              λ n p d. k.1 n p d.1 ∙ s.1 n p (rw m.0 d.0),
            ))
            (store_files-Yields existing xs pr.0 pr.1 m.2
              (AllAgree-kept existing x.0 xs rows pr.0 (λ n p e. s.1 n p (rw m.0 e)) m.1 h.1)))
