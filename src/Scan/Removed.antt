-- ===== src/Scan/Removed.antt =====
-- What the loop over the deleted files in core/src/scan.rs removes.
use puppypeer.Prelude.{
  ◌+◌, ◌≡◌, refl, ap, inl, inr, ◌==◌, Bool, true, false, not, ◌&&◌, none, some, List, [], ◌∷◌, any,
  Text, text_eq, text_eq_iff, if◌then◌else◌, Bool-cases, arith,
}
use puppypeer.Scan.{NodeId, FileLocation, find_location}
use puppypeer.Scan.Store.{Progress, delete_location, remove_deleted}
use puppypeer.Scan.Locate.{locate, locate-delete_location}

-- The path is one of the map `existing`, or of the map `scanned`.
abbrev pub is_existing : Text → List FileLocation → Bool
is_existing p existing = any (λ l. text_eq l.path p) existing

abbrev pub is_scanned : Text → List (Text × FileLocation) → Bool
is_scanned p scanned = any (λ x. text_eq x.0 p) scanned

pub find_location-is_existing :
    (p : Text) (ls : List FileLocation) → find_location p ls ≡ none → is_existing p ls ≡ false
unfolding find_location
find_location-is_existing p [] h = refl
find_location-is_existing p (l ∷ ls) h = ground (arith, h, find_location-is_existing p ls)

pub is_existing-find_location :
    (p : Text) (ls : List FileLocation) (l : FileLocation)
    → find_location p ls ≡ some l
    → is_existing p ls ≡ true
unfolding find_location
is_existing-find_location p [] l h = absurd (ground (arith, h))
is_existing-find_location p (k ∷ ls) l h = elim (Bool-cases (text_eq k.path p)) [
  | inl e ↦ ground (arith, e)
  | inr e ↦ ground (arith, e, is_existing-find_location p ls l (ground (arith, h, e)))
]

is_scanned_eq :
    (q p : Text) (scanned : List (Text × FileLocation))
    → text_eq q p ≡ true
    → is_scanned q scanned ≡ is_scanned p scanned
is_scanned_eq q p scanned e = ap (λ t. is_scanned t scanned) ((text_eq_iff q p).0 e)

pub locate-remove_deleted :
    (node : NodeId) (existing : List FileLocation) (scanned : List (Text × FileLocation))
    (pr : Progress) (n : NodeId) (p : Text)
    → locate n p (remove_deleted node existing scanned pr).0 ≡ (
        if (node == n) && is_existing p existing && not (is_scanned p scanned)
        then none
        else locate n p pr.0)
unfolding remove_deleted
locate-remove_deleted node [] scanned (rows, c) n p = ground arith
locate-remove_deleted node (old ∷ existing) scanned (rows, c) n p =
    elim (Bool-cases (is_scanned old.path scanned)) [
      | inl e ↦
          let ih = locate-remove_deleted node existing scanned (rows, c) n p in
          elim (Bool-cases (text_eq old.path p)) [
            | inl s ↦ ground (arith, ih, e, s, is_scanned_eq old.path p scanned s)
            | inr s ↦ ground (arith, ih, e, s)
          ]
      | inr e ↦
          let ih =
            locate-remove_deleted node existing scanned
              (delete_location node old.path rows, record c { removed_count = c.removed_count + 1 })
              n p in
          let gone = locate-delete_location node old.path n p rows in
          elim (Bool-cases (text_eq old.path p)) [
            | inl s ↦ ground (arith, ih, gone, e, s, is_scanned_eq old.path p scanned s)
            | inr s ↦ ground (arith, ih, gone, e, s)
          ]
    ]
