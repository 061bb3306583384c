-- ===== src/Scan/Locate.antt =====
-- Looking up a row of `file_locations` by its key, before and after the statements of
-- core/src/scan.rs.
use puppypeer.Prelude.{
  ◌≡◌, refl, sym, ap, ◌∙◌, inl, inr, ◌==◌, ==_iff, Bool, true, false, ◌&&◌, Option, none, some,
  List, [], ◌∷◌, ◌++◌, any, Text, text_eq, text_eq_iff, if◌then◌else◌, Bool-cases, arith,
}
use puppypeer.Scan.{NodeId, FileLocation, FileRow}
use puppypeer.Scan.Store.{has_key, delete_location, update_location}

-- The location that the table has for a node and a path.
abbrev pub locate : NodeId → Text → List FileRow → Option FileLocation
locate n p [] = none
locate n p (r ∷ rs) = let rest = locate n p rs in if has_key n p r then some r.location else rest

abbrev pub same_key : NodeId → Text → NodeId → Text → Bool
same_key m q n p = (m == n) && text_eq q p

-- A row under one key is under another exactly if the keys are the same.
pub has_key_same :
    (m : NodeId) (q : Text) (n : NodeId) (p : Text) (r : FileRow)
    → has_key m q r ≡ true
    → has_key n p r ≡ same_key m q n p
has_key_same m q n p r h =
    let e = (==_iff r.node_id m).0 (ground arith) in
    let f = (text_eq_iff r.location.path q).0 (ground arith) in
    ap (λ x. (x == n) && text_eq r.location.path p) e ∙ ap (λ x. (m == n) && text_eq x p) f

same_key_eq :
    (m : NodeId) (q : Text) (n : NodeId) (p : Text) (r : FileRow)
    → same_key m q n p ≡ true
    → has_key n p r ≡ has_key m q r
same_key_eq m q n p r h =
    let e = (==_iff m n).0 (ground arith) in
    let f = (text_eq_iff q p).0 (ground arith) in
    ap (λ x. (r.node_id == x) && text_eq r.location.path p) (sym e)
    ∙ ap (λ x. (r.node_id == m) && text_eq r.location.path x) (sym f)

pub locate-delete_location :
    (m : NodeId) (q : Text) (n : NodeId) (p : Text) (rows : List FileRow)
    → locate n p (delete_location m q rows) ≡ (if same_key m q n p then none else locate n p rows)
unfolding delete_location
locate-delete_location m q n p [] = ground arith
locate-delete_location m q n p (r ∷ rs) =
    let ih = locate-delete_location m q n p rs in
    elim (Bool-cases (has_key m q r)) [
      | inl e ↦ ground (arith, ih, has_key_same m q n p r e, e)
      | inr e ↦ elim (Bool-cases (same_key m q n p)) [
        | inl s ↦ ground (arith, ih, same_key_eq m q n p r s, e, s)
        | inr s ↦ ground (arith, ih, e, s)
      ]
    ]

-- What an update leaves of a location.
abbrev pub renewed : FileLocation → FileLocation → FileLocation
renewed l old = record old {
  hash = l.hash;
  size = l.size;
  timestamp = l.timestamp;
  created_at = l.created_at;
  modified_at = l.modified_at;
  accessed_at = l.accessed_at;
}

abbrev pub renewed? : FileLocation → Option FileLocation → Option FileLocation
renewed? l none = none
renewed? l (some old) = some (renewed l old)

pub locate-update_location :
    (m : NodeId) (l : FileLocation) (n : NodeId) (p : Text) (rows : List FileRow)
    → locate n p (update_location m l rows)
      ≡ (if same_key m l.path n p then renewed? l (locate n p rows) else locate n p rows)
unfolding update_location
locate-update_location m l n p [] = ground arith
locate-update_location m l n p (r ∷ rs) =
    let ih = locate-update_location m l n p rs in
    elim (Bool-cases (has_key m l.path r)) [
      | inl e ↦ ground (arith, ih, has_key_same m l.path n p r e, e)
      | inr e ↦ elim (Bool-cases (same_key m l.path n p)) [
        | inl s ↦ ground (arith, ih, same_key_eq m l.path n p r s, e, s)
        | inr s ↦ ground (arith, ih, e, s)
      ]
    ]

pub locate-snoc :
    (n : NodeId) (p : Text) (r : FileRow) (rows : List FileRow)
    → locate n p rows ≡ none
    → locate n p (rows ++ r ∷ []) ≡ (if has_key n p r then some r.location else none)
locate-snoc n p r [] h = refl
locate-snoc n p r (x ∷ xs) h = elim (Bool-cases (has_key n p x)) [
  | inl e ↦ absurd (ground (arith, e, h))
  | inr e ↦ ground (arith, e, h, locate-snoc n p r xs)
]

-- A row at the end does not hide another.
pub locate-snoc_other :
    (n : NodeId) (p : Text) (r : FileRow) (rows : List FileRow)
    → has_key n p r ≡ false
    → locate n p (rows ++ r ∷ []) ≡ locate n p rows
locate-snoc_other n p r [] h = ground (arith, h)
locate-snoc_other n p r (x ∷ xs) h = ground (arith, locate-snoc_other n p r xs h)

pub locate_none→any :
    (n : NodeId) (p : Text) (rows : List FileRow)
    → locate n p rows ≡ none
    → any (has_key n p) rows ≡ false
locate_none→any n p [] h = refl
locate_none→any n p (r ∷ rs) h = ground (arith, h, locate_none→any n p rs)

pub any→locate_none :
    (n : NodeId) (p : Text) (rows : List FileRow)
    → any (has_key n p) rows ≡ false
    → locate n p rows ≡ none
any→locate_none n p [] h = refl
any→locate_none n p (r ∷ rs) h = ground (arith, h, any→locate_none n p rs)

-- No two rows have one key.
abbrev pub Unique : List FileRow → Type 0
Unique [] = Unit
Unique (r ∷ rs) = (any (has_key r.node_id r.location.path) rs ≡ false) × Unique rs
