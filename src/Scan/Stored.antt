-- ===== src/Scan/Stored.antt =====
-- What the loop over the scanned files in core/src/scan.rs stores.
use puppypeer.Prelude.{
  ◌≡◌, refl, sym, ap, ◌∙◌, ◌==◌, ==-refl, ==_iff, true, false, Option, none, some, List, [], ◌∷◌,
  ◌++◌, Text, text_eq, text_eq_iff, text_eq_refl, arith,
}
use puppypeer.Os.{FileTime}
use puppypeer.Scan.{NodeId, FileHash, FileLocation, FileRow, option_eq, location_eq}
use puppypeer.Scan.Store.{◌>>=◌, update_location, insert_location}
use puppypeer.Scan.Locate.{
  locate, same_key, renewed?, locate-update_location, locate-snoc, locate_none→any,
}

-- There is a result, and it satisfies `P`.
abbrev pub Yields {ℓ} : {A : Type ℓ} → (A → Type 0) → Option A → Type 0
Yields P none = ⊥
Yields P (some a) = P a

pub Yields-imp {ℓ} :
    {A : Type ℓ} (P Q : A → Type 0) (o : Option A) → ((a : A) → P a → Q a) → Yields P o → Yields Q o
Yields-imp P Q none f h = h
Yields-imp P Q (some a) f h = f a h

pub bind-Yields {ℓ κ} :
    {A : Type ℓ} {B : Type κ} (P : A → Type 0) (Q : B → Type 0) (m : Option A) (f : A → Option B)
    → Yields P m
    → ((a : A) → P a → Yields Q (f a))
    → Yields Q (m >>= f)
bind-Yields P Q none f h k = absurd h
bind-Yields P Q (some a) f h k = k a h

-- Two locations tell the same of the content and the times of a file.
pub record SameFile (a b : FileLocation) : Type 0 where
  pub hash : a.hash ≡ b.hash
  pub size : a.size ≡ b.size
  pub created_at : a.created_at ≡ b.created_at
  pub modified_at : a.modified_at ≡ b.modified_at
  pub accessed_at : a.accessed_at ≡ b.accessed_at

hash_eq : (a b : Option FileHash) → option_eq text_eq a b ≡ true → a ≡ b
hash_eq none none h = refl
hash_eq none (some b) h = absurd (ground (arith, h))
hash_eq (some a) none h = absurd (ground (arith, h))
hash_eq (some a) (some b) h = ap some ((text_eq_iff a b).0 h)

pub time_eq_lem : (a b : FileTime) → option_eq (λ x y. x == y) a b ≡ true → a ≡ b
time_eq_lem none none h = refl
time_eq_lem none (some b) h = absurd (ground (arith, h))
time_eq_lem (some a) none h = absurd (ground (arith, h))
time_eq_lem (some a) (some b) h = ap some ((==_iff a b).0 h)

pub location_eq-SameFile : (a b : FileLocation) → location_eq a b ≡ true → SameFile a b
unfolding location_eq
location_eq-SameFile a b h = record {
  hash = hash_eq a.hash b.hash (ground (arith, h));
  size = (==_iff a.size b.size).0 (ground (arith, h));
  created_at = time_eq_lem a.created_at b.created_at (ground (arith, h));
  modified_at = time_eq_lem a.modified_at b.modified_at (ground (arith, h));
  accessed_at = time_eq_lem a.accessed_at b.accessed_at (ground (arith, h));
}

pub SameFile-euclid : (k l prev : FileLocation) → SameFile k prev → SameFile l prev → SameFile k l
SameFile-euclid k l prev a b = record {
  hash = a.hash ∙ sym b.hash;
  size = a.size ∙ sym b.size;
  created_at = a.created_at ∙ sym b.created_at;
  modified_at = a.modified_at ∙ sym b.modified_at;
  accessed_at = a.accessed_at ∙ sym b.accessed_at;
}

module _ (node : NodeId) where
  -- The entry of the map for a path agrees with the node's row for it.
  abbrev pub Agrees : Text → Option FileLocation → List FileRow → Type 0
  Agrees p none rows = locate node p rows ≡ none
  Agrees p (some prev) rows = Yields (λ k. SameFile k prev) (locate node p rows)

  -- The node's row for a path tells of the file what `l` tells.
  abbrev pub Holds : Text → FileLocation → List FileRow → Type 0
  Holds p l rows = Yields (λ k. SameFile k l) (locate node p rows)

  -- Every other key has the row that it had.
  abbrev pub KeepsOthers : Text → List FileRow → List FileRow → Type 0
  KeepsOthers q rows rows' =
      (n : NodeId) (p : Text) → same_key node q n p ≡ false → locate n p rows' ≡ locate n p rows

  same_key_refl : (p : Text) → same_key node p node p ≡ true
  same_key_refl p = ground (arith, ==-refl node, text_eq_refl p)

  renewed-Yields :
      (l : FileLocation) (P : FileLocation → Type 0) (o : Option FileLocation)
      → Yields P o
      → Yields (λ k. SameFile k l) (renewed? l o)
  renewed-Yields l P none h = h
  renewed-Yields l P (some k) h = record {
    hash = refl;
    size = refl;
    created_at = refl;
    modified_at = refl;
    accessed_at = refl;
  }

  pub update-Holds :
      (prev l : FileLocation) (rows : List FileRow)
      → Agrees l.path (some prev) rows
      → Holds l.path l (update_location node l rows)
  update-Holds prev l rows h =
      rw (locate-update_location node l node l.path rows, same_key_refl l.path)
        (renewed-Yields l (λ k. SameFile k prev) (locate node l.path rows) h)

  pub update-KeepsOthers :
      (l : FileLocation) (rows : List FileRow)
      → KeepsOthers l.path rows (update_location node l rows)
  update-KeepsOthers l rows n p s = locate-update_location node l n p rows ∙ ground (arith, s)

  -- The row of a new file.
  abbrev pub row_of : FileLocation → FileRow
  row_of l = record { node_id = node; location = record l { mime_type = none } }

  pub insert_lem :
      (l : FileLocation) (rows : List FileRow)
      → locate node l.path rows ≡ none
      → insert_location node l rows ≡ some (rows ++ row_of l ∷ [])
  unfolding insert_location
  insert_lem l rows h = rw (locate_none→any node l.path rows h) refl

  pub insert-Holds :
      (l : FileLocation) (rows : List FileRow)
      → locate node l.path rows ≡ none
      → Holds l.path l (rows ++ row_of l ∷ [])
  insert-Holds l rows h =
      rw (locate-snoc node l.path (row_of l) rows h, same_key_refl l.path)
        (record {
          hash = refl;
          size = refl;
          created_at = refl;
          modified_at = refl;
          accessed_at = refl;
        })
