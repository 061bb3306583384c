-- ===== src/Browser/Below.antt =====
-- The directories of the file browser of cli/src/gui.rs that lie where a peer shares: the way down by
-- a name and the way up stay among them.
use puppypeer.Prelude.{
  ◌≡◌, ◌≢◌, ◌⊎◌, inl, inr, refl, sym, true, false, List, [], ◌∷◌, any, All, Any, Any→any, Text,
  codes, text_eq, text_eq_refl, arith,
}
use puppypeer.Rule.{Permission}
use puppypeer.Grant.{skip_while}
use puppypeer.Editor.{normalize_path}
use puppypeer.Browser.{
  permissions_roots, first_path, join_child_path, parent_path, before_last_slash,
}
use puppypeer.Browser.Paths.{IsName, IsNormal, IsNormal-join, parent_path-join}
use puppypeer.Browser.Roots.{Has, first_path-Has, normal→IsNormal}

-- A path at or below another one, by the names of entries.
pub data IsBelow (r : Text) : Text → Type 0 where
  here : IsBelow r r
  child : {p : Text} (n : Text) → IsBelow r p → IsName n → IsBelow r (join_child_path p n)

IsNormal-below : (r : Text) {p : Text} → IsNormal r → IsBelow r p → IsNormal p
IsNormal-below r h here = h
IsNormal-below r h (child {p} n b k) = IsNormal-join p n (IsNormal-below r h b) k

IsBelow-up : (r : Text) {p : Text} → IsNormal r → IsBelow r p → (p ≡ r) ⊎ IsBelow r (parent_path p)
IsBelow-up r h here = inl refl
IsBelow-up r h (child {p} n b k) = inr (rw (parent_path-join p n (IsNormal-below r h b) k) b)

Any-Has : (P : Text → Type 0) (xs : List Text) → Any P xs → (r : Text) × Has r xs × P r
Any-Has P [] h = absurd h
Any-Has P (x ∷ xs) (inl h) = (x, inl refl, h)
Any-Has P (x ∷ xs) (inr h) = let (r, k, p) = Any-Has P xs h in (r, inr k, p)

Has-Any : (P : Text → Type 0) (r : Text) (xs : List Text) → Has r xs → P r → Any P xs
Has-Any P r [] k h = absurd k
Has-Any P r (x ∷ xs) (inl e) h = inl (rw e h)
Has-Any P r (x ∷ xs) (inr k) h = inr (Has-Any P r xs k h)

Has-All : (P : Text → Type 0) (r : Text) (xs : List Text) → Has r xs → All P xs → P r
Has-All P r [] k h = absurd k
Has-All P r (x ∷ xs) (inl e) h = rw (sym e) h.0
Has-All P r (x ∷ xs) (inr k) h = Has-All P r xs k h.1

-- A root that is its own normal form.
abbrev pub IsRoot : Text → Type 0
IsRoot r = normalize_path r ≡ r

-- Where a browser of a peer with these permissions starts, and their roots.
abbrev pub starts : List Permission → List Text
starts perms = first_path perms ∷ permissions_roots perms

root-up : parent_path (codes "/") ≡ codes "/"
unfolding parent_path before_last_slash skip_while
root-up = refl

module _ (perms : List Permission) where
  -- At or below where the browser starts, or a root.
  abbrev pub IsShared : Text → Type 0
  IsShared p = Any (λ r. IsBelow r p) (starts perms)

  pub IsShared-child : (p n : Text) → IsShared p → IsName n → IsShared (join_child_path p n)
  IsShared-child p n h k =
      let (r, m, b) = Any-Has (λ r. IsBelow r p) (starts perms) h in
      Has-Any (λ r. IsBelow r (join_child_path p n)) r (starts perms) m (child n b k)

  module _ (normal : All IsRoot (permissions_roots perms)) where
    start_lem :
        (r : Text) → Has r (starts perms) → (r ≡ codes "/") ⊎ Has r (permissions_roots perms)
    start_lem r (inl e) = rw (sym e) (first_path-Has perms)
    start_lem r (inr h) = inr h

    start-IsNormal : (r : Text) → (r ≡ codes "/") ⊎ Has r (permissions_roots perms) → IsNormal r
    start-IsNormal r (inl e) = inl e
    start-IsNormal r (inr h) =
        normal→IsNormal r (Has-All IsRoot r (permissions_roots perms) h normal)

    -- At a start the way up is refused.
    start_refused :
        (r : Text)
        → (r ≡ codes "/") ⊎ Has r (permissions_roots perms)
        → any (text_eq (normalize_path r)) (permissions_roots perms) ≡ false
        → text_eq (parent_path r) r ≢ false
    start_refused r (inl e) h k =
        let same : text_eq (parent_path r) r ≡ true = rw (e, root-up) (text_eq_refl (codes "/")) in
        ground arith
    start_refused r (inr m) h k =
        let found =
          Any→any (text_eq r) (λ x. x ≡ r) (λ x e. rw e (text_eq_refl r)) (permissions_roots perms)
            m in
        let own = Has-All IsRoot r (permissions_roots perms) m normal in
        let same : any (text_eq (normalize_path r)) (permissions_roots perms) ≡ true =
          rw own found in
        ground arith

    pub IsShared-up :
        (p : Text)
        → any (text_eq (normalize_path p)) (permissions_roots perms) ≡ false
        → text_eq (parent_path p) p ≡ false
        → IsShared p
        → IsShared (parent_path p)
    IsShared-up p h k s =
        let (r, m, b) = Any-Has (λ r. IsBelow r p) (starts perms) s in
        let start = start_lem r m in
        elim (IsBelow-up r (start-IsNormal r start) b) [
          | inl e ↦ absurd (start_refused r start (rw (sym e) h) (rw (sym e) k))
          | inr up ↦ Has-Any (λ r. IsBelow r (parent_path p)) r (starts perms) m up
        ]
