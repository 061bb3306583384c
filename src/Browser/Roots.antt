-- ===== src/Browser/Roots.antt =====
-- Where the file browser of cli/src/gui.rs may start: the first path is a root or `/`.
use mathlib.Core.List.{reverse, reverse-reverse}
use puppypeer.Prelude.{
  ℕ, ◌≡◌, ◌⊎◌, inl, inr, refl, sym, ap, ◌∙◌, Bool, ◌||◌, Option, none, some, List, [], ◌∷◌, Any,
  Text, codes, text_eq, text_eq_iff, Bool-cases, arith,
}
use puppypeer.Rule.{Permission, Rule, folder, can_read, can_write, can_search}
use puppypeer.Grant.{skip_while, is_slash, trim}
use puppypeer.Node.Entries.{text_le}
use puppypeer.Editor.{normalize_path, trim_end_slashes, slash_if_empty}
use puppypeer.Browser.{
  insert_root, add_root, permissions_roots, shown_root, default_browser_path, first_path,
}
use puppypeer.Browser.Paths.{IsNormal}

skip-skip : (p : ℕ → Bool) (xs : Text) → skip_while p (skip_while p xs) ≡ skip_while p xs
unfolding skip_while
skip-skip p [] = refl
skip-skip p (x ∷ xs) = elim (Bool-cases (p x)) [
  | inl e ↦ rw e (skip-skip p xs)
  | inr e ↦ rw (e, e) refl
]

trim-trim : (t : Text) → trim_end_slashes (trim_end_slashes t) ≡ trim_end_slashes t
trim-trim t =
    ap (λ r. reverse (skip_while is_slash r)) (reverse-reverse (skip_while is_slash (reverse t)))
    ∙ ap reverse (skip-skip is_slash (reverse t))

cut→IsNormal : (r t : Text) → trim_end_slashes t ≡ t → slash_if_empty t ≡ r → IsNormal r
cut→IsNormal r [] h e = inl (sym e)
cut→IsNormal r (c ∷ cs) h e = inr (λ n. ground (arith, e ∙ n), rw (sym e) h)

pub normal→IsNormal : (r : Text) → normalize_path r ≡ r → IsNormal r
unfolding normalize_path
normal→IsNormal r e = cut→IsNormal r (trim_end_slashes (trim r)) (trim-trim (trim r)) e

abbrev pub Has : Text → List Text → Type 0
Has t = Any (λ r. r ≡ t)

insert_root-Has : (t : Text) (roots : List Text) → Has t (insert_root t roots)
unfolding insert_root
insert_root-Has t [] = inl refl
insert_root-Has t (x ∷ xs) = elim (Bool-cases (text_eq t x)) [
  | inl e ↦ rw e (inl (sym ((text_eq_iff t x).0 e)))
  | inr e ↦ elim (Bool-cases (text_le t x)) [
    | inl f ↦ rw (e, f) (inl refl)
    | inr f ↦ rw (e, f) (inr (insert_root-Has t xs))
  ]
]

insert_root-keeps : (t u : Text) (roots : List Text) → Has u roots → Has u (insert_root t roots)
unfolding insert_root
insert_root-keeps t u [] h = absurd h
insert_root-keeps t u (x ∷ xs) h = elim (Bool-cases (text_eq t x)) [
  | inl e ↦ rw e h
  | inr e ↦ elim (Bool-cases (text_le t x)) [
    | inl f ↦ rw (e, f) (inr h)
    | inr f ↦ rw (e, f) elim h [ inl k ↦ inl k | inr k ↦ inr (insert_root-keeps t u xs k) ]
  ]
]

add_root-Has :
    (r : Rule) (roots : List Text) (rest : Option Text) (t : Text)
    → (rest ≡ some t → Has t roots)
    → elim (shown_root r) [ none ↦ rest | some path ↦ some path ] ≡ some t
    → Has t (add_root r roots)
add_root-Has Rule.owner roots rest t h e = h e
add_root-Has (folder r) roots rest t h e =
    elim (Bool-cases (can_read r || can_search r || can_write r)) [
      | inl f ↦
          let same : normalize_path r.path ≡ t = ground (arith, e, f) in
          rw (sym same) (insert_root-Has (normalize_path r.path) roots)
      | inr f ↦ insert_root-keeps (normalize_path r.path) t roots (h (ground (arith, e, f)))
    ]

default-Has :
    (ps : List Permission) (t : Text)
    → default_browser_path ps ≡ some t
    → Has t (permissions_roots ps)
unfolding default_browser_path permissions_roots
default-Has [] t e = ground arith
default-Has (p ∷ ps) t e =
    add_root-Has p.rule (permissions_roots ps) (default_browser_path ps) t (default-Has ps t) e

IsFirst : List Permission → Text → Type 0
IsFirst ps t = (t ≡ codes "/") ⊎ Has t (permissions_roots ps)

default-IsFirst :
    (ps : List Permission) (o : Option Text)
    → default_browser_path ps ≡ o
    → IsFirst ps (elim o [ none ↦ codes "/" | some path ↦ path ])
unfolding IsFirst
default-IsFirst ps none e = inl refl
default-IsFirst ps (some t) e = inr (default-Has ps t e)

-- A browser starts at a root, or at `/`.
pub first_path-Has :
    (ps : List Permission)
    → (first_path ps ≡ codes "/") ⊎ Has (first_path ps) (permissions_roots ps)
unfolding first_path IsFirst
first_path-Has ps = default-IsFirst ps (default_browser_path ps) refl
