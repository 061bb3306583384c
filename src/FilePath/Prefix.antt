-- ===== src/FilePath/Prefix.antt =====
-- `starts_with` of FilePath.antt decides that one path's components begin with the other's.
use puppypeer.Prelude.{◌≡◌, refl, ap, ◌↔◌, true, List, [], ◌∷◌, ◌++◌, arith, text_eq_iff}
use puppypeer.FilePath.{
  FilePath, Component, normal, component_eq, is_prefix, components, starts_with,
}

-- `path` is `base` or lies below it.
abbrev pub Under : FilePath → FilePath → Type 0
Under path base = (rest : List Component) × (components path ≡ components base ++ rest)

component_eq→eq : (c d : Component) → component_eq c d ≡ true → c ≡ d
unfolding component_eq
component_eq→eq (normal s) (normal t) h = ap normal ((text_eq_iff s t).0 h)
component_eq→eq c d h = ground arith

component_eq_refl : (c : Component) → component_eq c c ≡ true
unfolding component_eq
component_eq_refl (normal s) = (text_eq_iff s s).1 refl
component_eq_refl c = refl

is_prefix→append :
    (xs ys : List Component) → is_prefix xs ys ≡ true → (rest : List Component) × (ys ≡ xs ++ rest)
unfolding is_prefix
is_prefix→append [] ys h = (ys, refl)
is_prefix→append (x ∷ xs) [] h = ground arith
is_prefix→append (x ∷ xs) (y ∷ ys) h =
    let (rest, e) = is_prefix→append xs ys (ground arith) in
    (rest, ground (arith, component_eq→eq x y, e))

is_prefix-append : (xs rest : List Component) → is_prefix xs (xs ++ rest) ≡ true
unfolding is_prefix
is_prefix-append [] rest = refl
is_prefix-append (x ∷ xs) rest = ground (arith, component_eq_refl x, is_prefix-append xs rest)

pub starts_with_iff : (path base : FilePath) → (starts_with path base ≡ true) ↔ Under path base
unfolding starts_with
starts_with_iff path base = (
  is_prefix→append (components base) (components path),
  λ u. rw u.1 (is_prefix-append (components base) u.0),
)
