-- ===== src/FilePath.antt =====
-- Paths as the code of core/src/state.rs and core/src/app.rs uses them through `std::path` on Unix:
-- a path is a text, and is compared, extended and cut by its components. A number past the code points
-- stands for a sequence of bytes that is not UTF-8.
pub mod Prefix
use puppypeer.Prelude.{
  ℕ, leb, map, ◌≡◌, refl, Bool, true, false, ◌&&◌, ◌==◌, Option, none, some, List, [], ◌∷◌, ◌++◌,
  Text, text_eq, codes, if◌then◌else◌,
}

abbrev pub FilePath : Type 0
FilePath = Text

abbrev pub lossy : ℕ → ℕ
lossy c = if leb c 0x10ffff then c else 0xfffd

-- `Path::to_string_lossy`
abbrev pub to_string_lossy : FilePath → Text
to_string_lossy p = map lossy p

abbrev pub slash : Text
slash = codes "/"

-- `std::path::Component`, without the prefixes of Windows.
pub data Component : Type 0 where
  root_dir cur_dir parent_dir : Component
  normal : Text → Component

pub component_eq : Component → Component → Bool
component_eq root_dir root_dir = true
component_eq cur_dir cur_dir = true
component_eq parent_dir parent_dir = true
component_eq (normal s) (normal t) = text_eq s t
component_eq _ _ = false

-- The pieces between slashes.
prepend : Text → List Text → List Text
prepend w [] = w ∷ []
prepend w (v ∷ vs) = (w ++ v) ∷ vs

unfoldable pub split_slash : Text → List Text
unfolding prepend
split_slash [] = [] ∷ []
split_slash (c ∷ cs) =
    let rest = split_slash cs in if c == b'/' then [] ∷ rest else prepend (c ∷ []) rest

-- Empty pieces and `.` are skipped.
unfoldable pub body : List Text → List Component
unfolding text_eq
body [] = []
body (w ∷ ws) =
    let rest = body ws in
    if text_eq w []
    then rest
    else if text_eq w (codes ".")
    then rest
    else if text_eq w (codes "..")
    then parent_dir ∷ rest
    else normal w ∷ rest

-- A leading `.` of a relative path is kept.
relative : List Text → List Component
unfolding body
relative [] = []
relative (w ∷ ws) = if text_eq w (codes ".") then cur_dir ∷ body ws else body (w ∷ ws)

-- `Path::components`
unfoldable pub components : FilePath → List Component
unfolding split_slash relative
components [] = []
components (c ∷ cs) =
    if c == b'/' then root_dir ∷ body (split_slash cs) else relative (split_slash (c ∷ cs))

pub is_prefix : List Component → List Component → Bool
is_prefix [] ys = true
is_prefix (x ∷ xs) [] = false
is_prefix (x ∷ xs) (y ∷ ys) = component_eq x y && is_prefix xs ys

-- `Path::starts_with`: `path` lies at or below `base`.
unfoldable pub starts_with : FilePath → FilePath → Bool
unfolding is_prefix component_eq components
starts_with path base = is_prefix (components base) (components path)

-- The text of a list of components.
component_text : Component → Text
component_text root_dir = []
component_text cur_dir = codes "."
component_text parent_dir = codes ".."
component_text (normal w) = w

join_texts : List Component → Text
unfolding component_text
join_texts [] = []
join_texts (c ∷ []) = component_text c
join_texts (c ∷ d ∷ cs) = component_text c ++ slash ++ join_texts (d ∷ cs)

unfoldable pub render : List Component → Text
unfolding join_texts
render (root_dir ∷ []) = slash
render cs = join_texts cs

pub split_last : List Component → Option (List Component × Component)
split_last [] = none
split_last (c ∷ cs) = elim (split_last cs) [
  | none ↦ some ([], c)
  | some (front, last) ↦ some (c ∷ front, last)
]

-- `Path::parent`, up to the spelling of the separators: the path without its last component, which
-- must not be the root.
unfoldable pub parent : FilePath → Option FilePath
unfolding split_last
parent p = elim (split_last (components p)) [
  | none ↦ none
  | some (front, root_dir) ↦ none
  | some (front, last) ↦ some (render front)
]

-- `Path::file_name`: the last component, if it is a name.
unfoldable pub file_name : FilePath → Option Text
unfolding split_last
file_name p = elim (split_last (components p)) [ some (front, normal name) ↦ some name | _ ↦ none ]

split_last_dot : Text → Option (Text × Text)
split_last_dot [] = none
split_last_dot (c ∷ cs) = elim (split_last_dot cs) [
  | some (before, after) ↦ some (c ∷ before, after)
  | none ↦ if c == b'.' then some ([], cs) else none
]

-- `Path::extension` of a file name: what follows the last dot, if something stands before it.
unfoldable pub extension_of : Text → Option Text
unfolding split_last_dot
extension_of name = elim (split_last_dot name) [
  | none ↦ none
  | some ([], after) ↦ none
  | some (c ∷ before, after) ↦ some after
]

unfoldable pub extension : FilePath → Option Text
unfolding file_name
extension p = elim (file_name p) [ none ↦ none | some name ↦ extension_of name ]

ends_with_slash : Text → Bool
ends_with_slash [] = false
ends_with_slash (c ∷ []) = c == b'/'
ends_with_slash (c ∷ d ∷ cs) = ends_with_slash (d ∷ cs)

-- `Path::join`: an absolute path replaces the base.
unfoldable pub join : FilePath → FilePath → FilePath
unfolding ends_with_slash
join base [] = if text_eq base [] then [] else if ends_with_slash base then base else base ++ slash
join base (c ∷ cs) =
    if c == b'/'
    then c ∷ cs
    else if text_eq base []
    then c ∷ cs
    else if ends_with_slash base
    then base ++ (c ∷ cs)
    else base ++ slash ++ (c ∷ cs)

starts_with_examples :
    (starts_with (codes "/srv/share/a.txt") (codes "/srv//share/") ≡ true)
    × (starts_with (codes "/srv/share2") (codes "/srv/share") ≡ false)
    × (parent (codes "/srv/share") ≡ some (codes "/srv"))
    × (parent (codes "/") ≡ none)
    × (file_name (codes "/srv/share/") ≡ some (codes "share"))
    × (join (codes "/srv") (codes "a") ≡ codes "/srv/a")
unfolding starts_with components parent file_name join render
starts_with_examples = (refl, refl, refl, refl, refl, refl)
