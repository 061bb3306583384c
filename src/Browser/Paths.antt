-- ===== src/Browser/Paths.antt =====
-- The paths of the file browser of cli/src/gui.rs: the parent of a child is where it was joined.
use mathlib.Core.List.{reverse, reverse-cons, reverse-reverse, reverse-append}
use puppypeer.Prelude.{
  ◌≡◌, ◌≢◌, ◌⊎◌, inl, inr, refl, sym, ap, ◌∙◌, false, none, some, [], ◌∷◌, ◌++◌, All, Text, codes,
  text_eq, text_eq_iff, Bool-cases, arith, if◌then◌else◌,
}
use puppypeer.Grant.{skip_while, is_slash}
use puppypeer.Editor.{trim_end_slashes, slash_if_empty}
use puppypeer.Browser.{join_child_path, before_last_slash, parent_path, root_if_none}

-- The name of an entry: not empty, without a slash, and not that of the parent.
pub record IsName (n : Text) : Type 0 where
  pub nonempty : n ≢ []
  pub plain : All (λ c. is_slash c ≡ false) n
  pub real : n ≢ codes ".."

-- The root, or a path without a slash at its end.
abbrev pub IsNormal : Text → Type 0
IsNormal p = (p ≡ codes "/") ⊎ ((p ≢ []) × (trim_end_slashes p ≡ p))

abbrev Plain : Text → Type 0
Plain t = All (λ c. is_slash c ≡ false) t

skip-Plain : (xs ys : Text) → xs ≢ [] → Plain xs → skip_while is_slash (xs ++ ys) ≡ xs ++ ys
unfolding skip_while
skip-Plain [] ys ne h = absurd (ne refl)
skip-Plain (x ∷ xs) ys ne h = rw h.0 refl

before-Plain : (n : Text) → Plain n → before_last_slash n ≡ none
unfolding before_last_slash
before-Plain [] h = refl
before-Plain (c ∷ cs) h = rw (before-Plain cs h.1, h.0) refl

before-slash : (stem n : Text) → Plain n → before_last_slash (stem ++ codes "/" ++ n) ≡ some stem
unfolding before_last_slash
before-slash [] n h = rw (before-Plain n h) refl
before-slash (c ∷ cs) n h = rw (before-slash cs n h) refl

Plain-append : (xs ys : Text) → Plain xs → Plain ys → Plain (xs ++ ys)
Plain-append [] ys h k = k
Plain-append (x ∷ xs) ys h k = (h.0, Plain-append xs ys h.1 k)

Plain-reverse : (xs : Text) → Plain xs → Plain (reverse xs)
Plain-reverse [] h = h
Plain-reverse (x ∷ xs) h =
    rw (reverse-cons x xs) (Plain-append (reverse xs) (x ∷ []) (Plain-reverse xs h.1) (h.0, tt))

reverse-≢ : (xs : Text) → xs ≢ [] → reverse xs ≢ []
reverse-≢ xs ne e = ne (sym (reverse-reverse xs) ∙ ap reverse e)

-- No slash stands at the end of a text that ends with a name.
trim-name : (stem n : Text) → n ≢ [] → Plain n → trim_end_slashes (stem ++ n) ≡ stem ++ n
trim-name stem n ne h =
    ap (λ t. reverse (skip_while is_slash t)) (reverse-append stem n)
    ∙ ap reverse (skip-Plain (reverse n) (reverse stem) (reverse-≢ n ne) (Plain-reverse n h))
    ∙ ap reverse (sym (reverse-append stem n))
    ∙ reverse-reverse (stem ++ n)

-- What stands before a child's name, with the slash.
stem_of : Text → Text
stem_of p = if text_eq p (codes "/") then [] else p

skip-name : (n : Text) → IsName n → skip_while is_slash n ≡ n
unfolding skip_while
skip-name [] h = absurd (h.nonempty refl)
skip-name (c ∷ cs) h = rw h.plain.0 refl

Joined : Text → Text → Type 0
Joined p n = (join_child_path p n ≡ stem_of p ++ codes "/" ++ n) × (slash_if_empty (stem_of p) ≡ p)

Joined-root : (n : Text) → IsName n → Joined (codes "/") n
unfolding Joined join_child_path stem_of text_eq
Joined-root n h = (ap (λ t. codes "/" ++ t) (skip-name n h), refl)

slash_if_nonempty : (p : Text) → p ≢ [] → slash_if_empty p ≡ p
slash_if_nonempty [] ne = absurd (ne refl)
slash_if_nonempty (c ∷ cs) ne = refl

not_text_eq : {s t : Text} → s ≢ t → text_eq s t ≡ false
not_text_eq {s} {t} ne = elim (Bool-cases (text_eq s t)) [
  | inl e ↦ absurd (ne ((text_eq_iff s t).0 e))
  | inr e ↦ e
]

IsNormal-Joined : (p n : Text) → IsNormal p → IsName n → Joined p n
IsNormal-Joined p n (inl e) h = rw e (Joined-root n h)
IsNormal-Joined p n (inr (ne, trimmed)) h = elim (Bool-cases (text_eq p (codes "/"))) [
  | inl e ↦ rw ((text_eq_iff p (codes "/")).0 e) (Joined-root n h)
  | inr e ↦
      unfold Joined join_child_path stem_of in
      rw (e, not_text_eq ne, skip-name n h)
        (ap (λ t. t ++ codes "/" ++ n) trimmed, slash_if_nonempty p ne)
]

trim-joined :
    (stem n : Text) → IsName n → trim_end_slashes (stem ++ codes "/" ++ n) ≡ stem ++ codes "/" ++ n
trim-joined stem n h = trim-name (stem ++ codes "/") n h.nonempty h.plain

append-≢ : (stem n : Text) → stem ++ codes "/" ++ n ≢ []
append-≢ [] n e = ground arith
append-≢ (c ∷ cs) n e = ground arith

pub IsNormal-join : (p n : Text) → IsNormal p → IsName n → IsNormal (join_child_path p n)
unfolding Joined
IsNormal-join p n q h =
    rw (IsNormal-Joined p n q h).0 (inr (append-≢ (stem_of p) n, trim-joined (stem_of p) n h))

pub parent_path-join : (p n : Text) → IsNormal p → IsName n → parent_path (join_child_path p n) ≡ p
unfolding parent_path Joined
parent_path-join p n q h =
    let (joined, stem) = IsNormal-Joined p n q h in
    ap parent_path joined
    ∙ ap (λ t. root_if_none (before_last_slash t)) (trim-joined (stem_of p) n h)
    ∙ ap root_if_none (before-slash (stem_of p) n h.plain)
    ∙ stem
