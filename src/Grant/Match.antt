-- ===== src/Grant/Match.antt =====
-- `path_matches` of core/src/p2p.rs on the paths without their leading slashes.
use mathlib.Core.List.{append_assoc}
use puppypeer.Prelude.{
  ℕ, ◌≡◌, ◌≢◌, ◌↔◌, ◌⊎◌, inl, inr, refl, sym, ap, ◌∙◌, Bool, true, false, ◌||◌, ==_iff, [], ◌∷◌,
  ◌++◌, Text, codes, text_eq, text_eq_iff, Bool-cases, arith,
}
use puppypeer.Grant.{
  skip_while, is_slash, trim_start_slashes, trim, normalize_path, text_starts_with, path_matches,
  pop_slashes,
}

-- A path as it is compared: normalized, without leading slashes.
abbrev pub relative : Text → Text
relative path = trim_start_slashes (normalize_path path)

-- The path itself, or one that goes on after a slash.
abbrev pub IsBelow : Text → Text → Type 0
IsBelow g r = (r ≡ g) ⊎ ((rest : Text) × (r ≡ (g ++ codes "/") ++ rest))

starts_with→rest : (t p : Text) → text_starts_with t p ≡ true → (rest : Text) × (t ≡ p ++ rest)
unfolding text_starts_with
starts_with→rest t [] h = (t, refl)
starts_with→rest [] (p ∷ ps) h = ground arith
starts_with→rest (c ∷ cs) (p ∷ ps) h =
    let same : c ≡ p = (==_iff c p).0 (ground arith) in
    let (rest, e) = starts_with→rest cs ps (ground arith) in (rest, cc)

rest→starts_with : (p rest : Text) → text_starts_with (p ++ rest) p ≡ true
unfolding text_starts_with
rest→starts_with [] rest = ground arith
rest→starts_with (p ∷ ps) rest = ground (arith, ==_iff p p, rest→starts_with ps rest)

skip_while-append :
    (p : ℕ → Bool) (xs ys : Text)
    → skip_while p xs ≢ []
    → skip_while p (xs ++ ys) ≡ skip_while p xs ++ ys
unfolding skip_while
skip_while-append p [] ys h = absurd (h refl)
skip_while-append p (x ∷ xs) ys h = elim (Bool-cases (p x)) [
  | inl e ↦ ground (arith, skip_while-append p xs ys)
  | inr e ↦ ground arith
]

root_relative : (relative [] ≡ []) × (relative (codes "/") ≡ [])
unfolding normalize_path trim skip_while pop_slashes
root_relative = (refl, refl)

-- What matches with its slashes matches without them.
norm→IsBelow :
    (g r rest : Text)
    → trim_start_slashes g ≢ []
    → r ≡ (g ++ codes "/") ++ rest
    → trim_start_slashes r ≡ (trim_start_slashes g ++ codes "/") ++ rest
norm→IsBelow g r rest ne e =
    ap trim_start_slashes (e ∙ append_assoc g (codes "/") rest)
    ∙ skip_while-append is_slash g (codes "/" ++ rest) ne
    ∙ sym (append_assoc (trim_start_slashes g) (codes "/") rest)

not_root :
    (grant : Text) → relative grant ≢ [] → (text_eq grant [] || text_eq grant (codes "/")) ≡ false
not_root grant ne = elim (Bool-cases (text_eq grant [])) [
  | inl e ↦ absurd (ne (ap relative ((text_eq_iff grant []).0 e) ∙ root_relative.0))
  | inr e ↦ elim (Bool-cases (text_eq grant (codes "/"))) [
    | inl f ↦ absurd (ne (ap relative ((text_eq_iff grant (codes "/")).0 f) ∙ root_relative.1))
    | inr f ↦ ground arith
  ]
]

not_star : {grant : Text} → grant ≢ codes "*" → text_eq grant (codes "*") ≡ false
not_star {grant} ne = elim (Bool-cases (text_eq grant (codes "*"))) [
  | inl e ↦ absurd (ne ((text_eq_iff grant (codes "*")).0 e))
  | inr e ↦ e
]

module _ (grant request : Text) (ne : relative grant ≢ []) where
  below→match :
      text_eq grant (codes "*") ≡ false
      → IsBelow (relative grant) (relative request)
      → path_matches grant request ≡ true
  unfolding path_matches
  below→match star (inl e) = ground (arith, (text_eq_iff (relative request) (relative grant)).1 e)
  below→match star (inr (rest, e)) = ground (
    arith,
    ap (λ t. text_starts_with t (relative grant ++ codes "/")) e,
    rest→starts_with (relative grant ++ codes "/") rest,
  )

  match→below :
      text_eq grant (codes "*") ≡ false
      → path_matches grant request ≡ true
      → IsBelow (relative grant) (relative request)
  unfolding path_matches
  match→below star h =
      let root = not_root grant ne in
      let g = normalize_path grant in
      let r = normalize_path request in
      elim (Bool-cases (text_eq r g)) [
        | inl e ↦ inl (ap trim_start_slashes ((text_eq_iff r g).0 e))
        | inr e ↦ elim (Bool-cases (text_eq (relative request) (relative grant))) [
          | inl f ↦ inl ((text_eq_iff (relative request) (relative grant)).0 f)
          | inr f ↦ elim (Bool-cases (text_starts_with r (g ++ codes "/"))) [
            | inl k ↦
                let (rest, m) = starts_with→rest r (g ++ codes "/") k in
                inr (rest, norm→IsBelow g r rest ne m)
            | inr k ↦
                inr
                  (starts_with→rest (relative request) (relative grant ++ codes "/") (ground arith))
          ]
        ]
      ]

  -- A grant that is not `*` and names more than slashes matches exactly the requests that, both
  -- normalized and without leading slashes, are its path or go on after it with a slash.
  pub path_matches_iff :
      grant ≢ codes "*"
      → (path_matches grant request ≡ true) ↔ IsBelow (relative grant) (relative request)
  path_matches_iff star = (match→below (not_star star), below→match (not_star star))
