-- ===== src/Editor/Expiry.antt =====
-- What the editor of cli/src/gui.rs does to the expiry of the grants that it saves.
use mathlib.Core.Path.{subst}
use puppypeer.Prelude.{
  ap, sym, ◌∙◌, ◌≡◌, refl, List, [], ◌∷◌, All, none, some, ok, Result-cases, Bool-cases, inl, inr,
  arith,
}
use puppypeer.Rule.{Permission, Rule, permission}
use puppypeer.Editor.{
  EditableFolderPermission, PeerPermissionsState, to_permission, folder_permissions,
  build_permissions, permissions_save,
}

abbrev pub NeverExpires : Permission → Type 0
NeverExpires p = p.expires_at ≡ none

to_permission-NeverExpires :
    (e : EditableFolderPermission) (p : Permission) → to_permission e ≡ ok p → NeverExpires p
unfolding to_permission
to_permission-NeverExpires e p h = ground arith

folder_permissions-NeverExpires :
    (es : List EditableFolderPermission) (ps : List Permission)
    → folder_permissions es ≡ ok ps
    → All NeverExpires ps
unfolding folder_permissions
folder_permissions-NeverExpires [] [] h = tt
folder_permissions-NeverExpires [] (p ∷ ps) h = absurd (ground arith)
folder_permissions-NeverExpires (e ∷ es) [] h = tt
folder_permissions-NeverExpires (e ∷ es) (p ∷ ps) h = elim (Result-cases (to_permission e)) [
  | inl (q, x) ↦ elim (Result-cases (folder_permissions es)) [
    | inl (qs, y) ↦
        let first = to_permission-NeverExpires e q x in
        let rest = folder_permissions-NeverExpires es qs y in
        let same : (q ≡ p) × (qs ≡ ps) = ground arith in
        (ap (λ r. r.expires_at) (sym same.0) ∙ first, subst (All NeverExpires) same.1 rest)
    | inr (m, y) ↦ absurd (ground arith)
  ]
  | inr (m, x) ↦ absurd (ground arith)
]

-- Whatever the editor shows and wherever it was loaded from, no permission that it hands to a command
-- to be saved expires.
pub permissions_save-NeverExpires :
    (s : PeerPermissionsState) (ps : List Permission)
    → (permissions_save s).1 ≡ some ps
    → All NeverExpires ps
unfolding permissions_save build_permissions
permissions_save-NeverExpires s ps h = elim (Result-cases (folder_permissions s.folders)) [
  | inl (qs, x) ↦
      let rest = folder_permissions-NeverExpires s.folders qs x in
      elim (Bool-cases s.owner) [
        | inl e ↦
            let same : permission Rule.owner ∷ qs ≡ ps = ground arith in
            subst (All NeverExpires) same (refl, rest)
        | inr e ↦ let same : qs ≡ ps = ground arith in subst (All NeverExpires) same rest
      ]
  | inr (m, x) ↦ absurd (ground arith)
]
