-- ===== src/Editor/RoundTrip.antt =====
-- What the editor of cli/src/gui.rs saves is what it shows when it is loaded again.
use puppypeer.Prelude.{
  ◌≡◌, refl, ap, sym, ◌∙◌, Bool, true, false, ◌||◌, ◌==◌, none, some, eq_iff, List, [], ◌∷◌, ◌++◌,
  All, map, Text, text_eq, ok, Bool-cases, inl, inr, arith, if◌then◌else◌,
}
use mathlib.Core.List.{append_assoc, append-nil}
use puppypeer.Rule.{Permission, Rule, folder, permission, can_read, can_write}
use puppypeer.Grant.{trim}
use puppypeer.Editor.{
  EditableFolderPermission, PeerPermissionsState, normalize_path, from_rule, to_permission,
  loading_state, add_rules, from_permissions, folder_permissions, build_permissions, flags_of,
  permissions_save, permissions_saved,
}

-- A folder whose path is in its normal form, and which can be read or written.
pub record IsSavable (e : EditableFolderPermission) : Type 0 where
  pub nonempty : text_eq (trim e.path) [] ≡ false
  pub normal : normalize_path e.path ≡ e.path
  pub some_access : (e.read || e.write) ≡ true

abbrev saved : EditableFolderPermission → Permission
saved e = permission (folder (record { path = e.path; flags = flags_of e.read e.write }))

flags_lem : (r w : Bool) → (r || w) ≡ true → (flags_of r w == 8) ≡ false
flags_lem true true h = refl
flags_lem true false h = refl
flags_lem false true h = refl
flags_lem false false h = ground arith

to_permission_lem : (e : EditableFolderPermission) → IsSavable e → to_permission e ≡ ok (saved e)
unfolding to_permission
to_permission_lem e s = ground (arith, s.nonempty, s.normal, flags_lem e.read e.write s.some_access)

from_rule_lem :
    (path : Text) (r w : Bool)
    → from_rule (record { path = path; flags = flags_of r w })
      ≡ record { path = path; read = r; write = w }
unfolding from_rule can_read can_write
from_rule_lem path true true = refl
from_rule_lem path true false = refl
from_rule_lem path false true = refl
from_rule_lem path false false = refl

folder_permissions_lem :
    (es : List EditableFolderPermission)
    → All IsSavable es
    → folder_permissions es ≡ ok (map saved es)
unfolding folder_permissions
folder_permissions_lem [] h = refl
folder_permissions_lem (e ∷ es) h = rw (to_permission_lem e h.0, folder_permissions_lem es h.1) refl

-- The saved folders are added behind those that are there.
add_rules_lem :
    (es : List EditableFolderPermission) (s : PeerPermissionsState)
    → add_rules (map saved es) s ≡ record s { folders = s.folders ++ es }
unfolding add_rules
add_rules_lem [] s = ap (λ l. record s { folders = l }) (sym (append-nil s.folders))
add_rules_lem (e ∷ es) s =
    ap (λ f. add_rules (map saved es) (record s { folders = s.folders ++ f ∷ [] }))
      (from_rule_lem e.path e.read e.write)
    ∙ add_rules_lem es (record s { folders = s.folders ++ e ∷ [] })
    ∙ ap (λ l. record s { folders = l }) (append_assoc s.folders (e ∷ []) es)

-- The editor at rest: nothing is loaded or saved, and there is no error.
pub record IsAtRest (s : PeerPermissionsState) : Type 0 where
  pub loaded : s.loading ≡ false
  pub unsaved : s.saving ≡ false
  pub clean : s.error ≡ none

-- The permissions that the editor saves.
abbrev pub saved_all : PeerPermissionsState → List Permission
saved_all s = if s.owner then permission Rule.owner ∷ map saved s.folders else map saved s.folders

from_permissions_lem :
    (s : PeerPermissionsState) → IsAtRest s → from_permissions s.peer_id (saved_all s) ≡ s
unfolding from_permissions loading_state
from_permissions_lem s h = elim (Bool-cases s.owner) [
  | inl e ↦
      unfold add_rules in
      ground (
        arith,
        add_rules_lem s.folders
            (record (loading_state s.peer_id) { loading = false; owner = true }),
      )
  | inr e ↦
      ground (arith, add_rules_lem s.folders (record (loading_state s.peer_id) { loading = false }))
]

build_permissions_lem :
    (s : PeerPermissionsState) → All IsSavable s.folders → build_permissions s ≡ ok (saved_all s)
unfolding build_permissions
build_permissions_lem s fs = rw (folder_permissions_lem s.folders fs) refl

-- An editor at rest, each of whose folders has its path in normal form and can be read or written,
-- hands permissions to a command, and the reply that they were saved leaves it as it was: it shows
-- again the same owner flag and the same folders, with the same rights, in the same order.
pub permissions_save_lem :
    (s : PeerPermissionsState)
    → IsAtRest s
    → All IsSavable s.folders
    → (ps : List Permission) × ((permissions_save s).1 ≡ some ps)
      × (permissions_saved (permissions_save s).0 s.peer_id (ok ps) ≡ s)
unfolding permissions_save permissions_saved
permissions_save_lem s h fs =
    let built = build_permissions_lem s fs in
    (
      saved_all s,
      rw built refl,
      ground (arith, built, from_permissions_lem s h, (eq_iff s.peer_id s.peer_id).1 refl),
    )
