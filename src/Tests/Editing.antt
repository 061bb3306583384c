-- ===== src/Tests/Editing.antt =====
-- Witnesses for Editor.antt.
use puppypeer.Prelude.{All, ◌≡◌, refl, none, some, true, false, List, [], ◌∷◌, codes, ok, text_eq}
use puppypeer.Rule.{Permission, folder, positive, can_read, can_write}
use puppypeer.Editor.Expiry.{NeverExpires, permissions_save-NeverExpires}
use puppypeer.Grant.{trim, skip_while}
use puppypeer.Editor.{
  PeerPermissionsState, normalize_path, from_permissions, add_rules, from_rule, loading_state,
  build_permissions, folder_permissions, to_permission, permissions_save, permissions_saved,
}
use puppypeer.Editor.RoundTrip.{IsSavable, permissions_save_lem}

abbrev edited : PeerPermissionsState
edited = record {
  peer_id = "p";
  owner = true;
  folders = record { path = codes "/srv"; read = true; write = true } ∷ [];
  loading = false;
  saving = false;
  error = none;
}

srv-IsSavable : IsSavable (record { path = codes "/srv"; read = true; write = true })
unfolding normalize_path trim skip_while text_eq
srv-IsSavable = record { nonempty = refl; normal = refl; some_access = refl }

permissions_save_lem_example :
    (ps : List Permission) × ((permissions_save edited).1 ≡ some ps)
    × (permissions_saved (permissions_save edited).0 "p" (ok ps) ≡ edited)
permissions_save_lem_example =
    permissions_save_lem edited (record { loaded = refl; unsaved = refl; clean = refl })
      (srv-IsSavable, tt)

-- A grant of /srv until the time 5, as it is loaded, and as it is saved.
abbrev limited : Permission
limited = record {
  rule = folder (record { path = codes "/srv"; flags = 1 });
  expires_at = some (positive 5);
}

abbrev kept : Permission
kept = record { rule = folder (record { path = codes "/srv"; flags = 9 }); expires_at = none }

saves : (permissions_save (from_permissions "p" (limited ∷ []))).1 ≡ some (kept ∷ [])
unfolding permissions_save from_permissions add_rules from_rule can_read can_write loading_state
    build_permissions folder_permissions to_permission normalize_path trim skip_while text_eq
saves = refl

permissions_save-NeverExpires_example : All NeverExpires (kept ∷ [])
permissions_save-NeverExpires_example =
    permissions_save-NeverExpires (from_permissions "p" (limited ∷ [])) (kept ∷ []) saves
