-- ===== src/Browser/Steps.antt =====
-- The messages of the file browser of cli/src/gui.rs as steps of an interface in which the answers come
-- in whatever order, and what each handler keeps.
use mathlib.Core.Path.{subst}
use puppypeer.Prelude.{
  ℕ, ◌≡◌, ◌≢◌, ◌⊎◌, inl, inr, sym, String, true, Option, none, some, List, [], ◌∷◌, All, Any, Text,
  str_eq, eq_iff, Result, ok, err, Bool-cases,
}
use puppypeer.Rule.{Permission}
use puppypeer.Wire.{DirEntry}
use puppypeer.Viewer.{FileViewerState, new_viewer}
use puppypeer.Viewer.Kept.{IsSameFile}
use puppypeer.Browser.{
  permissions_roots, join_child_path, FileBrowserState, new_browser, Mode, file_browser,
  file_viewer, elsewhere, Ask, list_permissions, list_dir, read_file, GuiMessage,
  file_browser_permissions_loaded, file_browser_loaded, file_entry_activated, file_navigate_up,
  directory_loaded, entry_activated, update, filled, at_roots, permissions_failed, open_at, viewing,
}
use puppypeer.Browser.Paths.{IsName}
use puppypeer.Browser.Below.{here, IsShared, IsShared-child}

-- The interface: its mode, and what its commands have asked for.
pub record Gui : Type 0 where
  pub mode : Mode
  pub asked : List Ask

abbrev pub note : Option Ask → List Ask → List Ask
note none asked = asked
note (some a) asked = a ∷ asked

unfoldable pub step : GuiMessage → Gui → Gui
step m g = record { mode = (update m g.mode).0; asked = note (update m g.mode).1 g.asked }

-- `granted` is what each peer grants.
module _ (granted : String → List Permission) where
  abbrev pub IsSharedOf : String → Text → Type 0
  IsSharedOf peer = IsShared (granted peer)

  -- An entry that is activated is shown.
  abbrev pub IsChosen : DirEntry → Mode → Type 0
  IsChosen e (file_browser s) = Any (λ x. x ≡ e) s.entries × IsName e.name
  IsChosen e m = Unit

  -- The way up is taken from a directory, with the roots at hand.
  abbrev pub HasRoots : Mode → Type 0
  HasRoots (file_browser s) =
      (s.path ≢ []) × (s.available_roots ≡ permissions_roots (granted s.peer_id))
  HasRoots m = Unit

  -- Of the permissions the answer is an error or those that are granted, of a directory that was asked
  -- for anything.
  abbrev pub IsPossible : GuiMessage → Gui → Type 0
  IsPossible (file_browser_permissions_loaded peer (ok perms)) g = perms ≡ granted peer
  IsPossible (file_browser_loaded peer path entries) g = Any (λ a. a ≡ list_dir peer path) g.asked
  IsPossible (file_entry_activated e) g = IsChosen e g.mode
  IsPossible file_navigate_up g = HasRoots g.mode
  IsPossible m g = Unit

  -- The interfaces that messages lead to.
  pub data IsReached : Gui → Type 0 where
    opened : IsReached (record { mode = elsewhere; asked = [] })
    stepped : {g : Gui} (m : GuiMessage) → IsReached g → IsPossible m g → IsReached (step m g)

  abbrev pub IsSharedAsk : Ask → Type 0
  IsSharedAsk (list_permissions peer) = Unit
  IsSharedAsk (list_dir peer path) = IsSharedOf peer path
  IsSharedAsk (read_file peer path offset) = IsSharedOf peer path

  -- A browser whose directory is shared, or one that waits for its first one.
  abbrev pub IsBrowser : FileBrowserState → Type 0
  IsBrowser s = IsSharedOf s.peer_id s.path ⊎ ((s.path ≡ []) × (s.entries ≡ []))

  abbrev pub IsMode : Mode → Type 0
  IsMode (file_browser s) = IsBrowser s
  IsMode (file_viewer b v) = IsBrowser b × IsSharedOf v.peer_id v.path
  IsMode elsewhere = Unit

  abbrev pub IsNext : Mode × Option Ask → Type 0
  IsNext (m, o) = IsMode m × All IsSharedAsk (note o [])

  pub open_at-IsNext :
      (t : Text) (s : FileBrowserState) → IsSharedOf s.peer_id t → IsNext (open_at t s)
  open_at-IsNext t s h = (inl h, (h, tt))

  same_peer : {s t : String} → str_eq s t ≡ true → s ≡ t
  same_peer {s} {t} e = (eq_iff s t).0 e

  pub at_roots-IsMode : (peer : String) (m : Mode) → IsMode (at_roots peer (granted peer) m)
  unfolding new_browser
  at_roots-IsMode peer (file_browser s) = elim (Bool-cases (str_eq s.peer_id peer)) [
    | inl e ↦ rw e (inl (rw (same_peer e) (inl here)))
    | inr e ↦ rw e (inl (inl here))
  ]
  at_roots-IsMode peer (file_viewer b v) = inl (inl here)
  at_roots-IsMode peer elsewhere = inl (inl here)

  pub permissions_failed-IsMode :
      (peer e : String) (m : Mode) → IsMode m → IsMode (permissions_failed peer e m)
  permissions_failed-IsMode peer e (file_browser s) h = elim (Bool-cases (str_eq s.peer_id peer)) [
    | inl k ↦ rw k h
    | inr k ↦ rw k h
  ]
  permissions_failed-IsMode peer e (file_viewer b v) h = h
  permissions_failed-IsMode peer e elsewhere h = h

  filled-IsBrowser :
      (path : Text) (r : Result (List DirEntry)) (s : FileBrowserState)
      → IsSharedOf s.peer_id path
      → IsBrowser (filled path r s)
  filled-IsBrowser path (ok es) s h = inl h
  filled-IsBrowser path (err e) s h = inl h

  pub directory_loaded-IsMode :
      (peer : String) (path : Text) (r : Result (List DirEntry)) (m : Mode)
      → IsSharedOf peer path
      → IsMode m
      → IsMode (directory_loaded peer path r m)
  unfolding directory_loaded
  directory_loaded-IsMode peer path r (file_browser s) k h =
      elim (Bool-cases (str_eq s.peer_id peer)) [
        | inl e ↦ rw e (filled-IsBrowser path r s (rw (same_peer e) k))
        | inr e ↦ rw e h
      ]
  directory_loaded-IsMode peer path r (file_viewer b v) k h = h
  directory_loaded-IsMode peer path r elsewhere k h = h

  -- A browser that shows an entry does not wait for its first directory.
  shown-IsShared :
      (e : DirEntry) (s : FileBrowserState)
      → IsChosen e (file_browser s)
      → IsBrowser s
      → IsSharedOf s.peer_id s.path
  shown-IsShared e s k (inl h) = h
  shown-IsShared e s k (inr h) = absurd (subst (Any (λ x. x ≡ e)) h.1 k.0)

  pub entry_activated-IsNext :
      (e : DirEntry) (m : Mode) → IsChosen e m → IsMode m → IsNext (entry_activated e m)
  unfolding entry_activated new_viewer
  entry_activated-IsNext e (file_browser s) k h =
      let target = IsShared-child (granted s.peer_id) s.path e.name (shown-IsShared e s k h) k.1 in
      elim (Bool-cases e.is_dir) [
        | inl d ↦ rw d (open_at-IsNext (join_child_path s.path e.name) s target)
        | inr d ↦ rw d ((h, target), (target, tt))
      ]
  entry_activated-IsNext e (file_viewer b v) k h = (h, tt)
  entry_activated-IsNext e elsewhere k h = (h, tt)

  viewing-IsNext :
      (b : FileBrowserState) (r : FileViewerState × Option ℕ)
      → IsBrowser b
      → IsSharedOf r.0.peer_id r.0.path
      → IsNext (viewing b r)
  viewing-IsNext b (v, none) h k = ((h, k), tt)
  viewing-IsNext b (v, some offset) h k = ((h, k), (k, tt))

  pub viewed-IsNext :
      (b : FileBrowserState) (v : FileViewerState) (r : FileViewerState × Option ℕ)
      → IsSameFile v r.0
      → IsMode (file_viewer b v)
      → IsNext (viewing b r)
  viewed-IsNext b v r e h = viewing-IsNext b r h.0 (
      subst (λ p. IsSharedOf p r.0.path) (sym e.peer)
        (subst (IsSharedOf v.peer_id) (sym e.path) h.1))
