-- ===== src/Browser/Confined.antt =====
-- Which directories and files the browser of cli/src/gui.rs asks a peer for, whatever messages come:
-- the invariant of the steps.
use mathlib.Core.Path.{subst}
use puppypeer.Prelude.{
  ◌≡◌, inl, inr, refl, sym, String, Option, none, some, List, [], ◌∷◌, any, All, Any, Text, text_eq,
  Result, ok, err, Bool-cases,
}
use puppypeer.Rule.{Permission}
use puppypeer.Files.{FileChunk}
use puppypeer.Editor.{normalize_path}
use puppypeer.Viewer.{file_read_loaded as viewer_loaded, file_read_more as viewer_more}
use puppypeer.Viewer.Kept.{file_read_loaded-IsSameFile, file_read_more-IsSameFile}
use puppypeer.Browser.{
  permissions_roots, parent_path, new_browser, Mode, file_browser, file_viewer, elsewhere, Ask,
  list_dir, GuiMessage, file_browser_requested, file_browser_permissions_loaded,
  file_browser_loaded, file_entry_activated, file_navigate_up, file_read_loaded, file_read_more,
  file_viewer_back, mode_left, browser_requested, permissions_loaded, navigate_up, viewer_back,
  update, chunk_arrived, read_on,
}
use puppypeer.Browser.Steps.{
  Gui, note, step, IsReached, opened, stepped, IsSharedOf, IsMode, IsNext, IsPossible, HasRoots,
  IsSharedAsk, at_roots-IsMode, directory_loaded-IsMode, entry_activated-IsNext, open_at-IsNext,
  permissions_failed-IsMode, viewed-IsNext,
}
use puppypeer.Browser.Below.{here, IsRoot, IsShared-up}

module _ (granted : String → List Permission) where
  abbrev IsSound : Gui → Type 0
  IsSound g = IsMode granted g.mode × All (IsSharedAsk granted) g.asked

  module _ (normal : (peer : String) → All IsRoot (permissions_roots (granted peer))) where
    navigate_up-IsNext :
        (m : Mode) → HasRoots granted m → IsMode granted m → IsNext granted (navigate_up m)
    unfolding navigate_up
    navigate_up-IsNext (file_browser s) k (inr h) = absurd (k.0 h.0)
    navigate_up-IsNext (file_browser s) k (inl h) =
        elim (Bool-cases (any (text_eq (normalize_path s.path)) s.available_roots)) [
          | inl e ↦ rw e (inl h, tt)
          | inr e ↦ elim (Bool-cases (text_eq (parent_path s.path) s.path)) [
            | inl f ↦ rw (e, f) (inl h, tt)
            | inr f ↦
                rw (e, f)
                  (open_at-IsNext granted (parent_path s.path) s (
                    IsShared-up (granted s.peer_id) (normal s.peer_id) s.path (rw (sym k.1) e) f h))
          ]
        ]
    navigate_up-IsNext (file_viewer b v) k h = (h, tt)
    navigate_up-IsNext elsewhere k h = (h, tt)

    chunk_arrived-IsNext :
        (peer : String) (path : Text) (r : Result FileChunk) (m : Mode)
        → IsMode granted m
        → IsNext granted (chunk_arrived peer path r m)
    chunk_arrived-IsNext peer path r (file_viewer b v) h =
        viewed-IsNext granted b v (viewer_loaded v peer path r)
          (file_read_loaded-IsSameFile v peer path r) h
    chunk_arrived-IsNext peer path r (file_browser s) h = (h, tt)
    chunk_arrived-IsNext peer path r elsewhere h = (h, tt)

    read_on-IsNext : (m : Mode) → IsMode granted m → IsNext granted (read_on m)
    read_on-IsNext (file_viewer b v) h =
        viewed-IsNext granted b v (viewer_more v) (file_read_more-IsSameFile v) h
    read_on-IsNext (file_browser s) h = (h, tt)
    read_on-IsNext elsewhere h = (h, tt)

    viewer_back-IsMode : (m : Mode) → IsMode granted m → IsMode granted (viewer_back m)
    unfolding viewer_back
    viewer_back-IsMode (file_viewer b v) h = h.0
    viewer_back-IsMode (file_browser s) h = tt
    viewer_back-IsMode elsewhere h = tt

    answered-IsShared :
        (peer : String) (path : Text) (asked : List Ask)
        → Any (λ a. a ≡ list_dir peer path) asked
        → All (IsSharedAsk granted) asked
        → IsSharedOf granted peer path
    answered-IsShared peer path [] k h = absurd k
    answered-IsShared peer path (a ∷ rest) (inl e) h = subst (IsSharedAsk granted) e h.0
    answered-IsShared peer path (a ∷ rest) (inr k) h = answered-IsShared peer path rest k h.1

    permissions_loaded-IsNext :
        (peer : String) (perms : List Permission) (m : Mode)
        → perms ≡ granted peer
        → IsNext granted (permissions_loaded peer (ok perms) m)
    unfolding permissions_loaded
    permissions_loaded-IsNext peer perms m e = rw e (at_roots-IsMode granted peer m, (inl here, tt))

    update-IsNext :
        (m : GuiMessage) (g : Gui)
        → IsPossible granted m g
        → IsSound g
        → IsNext granted (update m g.mode)
    unfolding update permissions_loaded browser_requested new_browser
    update-IsNext (file_browser_requested peer) g k h = (inr (refl, refl), (tt, tt))
    update-IsNext (file_browser_permissions_loaded peer (ok perms)) g k h =
        permissions_loaded-IsNext peer perms g.mode k
    update-IsNext (file_browser_permissions_loaded peer (err e)) g k h =
        (permissions_failed-IsMode granted peer e g.mode h.0, tt)
    update-IsNext (file_browser_loaded peer path entries) g k h = (
      directory_loaded-IsMode granted peer path entries g.mode
          (answered-IsShared peer path g.asked k h.1) h.0,
      tt,
    )
    update-IsNext (file_entry_activated e) g k h = entry_activated-IsNext granted e g.mode k h.0
    update-IsNext file_navigate_up g k h = navigate_up-IsNext g.mode k h.0
    update-IsNext (file_read_loaded peer path r) g k h = chunk_arrived-IsNext peer path r g.mode h.0
    update-IsNext file_read_more g k h = read_on-IsNext g.mode h.0
    update-IsNext file_viewer_back g k h = (viewer_back-IsMode g.mode h.0, tt)
    update-IsNext mode_left g k h = (tt, tt)

    next-IsSound :
        (r : Mode × Option Ask) (asked : List Ask)
        → IsNext granted r
        → All (IsSharedAsk granted) asked
        → IsSound (record { mode = r.0; asked = note r.1 asked })
    next-IsSound (m, none) asked h k = (h.0, k)
    next-IsSound (m, some a) asked h k = (h.0, (h.1.0, k))

    reached-IsSound : (g : Gui) → IsReached granted g → IsSound g
    unfolding step
    reached-IsSound g opened = (tt, tt)
    reached-IsSound g (stepped {g = before} m r k) =
        let sound = reached-IsSound before r in
        next-IsSound (update m before.mode) before.asked (update-IsNext m before k sound) sound.1

    -- Let each peer's roots be in normal form, let the permissions that a peer answers be an error or
    -- those that it grants, let each answer about a directory be to a command that was sent, let only
    -- entries be activated that are shown and whose names are names, and let the way up be
    -- taken only from a browser that has its first directory and the peer's roots. Whatever
    -- messages come in whatever order, of peers and modes that change in between: each
    -- directory and each file that a peer is asked for lies at or below one of its roots, or
    -- where its browser starts.
    pub asked-IsShared : (g : Gui) → IsReached granted g → All (IsSharedAsk granted) g.asked
    asked-IsShared g r = (reached-IsSound g r).1
