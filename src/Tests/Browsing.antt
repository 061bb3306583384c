-- ===== src/Tests/Browsing.antt =====
-- Tests and the witness for the file browser of Browser.antt.
use puppypeer.Prelude.{
  ◌≡◌, refl, inl, arith, String, true, none, some, List, [], ◌∷◌, All, codes, text_eq, ok,
}
use puppypeer.Rule.{Permission, permission, folder, can_read, can_write, can_search}
use puppypeer.Wire.{DirEntry}
use puppypeer.Grant.{trim, skip_while}
use puppypeer.Editor.{normalize_path}
use puppypeer.Browser.{
  permissions_roots, first_path, default_browser_path, insert_root, join_child_path, parent_path,
  before_last_slash, new_browser, file_browser, elsewhere, list_dir, list_permissions,
  file_browser_requested, file_browser_permissions_loaded, file_browser_loaded,
  file_entry_activated, file_navigate_up, update, browser_requested, permissions_loaded,
  directory_loaded, entry_activated, navigate_up,
}
use puppypeer.Browser.Paths.{IsName}
use puppypeer.Browser.Below.{IsRoot}
use puppypeer.Browser.Steps.{Gui, step, IsReached, opened, stepped, IsSharedAsk}
use puppypeer.Browser.Confined.{asked-IsShared}

joins : join_child_path (codes "/srv/") (codes "a") ≡ codes "/srv/a"
unfolding join_child_path text_eq skip_while
joins = refl

parent : parent_path (codes "/srv/a/") ≡ codes "/srv"
unfolding parent_path before_last_slash skip_while
parent = refl

parent_of_top : parent_path (codes "/srv") ≡ codes "/"
unfolding parent_path before_last_slash skip_while
parent_of_top = refl

-- Before the permissions are there, the way up asks for the root of the file system.
up_too_early : (navigate_up (file_browser (new_browser "p" []))).1 ≡ some (list_dir "p" (codes "/"))
unfolding navigate_up parent_path before_last_slash skip_while new_browser normalize_path trim
    text_eq
up_too_early = refl

-- The root of a rule whose path has white space before its last slash is not in normal form.
normal_twice :
    (normalize_path (codes "/a /") ≡ codes "/a ") × (normalize_path (codes "/a ") ≡ codes "/a")
unfolding normalize_path trim skip_while
normal_twice = (refl, refl)

abbrev shares : String → List Permission
shares peer = permission (folder (record { path = codes "/srv"; flags = 1 })) ∷ []

roots_of : (peer : String) → permissions_roots (shares peer) ≡ codes "/srv" ∷ []
unfolding permissions_roots insert_root normalize_path trim skip_while
roots_of peer = refl

shares-IsRoot : (peer : String) → All IsRoot (permissions_roots (shares peer))
unfolding permissions_roots insert_root normalize_path trim skip_while
shares-IsRoot peer = (refl, tt)

abbrev directory : DirEntry
directory = record {
  name = codes "a";
  is_dir = true;
  extension = none;
  mime = none;
  size = 0;
  created_at = none;
  modified_at = none;
  accessed_at = none;
}

a-IsName : IsName (codes "a")
a-IsName = record {
  nonempty = λ e. ground (arith, e);
  plain = (refl, tt);
  real = λ e. ground (arith, e);
}

-- A browser is opened on what the peer shares, fetches the directory, goes down and up again.
abbrev closed : Gui
closed = record { mode = elsewhere; asked = [] }

abbrev requested : Gui
requested = step (file_browser_requested "p") closed

abbrev granted : Gui
granted = step (file_browser_permissions_loaded "p" (ok (shares "p"))) requested

abbrev listed : Gui
listed = step (file_browser_loaded "p" (codes "/srv") (ok (directory ∷ []))) granted

abbrev entered : Gui
entered = step (file_entry_activated directory) listed

abbrev returned : Gui
returned = step file_navigate_up entered

returned-IsReached : IsReached shares returned
unfolding step update browser_requested permissions_loaded directory_loaded entry_activated
    new_browser first_path default_browser_path permissions_roots insert_root can_read can_write
    can_search normalize_path trim skip_while text_eq join_child_path
returned-IsReached =
    stepped {g = entered} file_navigate_up
      (stepped {g = listed} (file_entry_activated directory)
        (stepped {g = granted} (file_browser_loaded "p" (codes "/srv") (ok (directory ∷ [])))
          (stepped {g = requested} (file_browser_permissions_loaded "p" (ok (shares "p")))
            (stepped {g = closed} (file_browser_requested "p") opened tt) refl)
          (inl refl))
        (inl refl, a-IsName))
      (λ e. ground (arith, e), refl)

asked-IsShared_example : All (IsSharedAsk shares) returned.asked
asked-IsShared_example = asked-IsShared shares shares-IsRoot returned returned-IsReached

-- The way up asks for the directory that was left.
asks :
    returned.asked
    ≡ list_dir "p" (codes "/srv")
      ∷ list_dir "p" (codes "/srv/a")
      ∷ list_dir "p" (codes "/srv")
      ∷ list_permissions "p"
      ∷ []
unfolding step update browser_requested permissions_loaded directory_loaded entry_activated
    new_browser first_path default_browser_path permissions_roots insert_root can_read can_write
    can_search normalize_path trim skip_while text_eq join_child_path navigate_up parent_path
    before_last_slash
asks = refl
