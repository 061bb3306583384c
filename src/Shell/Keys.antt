-- ===== src/Shell/Keys.antt =====
-- `ShellApp::handle_event` of cli/src/shell.rs, with the keys of the menu of actions, of the view of
-- processors and of the file browser. `none` is a panic: an index out of range in the menu, or the
-- `unwrap` of a peer id that cannot be read.
use puppypeer.Prelude.{
  Option, none, some, List, ◌++◌, Text, codes, text_eq, if◌then◌else◌, Result, ok, err, String,
  str_eq, ◌>>=◌,
}
use puppypeer.State.{PeerId}
use puppypeer.Wire.{DirEntry}
use puppypeer.Shell.{
  FileBrowserView, new_browser, browser_next, browser_previous, selected_entry, replace_entries,
  PeerCpuView, new_cpu_view, cpu_next, cpu_previous,
}
use puppypeer.Shell.Actions.{
  PeerActionsState, menu_next, menu_previous, selected_item, peer_actions_state_for,
}
use puppypeer.Shell.Format.{Outside, join_child_path, parent_path, format_size, cpu_summary}
use puppypeer.Shell.App.{
  Mode, menu, peers, peer_actions, peer_cpus, file_browser, create_user, peers_graph, ShellApp, Key,
  char, esc, enter, up, down, left, backspace, Event, key, no_key, Answers, say, go, stay, quit_on,
}
use puppypeer.Shell.MenuKeys.{menu_key, peers_key, return_to_peers, graph_key}
use puppypeer.Shell.FormKeys.{form_key}

module _ (outside : Outside) where
  open outside use {display, parse_peer}

  -- Back from a view of a peer to the actions on it.
  abbrev pub reopened : Text → Option PeerActionsState → ShellApp → ShellApp
  reopened peer_id none a = go a menu (codes "Peer " ++ peer_id ++ codes " not available")
  reopened peer_id (some s) a = go a (peer_actions s) (codes "Peer actions for " ++ s.menu.peer.id)

  unfoldable pub reopen : Text → ShellApp → ShellApp
  reopen peer_id a = reopened peer_id (peer_actions_state_for display a.latest_state peer_id) a

  unfoldable pub create_cpu_view : Answers → Text → Result PeerCpuView
  create_cpu_view ans peer_id = do
    p ← parse_peer peer_id
    cpus ← ans.list_cpus p
    ok (new_cpu_view peer_id ans.now cpus)

  abbrev pub with_context {ℓ} : {A : Type ℓ} → String → Result A → Result A
  with_context message (ok a) = ok a
  with_context message (err e) = err message

  -- Only called for the root directory, which the error names.
  unfoldable pub create_file_browser_view : Answers → Text → Result FileBrowserView
  create_file_browser_view ans peer_id = do
    p ← parse_peer peer_id
    entries ← with_context "listing / locally" (ans.list_dir p (codes "/"))
    ok (new_browser peer_id (codes "/") entries)

  abbrev pub open_cpus : Result PeerCpuView → ShellApp → ShellApp
  open_cpus (ok view) a = go a (peer_cpus view) (cpu_summary outside view)
  open_cpus (err e) a = say a (codes "Failed to fetch CPUs: " ++ codes e)

  abbrev pub open_browser : Text → Result FileBrowserView → ShellApp → ShellApp
  open_browser peer_id (ok view) a = go a (file_browser view) (codes "Browsing / on " ++ peer_id)
  open_browser peer_id (err e) a = say a (codes "Failed to list root directory: " ++ codes e)

  abbrev pub act : Answers → Option String → PeerActionsState → ShellApp → ShellApp
  act ans none s a = a
  act ans (some item) s a =
      if str_eq item "cpu info"
      then open_cpus (create_cpu_view ans s.menu.peer.id) a
      else if str_eq item "file browser"
      then open_browser s.menu.peer.id (create_file_browser_view ans s.menu.peer.id) a
      else if str_eq item "back"
      then return_to_peers s a
      else a

  unfoldable pub actions_key : Answers → Key → PeerActionsState → ShellApp → ShellApp
  unfolding create_cpu_view create_file_browser_view
  actions_key ans esc s a = return_to_peers s a
  actions_key ans down s a = stay a (peer_actions (record s { menu = menu_next s.menu }))
  actions_key ans up s a = stay a (peer_actions (record s { menu = menu_previous s.menu }))
  actions_key ans enter s a = act ans (selected_item s.menu) s a
  actions_key ans (char c) s a = quit_on c a
  actions_key ans _ s a = a

  abbrev pub show_cpu : PeerCpuView → ShellApp → ShellApp
  show_cpu v a = go a (peer_cpus v) (cpu_summary outside v)

  unfoldable pub cpus_key : Key → PeerCpuView → ShellApp → ShellApp
  unfolding reopen
  cpus_key esc v a = reopen v.peer_id a
  cpus_key down v a = show_cpu (cpu_next v) a
  cpus_key up v a = show_cpu (cpu_previous v) a
  cpus_key (char c) v a = quit_on c a
  cpus_key _ v a = a

  abbrev pub listed : Text → FileBrowserView → Result (List DirEntry) → ShellApp → ShellApp
  listed target v (ok entries) a =
      go a (file_browser (replace_entries v target entries))
        (codes "Browsing " ++ target ++ codes " on " ++ v.peer_id)
  listed target v (err e) a = say a (codes "Failed to open " ++ target ++ codes ": " ++ codes e)

  abbrev pub list_at : Answers → Text → FileBrowserView → Result PeerId → ShellApp → Option ShellApp
  list_at ans target v (ok p) a = some (listed target v (ans.list_dir p target) a)
  list_at ans target v (err e) a = none

  -- `list_dir_blocking(peer_id.parse().unwrap(), target)` and what is done with its result.
  unfoldable pub browse_to : Answers → Text → FileBrowserView → ShellApp → Option ShellApp
  browse_to ans target v a = list_at ans target v (parse_peer v.peer_id) a

  abbrev pub open_entry : Answers → Option DirEntry → FileBrowserView → ShellApp → Option ShellApp
  open_entry ans none v a = some a
  open_entry ans (some e) v a =
      if e.is_dir
      then browse_to ans (join_child_path v.path e.name) v a
      else some (
          say a (
            codes "Selected file "
            ++ e.name
            ++ codes " ("
            ++ format_size outside e.size
            ++ codes "). Enter directories to navigate"))

  unfoldable pub open_parent : Answers → FileBrowserView → ShellApp → Option ShellApp
  unfolding browse_to
  open_parent ans v a =
      if text_eq (parent_path v.path) v.path then some a else browse_to ans (parent_path v.path) v a

  unfoldable pub browser_key : Answers → Key → FileBrowserView → ShellApp → Option ShellApp
  unfolding reopen open_parent browse_to
  browser_key ans esc v a = some (reopen v.peer_id a)
  browser_key ans down v a = some (stay a (file_browser (browser_next v)))
  browser_key ans up v a = some (stay a (file_browser (browser_previous v)))
  browser_key ans enter v a = open_entry ans (selected_entry v) v a
  browser_key ans backspace v a = open_parent ans v a
  browser_key ans left v a = open_parent ans v a
  browser_key ans (char c) v a = some (quit_on c a)
  browser_key ans _ v a = some a

  abbrev pub key_in : Answers → Key → Mode → ShellApp → Option ShellApp
  key_in ans k menu a = menu_key k a
  key_in ans k (peers v) a = some (peers_key k v a)
  key_in ans k (peer_actions s) a = some (actions_key ans k s a)
  key_in ans k (peer_cpus v) a = some (cpus_key k v a)
  key_in ans k (file_browser v) a = browser_key ans k v a
  key_in ans k (create_user form) a = some (form_key k form a)
  key_in ans k (peers_graph g) a = some (graph_key k g a)

  unfoldable pub handle_event : Answers → Event → ShellApp → Option ShellApp
  unfolding menu_key peers_key actions_key cpus_key browser_key form_key graph_key
  handle_event ans (key k) a = key_in ans k a.mode a
  handle_event ans no_key a = some a
