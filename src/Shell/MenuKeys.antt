-- ===== src/Shell/MenuKeys.antt =====
-- The keys of the menu, of the list of peers and of the graph of `ShellApp::handle_event` in
-- cli/src/shell.rs, with `next`, `previous` and `activate`. `none` is a panic: an index out of range.
use puppypeer.Prelude.{
  ℕ, ◌+◌, ◌-◌, ◌==◌, Option, none, some, ◌++◌, length, get_elem?, codes, leb, if◌then◌else◌, String,
  str_eq,
}
use puppypeer.Shell.Peers.{PeerRow}
use puppypeer.Shell.Actions.{
  PeersView, new_view, view_next, view_previous, PeerActionsState, new_actions,
}
use puppypeer.Shell.Graph.{GraphView, new_graph, graph_next, graph_previous}
use puppypeer.Shell.App.{
  new_form, menu, peers, peer_actions, create_user, peers_graph, ShellApp, Key, char, esc, enter,
  up, down, left, right, say, go, stay, quit, quit_on,
}

abbrev pub index_next : ℕ → Option ℕ → ℕ
index_next len none = 0
index_next len (some i) = if leb (len - 1) i then 0 else i + 1

abbrev pub index_previous : ℕ → Option ℕ → ℕ
index_previous len none = 0
index_previous len (some i) = if i == 0 then len - 1 else i - 1

unfoldable pub app_next : ShellApp → ShellApp
app_next a = record a { menu_selected = some (index_next (length a.menu_items) a.menu_selected) }

unfoldable pub app_previous : ShellApp → ShellApp
app_previous a = record a {
  menu_selected = some (index_previous (length a.menu_items) a.menu_selected);
}

abbrev pub choose : String → ShellApp → ShellApp
choose item a =
    if str_eq item "quit"
    then quit a
    else if str_eq item "peers"
    then go a (peers new_view) (codes "Peers view. Auto-refresh every 5s. ↑/↓ navigate, Esc back")
    else if str_eq item "create token"
    then say a (codes "Token created (placeholder)")
    else if str_eq item "create user"
    then go a (create_user new_form)
        (codes "Enter username/password, Tab to switch field, Enter to submit, Esc to cancel")
    else if str_eq item "peers graph"
    then go a (peers_graph new_graph)
        (codes "Graph view. Auto-refresh every 5s. ←/→ select, Esc back")
    else a

abbrev pub choose_at : Option String → ShellApp → Option ShellApp
choose_at none a = none
choose_at (some item) a = some (choose item a)

abbrev pub chosen_by : Option ℕ → ShellApp → Option ShellApp
chosen_by none a = some a
chosen_by (some i) a = choose_at (get_elem? a.menu_items i) a

-- Only called in the menu.
unfoldable pub activate : ShellApp → Option ShellApp
activate a = chosen_by a.menu_selected a

unfoldable pub menu_key : Key → ShellApp → Option ShellApp
unfolding app_next app_previous activate
menu_key (char c) a = some (quit_on c a)
menu_key down a = some (app_next a)
menu_key up a = some (app_previous a)
menu_key enter a = activate a
menu_key _ a = some a

abbrev pub back_to_menu : ShellApp → ShellApp
back_to_menu a = go a menu (codes "Back to menu")

abbrev pub open_actions : PeersView → Option PeerRow → ShellApp → ShellApp
open_actions v none a = a
open_actions v (some peer) a =
    go a (peer_actions (new_actions v peer))
      (codes "Peer actions for " ++ peer.id ++ codes ". ↑/↓ navigate, Enter select, Esc back")

unfoldable pub peers_key : Key → PeersView → ShellApp → ShellApp
peers_key esc v a = back_to_menu a
peers_key down v a = stay a (peers (view_next v))
peers_key up v a = stay a (peers (view_previous v))
peers_key enter v a = open_actions v (get_elem? v.peers v.selected) a
peers_key (char c) v a = quit_on c a
peers_key _ v a = a

-- The list behind the menu, and the menu that is left.
abbrev pub take_view : PeerActionsState → PeersView × PeerActionsState
take_view s = (s.view, record s { view = new_view })

abbrev pub return_to_peers : PeerActionsState → ShellApp → ShellApp
return_to_peers s a =
    go a (peers (take_view s).0) (codes "Returning from actions for " ++ s.menu.peer.id)

unfoldable pub graph_key : Key → GraphView → ShellApp → ShellApp
graph_key esc g a = back_to_menu a
graph_key left g a = stay a (peers_graph (graph_previous g))
graph_key right g a = stay a (peers_graph (graph_next g))
graph_key (char c) g a = quit_on c a
graph_key _ g a = a
