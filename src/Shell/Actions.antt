-- ===== src/Shell/Actions.antt =====
-- The list of peers and the menu of actions on one of them in cli/src/shell.rs: `PeersView`,
-- `PeerActionsMenu`, `PeerActionsState` and `ShellApp::peer_actions_state_for`.
use puppypeer.Prelude.{
  ℕ, suc, ◌+◌, ◌-◌, ◌%◌, String, ◌==◌, Option, none, some, List, [], ◌∷◌, length, get_elem?, Text,
  text_eq, ltb, leb, if◌then◌else◌,
}
use puppypeer.State.{State}
use puppypeer.Shell.Peers.{Display, PeerRow, aggregate_peers}

pub record PeersView : Type 0 where
  pub peers : List PeerRow
  pub selected : ℕ

abbrev pub new_view : PeersView
new_view = record { peers = []; selected = 0 }

unfoldable pub view_next : PeersView → PeersView
view_next v =
    if length v.peers == 0 then v else record v { selected = (v.selected + 1) % length v.peers }

unfoldable pub view_previous : PeersView → PeersView
view_previous v =
    if length v.peers == 0
    then v
    else if v.selected == 0
    then record v { selected = length v.peers - 1 }
    else record v { selected = v.selected - 1 }

unfoldable pub set_peers : PeersView → List PeerRow → PeersView
set_peers v peers = record v {
  peers = peers;
  selected = if leb (length peers) v.selected then 0 else v.selected;
}

pub record PeerActionsMenu : Type 0 where
  pub peer : PeerRow
  pub items : List String
  pub selected : ℕ

unfoldable pub new_menu : PeerRow → PeerActionsMenu
new_menu peer = record {
  peer = peer;
  items = "cpu info" ∷ "file browser" ∷ "back" ∷ [];
  selected = 0;
}

unfoldable pub menu_next : PeerActionsMenu → PeerActionsMenu
menu_next m =
    if length m.items == 0
    then m
    else if ltb (m.selected + 1) (length m.items)
    then record m { selected = m.selected + 1 }
    else record m { selected = 0 }

unfoldable pub menu_previous : PeerActionsMenu → PeerActionsMenu
menu_previous m =
    if length m.items == 0
    then m
    else if m.selected == 0
    then record m { selected = length m.items - 1 }
    else record m { selected = m.selected - 1 }

unfoldable pub selected_item : PeerActionsMenu → Option String
selected_item m = get_elem? m.items m.selected

unfoldable pub update_peer : PeerActionsMenu → PeerRow → PeerActionsMenu
update_peer m peer = record m { peer = peer }

pub record PeerActionsState : Type 0 where
  pub view : PeersView
  pub menu : PeerActionsMenu

unfoldable pub new_actions : PeersView → PeerRow → PeerActionsState
unfolding new_menu
new_actions view peer = record { view = view; menu = new_menu peer }

abbrev pub with_peer : PeerActionsState → Option PeerRow → PeerActionsState
with_peer s none = s
with_peer s (some peer) = record s { menu = update_peer s.menu peer }

unfoldable pub ensure_selected_peer : PeerActionsState → PeerActionsState
unfolding update_peer
ensure_selected_peer s = with_peer s (get_elem? s.view.peers s.view.selected)

abbrev pub shifted : Option ℕ → Option ℕ
shifted none = none
shifted (some i) = some (suc i)

-- `iter().position(|p| p.id == id)`
unfoldable pub position : Text → List PeerRow → Option ℕ
unfolding text_eq
position id [] = none
position id (x ∷ xs) = let rest = position id xs in if text_eq x.id id then some 0 else shifted rest

abbrev pub select : PeersView → Option ℕ → PeersView
select v none = v
select v (some i) = record v { selected = i }

abbrev pub actions_on : PeersView → Option PeerRow → Option PeerActionsState
actions_on v none = none
actions_on v (some peer) = some (ensure_selected_peer (new_actions v peer))

abbrev pub actions_in : PeersView → Text → Option PeerActionsState
actions_in v peer_id =
    if length v.peers == 0
    then none
    else let chosen = select v (position peer_id v.peers) in
      actions_on chosen (get_elem? chosen.peers chosen.selected)

-- The text of the status line is left out.
unfoldable pub peer_actions_state_for : Display → Option State → Text → Option PeerActionsState
unfolding set_peers position ensure_selected_peer new_actions
peer_actions_state_for display none peer_id = none
peer_actions_state_for display (some state) peer_id =
    actions_in (set_peers new_view (aggregate_peers display state)) peer_id
