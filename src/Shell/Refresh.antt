-- ===== src/Shell/Refresh.antt =====
-- `ShellApp::periodic_refresh`, what `ShellApp::render` changes and reads of the interface, and the
-- loop `run_app` of cli/src/shell.rs, over the rounds that it is given. An instant is read once in
-- each call. `none` is a panic.
use puppypeer.Prelude.{
  ℕ, ◌+◌, ◌-◌, ◌==◌, Bool, true, false, Option, none, some, List, [], ◌∷◌, ◌++◌, length, map, codes,
  ltb, leb, if◌then◌else◌, Result, ok, err,
}
use puppypeer.State.{State, PeerId}
use puppypeer.Wire.{CpuInfo}
use puppypeer.Shell.{
  browser_set_viewport, PeerCpuView, replace_cpus, mark_refreshed, cpu_set_viewport,
}
use puppypeer.Shell.Peers.{PeerRow, aggregate_peers}
use puppypeer.Shell.Actions.{PeersView, set_peers, PeerActionsState, ensure_selected_peer, position}
use puppypeer.Shell.Graph.{graph_set_peers}
use puppypeer.Shell.Format.{Outside, decimal, cpu_summary}
use puppypeer.Shell.App.{
  Mode, menu, peers, peer_actions, peer_cpus, file_browser, create_user, peers_graph, ShellApp,
  Event, Answers, say, go, stay,
}
use puppypeer.Shell.Keys.{handle_event}
use puppypeer.Shell.Panel.{Panel, peer_panel_content}

infixl 5 ◌>>=◌
abbrev pub ◌>>=◌ {ℓ κ} : {A : Type ℓ} {B : Type κ} → Option A → (A → Option B) → Option B
none >>= f = none
some a >>= f = f a

-- The place of the peer of the menu in a new list, or the last place if the selection is past it.
abbrev pub follow : Option ℕ → PeersView → PeersView
follow (some idx) v = record v { selected = idx }
follow none v =
    if length v.peers == 0
    then v
    else if leb (length v.peers) v.selected
    then record v { selected = length v.peers - 1 }
    else v

unfoldable pub refresh_actions : List PeerRow → PeerActionsState → PeerActionsState
unfolding set_peers position ensure_selected_peer
refresh_actions rows s =
    let v = set_peers s.view rows in
    ensure_selected_peer (record s { view = follow (position s.menu.peer.id v.peers) v })

abbrev pub count_refresh : ℕ → ShellApp → ShellApp
count_refresh now a = record a { refresh_count = a.refresh_count + 1; last_refresh = now }

-- The rows that fit into a table of `height` lines.
abbrev pub viewport_of : ℕ → ℕ
viewport_of height = if ltb 1 height then height - 1 else 1

abbrev pub fit : ℕ → Mode → ShellApp → ShellApp
fit height (peer_cpus v) a = stay a (peer_cpus (cpu_set_viewport v (viewport_of height)))
fit height (file_browser v) a = stay a (file_browser (browser_set_viewport v (viewport_of height)))
fit height _ a = a

-- One round of the loop: what the node answers, how large the screen is, and the event that is read.
pub record Round : Type 0 where
  pub answers : Answers
  pub height : ℕ
  pub has_room : Bool
  pub event : Option Event

module _ (outside : Outside) where
  open outside use {display, parse_peer}

  abbrev pub refreshed_cpus : Answers → PeerCpuView → Result (List CpuInfo) → ShellApp → ShellApp
  refreshed_cpus ans v (ok cpus) a =
      let v' = replace_cpus ans.now v cpus in
      go a (peer_cpus v') (codes "Refreshed CPUs — " ++ cpu_summary outside v')
  refreshed_cpus ans v (err e) a =
      go a (peer_cpus (mark_refreshed ans.now v))
        (codes "CPU refresh failed for " ++ v.peer_id ++ codes ": " ++ codes e)

  abbrev pub ask_cpus : Answers → PeerCpuView → Result PeerId → ShellApp → Option ShellApp
  ask_cpus ans v (ok p) a = some (refreshed_cpus ans v (ans.list_cpus p) a)
  ask_cpus ans v (err e) a = none

  unfoldable pub refresh_cpus : Answers → PeerCpuView → ShellApp → Option ShellApp
  refresh_cpus ans v a =
      if leb a.refresh_interval (ans.now - v.last_refresh)
      then ask_cpus ans v (parse_peer v.peer_id) a
      else some a

  unfoldable pub refresh_mode : Answers → List PeerRow → Mode → ShellApp → Option ShellApp
  unfolding refresh_actions refresh_cpus
  refresh_mode ans rows (peers v) a =
      let v' = set_peers v rows in
      some (
        go a (peers v')
          (codes "Auto-refreshed peers (" ++ decimal (length v'.peers) ++ codes " entries)"))
  refresh_mode ans rows (peer_actions s) a =
      let s' = refresh_actions rows s in
      some (
        go a (peer_actions s') (
          codes "Auto-refreshed peer actions ("
          ++ decimal (length s'.view.peers)
          ++ codes " peers)"))
  refresh_mode ans rows (peers_graph g) a =
      let g' = graph_set_peers g (map (λ r. r.id) rows) in
      some (
        go a (peers_graph g')
          (codes "Auto-refreshed graph (" ++ decimal (length g'.peers) ++ codes " nodes)"))
  refresh_mode ans rows (peer_cpus v) a = refresh_cpus ans v a
  refresh_mode ans rows (file_browser v) a = some a
  refresh_mode ans rows (create_user form) a = some a
  refresh_mode ans rows menu a = some a

  abbrev pub refresh_from : Answers → Option State → ShellApp → Option ShellApp
  refresh_from ans none a = some (say a (codes "Auto-refresh failed to lock state"))
  refresh_from ans (some s) a =
      refresh_mode ans (aggregate_peers display s) a.mode (record a { latest_state = some s })

  unfoldable pub periodic_refresh : Answers → ShellApp → Option ShellApp
  unfolding refresh_mode
  periodic_refresh ans a =
      if leb a.refresh_interval (ans.now - a.last_refresh)
      then refresh_from ans ans.snapshot a >>= (λ b. some (count_refresh ans.now b))
      else some a

  -- `render` with `render_peer_info`: the table has `height` lines; the panel is made if it has room.
  unfoldable pub render : ℕ → Bool → ShellApp → Option (ShellApp × Option Panel)
  unfolding peer_panel_content
  render height false a = some (fit height a.mode a, none)
  render height true a =
      let a' = fit height a.mode a in peer_panel_content outside a' >>= (λ p. some (a', some p))

  abbrev pub handle_if : Answers → Option Event → ShellApp → Option ShellApp
  handle_if ans none a = some a
  handle_if ans (some e) a = handle_event outside ans e a

  unfoldable pub round : Round → ShellApp → Option ShellApp
  unfolding periodic_refresh render handle_event
  round r a = do
    b ← periodic_refresh r.answers a
    (c, p) ← render r.height r.has_room b
    handle_if r.answers r.event c

  unfoldable pub run_app : List Round → ShellApp → Option ShellApp
  unfolding round
  run_app [] a = some a
  run_app (r ∷ rs) a = let step = round r a >>= run_app rs in if a.should_quit then some a else step
