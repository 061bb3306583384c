-- ===== src/Shell/Runs.antt =====
-- The loop `run_app` of cli/src/shell.rs: no round panics, and each keeps the interface sound.
use puppypeer.Prelude.{
  ℕ, ◌<◌, ◌≡◌, inl, inr, refl, Bool, true, false, ◌==◌, Option, none, some, List, [], ◌∷◌, length,
  get_elem?, arith, Bool-cases,
}
use puppypeer.Shell.{browser_set_viewport, cpu_set_viewport}
use puppypeer.Shell.Scroll.{BrowserOp, CpuOp, browse-IsShown, watch-IsShown}
use puppypeer.Shell.Peers.{PeerRow}
use puppypeer.Shell.Graph.{PeerNode}
use puppypeer.Shell.Format.{Outside}
use puppypeer.Shell.App.{
  Mode, menu, peers, peer_actions, peer_cpus, file_browser, create_user, peers_graph, ShellApp,
  new_app, Event, Answers,
}
use puppypeer.Shell.Panel.{Panel, row_panel, node_panel, panel_in, peer_panel_content}
use puppypeer.Shell.Refresh.{
  periodic_refresh, viewport_of, fit, render, Round, handle_if, round, run_app,
}
use puppypeer.Shell.Sound.{Yields, InList, get_elem?-Yields, Yields-if, IsMode, IsSound}
use puppypeer.Shell.MenuSteps.{ReadsBack, go-IsSound}
use puppypeer.Shell.Steps.{handle_event-Yields}
use puppypeer.Shell.Refreshed.{bind-Yields, periodic_refresh-Yields}

module _ (outside : Outside) (reads : ReadsBack outside) where
  open outside use {display, parse_peer}

  abbrev Sound : ShellApp → Type 0
  Sound = IsSound display

  fit-IsSound :
      (height : ℕ) (m : Mode) (a : ShellApp)
      → Sound a
      → IsMode display a.latest_state m
      → Sound (fit height m a)
  unfolding cpu_set_viewport browser_set_viewport
  fit-IsSound height (peer_cpus v) a h n =
      go-IsSound outside a (peer_cpus (cpu_set_viewport v (viewport_of height))) a.status_line h
        (watch-IsShown (CpuOp.resize (viewport_of height)) v n.0, n.1, n.2)
  fit-IsSound height (file_browser v) a h n =
      go-IsSound outside a (file_browser (browser_set_viewport v (viewport_of height)))
        a.status_line h (browse-IsShown (BrowserOp.resize (viewport_of height)) v n.0, n.1, n.2)
  fit-IsSound height menu a h n = h
  fit-IsSound height (peers v) a h n = h
  fit-IsSound height (peer_actions p) a h n = h
  fit-IsSound height (create_user form) a h n = h
  fit-IsSound height (peers_graph g) a h n = h

  abbrev Made : Panel → Type 0
  Made p = Unit

  row_panel-Yields :
      (a : ShellApp) (o : Option PeerRow)
      → Yields (λ r. Unit {0}) o
      → Yields Made (row_panel outside a o)
  row_panel-Yields a none h = absurd h
  row_panel-Yields a (some r) h = tt

  node_panel-Yields :
      (a : ShellApp) (o : Option PeerNode)
      → Yields (λ r. Unit {0}) o
      → Yields Made (node_panel outside a o)
  node_panel-Yields a none h = absurd h
  node_panel-Yields a (some r) h = tt

  -- A cursor in a list that is not empty.
  cursor_lt : (len selected : ℕ) → InList len selected → (len == 0) ≡ false → selected < len
  cursor_lt len selected n e = ground arith

  panel_in-Yields :
      (m : Mode) (a : ShellApp)
      → IsMode display a.latest_state m
      → Yields Made (panel_in outside m a)
  panel_in-Yields (peers v) a n = elim (Bool-cases (length v.peers == 0)) [
    | inl e ↦ rw e tt
    | inr e ↦ rw e (
        row_panel-Yields a (get_elem? v.peers v.selected)
          (get_elem?-Yields v.peers v.selected (cursor_lt (length v.peers) v.selected n.cursor e)))
  ]
  panel_in-Yields (peers_graph g) a n = elim (Bool-cases (length g.peers == 0)) [
    | inl e ↦ rw e tt
    | inr e ↦ rw e (
        node_panel-Yields a (get_elem? g.peers g.selected)
          (get_elem?-Yields g.peers g.selected (cursor_lt (length g.peers) g.selected n e)))
  ]
  panel_in-Yields menu a n = tt
  panel_in-Yields (peer_actions p) a n = tt
  panel_in-Yields (peer_cpus v) a n = tt
  panel_in-Yields (file_browser v) a n = tt
  panel_in-Yields (create_user form) a n = tt

  render-Yields :
      (height : ℕ) (has_room : Bool) (a : ShellApp)
      → Sound a
      → Yields (λ r. Sound r.0) (render outside height has_room a)
  unfolding render peer_panel_content
  render-Yields height false a h = fit-IsSound height a.mode a h h.in_mode
  render-Yields height true a h =
      let a' = fit height a.mode a in
      let k = fit-IsSound height a.mode a h h.in_mode in
      bind-Yields Made (λ r. Sound r.0) (panel_in outside a'.mode a') _
        (panel_in-Yields a'.mode a' k.in_mode) (λ p u. k)

  handle_if-Yields :
      (ans : Answers) (o : Option Event) (a : ShellApp)
      → Sound a
      → Yields Sound (handle_if outside ans o a)
  handle_if-Yields ans none a h = h
  handle_if-Yields ans (some e) a h = handle_event-Yields outside reads ans e a h

  pub round-Yields :
      (r : Round) (a : ShellApp) → IsSound display a → Yields (IsSound display) (round outside r a)
  unfolding round
  round-Yields r a h =
      bind-Yields Sound Sound (periodic_refresh outside r.answers a) _
        (periodic_refresh-Yields outside reads r.answers a h)
        (λ b hb.
          bind-Yields (λ x. Sound x.0) Sound (render outside r.height r.has_room b) _
            (render-Yields r.height r.has_room b hb)
            (λ c hc. handle_if-Yields r.answers r.event c.0 hc))

  pub run_app-Yields :
      (rs : List Round) (a : ShellApp)
      → IsSound display a
      → Yields (IsSound display) (run_app outside rs a)
  unfolding run_app
  run_app-Yields [] a h = h
  run_app-Yields (r ∷ rs) a h =
      Yields-if Sound a.should_quit _ _ h
        (bind-Yields Sound Sound (round outside r a) _ (round-Yields r a h) (run_app-Yields rs))

new_app-IsSound : (outside : Outside) (now : ℕ) → IsSound outside.display (new_app now)
unfolding new_app
new_app-IsSound outside now = record { menu_is = refl; menu_cursor = omega arith; in_mode = tt }

-- If libp2p reads back each peer id that it writes: whatever rounds the interface runs, with whatever
-- keys, sizes of the screen, states and answers of the node, it never panics, neither at an index nor
-- at the id of a peer, and every cursor of its menus, lists and views stands in its list.
pub run_app-IsSound :
    (outside : Outside)
    → ReadsBack outside
    → (rounds : List Round) (now : ℕ)
    → Yields (IsSound outside.display) (run_app outside rounds (new_app now))
run_app-IsSound outside reads rounds now =
    run_app-Yields outside reads rounds (new_app now) (new_app-IsSound outside now)
