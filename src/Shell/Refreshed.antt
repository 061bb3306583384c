-- ===== src/Shell/Refreshed.antt =====
-- `ShellApp::periodic_refresh` of cli/src/shell.rs keeps the interface sound, and does not panic.
use puppypeer.Prelude.{
  ℕ, ◌-◌, ◌<◌, ◌≢◌, inl, inr, sym, ◌∙◌, ◌==◌, Option, none, some, List, length, map, leb, arith,
  Result, ok, err, Bool-cases,
}
use puppypeer.State.{State, PeerId}
use puppypeer.Wire.{CpuInfo}
use puppypeer.Shell.{PeerCpuView, replace_cpus, mark_refreshed}
use puppypeer.Shell.Scroll.{replace_cpus-IsShown}
use puppypeer.Shell.Peers.{aggregate_peers}
use puppypeer.Shell.Actions.{PeersView, set_peers, PeerActionsState, position}
use puppypeer.Shell.Graph.{graph_set_peers}
use puppypeer.Shell.Format.{Outside}
use puppypeer.Shell.App.{
  Mode, menu, peers, peer_actions, peer_cpus, file_browser, create_user, peers_graph, ShellApp,
  Answers,
}
use puppypeer.Shell.Refresh.{
  ◌>>=◌, follow, refresh_actions, refreshed_cpus, ask_cpus, refresh_cpus, refresh_mode,
  refresh_from, periodic_refresh,
}
use puppypeer.Shell.Sound.{
  Yields, OnSome, graph_set_peers-InList, Yields-if, holds-if, IsListed, IsMode, IsSound,
}
use puppypeer.Shell.MenuSteps.{ReadsBack, go-IsSound, say-IsSound}
use puppypeer.Shell.Reopen.{position-OnSome, ensure_selected_peer-IsMode, set_peers-IsListed}
use puppypeer.Shell.Steps.{IsOk, parse-IsOk, replace_cpus_peer}

pub bind-Yields {ℓ κ} :
    {A : Type ℓ} {B : Type κ} (P : A → Type 0) (Q : B → Type 0) (m : Option A) (f : A → Option B)
    → Yields P m
    → ((a : A) → P a → Yields Q (f a))
    → Yields Q (m >>= f)
bind-Yields P Q none f h k = absurd h
bind-Yields P Q (some a) f h k = k a h

module _ (outside : Outside) (reads : ReadsBack outside) where
  open outside use {display, parse_peer}

  abbrev Sound : ShellApp → Type 0
  Sound = IsSound display

  -- The interface with a newer state.
  abbrev seen : State → ShellApp → ShellApp
  seen s a = record a { latest_state = some s }

  known : (s : State) → some s ≢ none
  known s e = ground (arith, e)

  follow-IsListed :
      (latest : Option State) (o : Option ℕ) (v : PeersView)
      → IsListed display latest v
      → OnSome (λ i. i < length v.peers) o
      → IsListed display latest (follow o v)
  follow-IsListed latest (some i) v l lt = record {
    cursor = inr lt;
    named = l.named;
    known = l.known;
  }
  follow-IsListed latest none v l lt = elim (Bool-cases (length v.peers == 0)) [
    | inl e ↦ rw e l
    | inr e ↦ rw e (
        holds-if (IsListed display latest) (leb (length v.peers) v.selected) _ v
          (record { cursor = inr (ground arith); named = l.named; known = l.known }) l)
  ]

  refresh_actions-IsMode :
      (s : State) (latest : Option State) (p : PeerActionsState)
      → IsMode display latest (peer_actions p)
      → IsMode display (some s) (peer_actions (refresh_actions (aggregate_peers display s) p))
  unfolding refresh_actions
  refresh_actions-IsMode s latest p n =
      let v = set_peers p.view (aggregate_peers display s) in
      ensure_selected_peer-IsMode outside (some s) _ (
        follow-IsListed (some s) (position p.menu.peer.id v.peers) v
            (set_peers-IsListed outside s p.view) (position-OnSome p.menu.peer.id v.peers),
        n.1,
        n.2,
        n.3,
        known s,
      )

  refreshed_cpus-IsSound :
      (ans : Answers) (v : PeerCpuView) (r : Result (List CpuInfo)) (a : ShellApp)
      → Sound a
      → IsMode display a.latest_state (peer_cpus v)
      → Sound (refreshed_cpus outside ans v r a)
  refreshed_cpus-IsSound ans v (ok cpus) a h n =
      go-IsSound outside a (peer_cpus (replace_cpus ans.now v cpus)) _ h (
        replace_cpus-IsShown ans.now v cpus n.0.viewport_pos,
        (n.1.0, n.1.1 ∙ sym (replace_cpus_peer ans.now v cpus)),
        n.2,
      )
  refreshed_cpus-IsSound ans v (err e) a h n =
      go-IsSound outside a (peer_cpus (mark_refreshed ans.now v)) _ h n

  ask_cpus-Yields :
      (ans : Answers) (v : PeerCpuView) (r : Result PeerId) (a : ShellApp)
      → Sound a
      → IsMode display a.latest_state (peer_cpus v)
      → IsOk r
      → Yields Sound (ask_cpus outside ans v r a)
  ask_cpus-Yields ans v (ok p) a h n k = refreshed_cpus-IsSound ans v (ans.list_cpus p) a h n
  ask_cpus-Yields ans v (err e) a h n k = absurd k

  refresh_cpus-Yields :
      (ans : Answers) (v : PeerCpuView) (a : ShellApp)
      → Sound a
      → IsMode display a.latest_state (peer_cpus v)
      → Yields Sound (refresh_cpus outside ans v a)
  unfolding refresh_cpus
  refresh_cpus-Yields ans v a h n =
      Yields-if Sound (leb a.refresh_interval (ans.now - v.last_refresh)) _ _
        (ask_cpus-Yields ans v (parse_peer v.peer_id) a h n
          (parse-IsOk outside reads v.peer_id n.1))
        h

  seen-IsMode :
      (s : State) (latest : Option State) (m : Mode)
      → IsMode display latest m
      → IsMode display (some s) m
  seen-IsMode s latest menu n = tt
  seen-IsMode s latest (peers v) n = record {
    cursor = n.cursor;
    named = n.named;
    known = λ ne. known s;
  }
  seen-IsMode s latest (peer_actions p) n = (
    record { cursor = n.0.cursor; named = n.0.named; known = λ ne. known s },
    n.1,
    n.2,
    n.3,
    known s,
  )
  seen-IsMode s latest (peer_cpus v) n = (n.0, n.1, known s)
  seen-IsMode s latest (file_browser v) n = (n.0, n.1, known s)
  seen-IsMode s latest (create_user form) n = tt
  seen-IsMode s latest (peers_graph g) n = n

  refresh_mode-Yields :
      (ans : Answers) (s : State) (m : Mode) (a : ShellApp)
      → Sound (seen s a)
      → IsMode display (some s) m
      → Yields Sound (refresh_mode outside ans (aggregate_peers display s) m (seen s a))
  unfolding refresh_mode
  refresh_mode-Yields ans s menu a h n = h
  refresh_mode-Yields ans s (peers v) a h n =
      go-IsSound outside (seen s a) (peers (set_peers v (aggregate_peers display s))) _ h
        (set_peers-IsListed outside s v)
  refresh_mode-Yields ans s (peer_actions p) a h n =
      go-IsSound outside (seen s a) (peer_actions (refresh_actions (aggregate_peers display s) p)) _
        h (refresh_actions-IsMode s (some s) p n)
  refresh_mode-Yields ans s (peers_graph g) a h n =
      let ids = map (λ r. r.id) (aggregate_peers display s) in
      go-IsSound outside (seen s a) (peers_graph (graph_set_peers g ids)) _ h
        (graph_set_peers-InList g ids)
  refresh_mode-Yields ans s (peer_cpus v) a h n = refresh_cpus-Yields ans v (seen s a) h n
  refresh_mode-Yields ans s (file_browser v) a h n = h
  refresh_mode-Yields ans s (create_user form) a h n = h

  refresh_from-Yields :
      (ans : Answers) (o : Option State) (a : ShellApp)
      → Sound a
      → Yields Sound (refresh_from outside ans o a)
  refresh_from-Yields ans none a h = say-IsSound outside a _ h
  refresh_from-Yields ans (some s) a h =
      let n = seen-IsMode s a.latest_state a.mode h.in_mode in
      refresh_mode-Yields ans s a.mode a
        (record { menu_is = h.menu_is; menu_cursor = h.menu_cursor; in_mode = n }) n

  pub periodic_refresh-Yields :
      (ans : Answers) (a : ShellApp)
      → IsSound display a
      → Yields (IsSound display) (periodic_refresh outside ans a)
  unfolding periodic_refresh
  periodic_refresh-Yields ans a h =
      Yields-if Sound (leb a.refresh_interval (ans.now - a.last_refresh)) _ _
        (bind-Yields Sound Sound (refresh_from outside ans ans.snapshot a) _
          (refresh_from-Yields ans ans.snapshot a h)
          (λ b k. record { menu_is = k.menu_is; menu_cursor = k.menu_cursor; in_mode = k.in_mode }))
        h
