-- ===== src/Shell/Reopen.antt =====
-- `ShellApp::peer_actions_state_for` of cli/src/shell.rs opens a sound menu of actions, or none.
use puppypeer.Prelude.{
  ℕ, suc, ◌<◌, ◌≢◌, inr, refl, ◌==◌, Option, none, some, List, [], ◌∷◌, length, get_elem?, Text,
  text_eq, arith,
}
use puppypeer.State.{State}
use puppypeer.Shell.Peers.{PeerRow, aggregate_peers}
use puppypeer.Shell.Actions.{
  PeersView, new_view, set_peers, PeerActionsState, new_actions, new_menu, update_peer, shifted,
  select, with_peer, ensure_selected_peer, position, actions_on, actions_in, peer_actions_state_for,
}
use puppypeer.Shell.Format.{Outside}
use puppypeer.Shell.App.{Mode, menu, peer_actions, ShellApp}
use puppypeer.Shell.Keys.{reopened, reopen}
use puppypeer.Shell.Sound.{
  OnSome, get_elem?-OnSome, set_peers-InList, holds-if, IsPeerText, NamePeers-aggregate_peers,
  IsListed, IsMode, IsSound,
}
use puppypeer.Shell.MenuSteps.{go-IsSound}

-- A position is an index of the list.
pub position-OnSome :
    (id : Text) (rows : List PeerRow) → OnSome (λ i. i < length rows) (position id rows)
unfolding position
position-OnSome id [] = tt
position-OnSome id (x ∷ xs) =
    holds-if (OnSome (λ i. i < suc (length xs))) (text_eq x.id id) (some 0) _ (omega arith)
      (shifted-OnSome (length xs) (position id xs) (position-OnSome id xs))
  where
    shifted-OnSome :
        (n : ℕ) (o : Option ℕ) → OnSome (λ i. i < n) o → OnSome (λ i. i < suc n) (shifted o)
    shifted-OnSome n none h = tt
    shifted-OnSome n (some i) h = omega arith

module _ (outside : Outside) where
  open outside use {display, parse_peer}

  abbrev Sound : ShellApp → Type 0
  Sound = IsSound display

  abbrev SoundIn : Option State → Mode → Type 0
  SoundIn = IsMode display

  with_peer-IsMode :
      (latest : Option State) (s : PeerActionsState) (o : Option PeerRow)
      → SoundIn latest (peer_actions s)
      → OnSome (λ r. IsPeerText display r.id) o
      → SoundIn latest (peer_actions (with_peer s o))
  unfolding update_peer
  with_peer-IsMode latest s none h n = h
  with_peer-IsMode latest s (some r) h n = (h.0, n, h.2, h.3, h.4)

  pub ensure_selected_peer-IsMode :
      (latest : Option State) (s : PeerActionsState)
      → SoundIn latest (peer_actions s)
      → SoundIn latest (peer_actions (ensure_selected_peer s))
  unfolding ensure_selected_peer
  ensure_selected_peer-IsMode latest s h =
      with_peer-IsMode latest s (get_elem? s.view.peers s.view.selected) h
        (get_elem?-OnSome _ s.view.peers s.view.selected h.0.named)

  actions_on-OnSome :
      (latest : Option State) (v : PeersView) (o : Option PeerRow)
      → IsListed display latest v
      → latest ≢ none
      → OnSome (λ r. IsPeerText display r.id) o
      → OnSome (λ s. SoundIn latest (peer_actions s)) (actions_on v o)
  unfolding new_actions new_menu
  actions_on-OnSome latest v none l k n = tt
  actions_on-OnSome latest v (some r) l k n =
      ensure_selected_peer-IsMode latest (new_actions v r) (l, n, refl, omega arith, k)

  select-IsListed :
      (latest : Option State) (v : PeersView) (o : Option ℕ)
      → IsListed display latest v
      → OnSome (λ i. i < length v.peers) o
      → IsListed display latest (select v o)
  select-IsListed latest v none l lt = l
  select-IsListed latest v (some i) l lt = record {
    cursor = inr lt;
    named = l.named;
    known = l.known;
  }

  actions_in-OnSome :
      (latest : Option State) (v : PeersView) (id : Text)
      → IsListed display latest v
      → latest ≢ none
      → OnSome (λ s. SoundIn latest (peer_actions s)) (actions_in v id)
  actions_in-OnSome latest v id l k =
      let w = select v (position id v.peers) in
      let n = select-IsListed latest v (position id v.peers) l (position-OnSome id v.peers) in
      holds-if (OnSome (λ s. SoundIn latest (peer_actions s))) (length v.peers == 0) none _ tt (
        actions_on-OnSome latest w (get_elem? w.peers w.selected) n k
          (get_elem?-OnSome _ w.peers w.selected n.named))

  pub set_peers-IsListed :
      (s : State) (v : PeersView)
      → IsListed display (some s) (set_peers v (aggregate_peers display s))
  unfolding set_peers
  set_peers-IsListed s v = record {
    cursor = set_peers-InList v (aggregate_peers display s);
    named = NamePeers-aggregate_peers display s;
    known = λ ne e. ground (arith, e);
  }

  peer_actions_state_for-OnSome :
      (latest : Option State) (id : Text)
      → OnSome (λ s. SoundIn latest (peer_actions s)) (peer_actions_state_for display latest id)
  unfolding peer_actions_state_for
  peer_actions_state_for-OnSome none id = tt
  peer_actions_state_for-OnSome (some s) id =
      actions_in-OnSome (some s) (set_peers new_view (aggregate_peers display s)) id
        (set_peers-IsListed s new_view) (λ e. ground (arith, e))

  reopened-IsSound :
      (id : Text) (o : Option PeerActionsState) (a : ShellApp)
      → Sound a
      → OnSome (λ s. SoundIn a.latest_state (peer_actions s)) o
      → Sound (reopened outside id o a)
  reopened-IsSound id none a h n = go-IsSound outside a menu _ h tt
  reopened-IsSound id (some s) a h n = go-IsSound outside a (peer_actions s) _ h n

  pub reopen-IsSound : (id : Text) (a : ShellApp) → Sound a → Sound (reopen outside id a)
  unfolding reopen
  reopen-IsSound id a h =
      reopened-IsSound id _ a h (peer_actions_state_for-OnSome a.latest_state id)
