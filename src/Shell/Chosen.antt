-- ===== src/Shell/Chosen.antt =====
-- The peer that the menu of actions of cli/src/shell.rs is about.
use puppypeer.Prelude.{
  ℕ, suc, ◌≡◌, ◌≢◌, sym, ◌∙◌, ap, true, false, ◌==◌, none, some, List, [], ◌∷◌, length, get_elem?,
  Text, text_eq, text_eq_iff, Bool-cases, Option-cases, inl, inr, arith,
}
use puppypeer.State.{State, PeerId}
use puppypeer.Shell.Peers.{Display, PeerRow, aggregate_peers}
use puppypeer.Shell.Rows.{row, status_of}
use puppypeer.Shell.Aggregate.{IsInjective, status_for, aggregate_peers_lem}
use puppypeer.Shell.Actions.{
  PeerActionsState, new_view, set_peers, new_actions, ensure_selected_peer, position, actions_in,
  peer_actions_state_for, update_peer, new_menu,
}

-- The row of an id, with the place where it stands.
position_lem :
    (id : Text) (xs : List PeerRow) (r : PeerRow)
    → row id xs ≡ some r
    → (i : ℕ) × (position id xs ≡ some i) × (get_elem? xs i ≡ some r)
unfolding position
position_lem id [] r h = absurd (ground arith)
position_lem id (x ∷ xs) r h = elim (Bool-cases (text_eq x.id id)) [
  | inl e ↦ (0, ground arith, ground arith)
  | inr e ↦
      let (i, found, there) = position_lem id xs r (ground arith) in (suc i, ground arith, there)
]

row_id : (id : Text) (xs : List PeerRow) (r : PeerRow) → row id xs ≡ some r → text_eq r.id id ≡ true
row_id id [] r h = absurd (ground arith)
row_id id (x ∷ xs) r h = elim (Bool-cases (text_eq x.id id)) [
  | inl e ↦ ground arith
  | inr e ↦ row_id id xs r (ground arith)
]

nonempty :
    (xs : List PeerRow) (i : ℕ) (r : PeerRow) → get_elem? xs i ≡ some r → (length xs == 0) ≡ false
nonempty [] i r h = absurd (ground arith)
nonempty (x ∷ xs) i r h = ground arith

-- The state of the menu for a row that stands in the list.
chosen : List PeerRow → ℕ → PeerRow → PeerActionsState
chosen rows i r = new_actions (record { peers = rows; selected = i }) r

actions_lem :
    (rows : List PeerRow) (id : Text) (r : PeerRow) (i : ℕ)
    → position id rows ≡ some i
    → get_elem? rows i ≡ some r
    → actions_in (set_peers new_view rows) id ≡ some (chosen rows i r)
unfolding set_peers chosen ensure_selected_peer update_peer new_actions
actions_lem rows id r i p g = ground (arith, nonempty rows i r g)

-- If no two peers are written alike: the menu for a peer that should be shown opens, is about the row
-- that carries the peer's id, and that row is the one selected in the list behind the menu.
pub peer_actions_state_for_lem :
    (display : Display)
    → IsInjective display
    → (s : State) (q : PeerId) → status_for display s q ≢ none
    → (a : PeerActionsState) × (peer_actions_state_for display (some s) (display.peer_text q)
        ≡ some a)
      × (a.menu.peer.id ≡ display.peer_text q)
      × (get_elem? a.view.peers a.view.selected ≡ some a.menu.peer)
unfolding peer_actions_state_for chosen new_actions new_menu
peer_actions_state_for_lem display inj s q shown =
    let rows = aggregate_peers display s in
    let id = display.peer_text q in
    elim (Option-cases (row id rows)) [
      | inl e ↦ absurd (shown (sym ((aggregate_peers_lem display inj s q).1) ∙ ap status_of e))
      | inr (r, e) ↦
          let (i, found, there) = position_lem id rows r e in
          (
            chosen rows i r,
            actions_lem rows id r i found there,
            (text_eq_iff r.id id).0 (row_id id rows r e),
            there,
          )
    ]
