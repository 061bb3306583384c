-- ===== src/Shell/Aggregate.antt =====
-- What the rows of `ShellApp::aggregate_peers` of cli/src/shell.rs say of a state.
use puppypeer.Prelude.{
  ◌≡◌, refl, ap, Bool, ◌==◌, ==_iff, Option, none, some, List, [], ◌∷◌, any, Text, text_eq,
  text_eq_iff, Bool-cases, inl, inr, arith, if◌then◌else◌,
}
use puppypeer.State.{State, PeerId, DiscoveredPeer, Connection, Peer}
use puppypeer.Shell.Peers.{
  Display, PeerRow, discovered_status, connected_status, local_status, local_listen_multiaddr,
  upsert, address_if_none, mark_connected, mark_local, unchanged, add_discovered, add_connections,
  add_peers, add_me, aggregate_peers,
}
use puppypeer.Shell.Rows.{
  row, status_of, updated, KeepsId, IsKeyed, row-upsert, IsKeyed-upsert, IsKeyed-sort_rows,
  row-sort_rows,
}

status-upsert :
    (f : PeerRow → PeerRow) (r : PeerRow) (t : Text) (xs : List PeerRow)
    → KeepsId f
    → status_of (row t (upsert f r xs))
      ≡ (if text_eq r.id t then some (updated f r (row t xs)).status else status_of (row t xs))
status-upsert f r t xs k = elim (Bool-cases (text_eq r.id t)) [
  | inl e ↦ ground (arith, row-upsert f r t xs k, ap (λ u. row u xs) ((text_eq_iff r.id t).0 e))
  | inr e ↦ ground (arith, row-upsert f r t xs k)
]

abbrev or_else : Option Text → Option Text → Option Text
or_else none o = o
or_else (some t) o = some t

abbrev some_if : Bool → Text → Option Text
some_if b t = if b then some t else none

pub address_if_none-KeepsId : (a : Text) → KeepsId (address_if_none a)
address_if_none-KeepsId a x = ground arith

pub mark_local-KeepsId : KeepsId mark_local
mark_local-KeepsId x = ground arith

module _ (display : Display) where
  open display use {peer_text, addr_text}

  -- No two peers are written alike.
  abbrev pub IsInjective : Type 0
  IsInjective = (p q : PeerId) → peer_text p ≡ peer_text q → p ≡ q

  module _ (inj : IsInjective) (q : PeerId) where
    text_test : (p : PeerId) → text_eq (peer_text p) (peer_text q) ≡ (p == q)
    text_test p = elim (Bool-cases (p == q)) [
      | inl e ↦
          ground
            (arith, (text_eq_iff (peer_text p) (peer_text q)).1 (ap peer_text ((==_iff p q).0 e)))
      | inr e ↦ elim (Bool-cases (text_eq (peer_text p) (peer_text q))) [
        | inl x ↦
            ground (arith, (==_iff p q).1 (inj p q ((text_eq_iff (peer_text p) (peer_text q)).0 x)))
        | inr x ↦ ground arith
      ]
    ]

    -- The status in the row of `q`.
    abbrev status : List PeerRow → Option Text
    status rows = status_of (row (peer_text q) rows)

    discovered_lem :
        (ds : List DiscoveredPeer) (rows : List PeerRow)
        → status (add_discovered display ds rows)
          ≡ or_else (status rows) (some_if (any (λ d. d.peer_id == q) ds) discovered_status)
    unfolding add_discovered
    discovered_lem [] rows = ground arith
    discovered_lem (d ∷ ds) rows =
        let r : PeerRow = record {
          id = peer_text d.peer_id;
          address = addr_text d.multiaddr;
          status = discovered_status;
        } in
        ground (
          arith,
          discovered_lem ds (upsert (address_if_none (addr_text d.multiaddr)) r rows),
          status-upsert (address_if_none (addr_text d.multiaddr)) r (peer_text q) rows
              (address_if_none-KeepsId (addr_text d.multiaddr)),
          text_test d.peer_id,
        )

    connections_lem :
        (cs : List Connection) (rows : List PeerRow)
        → status (add_connections display cs rows)
          ≡ (if any (λ c. c.peer_id == q) cs then some connected_status else status rows)
    unfolding add_connections
    connections_lem [] rows = refl
    connections_lem (c ∷ cs) rows =
        let r : PeerRow = record {
          id = peer_text c.peer_id;
          address = [];
          status = connected_status;
        } in
        ground (
          arith,
          connections_lem cs (upsert mark_connected r rows),
          status-upsert mark_connected r (peer_text q) rows (λ x. refl),
          text_test c.peer_id,
        )

    peers_lem :
        (ps : List Peer) (rows : List PeerRow)
        → status (add_peers display ps rows)
          ≡ or_else (status rows) (some_if (any (λ p. p.id == q) ps) [])
    unfolding add_peers
    peers_lem [] rows = ground arith
    peers_lem (p ∷ ps) rows =
        let r : PeerRow = record { id = peer_text p.id; address = []; status = [] } in
        ground (
          arith,
          peers_lem ps (upsert unchanged r rows),
          status-upsert unchanged r (peer_text q) rows (λ x. refl),
          text_test p.id,
        )

    me_lem :
        (me : PeerId) (rows : List PeerRow)
        → status (add_me display me rows) ≡ (if me == q then some local_status else status rows)
    unfolding add_me
    me_lem me rows =
        let r : PeerRow = record {
          id = peer_text me;
          address = local_listen_multiaddr;
          status = local_status;
        } in
        ground
          (arith, status-upsert mark_local r (peer_text q) rows mark_local-KeepsId, text_test me)

  IsKeyed-discovered :
      (ds : List DiscoveredPeer) (rows : List PeerRow)
      → IsKeyed rows
      → IsKeyed (add_discovered display ds rows)
  unfolding add_discovered
  IsKeyed-discovered [] rows h = h
  IsKeyed-discovered (d ∷ ds) rows h =
      IsKeyed-discovered ds _
        (IsKeyed-upsert _ _ rows (address_if_none-KeepsId (addr_text d.multiaddr)) h)

  IsKeyed-connections :
      (cs : List Connection) (rows : List PeerRow)
      → IsKeyed rows
      → IsKeyed (add_connections display cs rows)
  unfolding add_connections
  IsKeyed-connections [] rows h = h
  IsKeyed-connections (c ∷ cs) rows h =
      IsKeyed-connections cs _ (IsKeyed-upsert mark_connected _ rows (λ x. refl) h)

  IsKeyed-peers :
      (ps : List Peer) (rows : List PeerRow) → IsKeyed rows → IsKeyed (add_peers display ps rows)
  unfolding add_peers
  IsKeyed-peers [] rows h = h
  IsKeyed-peers (p ∷ ps) rows h = IsKeyed-peers ps _ (IsKeyed-upsert unchanged _ rows (λ x. refl) h)

  -- The rows before they are sorted.
  abbrev collected : State → List PeerRow
  collected s = add_me display s.me (
      add_peers display s.peers
        (add_connections display s.connections (add_discovered display s.discovered_peers [])))

  IsKeyed-collected : (s : State) → IsKeyed (collected s)
  IsKeyed-collected s =
      unfold add_me in
      IsKeyed-upsert mark_local _ _ mark_local-KeepsId (
        IsKeyed-peers s.peers _
          (IsKeyed-connections s.connections _ (IsKeyed-discovered s.discovered_peers [] tt)))

  -- The status that a peer should be shown with, if it should be shown.
  abbrev pub status_for : State → PeerId → Option Text
  status_for s q =
      if s.me == q
      then some local_status
      else if any (λ c. c.peer_id == q) s.connections
      then some connected_status
      else if any (λ d. d.peer_id == q) s.discovered_peers
      then some discovered_status
      else some_if (any (λ p. p.id == q) s.peers) []

  -- If no two peers are written alike, the aggregated rows have distinct ids, and hold a row for
  -- exactly the node itself and the peers that are connected, discovered or listed, with the
  -- status of the first of these that applies.
  pub aggregate_peers_lem :
      IsInjective
      → (s : State) (q : PeerId)
      → IsKeyed (aggregate_peers display s)
        × (status_of (row (peer_text q) (aggregate_peers display s)) ≡ status_for s q)
  unfolding aggregate_peers
  aggregate_peers_lem inj s q = (
    IsKeyed-sort_rows (collected s) (IsKeyed-collected s),
    ground (
      arith,
      row-sort_rows (peer_text q) (collected s) (IsKeyed-collected s),
      me_lem inj q s.me (
          add_peers display s.peers
            (add_connections display s.connections (add_discovered display s.discovered_peers []))),
      peers_lem inj q s.peers
          (add_connections display s.connections (add_discovered display s.discovered_peers [])),
      connections_lem inj q s.connections (add_discovered display s.discovered_peers []),
      discovered_lem inj q s.discovered_peers [],
    ),
  )
