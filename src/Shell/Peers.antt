-- ===== src/Shell/Peers.antt =====
-- The rows of peers of cli/src/shell.rs: `ShellApp::aggregate_peers`, which makes them of a state, and
-- the views `PeersView` and `GraphView` with the menu of actions on a peer. `Display` is what
-- libp2p writes for a peer id and an address. The angles of the graph are left out.
use puppypeer.Prelude.{Bool, true, false, List, [], ◌∷◌, Text, codes, text_eq, if◌then◌else◌}
use puppypeer.State.{State, PeerId, Multiaddr, DiscoveredPeer, Connection, Peer}
use puppypeer.Node.Entries.{text_le}

pub record Display : Type 0 where
  pub peer_text : PeerId → Text
  pub addr_text : Multiaddr → Text

pub record PeerRow : Type 0 where
  pub id : Text
  pub address : Text
  pub status : Text

abbrev pub discovered_status : Text
discovered_status = codes "discovered"

abbrev pub connected_status : Text
connected_status = codes "connected"

abbrev pub local_status : Text
local_status = codes "local"

abbrev pub local_listen_multiaddr : Text
local_listen_multiaddr = codes "/ip4/0.0.0.0:8336"

abbrev pub is_empty : Text → Bool
is_empty [] = true
is_empty (c ∷ cs) = false

-- `rows.entry(id).and_modify(f).or_insert(r)`, on the rows as a map by their ids.
unfoldable pub upsert : (PeerRow → PeerRow) → PeerRow → List PeerRow → List PeerRow
unfolding text_eq
upsert f r [] = r ∷ []
upsert f r (x ∷ xs) = let rest = upsert f r xs in if text_eq x.id r.id then f x ∷ xs else x ∷ rest

abbrev pub address_if_none : Text → PeerRow → PeerRow
address_if_none address r = if is_empty r.address then record r { address = address } else r

abbrev pub mark_connected : PeerRow → PeerRow
mark_connected r = record r { status = connected_status }

abbrev pub mark_local : PeerRow → PeerRow
mark_local r = record (address_if_none local_listen_multiaddr r) { status = local_status }

abbrev pub unchanged : PeerRow → PeerRow
unchanged r = r

-- `sort_by(|a, b| a.id.cmp(&b.id))`
unfoldable pub insert_row : PeerRow → List PeerRow → List PeerRow
unfolding text_le
insert_row r [] = r ∷ []
insert_row r (x ∷ xs) =
    let rest = insert_row r xs in if text_le r.id x.id then r ∷ x ∷ xs else x ∷ rest

unfoldable pub sort_rows : List PeerRow → List PeerRow
unfolding insert_row
sort_rows [] = []
sort_rows (x ∷ xs) = insert_row x (sort_rows xs)

module _ (display : Display) where
  open display use {peer_text, addr_text}

  unfoldable pub add_discovered : List DiscoveredPeer → List PeerRow → List PeerRow
  unfolding upsert
  add_discovered [] rows = rows
  add_discovered (d ∷ ds) rows = add_discovered ds (
      upsert (address_if_none (addr_text d.multiaddr))
        (record {
          id = peer_text d.peer_id;
          address = addr_text d.multiaddr;
          status = discovered_status;
        })
        rows)

  unfoldable pub add_connections : List Connection → List PeerRow → List PeerRow
  unfolding upsert
  add_connections [] rows = rows
  add_connections (c ∷ cs) rows = add_connections cs (
      upsert mark_connected
        (record { id = peer_text c.peer_id; address = []; status = connected_status }) rows)

  unfoldable pub add_peers : List Peer → List PeerRow → List PeerRow
  unfolding upsert
  add_peers [] rows = rows
  add_peers (p ∷ ps) rows =
      add_peers ps
        (upsert unchanged (record { id = peer_text p.id; address = []; status = [] }) rows)

  unfoldable pub add_me : PeerId → List PeerRow → List PeerRow
  unfolding upsert
  add_me me rows =
      upsert mark_local
        (record { id = peer_text me; address = local_listen_multiaddr; status = local_status }) rows

  unfoldable pub aggregate_peers : State → List PeerRow
  unfolding add_discovered add_connections add_peers add_me sort_rows
  aggregate_peers s = sort_rows (
      add_me s.me
        (add_peers s.peers (add_connections s.connections (add_discovered s.discovered_peers []))))
