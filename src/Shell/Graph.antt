-- ===== src/Shell/Graph.antt =====
-- `GraphView` of cli/src/shell.rs: the peers on a circle, one of them selected. The angle at which a
-- peer is drawn is left out.
use puppypeer.Prelude.{ℕ, ◌+◌, ◌-◌, ◌%◌, ◌==◌, List, [], ◌∷◌, length, Text, leb, if◌then◌else◌}

pub record PeerNode : Type 0 where
  pub id : Text

pub record GraphView : Type 0 where
  pub peers : List PeerNode
  pub selected : ℕ

abbrev pub new_graph : GraphView
new_graph = record { peers = []; selected = 0 }

unfoldable pub graph_next : GraphView → GraphView
graph_next g =
    if length g.peers == 0 then g else record g { selected = (g.selected + 1) % length g.peers }

unfoldable pub graph_previous : GraphView → GraphView
graph_previous g =
    if length g.peers == 0
    then g
    else if g.selected == 0
    then record g { selected = length g.peers - 1 }
    else record g { selected = g.selected - 1 }

abbrev pub nodes : List Text → List PeerNode
nodes [] = []
nodes (id ∷ ids) = record { id = id } ∷ nodes ids

unfoldable pub graph_set_peers : GraphView → List Text → GraphView
graph_set_peers g ids = record g {
  peers = nodes ids;
  selected = if leb (length (nodes ids)) g.selected then 0 else g.selected;
}
