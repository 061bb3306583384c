-- ===== src/Shell/Sound.antt =====
-- What holds of `ShellApp` of cli/src/shell.rs between two steps: every cursor stands in its list, and
-- every id of a peer can be read. The lists that the views take keep it.
use puppypeer.Prelude.{
  ℕ, suc, zero, ◌<◌, ◌≡◌, ◌≢◌, ◌⊎◌, inl, inr, refl, sym, ◌∙◌, Bool, true, false, Option, none, some,
  List, [], ◌∷◌, length, get_elem?, All, Text, text_eq, if◌then◌else◌, Bool-cases, arith,
}
use puppypeer.State.{State, PeerId, DiscoveredPeer, Connection, Peer}
use puppypeer.Shell.Peers.{
  Display, PeerRow, upsert, insert_row, sort_rows, add_discovered, add_connections, add_peers,
  add_me, aggregate_peers, mark_connected, mark_local, unchanged,
}
use puppypeer.Shell.Rows.{KeepsId}
use puppypeer.Shell.Aggregate.{address_if_none-KeepsId, mark_local-KeepsId}
use puppypeer.Shell.Scroll.{IsBrowserShown, IsCpuShown}
use puppypeer.Shell.Actions.{PeersView, view_next, view_previous, set_peers}
use puppypeer.Shell.Graph.{GraphView, graph_next, graph_previous, graph_set_peers}
use puppypeer.Shell.App.{
  Mode, menu, peers, peer_actions, peer_cpus, file_browser, create_user, peers_graph, ShellApp,
  items,
}

-- There is a result, and it satisfies `P`.
abbrev pub Yields {ℓ} : {A : Type ℓ} → (A → Type 0) → Option A → Type 0
Yields P none = ⊥
Yields P (some a) = P a

-- What is found, if anything is, satisfies `P`.
abbrev pub OnSome {ℓ} : {A : Type ℓ} → (A → Type 0) → Option A → Type 0
OnSome P none = Unit
OnSome P (some a) = P a

pub get_elem?-OnSome {ℓ} :
    {A : Type ℓ} (P : A → Type 0) (xs : List A) (i : ℕ) → All P xs → OnSome P (get_elem? xs i)
get_elem?-OnSome P [] i h = tt
get_elem?-OnSome P (y ∷ ys) zero h = h.0
get_elem?-OnSome P (y ∷ ys) (suc i) h = get_elem?-OnSome P ys i h.1

-- The list is empty and the cursor at its start, or the cursor is the index of an element.
abbrev pub InList : ℕ → ℕ → Type 0
InList len selected = ((len ≡ 0) × (selected ≡ 0)) ⊎ (selected < len)

pub get_elem?-Yields {ℓ} :
    {A : Type ℓ} (xs : List A) (i : ℕ) → i < length xs → Yields (λ x. Unit {0}) (get_elem? xs i)
get_elem?-Yields [] i lt = absurd (omega (arith, lt))
get_elem?-Yields (x ∷ xs) zero lt = tt
get_elem?-Yields (x ∷ xs) (suc i) lt = get_elem?-Yields xs i (omega arith)

view_next-InList :
    (v : PeersView)
    → InList (length v.peers) v.selected
    → InList (length (view_next v).peers) (view_next v).selected
unfolding view_next
view_next-InList v h = ground arith

view_previous-InList :
    (v : PeersView)
    → InList (length v.peers) v.selected
    → InList (length (view_previous v).peers) (view_previous v).selected
unfolding view_previous
view_previous-InList v h = ground arith

pub set_peers-InList :
    (v : PeersView) (rows : List PeerRow) → InList (length rows) (set_peers v rows).selected
unfolding set_peers
set_peers-InList v rows = ground arith

pub graph_next-InList :
    (g : GraphView)
    → InList (length g.peers) g.selected
    → InList (length (graph_next g).peers) (graph_next g).selected
unfolding graph_next
graph_next-InList g h = ground arith

pub graph_previous-InList :
    (g : GraphView)
    → InList (length g.peers) g.selected
    → InList (length (graph_previous g).peers) (graph_previous g).selected
unfolding graph_previous
graph_previous-InList g h = ground arith

pub graph_set_peers-InList :
    (g : GraphView) (ids : List Text)
    → InList (length (graph_set_peers g ids).peers) (graph_set_peers g ids).selected
unfolding graph_set_peers
graph_set_peers-InList g ids = ground arith

module _ {ℓ} {A : Type ℓ} (P : A → Type 0) where
  pub Yields-if :
      (b : Bool) (x y : Option A) → Yields P x → Yields P y → Yields P (if b then x else y)
  Yields-if true x y hx hy = hx
  Yields-if false x y hx hy = hy

  pub holds-if : (b : Bool) (x y : A) → P x → P y → P (if b then x else y)
  holds-if true x y hx hy = hx
  holds-if false x y hx hy = hy

module _ (display : Display) where
  open display use {peer_text}

  -- The text is that of a peer id.
  abbrev pub IsPeerText : Text → Type 0
  IsPeerText t = (p : PeerId) × (peer_text p ≡ t)

  abbrev pub NamePeers : List PeerRow → Type 0
  NamePeers rows = All (λ r. IsPeerText r.id) rows

  NamePeers-upsert :
      (f : PeerRow → PeerRow) (r : PeerRow) (rows : List PeerRow)
      → KeepsId f
      → IsPeerText r.id
      → NamePeers rows
      → NamePeers (upsert f r rows)
  unfolding upsert
  NamePeers-upsert f r [] k n h = (n, tt)
  NamePeers-upsert f r (x ∷ xs) k n h = elim (Bool-cases (text_eq x.id r.id)) [
    | inl e ↦ rw e ((h.0.0, h.0.1 ∙ sym (k x)), h.1)
    | inr e ↦ rw e (h.0, NamePeers-upsert f r xs k n h.1)
  ]

  NamePeers-discovered :
      (ds : List DiscoveredPeer) (rows : List PeerRow)
      → NamePeers rows
      → NamePeers (add_discovered display ds rows)
  unfolding add_discovered
  NamePeers-discovered [] rows h = h
  NamePeers-discovered (d ∷ ds) rows h =
      NamePeers-discovered ds _
        (NamePeers-upsert _ _ rows (address_if_none-KeepsId _) (d.peer_id, refl) h)

  NamePeers-connections :
      (cs : List Connection) (rows : List PeerRow)
      → NamePeers rows
      → NamePeers (add_connections display cs rows)
  unfolding add_connections
  NamePeers-connections [] rows h = h
  NamePeers-connections (c ∷ cs) rows h =
      NamePeers-connections cs _
        (NamePeers-upsert mark_connected _ rows (λ x. refl) (c.peer_id, refl) h)

  NamePeers-peers :
      (ps : List Peer) (rows : List PeerRow)
      → NamePeers rows
      → NamePeers (add_peers display ps rows)
  unfolding add_peers
  NamePeers-peers [] rows h = h
  NamePeers-peers (p ∷ ps) rows h =
      NamePeers-peers ps _ (NamePeers-upsert unchanged _ rows (λ x. refl) (p.id, refl) h)

  NamePeers-insert_row :
      (r : PeerRow) (rows : List PeerRow)
      → IsPeerText r.id
      → NamePeers rows
      → NamePeers (insert_row r rows)
  unfolding insert_row
  NamePeers-insert_row r [] n h = (n, tt)
  NamePeers-insert_row r (x ∷ xs) n h =
      holds-if NamePeers _ (r ∷ x ∷ xs) (x ∷ insert_row r xs) (n, h)
        (h.0, NamePeers-insert_row r xs n h.1)

  NamePeers-sort_rows : (rows : List PeerRow) → NamePeers rows → NamePeers (sort_rows rows)
  unfolding sort_rows
  NamePeers-sort_rows [] h = h
  NamePeers-sort_rows (x ∷ xs) h =
      NamePeers-insert_row x (sort_rows xs) h.0 (NamePeers-sort_rows xs h.1)

  pub NamePeers-aggregate_peers : (s : State) → NamePeers (aggregate_peers display s)
  unfolding aggregate_peers add_me
  NamePeers-aggregate_peers s = NamePeers-sort_rows _ (
      NamePeers-upsert mark_local _ _ mark_local-KeepsId (s.me, refl)
        (NamePeers-peers s.peers _
          (NamePeers-connections s.connections _ (NamePeers-discovered s.discovered_peers [] tt))))

  -- The list of peers is empty, or the state that it was made of is there.
  pub record IsListed (latest : Option State) (v : PeersView) : Type 0 where
    pub cursor : InList (length v.peers) v.selected
    pub named : NamePeers v.peers
    pub known : v.peers ≢ [] → latest ≢ none

  moved-IsListed :
      (latest : Option State) (v w : PeersView)
      → w.peers ≡ v.peers
      → InList (length w.peers) w.selected
      → IsListed latest v
      → IsListed latest w
  moved-IsListed latest v w e c l = record {
    cursor = c;
    named = rw e l.named;
    known = rw e l.known;
  }

  pub view_next-IsListed :
      (latest : Option State) (v : PeersView) → IsListed latest v → IsListed latest (view_next v)
  unfolding view_next
  view_next-IsListed latest v l =
      moved-IsListed latest v (view_next v) (ground arith) (view_next-InList v l.cursor) l

  pub view_previous-IsListed :
      (latest : Option State) (v : PeersView)
      → IsListed latest v
      → IsListed latest (view_previous v)
  unfolding view_previous
  view_previous-IsListed latest v l =
      moved-IsListed latest v (view_previous v) (ground arith) (view_previous-InList v l.cursor) l

  abbrev pub IsMode : Option State → Mode → Type 0
  IsMode latest menu = Unit
  IsMode latest (peers v) = IsListed latest v
  IsMode latest (peer_actions s) =
      IsListed latest s.view
      × IsPeerText s.menu.peer.id
      × (length s.menu.items ≡ 3)
      × (s.menu.selected < 3)
      × (latest ≢ none)
  IsMode latest (peer_cpus v) = IsCpuShown v × IsPeerText v.peer_id × (latest ≢ none)
  IsMode latest (file_browser v) = IsBrowserShown v × IsPeerText v.peer_id × (latest ≢ none)
  IsMode latest (create_user form) = Unit
  IsMode latest (peers_graph g) = InList (length g.peers) g.selected

  pub record IsSound (a : ShellApp) : Type 0 where
    pub menu_is : a.menu_items ≡ items
    pub menu_cursor : Yields (λ i. i < length a.menu_items) a.menu_selected
    pub in_mode : IsMode a.latest_state a.mode
