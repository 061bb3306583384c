-- ===== src/Shell/Panel.antt =====
-- The panel beside the lists of cli/src/shell.rs: `ShellApp::gather_known_addresses` and
-- `ShellApp::peer_panel_content`. `none` is a panic: the selected peer is read by its index.
use puppypeer.Prelude.{
  ℕ, ◌+◌, ◌-◌, ◌==◌, Option, none, some, List, [], ◌∷◌, ◌++◌, length, get_elem?, take, any, map,
  retain, Text, codes, text_eq, ltb, if◌then◌else◌, Result, ok, err,
}
use puppypeer.State.{State, PeerId}
use puppypeer.Wire.{DirEntry, CpuInfo}
use puppypeer.Shell.{selected_entry, PeerCpuView, selected_cpu}
use puppypeer.Shell.Peers.{PeerRow, is_empty, local_listen_multiaddr}
use puppypeer.Shell.Graph.{PeerNode}
use puppypeer.Shell.Format.{Outside, decimal, format_size, format_frequency}
use puppypeer.Shell.App.{
  Mode, menu, peers, peer_actions, peer_cpus, file_browser, create_user, peers_graph, ShellApp,
}

abbrev pub Panel : Type 0
Panel = record { title : Text; lines : List Text }

abbrev pub panel : Text → List Text → Panel
panel title lines = record { title = title; lines = lines }

-- `{idx + 1}: {addr}`, from `idx` on.
unfoldable pub numbered : ℕ → List Text → List Text
numbered idx [] = []
numbered idx (a ∷ rest) = (decimal (idx + 1) ++ codes ": " ++ a) ∷ numbered (idx + 1) rest

abbrev pub dial_lines : List Text → List Text
unfolding numbered
dial_lines [] = codes "Dial Address: unknown" ∷ []
dial_lines (a ∷ []) = (codes "Dial Address: " ++ a) ∷ []
dial_lines (a ∷ b ∷ rest) = codes "Dial Addresses:" ∷ numbered 0 (a ∷ b ∷ rest)

-- The loop that adds the addresses that are not there yet.
unfoldable pub add_known : List Text → List Text → List Text
add_known [] addresses = addresses
add_known (a ∷ rest) addresses =
    add_known rest (if any (λ b. text_eq b a) addresses then addresses else addresses ++ a ∷ [])

abbrev pub line_unless_empty : Text → Text → List Text
line_unless_empty label t = if is_empty t then [] else (label ++ t) ∷ []

abbrev pub more : ℕ → List Text
more n = if ltb 5 n then (codes "(+" ++ decimal (n - 5) ++ codes " more)") ∷ [] else []

module _ (outside : Outside) where
  open outside use {display, parse_peer, show_f32, show_time}
  open display use {peer_text, addr_text}

  abbrev pub addresses_of : Result PeerId → State → List Text
  addresses_of (err e) s = []
  addresses_of (ok p) s =
      map (λ d. addr_text d.multiaddr) (retain (λ d. d.peer_id == p) s.discovered_peers)

  abbrev pub known_addresses : Option State → Text → List Text
  known_addresses none peer_id = []
  known_addresses (some s) peer_id = addresses_of (parse_peer peer_id) s

  unfoldable pub gather_known_addresses : ShellApp → Text → List Text
  gather_known_addresses a peer_id = known_addresses a.latest_state peer_id

  unfoldable pub row_lines : ShellApp → PeerRow → List Text
  unfolding gather_known_addresses add_known
  row_lines a peer =
      (codes "Peer ID: " ++ peer.id)
        ∷ dial_lines (
            add_known (gather_known_addresses a peer.id)
              (if is_empty peer.address then [] else peer.address ∷ []))
      ++ line_unless_empty (codes "Status: ") peer.status

  abbrev pub optional : Text → Option Text → List Text
  optional label none = []
  optional label (some t) = (label ++ t) ∷ []

  abbrev pub time_line : Text → Option ℕ → List Text
  time_line label none = []
  time_line label (some t) = (label ++ show_time t) ∷ []

  abbrev pub entry_lines : Option DirEntry → List Text
  entry_lines none = codes "Directory is empty" ∷ []
  entry_lines (some e) =
      (codes "Name: " ++ e.name)
        ∷ (codes "Type: " ++ (if e.is_dir then codes "directory" else codes "file"))
        ∷ optional (codes "Extension: ") e.extension
      ++ (codes "Size: " ++ format_size outside e.size)
        ∷ time_line (codes "Modified: ") e.modified_at
      ++ time_line (codes "Accessed: ") e.accessed_at

  abbrev pub cpu_line : CpuInfo → Text
  cpu_line c =
      codes c.name
      ++ codes " ("
      ++ show_f32 1 c.usage
      ++ codes "% @ "
      ++ format_frequency outside c.frequency_hz
      ++ codes ")"

  abbrev pub selected_line : Option CpuInfo → List Text
  selected_line none = []
  selected_line (some c) = (codes "Selected: " ++ cpu_line c) ∷ []

  abbrev pub cpu_lines : PeerCpuView → List Text
  cpu_lines v =
      if length v.cpus == 0
      then codes "No CPU data available" ∷ []
      else (codes "Logical CPUs: " ++ decimal (length v.cpus)) ∷ selected_line (selected_cpu v)
        ++ map cpu_line (take 5 v.cpus)
        ++ more (length v.cpus)

  abbrev pub local_lines : State → List Text
  local_lines s =
      (codes "Peer ID: " ++ peer_text s.me)
      ∷ (codes "Dial Address: " ++ local_listen_multiaddr)
      ∷ (if length s.discovered_peers == 0
          then codes "Known peers: none" ∷ []
          else codes "Known peers:"
              ∷ numbered 0 (map (λ d. addr_text d.multiaddr) (take 5 s.discovered_peers))
            ++ more (length s.discovered_peers))

  -- The last arm of the match.
  abbrev pub local_panel : Option State → Panel
  local_panel none = panel (codes "Peer Info") (codes "Peer state unavailable" ∷ [])
  local_panel (some s) = panel (codes "Local Peer") (local_lines s)

  abbrev pub row_panel : ShellApp → Option PeerRow → Option Panel
  row_panel a none = none
  row_panel a (some peer) = some (panel (codes "Selected Peer") (row_lines a peer))

  abbrev pub node_panel : ShellApp → Option PeerNode → Option Panel
  node_panel a none = none
  node_panel a (some node) = some (
      panel (codes "Graph Selection")
        ((codes "Peer ID: " ++ node.id) ∷ dial_lines (gather_known_addresses a node.id)))

  abbrev pub panel_in : Mode → ShellApp → Option Panel
  panel_in (peers v) a =
      if length v.peers == 0
      then some (local_panel a.latest_state)
      else row_panel a (get_elem? v.peers v.selected)
  panel_in (peer_actions s) a = some (panel (codes "Peer Actions") (row_lines a s.menu.peer))
  panel_in (file_browser v) a = some (
      panel (codes "File Browser") (
        (codes "Peer: " ++ v.peer_id)
        ∷ (codes "Path: " ++ v.path)
        ∷ entry_lines (selected_entry v)))
  panel_in (peer_cpus v) a =
      some (panel (codes "CPU Info") ((codes "Peer: " ++ v.peer_id) ∷ cpu_lines v))
  panel_in (peers_graph g) a =
      if length g.peers == 0
      then some (local_panel a.latest_state)
      else node_panel a (get_elem? g.peers g.selected)
  panel_in menu a = some (local_panel a.latest_state)
  panel_in (create_user form) a = some (local_panel a.latest_state)

  unfoldable pub peer_panel_content : ShellApp → Option Panel
  unfolding row_lines gather_known_addresses
  peer_panel_content a = panel_in a.mode a
