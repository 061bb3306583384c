-- ===== src/Shell/App.antt =====
-- `Mode`, `CreateUserForm` and `ShellApp` of cli/src/shell.rs, the keys, and what the node answers
-- when the interface asks it for a listing, which is an input. Instants and intervals count milliseconds.
use puppypeer.Prelude.{
  ℕ, ◌==◌, Bool, true, false, Option, none, some, List, [], ◌∷◌, Text, codes, if◌then◌else◌, Result,
  String,
}
use puppypeer.State.{State, PeerId}
use puppypeer.Wire.{DirEntry, CpuInfo}
use puppypeer.Shell.{FileBrowserView, PeerCpuView}
use puppypeer.Shell.Actions.{PeersView, PeerActionsState}
use puppypeer.Shell.Graph.{GraphView}

pub data ActiveField : Type 0 where
  username password : ActiveField

pub record CreateUserForm : Type 0 where
  pub username : Text
  pub password : Text
  pub field : ActiveField
  pub submitted : Bool

abbrev pub new_form : CreateUserForm
new_form = record { username = []; password = []; field = ActiveField.username; submitted = false }

pub data Mode : Type 0 where
  menu : Mode
  peers : PeersView → Mode
  peer_actions : PeerActionsState → Mode
  peer_cpus : PeerCpuView → Mode
  file_browser : FileBrowserView → Mode
  create_user : CreateUserForm → Mode
  peers_graph : GraphView → Mode

-- The node behind the interface is left to `Answers`.
pub record ShellApp : Type 0 where
  pub should_quit : Bool
  pub menu_items : List String
  pub menu_selected : Option ℕ
  pub status_line : Text
  pub mode : Mode
  pub last_refresh : ℕ
  pub refresh_interval : ℕ
  pub refresh_count : ℕ
  pub latest_state : Option State

abbrev pub items : List String
items = "peers" ∷ "peers graph" ∷ "create token" ∷ "create user" ∷ "quit" ∷ []

unfoldable pub new_app : ℕ → ShellApp
new_app now = record {
  should_quit = false;
  menu_items = items;
  menu_selected = some 0;
  status_line = codes "Use ↑/↓ to navigate, Enter to select, q to quit";
  mode = menu;
  last_refresh = now;
  refresh_interval = 5000;
  refresh_count = 0;
  latest_state = none;
}

pub data Key : Type 0 where
  char : ℕ → Key
  esc enter up down left right tab back_tab backspace other : Key

pub data Event : Type 0 where
  key : Key → Event
  no_key : Event

-- What the node answers at one moment, and the moment. `snapshot` is its state, if the lock is sound.
pub record Answers : Type 0 where
  pub now : ℕ
  pub snapshot : Option State
  pub list_dir : PeerId → Text → Result (List DirEntry)
  pub list_cpus : PeerId → Result (List CpuInfo)

abbrev pub say : ShellApp → Text → ShellApp
say a t = record a { status_line = t }

abbrev pub go : ShellApp → Mode → Text → ShellApp
go a m t = record a { mode = m; status_line = t }

abbrev pub stay : ShellApp → Mode → ShellApp
stay a m = record a { mode = m }

abbrev pub quit : ShellApp → ShellApp
quit a = record a { should_quit = true }

-- `KeyCode::Char('q')` in every mode but the form.
abbrev pub quit_on : ℕ → ShellApp → ShellApp
quit_on c a = if c == b'q' then quit a else a
