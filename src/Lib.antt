-- ===== src/Lib.antt =====
-- PuppyPeer: peers that find each other on a network share folders, files and data on their machines.
-- This library models the core of the program (core/src), its terminal interface (cli/src/shell.rs),
-- the noting of hardware (cli/src/sysinfo.rs), and the file browser, the file viewer and the editor of
-- permissions of its graphical interface (cli/src/gui.rs), and states and proves what makes them
-- correct.
--
-- The parts, and how they work together
--
-- A node keeps a `State` (core/src/state.rs) behind a lock: who it is, the rules that it grants to
-- peers, its users, the folders that it shares with everybody, and what it knows of the network.
-- `set_peer_permissions` changes the rules for a peer and notes the peer; `save_changes` writes
-- the noted peers to the table `peer_permissions` (core/src/db.rs), from which `App::new` restores
-- them. The event loop (`App` in core/src/app.rs) takes commands of its own program and events of
-- the network: a command about another peer becomes a request (core/src/p2p.rs), whose sender
-- waits in `pending_requests`; a request of a peer goes to `handle_puppy_peer_req`, which asks
-- `has_fs_access` of the state and then reads or writes files. The terminal interface shows rows of
-- peers that it makes of the state, and lists of files and processors that it asks peers for. Beside
-- that, the scanner (core/src/scan.rs) notes in the database the files below a directory with
-- their hashes, and `save_sysinfo` notes the hardware of the node.
--
-- The files
--
-- - Prelude: names of the libraries, Boolean tests, lists, texts and `Result`.
-- - FilePath (FilePath/Prefix): `std::path` on Unix, as far as the code uses it.
-- - Rule (Rule/Flags): `FolderRule`, `Rule` and `Permission` of core/src/state.rs.
-- - State (State/Access, State/Grants, State/Roster): `State` of core/src/state.rs, one function for
--   each method, under the method's name.
-- - Db (Db/Load, Db/Save): `save_peer_permissions` and `load_peer_permissions` of core/src/db.rs. The
--   table is the list of its rows in the order of their ids. `Faults` says which statements of
--   SQLite fail; a transaction that is not committed leaves the table as it was.
-- - Storage (Storage/Sync, Storage/Restore, Storage/Restart, Storage/Failure): `State::save_changes`,
--   `PuppyPeer::set_peer_permissions`, and the restoring part of `App::new`.
-- - Migration (Migration/Once, Migration/Ladder): `MIGRATIONS` and `run_migrations` of
--   core/src/db.rs, with of each table its name.
-- - Os: the file system as an interface with laws, with links and with writes in the background; Files (Files/Reading, Files/Writing): `read_file`
--   and `write_file` of core/src/app.rs, and their older kin of core/src/p2p.rs.
-- - Grant (Grant/Match, Grant/Roles): `PermissionGrant::allows`, `path_matches` and the grants of
--   roles of core/src/p2p.rs.
-- - Wire: the requests and responses of core/src/p2p.rs.
-- - Node (Node/Entries, Node/Confined, Node/Outcomes): `App::handle_puppy_peer_req` and
--   `App::collect_dir_entries` of core/src/app.rs.
-- - Sharing (Sharing/Effect): `PuppyPeer::share_read_only_folder`, `share_read_write_folder` and
--   `list_granted_permissions` of core/src/app.rs.
-- - Dispatch (Dispatch/Pending, Dispatch/Senders, Dispatch/Commands, Dispatch/Answered,
--   Dispatch/Calls, Dispatch/Reachable): the event loop of core/src/app.rs: `handle_cmd`, `handle_swarm_event`, `handle_agent_event`, and the table
--   of pending requests with the decoders of responses.
-- - WaitGroup (WaitGroup/Wakeups): core/src/wait_group.rs, as atomic actions in any interleaving.
-- - Scan (Scan/Store): core/src/scan.rs, from `sha256_hash` and `handle_path` to `scan`. Scan/Hashing
--   is about the hash; Scan/Locate, Scan/Existing, Scan/Removed, Scan/Stored, Scan/StoredAll,
--   Scan/Files, Scan/Scanned, Scan/Reflects and Scan/Whole are about what the table holds after a scan.
-- - Inventory (Inventory/Save, Inventory/Fetch, Inventory/Queries, Inventory/Sysinfo): the upserts and
--   queries of core/src/db.rs on the tables of nodes, hardware and files, and `save_sysinfo` of
--   cli/src/sysinfo.rs. Inventory/Keyed is the interface of a table with a primary key, which each
--   table fills; Inventory/Numbers, Inventory/Stale, Inventory/Stored, Inventory/Refresh and
--   Inventory/Nodes have the proofs.
-- - Shell (Shell/Scroll, Shell/Peers, Shell/Rows, Shell/Aggregate, Shell/Actions, Shell/Chosen,
--   Shell/Graph): the views of cli/src/shell.rs and `ShellApp::aggregate_peers`. Shell/App has the
--   modes and the state; Shell/MenuKeys, Shell/FormKeys and Shell/Keys have `handle_event`;
--   Shell/Panel, Shell/Format and Shell/Refresh have the panel, the texts, `periodic_refresh` and
--   the loop. Shell/Sound is the invariant, which Shell/MenuSteps, Shell/Reopen, Shell/Steps,
--   Shell/Refreshed and Shell/Runs show to be kept; Shell/Escape and Shell/Typing are about keys.
-- - Viewer (Viewer/Loading, Viewer/Kept): `FileViewerState` of cli/src/gui.rs and the messages that
--   fetch a file chunk by chunk.
-- - Browser (Browser/Paths, Browser/Roots, Browser/Below, Browser/Steps, Browser/Confined): `FileBrowserState` of
--   cli/src/gui.rs, the messages that move it and open the viewer, and the functions on paths and
--   roots. Browser/Steps has the interface as a relation of steps.
-- - Editor (Editor/RoundTrip, Editor/Expiry): `PeerPermissionsState` of cli/src/gui.rs and the messages
--   of the editor of a peer's permissions.
-- - Tests: the theorems at concrete inputs.
--
-- How the code is represented
--
-- A method that changes its object takes the object and returns the new one, with the result where
-- there is one. An error is a value of `Result`, and a panic an outcome of its own. A `u64`, an
-- `i64` and a `u8` are natural numbers or integers; where the code checks or could leave the range,
-- the bound is written out (`checked_add`, the flags below 256, the counter of the wait group
-- modulo 2 ^ 64). A `HashMap` or a `HashSet` is a list with one entry for a key. A peer id and an
-- address are numbers: they are only compared and copied. Each loop of the code runs over a list that
-- it is given; only `load` in Viewer, which follows the viewer from chunk to chunk, takes fuel:
-- one more than the bytes of the file is enough, since each chunk before the last brings a byte.
--
-- Not modelled
--
-- - libp2p, SQLite, `sysinfo`, `mime_guess` and the file system are parameters: the ids that
--   `send_request` returns, the outcomes of `dial`, of SQL statements and of file operations are
--   inputs, and what is relied on of them is a hypothesis that a test instance meets.
-- - Floating point is a parameter of the texts that show it; the digest, the guesses of media types,
--   WalkDir and LIKE are parameters of the scanner.
-- - Paths that are not UTF-8 are outside the scanner's model and the interfaces'. In the rules of a
--   node a path is a list of code points, with a number past them for each sequence of bytes that is
--   not UTF-8, which `to_string_lossy` replaces in the table.
-- - Log lines are left out, and drawing but for what it changes of the views: no code reads them.
-- - The rest of the graphical interface (cli/src/gui.rs) is outside the model, and so are the
--   installer, the updater and the service of cli/src, which hold little but input and output.
pub mod Prelude
pub mod FilePath
pub mod Rule
pub mod Scan
pub mod State
pub mod Db
pub mod Storage
pub mod Migration
pub mod Inventory
pub mod Os
pub mod Files
pub mod Wire
pub mod Grant
pub mod Node
pub mod Sharing
pub mod Dispatch
pub mod WaitGroup
pub mod Shell
pub mod Viewer
pub mod Editor
pub mod Browser
mod Tests
