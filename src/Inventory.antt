-- ===== src/Inventory.antt =====
-- The tables of nodes and of their hardware in core/src/db.rs: what `save_node`, `save_cpu`, `save_disk`,
-- `save_interface` and `save_temperature` write, what the `fetch_` functions read, and
-- `remove_stale_cpus`; with them the queries of files. A `u64` is stored as an `i64`: a record has the
-- type of its numbers as a parameter. An `f32` is its bit pattern, and no NaN. Each statement may fail,
-- and then changes nothing.
pub mod Keyed
pub mod Save
pub mod Fetch
pub mod Sysinfo
pub mod Numbers
pub mod Nodes
pub mod Queries
pub mod Stale
pub mod Stored
pub mod Refresh
use puppypeer.Prelude.{
  ℕ, ◌+◌, ◌-◌, ◌%◌, ◌^◌, ◌==◌, ltb, String, str_eq, Bool, true, false, not, ◌&&◌, Option, none,
  some, List, [], ◌∷◌, any, retain, length, Text, text_eq, if◌then◌else◌, Result, ok, err,
}
use puppypeer.Os.{Bytes}
use puppypeer.Rule.{I64, positive, negative}

-- `as i64` of a `u64`; `negative n` is -1 - n.
unfoldable pub as_i64 : ℕ → I64
as_i64 n = if ltb n (2 ^ 63) then positive n else negative (2 ^ 64 - 1 - n)

-- `as u64` and `as u32` of an `i64`.
unfoldable pub as_u64 : I64 → ℕ
as_u64 (positive n) = n % 2 ^ 64
as_u64 (negative n) = 2 ^ 64 - 1 - n % 2 ^ 64

unfoldable pub as_u32 : I64 → ℕ
as_u32 (positive n) = n % 2 ^ 32
as_u32 (negative n) = 2 ^ 32 - 1 - n % 2 ^ 32

pub record NodeOf (W : Type 0) : Type 0 where
  pub id : Bytes
  pub name : String
  pub you : Bool
  pub total_memory : W
  pub system_name : String
  pub kernel_version : String
  pub os_version : String
  pub created_at : ℕ
  pub modified_at : ℕ
  pub accessed_at : ℕ

pub record CpuOf (W : Type 0) : Type 0 where
  pub node_id : Bytes
  pub name : String
  pub usage : ℕ
  pub frequency : W
  pub created_at : ℕ
  pub modified_at : ℕ

pub record DiskOf (W : Type 0) : Type 0 where
  pub node_id : Bytes
  pub name : String
  pub usage : ℕ
  pub total_size : W
  pub total_read_bytes : W
  pub total_written_bytes : W
  pub mount_path : String
  pub filesystem : String
  pub readonly : Bool
  pub removable : Bool
  pub kind : String
  pub created_at : ℕ
  pub modified_at : ℕ

pub record InterfaceOf (W : Type 0) : Type 0 where
  pub node_id : Bytes
  pub name : String
  pub ip : String
  pub mac : String
  pub loopback : Bool
  pub linklocal : Bool
  pub usage : ℕ
  pub total_received : W
  pub created_at : ℕ
  pub modified_at : ℕ

pub record Temperature : Type 0 where
  pub node_id : Bytes
  pub label : String
  pub temperature : Option ℕ
  pub max : Option ℕ
  pub critical : Option ℕ
  pub created_at : ℕ
  pub modified_at : ℕ

-- The same record with its numbers converted.
abbrev pub node_as : {V W : Type 0} → (V → W) → NodeOf V → NodeOf W
node_as f n = record {
  id = n.id;
  name = n.name;
  you = n.you;
  total_memory = f n.total_memory;
  system_name = n.system_name;
  kernel_version = n.kernel_version;
  os_version = n.os_version;
  created_at = n.created_at;
  modified_at = n.modified_at;
  accessed_at = n.accessed_at;
}

abbrev pub cpu_as : {V W : Type 0} → (V → W) → CpuOf V → CpuOf W
cpu_as f c = record {
  node_id = c.node_id;
  name = c.name;
  usage = c.usage;
  frequency = f c.frequency;
  created_at = c.created_at;
  modified_at = c.modified_at;
}

abbrev pub disk_as : {V W : Type 0} → (V → W) → DiskOf V → DiskOf W
disk_as f d = record {
  node_id = d.node_id;
  name = d.name;
  usage = d.usage;
  total_size = f d.total_size;
  total_read_bytes = f d.total_read_bytes;
  total_written_bytes = f d.total_written_bytes;
  mount_path = d.mount_path;
  filesystem = d.filesystem;
  readonly = d.readonly;
  removable = d.removable;
  kind = d.kind;
  created_at = d.created_at;
  modified_at = d.modified_at;
}

abbrev pub interface_as : {V W : Type 0} → (V → W) → InterfaceOf V → InterfaceOf W
interface_as f i = record {
  node_id = i.node_id;
  name = i.name;
  ip = i.ip;
  mac = i.mac;
  loopback = i.loopback;
  linklocal = i.linklocal;
  usage = i.usage;
  total_received = f i.total_received;
  created_at = i.created_at;
  modified_at = i.modified_at;
}

-- An action on a table, which may fail.
abbrev pub Statement : Type 0 → Type 0
Statement Row = List Row → Result (Unit {0}) × List Row

abbrev pub execute : {Row : Type 0} → Option String → (List Row → List Row) → Statement Row
execute none f rows = (ok tt, f rows)
execute (some e) f rows = (err e, rows)
