-- ===== src/Inventory/Sysinfo.antt =====
-- `save_sysinfo` of cli/src/sysinfo.rs, which notes what a node has: the readings of the crate sysinfo are
-- inputs, each with the moments at which `Utc::now` is read for it and the error of the statement
-- that saves it, if it fails. `none` is a panic, by an `unwrap`. The file is not part of a build yet.
use puppypeer.Prelude.{
  ℕ, ◌-◌, ◌%◌, ◌^◌, String, Bool, true, false, Option, none, some, List, [], ◌∷◌, map, Result, ok,
  err,
}
use puppypeer.Os.{Bytes}
use puppypeer.Rule.{I64}
use puppypeer.Inventory.{NodeOf, CpuOf, DiskOf, InterfaceOf, Temperature}
use puppypeer.Inventory.Save.{
  save_node, save_cpu, save_disk, save_interface, save_temperature, remove_stale_cpus,
}

infixl 5 ◌>>=◌
abbrev pub ◌>>=◌ {ℓ κ} : {A : Type ℓ} {B : Type κ} → Option A → (A → Option B) → Option B
none >>= f = none
some a >>= f = f a

-- `unwrap` of what a statement returns.
abbrev pub unwrap : {Row : Type 0} → Result (Unit {0}) × List Row → Option (List Row)
unwrap (ok u, rows) = some rows
unwrap (err e, rows) = none

pub record System : Type 0 where
  pub host_name : Option String
  pub kernel_version : Option String
  pub total_memory : ℕ
  pub system_name : Option String
  pub os_version : Option String
  pub created_at : ℕ
  pub modified_at : ℕ
  pub accessed_at : ℕ

pub record CpuReading : Type 0 where
  pub name : String
  pub usage : ℕ
  pub frequency : ℕ
  pub created_at : ℕ
  pub modified_at : ℕ

pub record DiskReading : Type 0 where
  pub name : String
  pub total_space : ℕ
  pub available_space : ℕ
  pub total_read_bytes : ℕ
  pub total_written_bytes : ℕ
  pub mount_point : String
  pub file_system : String
  pub is_read_only : Bool
  pub kind : String
  pub created_at : ℕ
  pub modified_at : ℕ

pub record NetworkReading : Type 0 where
  pub name : String
  pub ips : List String
  pub mac_address : String
  pub transmitted : ℕ
  pub received : ℕ
  pub created_at : ℕ
  pub modified_at : ℕ

pub record ComponentReading : Type 0 where
  pub label : String
  pub temperature : Option ℕ
  pub max : Option ℕ
  pub critical : Option ℕ
  pub created_at : ℕ
  pub modified_at : ℕ

abbrev pub or_default : Option String → String
or_default none = ""
or_default (some s) = s

pub record Readings : Type 0 where
  pub node_fault : Option String
  pub system : System
  pub cpus : List (Option String × CpuReading)
  pub stale_fault : Option String
  pub disks : List (Option String × DiskReading)
  pub networks : List (Option String × NetworkReading)
  pub components : List (Option String × ComponentReading)

pub record Hardware : Type 0 where
  pub nodes : List (NodeOf I64)
  pub cpus : List (CpuOf I64)
  pub disks : List (DiskOf I64)
  pub interfaces : List (InterfaceOf I64)
  pub temperatures : List Temperature

abbrev pub names_of : List (Option String × CpuReading) → List String
names_of rs = map (λ r. r.1.name) rs

abbrev pub first_ip : List String → String
first_ip [] = ""
first_ip (ip ∷ ips) = ip

abbrev pub or_zero : Option ℕ → ℕ
or_zero none = 0
or_zero (some x) = x

module _ (node_id : Bytes) where
  abbrev pub node_of : System → NodeOf ℕ
  node_of sys = record {
    id = node_id;
    name = or_default sys.host_name;
    you = true;
    total_memory = sys.total_memory;
    system_name = or_default sys.system_name;
    kernel_version = or_default sys.kernel_version;
    os_version = or_default sys.os_version;
    created_at = sys.created_at;
    modified_at = sys.modified_at;
    accessed_at = sys.accessed_at;
  }

  abbrev pub cpu_of : CpuReading → CpuOf ℕ
  cpu_of r = record {
    node_id = node_id;
    name = r.name;
    usage = r.usage;
    frequency = r.frequency % 2 ^ 32;
    created_at = r.created_at;
    modified_at = r.modified_at;
  }

  unfoldable pub save_cpus :
      List (Option String × CpuReading) → List (CpuOf I64) → Option (List (CpuOf I64))
  unfolding save_cpu
  save_cpus [] rows = some rows
  save_cpus ((fault, r) ∷ rs) rows = unwrap (save_cpu fault (cpu_of r) rows) >>= save_cpus rs

  -- The processors: those of now are saved, and then the others go.
  unfoldable pub refresh_cpus :
      Option String
      → List (Option String × CpuReading)
      → List (CpuOf I64)
      → Option (List (CpuOf I64))
  unfolding save_cpus remove_stale_cpus
  refresh_cpus fault rs rows =
      save_cpus rs rows >>= (λ saved. unwrap (remove_stale_cpus fault node_id (names_of rs) saved))

  -- The share of the space that is used, as an `f32`, is the parameter `percent`.
  abbrev pub disk_of : (ℕ → ℕ → ℕ) → DiskReading → DiskOf ℕ
  disk_of percent d = record {
    node_id = node_id;
    name = d.name;
    usage = percent (d.total_space - d.available_space) d.total_space;
    total_size = d.total_space;
    total_read_bytes = d.total_read_bytes;
    total_written_bytes = d.total_written_bytes;
    mount_path = d.mount_point;
    filesystem = d.file_system;
    readonly = d.is_read_only;
    removable = false;
    kind = d.kind;
    created_at = d.created_at;
    modified_at = d.modified_at;
  }

  unfoldable pub save_disks :
      (ℕ → ℕ → ℕ)
      → List (Option String × DiskReading)
      → List (DiskOf I64)
      → Option (List (DiskOf I64))
  unfolding save_disk
  save_disks percent [] rows = some rows
  save_disks percent ((fault, d) ∷ ds) rows =
      unwrap (save_disk fault (disk_of percent d) rows) >>= save_disks percent ds

  -- `as f32` of a count is the parameter `float`.
  abbrev pub interface_of : (ℕ → ℕ) → NetworkReading → InterfaceOf ℕ
  interface_of float n = record {
    node_id = node_id;
    name = n.name;
    ip = first_ip n.ips;
    mac = n.mac_address;
    loopback = false;
    linklocal = false;
    usage = float n.transmitted;
    total_received = n.received;
    created_at = n.created_at;
    modified_at = n.modified_at;
  }

  unfoldable pub save_interfaces :
      (ℕ → ℕ)
      → List (Option String × NetworkReading)
      → List (InterfaceOf I64)
      → Option (List (InterfaceOf I64))
  unfolding save_interface
  save_interfaces float [] rows = some rows
  save_interfaces float ((fault, n) ∷ ns) rows =
      unwrap (save_interface fault (interface_of float n) rows) >>= save_interfaces float ns

  abbrev pub temperature_of : ComponentReading → Temperature
  temperature_of c = record {
    node_id = node_id;
    label = c.label;
    temperature = c.temperature;
    max = some (or_zero c.max);
    critical = c.critical;
    created_at = c.created_at;
    modified_at = c.modified_at;
  }

  unfoldable pub save_temperatures :
      List (Option String × ComponentReading) → List Temperature → Option (List Temperature)
  unfolding save_temperature
  save_temperatures [] rows = some rows
  save_temperatures ((fault, c) ∷ cs) rows =
      unwrap (save_temperature fault (temperature_of c) rows) >>= save_temperatures cs

  unfoldable pub save_sysinfo : (ℕ → ℕ → ℕ) → (ℕ → ℕ) → Readings → Hardware → Option Hardware
  unfolding save_node refresh_cpus save_disks save_interfaces save_temperatures
  save_sysinfo percent float r h = do
    nodes ← unwrap (save_node r.node_fault (node_of r.system) h.nodes)
    cpus ← refresh_cpus r.stale_fault r.cpus h.cpus
    disks ← save_disks percent r.disks h.disks
    interfaces ← save_interfaces float r.networks h.interfaces
    temperatures ← save_temperatures r.components h.temperatures
    some (record {
      nodes = nodes;
      cpus = cpus;
      disks = disks;
      interfaces = interfaces;
      temperatures = temperatures;
    })
