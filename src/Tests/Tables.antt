-- ===== src/Tests/Tables.antt =====
-- Witnesses for Inventory.antt.
use puppypeer.Prelude.{
  ℕ, ◌≡◌, ◌≢◌, refl, true, false, String, str_eq, none, some, List, [], ◌∷◌, All, replicate,
  text_eq, ok, err, arith,
}
use puppypeer.Os.{Bytes}
use puppypeer.Rule.{I64, positive}
use puppypeer.Scan.{FileEntry}
use puppypeer.Inventory.{NodeOf, CpuOf}
use puppypeer.Inventory.Keyed.{lookup}
use puppypeer.Inventory.Save.{Name, cpus, save_node}
use puppypeer.Inventory.Fetch.{fetch_cpus, fetch_nodes}
use puppypeer.Inventory.Sysinfo.{CpuReading, refresh_cpus}
use puppypeer.Inventory.Stale.{cpu_named}
use puppypeer.Inventory.Stored.{saved_well, as_read}
use puppypeer.Inventory.Refresh.{refresh_cpus_lem}
use puppypeer.Inventory.Nodes.{node_with, save_node-fetch_nodes}
use puppypeer.Inventory.Queries.{get_file_entry, get_file_entry_lem}

abbrev an_id : Bytes
an_id = replicate 16 1

abbrev old_cpu : String → CpuOf I64
old_cpu name = record {
  node_id = an_id;
  name = name;
  usage = 0;
  frequency = positive 7;
  created_at = 1;
  modified_at = 1;
}

-- One processor that is still there, and one that is gone.
abbrev old_rows : List (CpuOf I64)
old_rows = old_cpu "cpu0" ∷ old_cpu "cpu9" ∷ []

abbrev a_reading : String → CpuReading
a_reading name = record {
  name = name;
  usage = 3;
  frequency = 2400;
  created_at = 5;
  modified_at = 6;
}

abbrev readings : List CpuReading
readings = a_reading "cpu0" ∷ a_reading "cpu1" ∷ []

refresh_cpus_lem_example :
    (after : List (CpuOf I64)) × (refresh_cpus an_id none (saved_well readings) old_rows
      ≡ some after)
    × (l : List (CpuOf ℕ)) × (fetch_cpus none an_id after ≡ some (ok l))
    × All
        (λ r. cpu_named r.name l ≡ some (as_read an_id r (lookup cpus (an_id, r.name) old_rows)))
        readings
    × ((name : String) → All (λ r. str_eq r.name name ≡ false) readings → cpu_named name l ≡ none)
    × ((k : Name) → text_eq k.0 an_id ≡ false → lookup cpus k after ≡ lookup cpus k old_rows)
refresh_cpus_lem_example =
    refresh_cpus_lem an_id readings old_rows refl (refl, (refl, tt)) ((refl, tt), (tt, tt))

-- A node whose memory needs all 64 bits.
abbrev a_node : NodeOf ℕ
a_node = record {
  id = an_id;
  name = "n";
  you = true;
  total_memory = 18446744073709551615;
  system_name = "";
  kernel_version = "";
  os_version = "";
  created_at = 1;
  modified_at = 1;
  accessed_at = 1;
}

save_node-fetch_nodes_example :
    (l : List (NodeOf ℕ)) × (fetch_nodes none (save_node none a_node []).1 ≡ some (ok l))
    × (node_with an_id l ≡ some a_node)
    × ((id : Bytes) → text_eq an_id id ≡ false → node_with id l ≡ none)
save_node-fetch_nodes_example = save_node-fetch_nodes a_node [] (omega arith) refl tt

get_file_entry_lem_example :
    ((others : List FileEntry) → get_file_entry none (1 ∷ []) others ≢ ok none)
    × (message : String) × (get_file_entry none (1 ∷ []) [] ≡ err message)
get_file_entry_lem_example = get_file_entry_lem none (1 ∷ []) [] tt
