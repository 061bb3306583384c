-- ===== src/Inventory/Save.antt =====
-- The upserts of core/src/db.rs, one for each table of nodes and hardware, and `remove_stale_cpus`.
use puppypeer.Prelude.{
  ℕ, String, str_eq, eq_iff, Bool, true, not, ◌&&◌, ◌≡◌, ◌↔◌, refl, ap, ◌∙◌, Option, List, [], ◌∷◌,
  any, retain, text_eq, text_eq_iff, arith,
}
use puppypeer.Os.{Bytes}
use puppypeer.Rule.{I64}
use puppypeer.Inventory.{
  as_i64, NodeOf, CpuOf, DiskOf, InterfaceOf, Temperature, node_as, cpu_as, disk_as, interface_as,
  Statement, execute,
}
use puppypeer.Inventory.Keyed.{Keyed, IsKeyed, upsert}

-- The key of the tables of hardware: the node and a name.
abbrev pub Name : Type 0
Name = Bytes × String

abbrev pub name_eq : Name → Name → Bool
name_eq (n, a) (m, b) = text_eq n m && str_eq a b

-- What ON CONFLICT keeps of a row is its key and `created_at`.
abbrev pub nodes : Keyed (NodeOf I64)
nodes = record {
  Key = Bytes;
  key = λ n. n.id;
  key_eq = text_eq;
  on_conflict = λ old new. record new { id = old.id; created_at = old.created_at };
}

abbrev pub cpus : Keyed (CpuOf I64)
cpus = record {
  Key = Name;
  key = λ c. (c.node_id, c.name);
  key_eq = name_eq;
  on_conflict =
      λ old new. record new { node_id = old.node_id; name = old.name; created_at = old.created_at };
}

abbrev pub disks : Keyed (DiskOf I64)
disks = record {
  Key = Name;
  key = λ d. (d.node_id, d.name);
  key_eq = name_eq;
  on_conflict =
      λ old new. record new { node_id = old.node_id; name = old.name; created_at = old.created_at };
}

abbrev pub interfaces : Keyed (InterfaceOf I64)
interfaces = record {
  Key = Name;
  key = λ i. (i.node_id, i.name);
  key_eq = name_eq;
  on_conflict =
      λ old new. record new { node_id = old.node_id; name = old.name; created_at = old.created_at };
}

abbrev pub temperatures : Keyed Temperature
temperatures = record {
  Key = Name;
  key = λ t. (t.node_id, t.label);
  key_eq = name_eq;
  on_conflict = λ old new. record new {
    node_id = old.node_id;
    label = old.label;
    created_at = old.created_at;
  };
}

unfoldable pub save_node : Option String → NodeOf ℕ → Statement (NodeOf I64)
unfolding as_i64 upsert
save_node fault node = execute fault (upsert nodes (node_as as_i64 node))

unfoldable pub save_cpu : Option String → CpuOf ℕ → Statement (CpuOf I64)
unfolding as_i64 upsert
save_cpu fault cpu = execute fault (upsert cpus (cpu_as as_i64 cpu))

unfoldable pub save_disk : Option String → DiskOf ℕ → Statement (DiskOf I64)
unfolding as_i64 upsert
save_disk fault disk = execute fault (upsert disks (disk_as as_i64 disk))

unfoldable pub save_interface : Option String → InterfaceOf ℕ → Statement (InterfaceOf I64)
unfolding as_i64 upsert
save_interface fault interface = execute fault (upsert interfaces (interface_as as_i64 interface))

unfoldable pub save_temperature : Option String → Temperature → Statement Temperature
unfolding upsert
save_temperature fault temp = execute fault (upsert temperatures temp)

-- `name NOT IN (...)`
abbrev pub is_current : List String → String → Bool
is_current names name = any (λ n. str_eq n name) names

abbrev pub is_of : Bytes → CpuOf I64 → Bool
is_of node_id c = text_eq c.node_id node_id

unfoldable pub remove_stale_cpus : Option String → Bytes → List String → Statement (CpuOf I64)
remove_stale_cpus fault node_id [] = execute fault (retain (λ c. not (is_of node_id c)))
remove_stale_cpus fault node_id (n ∷ ns) =
    execute fault (retain (λ c. not (is_of node_id c && not (is_current (n ∷ ns) c.name))))

pair_eq : (n m : Bytes) (a b : String) → n ≡ m → a ≡ b → ◌≡◌ {A = Name} (n, a) (m, b)
pair_eq n m a b p q = ap (λ x. (x, a)) p ∙ ap (λ y. (m, y)) q

pub name_eq_iff : (a b : Name) → (name_eq a b ≡ true) ↔ (a ≡ b)
name_eq_iff (n, a) (m, b) = (
  λ h.
      pair_eq n m a b ((text_eq_iff n m).0 (ground (arith, h)))
        ((eq_iff a b).0 (ground (arith, h))),
  λ e. ground (arith, (text_eq_iff n m).1 (ap (λ x. x.0) e), (eq_iff a b).1 (ap (λ x. x.1) e)),
)

pub cpus-IsKeyed : IsKeyed cpus
cpus-IsKeyed = record { key_eq_iff = name_eq_iff; on_conflict-key = λ old new. refl }
