-- ===== src/Inventory/Fetch.antt =====
-- The queries of nodes and hardware in core/src/db.rs. `none` is a panic: an id that is not 16 bytes long.
use puppypeer.Prelude.{
  ℕ, ◌==◌, String, Bool, true, false, Option, none, some, List, [], ◌∷◌, retain, length, text_eq,
  if◌then◌else◌, Result, ok, err,
}
use puppypeer.Os.{Bytes}
use puppypeer.Rule.{I64}
use puppypeer.Inventory.{
  as_u64, as_u32, NodeOf, CpuOf, DiskOf, InterfaceOf, node_as, cpu_as, disk_as, interface_as,
}

abbrev pub is_id : Bytes → Bool
is_id id = length id == 16

abbrev pub cons_if {ℓ} : {A : Type ℓ} → Bool → A → Option (List A) → Option (List A)
cons_if false a rest = none
cons_if true a none = none
cons_if true a (some rest) = some (a ∷ rest)

module _ {Row A : Type 0} (id_of : Row → Bytes) (decode : Row → A) where
  -- The rows are decoded one after the other.
  abbrev pub decode_all : List Row → Option (List A)
  decode_all [] = some []
  decode_all (r ∷ rs) = cons_if (is_id (id_of r)) (decode r) (decode_all rs)

abbrev pub fetched : {A : Type 0} → Option (List A) → Option (Result (List A))
fetched none = none
fetched (some l) = some (ok l)

-- A query whose statement may fail.
abbrev pub query : {A : Type 0} → Option String → Option (List A) → Option (Result (List A))
query (some e) l = some (err e)
query none l = fetched l

unfoldable pub fetch_nodes : Option String → List (NodeOf I64) → Option (Result (List (NodeOf ℕ)))
unfolding as_u64
fetch_nodes fault rows = query fault (decode_all (λ n. n.id) (node_as as_u64) rows)

unfoldable pub fetch_cpus :
    Option String → Bytes → List (CpuOf I64) → Option (Result (List (CpuOf ℕ)))
unfolding as_u32
fetch_cpus fault node_id rows =
    query fault
      (decode_all (λ c. c.node_id) (cpu_as as_u32) (retain (λ c. text_eq c.node_id node_id) rows))

unfoldable pub fetch_disks :
    Option String → Bytes → List (DiskOf I64) → Option (Result (List (DiskOf ℕ)))
unfolding as_u64
fetch_disks fault node_id rows =
    query fault
      (decode_all (λ d. d.node_id) (disk_as as_u64) (retain (λ d. text_eq d.node_id node_id) rows))

unfoldable pub fetch_interfaces :
    Option String → Bytes → List (InterfaceOf I64) → Option (Result (List (InterfaceOf ℕ)))
unfolding as_u64
fetch_interfaces fault node_id rows = query fault (
    decode_all (λ i. i.node_id) (interface_as as_u64)
      (retain (λ i. text_eq i.node_id node_id) rows))

abbrev pub first_id : List (NodeOf I64) → Option (Result (Option Bytes))
first_id [] = some (ok none)
first_id (n ∷ ns) = if is_id n.id then some (ok (some n.id)) else none

unfoldable pub get_your_node : Option String → List (NodeOf I64) → Option (Result (Option Bytes))
get_your_node (some e) rows = some (err e)
get_your_node none rows = first_id (retain (λ n. n.you) rows)
