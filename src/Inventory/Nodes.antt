-- ===== src/Inventory/Nodes.antt =====
-- A node that `save_node` of core/src/db.rs saves is what `fetch_nodes` shows.
use puppypeer.Prelude.{
  ℕ, ◌^◌, ◌<◌, ◌≡◌, refl, ap, ◌∙◌, true, false, Option, none, some, List, [], ◌∷◌, All, map,
  text_eq, text_eq_iff, text_eq_refl, if◌then◌else◌, arith, ok,
}
use puppypeer.Os.{Bytes}
use puppypeer.Rule.{I64}
use puppypeer.Inventory.{NodeOf, node_as, as_i64, as_u64}
use puppypeer.Inventory.Numbers.{as_u64-as_i64}
use puppypeer.Inventory.Keyed.{
  IsKeyed, upsert, lookup, merged, lookup-upsert, lookup_key, All-upsert,
}
use puppypeer.Inventory.Save.{nodes, save_node}
use puppypeer.Inventory.Fetch.{is_id, fetched, fetch_nodes}
use puppypeer.Inventory.Stale.{decoded}

nodes-IsKeyed : IsKeyed nodes
nodes-IsKeyed = record { key_eq_iff = text_eq_iff; on_conflict-key = λ old new. refl }

-- The node of an id, as it is shown.
abbrev pub node_with : {W : Type 0} → Bytes → List (NodeOf W) → Option (NodeOf W)
node_with id [] = none
node_with id (n ∷ ns) = let rest = node_with id ns in if text_eq n.id id then some n else rest

abbrev pub shown : Option (NodeOf I64) → Option (NodeOf ℕ)
shown none = none
shown (some n) = some (node_as as_u64 n)

-- When a node was first seen.
abbrev pub created : NodeOf ℕ → Option (NodeOf I64) → NodeOf ℕ
created n none = n
created n (some old) = record n { created_at = old.created_at }

shown_lem :
    (id : Bytes) (rows : List (NodeOf I64))
    → node_with id (map (node_as as_u64) rows) ≡ shown (lookup nodes id rows)
shown_lem id [] = refl
shown_lem id (n ∷ ns) = ground (arith, shown_lem id ns)

restored :
    (n : NodeOf ℕ) (o : Option (NodeOf I64))
    → n.total_memory < 2 ^ 64
    → ((c : NodeOf I64) → o ≡ some c → c.id ≡ n.id)
    → shown (some (merged nodes o (node_as as_i64 n))) ≡ some (created n o)
restored n none lt key =
    ap (λ m. some (record n { total_memory = m })) (as_u64-as_i64 n.total_memory lt)
restored n (some old) lt key =
    ap (λ m. some (record n { id = old.id; total_memory = m; created_at = old.created_at }))
      (as_u64-as_i64 n.total_memory lt)
    ∙ ap (λ i. some (record n { id = i; created_at = old.created_at })) (key old refl)

-- If the statements succeed, ids have 16 bytes and the memory is a `u64`: the query of the nodes shows the
-- node that was saved as it was, all the 64 bits of its memory included, but with the time of its first
-- row if it had one; and every other node as before.
pub save_node-fetch_nodes :
    (n : NodeOf ℕ) (rows : List (NodeOf I64))
    → n.total_memory < 2 ^ 64
    → is_id n.id ≡ true
    → All (λ r. is_id r.id ≡ true) rows
    → (l : List (NodeOf ℕ)) × (fetch_nodes none (save_node none n rows).1 ≡ some (ok l))
      × (node_with n.id l ≡ some (created n (lookup nodes n.id rows)))
      × ((id : Bytes) → text_eq n.id id ≡ false → node_with id l ≡ shown (lookup nodes id rows))
unfolding fetch_nodes save_node
save_node-fetch_nodes n rows lt i h =
    let row = node_as as_i64 n in
    let after = upsert nodes row rows in
    let seen : lookup nodes n.id after ≡ some (merged nodes (lookup nodes n.id rows) row) =
      lookup-upsert nodes nodes-IsKeyed n.id row rows ∙ ground (arith, text_eq_refl n.id) in
    (
      map (node_as as_u64) after,
      ap fetched (
          decoded (λ r. r.id) (node_as as_u64) after
            (All-upsert nodes nodes-IsKeyed (λ k. is_id k ≡ true) row rows i h)),
      shown_lem n.id after
          ∙ ap shown seen
          ∙ restored n (lookup nodes n.id rows) lt
              (λ c e. lookup_key nodes nodes-IsKeyed n.id rows c e),
      λ id e.
          shown_lem id after
          ∙ ap shown (lookup-upsert nodes nodes-IsKeyed id row rows ∙ ground (arith, e)),
    )
