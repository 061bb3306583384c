-- ===== src/Migration.antt =====
-- `run_migrations` of core/src/db.rs. A database is its tables, of which only the names play a part
-- here, and the ids in its table `migrations`; indexes are made `if not exists` and do not fail.
-- `Outage` says what fails: the listing of the applied migrations (the table that is made if it does
-- not exist, the statement, the query), rows of it that cannot be read and are passed over, and
-- migrations that fail for another reason than a table or a row that exists.
pub mod Once
pub mod Ladder
use puppypeer.Prelude.{
  ℕ, String, Bool, true, false, not, ◌==◌, List, [], ◌∷◌, ◌++◌, any, retain, leb, str_eq, Result,
  ok, err, if◌then◌else◌,
}

-- The tables that the script creates, in order.
pub record Migration : Type 0 where
  pub id : ℕ
  pub name : String
  pub creates : List String

abbrev pub init_database : Migration
init_database = record {
  id = 20250208;
  name = "init_database";
  creates =
      "file_entries" ∷ "file_locations" ∷ "nodes" ∷ "servers" ∷ "connections" ∷ "cpus" ∷ "disks"
      ∷ "interfaces" ∷ "temperatures" ∷ [];
}

abbrev pub peer_permissions : Migration
peer_permissions = record {
  id = 20250219;
  name = "peer_permissions";
  creates = "peer_permissions" ∷ [];
}

abbrev pub migrations : List Migration
migrations = init_database ∷ peer_permissions ∷ []

pub record Database : Type 0 where
  pub tables : List String
  pub applied : List ℕ

pub record Outage : Type 0 where
  pub create_fails : Bool
  pub prepare_fails : Bool
  pub query_fails : Bool
  pub unreadable : ℕ → Bool
  pub fails : ℕ → Bool

abbrev pub no_outage : Outage
no_outage = record {
  create_fails = false;
  prepare_fails = false;
  query_fails = false;
  unreadable = λ id. false;
  fails = λ id. false;
}

-- `create table` for each: a table that exists is an error.
unfoldable pub create_tables : List String → List String → Result (List String)
create_tables [] tables = ok tables
create_tables (t ∷ ts) tables =
    let rest = create_tables ts (tables ++ t ∷ []) in
    if any (λ u. str_eq u t) tables then err "table already exists" else rest

abbrev pub is_in : List ℕ → Migration → Bool
is_in ids m = any (λ i. i == m.id) ids

abbrev pub has_applied : Database → Migration → Bool
has_applied db m = is_in db.applied m

-- The insert of the row, whose id is the primary key, and the commit.
abbrev pub committed : Database → Migration → Result (List String) → Result Database
committed db m (err e) = err e
committed db m (ok tables) =
    if has_applied db m
    then err "UNIQUE constraint failed"
    else ok (record { tables = tables; applied = db.applied ++ m.id ∷ [] })

-- One transaction: on an error the database stays as it was.
unfoldable pub apply_migration : Outage → Migration → Database → Result Database
unfolding create_tables
apply_migration out m db =
    if out.fails m.id
    then err "disk I/O error"
    else committed db m (create_tables m.creates db.tables)

-- The loop: the migrations before the one that fails stay applied.
unfoldable pub apply_all : Outage → List Migration → Database → Result (Unit {0}) × Database
unfolding apply_migration
apply_all out [] db = (ok tt, db)
apply_all out (m ∷ ms) db = elim (apply_migration out m db) [
  | err e ↦ (err e, db)
  | ok db' ↦ apply_all out ms db'
]

-- `sort_by_key(|migration| migration.id)`
unfoldable pub insert_by_id : Migration → List Migration → List Migration
insert_by_id m [] = m ∷ []
insert_by_id m (n ∷ ns) =
    let rest = insert_by_id m ns in if leb m.id n.id then m ∷ n ∷ ns else n ∷ rest

unfoldable pub sort_by_id : List Migration → List Migration
unfolding insert_by_id
sort_by_id [] = []
sort_by_id (m ∷ ms) = insert_by_id m (sort_by_id ms)

unfoldable pub pending_of : List Migration → List ℕ → List Migration
unfolding sort_by_id
pending_of ms ids = sort_by_id (retain (λ m. not (is_in ids m)) ms)

-- `filter_map(Result::ok)` of the rows.
abbrev pub applied_migrations : Outage → Database → List ℕ
applied_migrations out db = retain (λ i. not (out.unreadable i)) db.applied

unfoldable pub run_migrations_of : Outage → List Migration → Database → Result (Unit {0}) × Database
unfolding pending_of apply_all
run_migrations_of out ms db =
    let applied = apply_all out (pending_of ms (applied_migrations out db)) db in
    if out.create_fails
    then (err "create table failed", db)
    else if out.prepare_fails
    then (err "prepare failed", db)
    else if out.query_fails
    then (err "query failed", db)
    else applied

unfoldable pub run_migrations : Outage → Database → Result (Unit {0}) × Database
unfolding run_migrations_of
run_migrations out db = run_migrations_of out migrations db
