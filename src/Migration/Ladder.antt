-- ===== src/Migration/Ladder.antt =====
-- Where the migrations of core/src/db.rs lead from the databases that they make.
use puppypeer.Prelude.{◌||◌, ◌≡◌, refl, ap, ◌∙◌, Bool-cases, inl, inr, [], ◌∷◌, ◌++◌, ok, arith}
use puppypeer.Migration.{
  migrations, applied_migrations, Database, Outage, no_outage, init_database, peer_permissions,
  run_migrations, run_migrations_of, pending_of, sort_by_id, insert_by_id, apply_all,
  apply_migration, create_tables,
}

-- How many migrations a database has seen.
pub data Version : Type 0 where
  empty initial current : Version

-- The database that the migrations up to a version make.
abbrev pub database_at : Version → Database
database_at empty = record { tables = []; applied = [] }
database_at initial = record { tables = init_database.creates; applied = init_database.id ∷ [] }
database_at current = record {
  tables = init_database.creates ++ peer_permissions.creates;
  applied = init_database.id ∷ peer_permissions.id ∷ [];
}

-- Where SQLite does not fail, every version is brought to the current one.
brought_up : (v : Version) → run_migrations no_outage (database_at v) ≡ (ok tt, database_at current)
unfolding run_migrations run_migrations_of pending_of sort_by_id insert_by_id apply_all
    apply_migration create_tables
brought_up empty = refl
brought_up initial = refl
brought_up current = refl

-- What is pending where the listing succeeds, and where it leads.
lands_listed :
    (v : Version) (out : Outage)
    → (v' : Version) × ((apply_all out
          (pending_of migrations (applied_migrations out (database_at v)))
          (database_at v)).1
        ≡ database_at v')
unfolding pending_of sort_by_id insert_by_id apply_all apply_migration create_tables
lands_listed empty out = elim (Bool-cases (out.fails init_database.id)) [
  | inl e ↦ (empty, ground arith)
  | inr e ↦ elim (Bool-cases (out.fails peer_permissions.id)) [
    | inl f ↦ (initial, ground arith)
    | inr f ↦ (current, ground arith)
  ]
]
lands_listed initial out = elim (Bool-cases (out.unreadable init_database.id)) [
  | inl u ↦ elim (Bool-cases (out.fails init_database.id)) [
    | inl e ↦ (initial, ground arith)
    | inr e ↦ (initial, ground arith)
  ]
  | inr u ↦ elim (Bool-cases (out.fails peer_permissions.id)) [
    | inl f ↦ (initial, ground arith)
    | inr f ↦ (current, ground arith)
  ]
]
lands_listed current out = elim (Bool-cases (out.unreadable init_database.id)) [
  | inl u ↦ elim (Bool-cases (out.unreadable peer_permissions.id)) [
    | inl w ↦ (current, ground arith)
    | inr w ↦ (current, ground arith)
  ]
  | inr u ↦ elim (Bool-cases (out.unreadable peer_permissions.id)) [
    | inl w ↦ (current, ground arith)
    | inr w ↦ (current, ground arith)
  ]
]

-- However SQLite fails, a run from a version ends at a version.
lands :
    (v : Version) (out : Outage)
    → (v' : Version) × ((run_migrations out (database_at v)).1 ≡ database_at v')
unfolding run_migrations run_migrations_of
lands v out = elim (Bool-cases (out.create_fails || out.prepare_fails || out.query_fails)) [
  | inl e ↦ (v, ground arith)
  | inr e ↦ let (v', h) = lands_listed v out in (v', ground arith)
]

-- From an empty database, from that of the first migration and from a current one, and whatever fails,
-- the listing, rows of it or migrations: the run leaves one of these three, and a further run in which SQLite does
-- not fail succeeds and ends at the current one, with every table once.
pub run_migrations_lem :
    (v : Version) (out : Outage)
    → let db = (run_migrations out (database_at v)).1 in
      ((v' : Version) × (db ≡ database_at v'))
      × (run_migrations no_outage db ≡ (ok tt, database_at current))
run_migrations_lem v out =
    let (v', e) = lands v out in ((v', e), ap (run_migrations no_outage) e ∙ brought_up v')
