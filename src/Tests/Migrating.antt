-- ===== src/Tests/Migrating.antt =====
-- Witnesses for Migration.antt.
use puppypeer.Prelude.{◌==◌, ◌≡◌, true, false, ok}
use puppypeer.Migration.{Outage, no_outage, run_migrations}
use puppypeer.Migration.Ladder.{Version, initial, current, database_at, run_migrations_lem}

-- The listing succeeds, but one of its rows cannot be read, and every migration fails.
abbrev broken : Outage
broken = record {
  create_fails = false;
  prepare_fails = false;
  query_fails = false;
  unreadable = λ i. i == 20250219;
  fails = λ id. true;
}

-- The first run meets a disk that fails.
run_migrations_lem_example :
    let db = (run_migrations broken (database_at initial)).1 in
    ((v : Version) × (db ≡ database_at v))
    × (run_migrations no_outage db ≡ (ok tt, database_at current))
run_migrations_lem_example = run_migrations_lem initial broken
