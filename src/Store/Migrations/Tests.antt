-- ===== src/Store/Migrations/Tests.antt =====
-- Runs of `runMigrations` on a new file and on one of v0.1.
use burnmon.Base.{true, [], ◌∷◌, ◌≡◌, refl, take, drop, arith}
use burnmon.Store.Migrations.{
  Disk, Failures, all_migrations, run_migrations, event_columns, has_column,
}
use burnmon.Store.Migrations.Pending.{no_failures, Ascending}
use burnmon.Store.Migrations.Upgrade.{run_migrations-upgrade}
use burnmon.Store.Migrations.Again.{run_migrations-Settled, Settled}

abbrev new_file : Disk
new_file = record { versions = []; schema = record { tables = []; indexes = [] } }

-- A file that v0.1 wrote: its events have no owner, and no version is recorded.
abbrev v01_file : Disk
v01_file = record {
  versions = [];
  schema = record {
    tables = record { name = "events"; columns = event_columns } ∷ [];
    indexes = "idx_events_at" ∷ [];
  };
}

abbrev commit_fails : Failures
commit_fails = record no_failures { commit = true }

migrates_new :
    (run_migrations no_failures all_migrations new_file).1 ≡ record { from = 0; to = 7; ok = true }
unfolding run_migrations
migrates_new = refl

adds_client :
    has_column "events" "client" (run_migrations no_failures all_migrations v01_file).0.schema
    ≡ true
unfolding run_migrations has_column
adds_client = refl

versions-Ascending : Ascending 0 all_migrations
versions-Ascending = (
  omega arith,
  (omega arith, (omega arith, (omega arith, (omega arith, (omega arith, (omega arith, tt)))))),
)

run_migrations-upgrade_example :
    (run_migrations no_failures all_migrations
      (run_migrations no_failures (take 3 all_migrations) v01_file).0).0
    ≡ (run_migrations no_failures all_migrations v01_file).0
unfolding run_migrations
run_migrations-upgrade_example =
    run_migrations-upgrade (take 3 all_migrations) (drop 3 all_migrations) v01_file
      versions-Ascending refl

run_migrations-Settled_example :
    Settled no_failures all_migrations v01_file
      (run_migrations commit_fails all_migrations v01_file)
run_migrations-Settled_example =
    run_migrations-Settled commit_fails no_failures all_migrations v01_file versions-Ascending refl
      refl
