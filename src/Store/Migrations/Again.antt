-- ===== src/Store/Migrations/Again.antt =====
-- `runMigrations` after a failed run and after one that succeeded.
use burnmon.Base.{
  ℕ, true, false, Option, none, some, List, [], ◌∷◌, ◌≡◌, refl, arith, ◌<◌, ◌⊎◌, inl, inr, if_both,
  Bool-cases, ◌||◌,
}
use burnmon.Store.Migrations.{
  Disk, Failures, Migration, Moved, Schema, run_migrations, migrate_pending, record_version,
  pending, run_ups, last_version, current_version,
}
use burnmon.Store.Migrations.Pending.{Ascending, pending-done, pending-last}

-- What a run answers: a failure that left the file, or a success after which a run finds nothing.
abbrev pub Settled : Failures → List Migration → Disk → Disk × Moved → Type 0
Settled g ms d (d', moved) =
    ((moved.ok ≡ false) × (d' ≡ d))
    ⊎ ((moved.ok ≡ true)
        × (run_migrations g ms d' ≡ (d', record { from = moved.to; to = moved.to; ok = true })))

run_migrations-nothing :
    (g : Failures) (ms : List Migration) (d : Disk) (c : ℕ)
    → g.ddl ≡ false
    → g.read ≡ false
    → current_version d.versions ≡ c
    → pending c ms ≡ []
    → run_migrations g ms d ≡ (d, record { from = c; to = c; ok = true })
unfolding run_migrations migrate_pending
run_migrations-nothing g ms d c ddl read cur e = rw (ddl, read, cur, e) refl

record_version-Settled :
    (f g : Failures) (ms : List Migration) (c to : ℕ) (o : Option Schema) (d : Disk)
    → g.ddl ≡ false
    → g.read ≡ false
    → pending to ms ≡ []
    → Settled g ms d (record_version f c to o d)
unfolding record_version current_version
record_version-Settled f g ms c to none d ddl read e = inl (refl, refl)
record_version-Settled f g ms c to (some s) d ddl read e =
    elim (Bool-cases (f.delete || f.insert || f.commit)) [
      | inl fails ↦ rw fails (inl (refl, refl))
      | inr works ↦
          let d' : Disk = record { versions = to ∷ []; schema = s } in
          rw works (inr (refl, run_migrations-nothing g ms d' to ddl read refl e))
    ]

migrate_pending-Settled :
    (f g : Failures) (ms : List Migration) (c : ℕ) (p : List Migration) (d : Disk)
    → g.ddl ≡ false
    → g.read ≡ false
    → Ascending 0 ms
    → current_version d.versions ≡ c
    → pending c ms ≡ p
    → (p ≡ []) ⊎ ((last_version c p ≡ last_version 0 ms) × (c < last_version 0 ms))
    → Settled g ms d (migrate_pending f c p d)
unfolding migrate_pending last_version
migrate_pending-Settled f g ms c [] d ddl read a cur e h =
    inr (refl, run_migrations-nothing g ms d c ddl read cur e)
migrate_pending-Settled f g ms c (m ∷ p) d ddl read a cur e (inl h) = cc
migrate_pending-Settled f g ms c (m ∷ p) d ddl read a cur e (inr (h, above)) =
    if_both (Settled g ms d) f.begin (inl (refl, refl)) (
      record_version-Settled f g ms c (last_version m.version p) (run_ups f.up (m ∷ p) d.schema) d
        ddl read (pending-done 0 (last_version m.version p) ms a (omega (arith, h))))

-- A run that fails, at whatever call, leaves the file as it was; after one that succeeds, every
-- run that reads the version changes nothing and answers the recorded version twice.
pub run_migrations-Settled :
    (f g : Failures) (ms : List Migration) (d : Disk)
    → Ascending 0 ms
    → g.ddl ≡ false
    → g.read ≡ false
    → Settled g ms d (run_migrations f ms d)
unfolding run_migrations
run_migrations-Settled f g ms d a ddl read =
    let c = current_version d.versions in
    if_both (Settled g ms d) f.ddl (inl (refl, refl)) (
      if_both (Settled g ms d) f.read (inl (refl, refl)) (
        migrate_pending-Settled f g ms c (pending c ms) d ddl read a refl refl
          (pending-last 0 c ms a)))
