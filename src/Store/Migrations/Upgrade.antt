-- ===== src/Store/Migrations/Upgrade.antt =====
-- `runMigrations` by an early release and by a later one after it.
use mathlib.Core.Option.{bind}
use burnmon.Base.{
  append-nil, ℕ, true, Option, none, some, List, [], ◌∷◌, ◌++◌, ◌≡◌, refl, arith, ◌<◌, ◌⊎◌, inl,
  inr, sym, subst,
}
use burnmon.Store.Migrations.{
  Disk, Migration, Moved, Schema, run_migrations, migrate_pending, record_version, pending, run_ups,
  last_version, current_version,
}
use burnmon.Store.Migrations.Pending.{
  no_failures, Ascending, pending-done, pending-all, Ascending-left, Ascending-right, pending-last,
  run_ups-append, last_version-append, pending-append,
}

-- A run that is recorded leaves the same file from wherever it started.
record_version-from :
    (c l w : ℕ) (d e : Disk) (o : Option Schema)
    → (record_version no_failures c w o d).1.ok ≡ true
    → (record_version no_failures l w o e).0 ≡ (record_version no_failures c w o d).0
unfolding record_version
record_version-from c l w d e none ok = cc
record_version-from c l w d e (some s) ok = refl

record_version-then :
    (c l v w : ℕ) (n : Migration) (ns : List Migration) (d : Disk) (o : Option Schema)
    → w ≡ last_version n.version ns
    → (record_version no_failures c w (bind o (run_ups no_failures.up (n ∷ ns))) d).1.ok ≡ true
    → (migrate_pending no_failures l (n ∷ ns) (record_version no_failures c v o d).0).0
      ≡ (record_version no_failures c w (bind o (run_ups no_failures.up (n ∷ ns))) d).0
unfolding record_version bind migrate_pending run_ups
record_version-then c l v w n ns d none e ok = cc
record_version-then c l v w n ns d (some s) e ok = rw (sym e) (
    record_version-from c l w d (record { versions = v ∷ []; schema = s })
      (run_ups no_failures.up (n ∷ ns) s) ok)

-- The run of what is pending, taken in two parts.
migrate_pending-append :
    (c l : ℕ) (m : Migration) (ms ns : List Migration) (d : Disk)
    → (migrate_pending no_failures c (m ∷ ms ++ ns) d).1.ok ≡ true
    → (migrate_pending no_failures l ns (migrate_pending no_failures c (m ∷ ms) d).0).0
      ≡ (migrate_pending no_failures c (m ∷ ms ++ ns) d).0
unfolding migrate_pending
migrate_pending-append c l m ms [] d ok = rw (append-nil ms) refl
migrate_pending-append c l m ms (n ∷ ns) d ok =
    let e = run_ups-append no_failures.up (m ∷ ms) (n ∷ ns) d.schema in
    let w = last_version m.version (ms ++ n ∷ ns) in
    rw e (
      record_version-then c l (last_version m.version ms) w n ns d
        (run_ups no_failures.up (m ∷ ms) d.schema) (last_version-append m.version ms n ns)
        (rw (sym e) ok))

-- The first part of a run that is recorded records its own last version.
migrate_pending-versions :
    (c : ℕ) (m : Migration) (ms ns : List Migration) (d : Disk)
    → (migrate_pending no_failures c (m ∷ ms ++ ns) d).1.ok ≡ true
    → (migrate_pending no_failures c (m ∷ ms) d).0.versions ≡ last_version m.version ms ∷ []
unfolding migrate_pending
migrate_pending-versions c m ms ns d ok = go (run_ups no_failures.up (m ∷ ms) d.schema) (
    subst
      (λ (o : Option Schema).
        (record_version no_failures c (last_version m.version (ms ++ ns)) o d).1.ok ≡ true)
      (run_ups-append no_failures.up (m ∷ ms) ns d.schema) ok)
  where
    go :
        (o : Option Schema)
        → (record_version no_failures c
            (last_version m.version (ms ++ ns))
            (bind o (run_ups no_failures.up ns))
            d).1.ok
          ≡ true
        → (record_version no_failures c (last_version m.version ms) o d).0.versions
          ≡ last_version m.version ms ∷ []
    go none k = cc
    go (some s) k = refl

-- A run from a version is that of what is pending above it.
run_migrations-at :
    (c : ℕ) (ms p : List Migration) (d : Disk)
    → current_version d.versions ≡ c
    → pending c ms ≡ p
    → run_migrations no_failures ms d ≡ migrate_pending no_failures c p d
unfolding run_migrations
run_migrations-at c ms p d cur e = rw (cur, e) refl

-- The second run takes up where the first one ended.
upgrade-from :
    (c : ℕ) (p ms ns : List Migration) (d : Disk)
    → current_version d.versions ≡ c
    → pending c ms ≡ p
    → Ascending 0 (ms ++ ns)
    → (run_migrations no_failures (ms ++ ns) d).1.ok ≡ true
    → (p ≡ []) ⊎ ((last_version c p ≡ last_version 0 ms) × (c < last_version 0 ms))
    → (run_migrations no_failures (ms ++ ns) (migrate_pending no_failures c p d).0).0
      ≡ (run_migrations no_failures (ms ++ ns) d).0
unfolding migrate_pending last_version current_version
upgrade-from c [] ms ns d cur e a ok h = refl
upgrade-from c (m ∷ p) ms ns d cur e a ok (inl h) = cc
upgrade-from c (m ∷ p) ms ns d cur e a ok (inr (h, above)) =
    let l = last_version 0 ms in
    let rest = Ascending-right 0 ms ns a in
    let whole =
      run_migrations-at c (ms ++ ns) (m ∷ p ++ ns) d cur
        (rw (pending-append c ms ns, e, pending-all l c ns rest (omega (arith, above))) refl) in
    let good = subst (λ (r : Disk × Moved). r.1.ok ≡ true) whole ok in
    let d' = (migrate_pending no_failures c (m ∷ p) d).0 in
    let recorded = migrate_pending-versions c m p ns d good in
    let later = run_migrations-at l (ms ++ ns) ns d' (rw recorded h) (
      rw
        (
          pending-append l ms ns,
          pending-done 0 l ms (Ascending-left 0 ms ns a) (omega arith),
          pending-all l l ns rest (omega arith),
        )
        refl) in
    rw (whole, later) (migrate_pending-append c l m p ns d good)

-- Opening the store with an early release, and with a later one after it, leaves the file that
-- the later release alone leaves, where its run succeeds.
pub run_migrations-upgrade :
    (ms ns : List Migration) (d : Disk)
    → Ascending 0 (ms ++ ns)
    → (run_migrations no_failures (ms ++ ns) d).1.ok ≡ true
    → (run_migrations no_failures (ms ++ ns) (run_migrations no_failures ms d).0).0
      ≡ (run_migrations no_failures (ms ++ ns) d).0
unfolding run_migrations
run_migrations-upgrade ms ns d a ok =
    let c = current_version d.versions in
    upgrade-from c (pending c ms) ms ns d refl refl a ok
      (pending-last 0 c ms (Ascending-left 0 ms ns a))
