-- ===== src/Store/Migrations/Pending.antt =====
-- Which migrations are pending above a version, and a list of them run in two parts.
use mathlib.Core.Option.{bind}
use burnmon.Base.{
  ℕ, Bool, false, Option, none, some, List, [], ◌∷◌, ◌++◌, ◌≡◌, refl, ltb, arith, ◌<◌, ◌≤◌, ◌⊎◌,
  inl, inr, Bool-cases, lt→ltb, le→ltb, ltb→lt, filter-append,
}
use burnmon.Store.Migrations.{
  Failures, Migration, Schema, pending, run_ups, last_version, exec_script,
}

abbrev pub no_failures : Failures
no_failures = record {
  ddl = false;
  read = false;
  begin = false;
  up = λ _. false;
  delete = false;
  insert = false;
  commit = false;
}

-- Every version is above the one before it, the first one above `v`.
abbrev pub Ascending : ℕ → List Migration → Type 0
Ascending v [] = Unit
Ascending v (m ∷ ms) = (v < m.version) × Ascending m.version ms

pub le-last_version : (v : ℕ) (ms : List Migration) → Ascending v ms → v ≤ last_version v ms
unfolding last_version
le-last_version v [] a = omega arith
le-last_version v (m ∷ ms) a = omega (arith, a.0, le-last_version m.version ms a.1)

pub pending-done :
    (v c : ℕ) (ms : List Migration) → Ascending v ms → last_version v ms ≤ c → pending c ms ≡ []
unfolding last_version pending
pending-done v c [] a h = refl
pending-done v c (m ∷ ms) a h =
    rw
      (
        le→ltb c m.version (omega (arith, h, le-last_version m.version ms a.1)),
        pending-done m.version c ms a.1 h,
      )
      refl

pub pending-all : (v c : ℕ) (ms : List Migration) → Ascending v ms → c ≤ v → pending c ms ≡ ms
unfolding pending
pending-all v c [] a h = refl
pending-all v c (m ∷ ms) a h =
    rw
      (
        lt→ltb c m.version (omega (arith, h, a.0)),
        pending-all m.version c ms a.1 (omega (arith, h, a.0)),
      )
      refl

pub Ascending-left : (v : ℕ) (ms ns : List Migration) → Ascending v (ms ++ ns) → Ascending v ms
Ascending-left v [] ns a = tt
Ascending-left v (m ∷ ms) ns a = (a.0, Ascending-left m.version ms ns a.1)

pub Ascending-right :
    (v : ℕ) (ms ns : List Migration) → Ascending v (ms ++ ns) → Ascending (last_version v ms) ns
unfolding last_version
Ascending-right v [] ns a = a
Ascending-right v (m ∷ ms) ns a = Ascending-right m.version ms ns a.1

-- What is pending ends with the last version, or nothing is.
pub pending-last :
    (v c : ℕ) (ms : List Migration)
    → Ascending v ms
    → (pending c ms ≡ [])
      ⊎ ((last_version c (pending c ms) ≡ last_version v ms) × (c < last_version v ms))
unfolding last_version pending
pending-last v c [] a = inl refl
pending-last v c (m ∷ ms) a = elim (Bool-cases (ltb c m.version)) [
  | inl below ↦
      rw (below, pending-all m.version c ms a.1 (omega (arith, ltb→lt c m.version below)))
        (inr (refl, omega (arith, ltb→lt c m.version below, le-last_version m.version ms a.1)))
  | inr above ↦ rw above (pending-last m.version c ms a.1)
]

bind-bind {ℓ} :
    {A : Type ℓ} (o : Option A) (f g h : A → Option A)
    → ((a : A) → h a ≡ bind (f a) g)
    → bind o h ≡ bind (bind o f) g
unfolding bind
bind-bind none f g h e = refl
bind-bind (some a) f g h e = e a

pub run_ups-append :
    (f : ℕ → Bool) (ms ns : List Migration) (s : Schema)
    → run_ups f (ms ++ ns) s ≡ bind (run_ups f ms s) (run_ups f ns)
unfolding run_ups bind
run_ups-append f [] ns s = refl
run_ups-append f (m ∷ ms) ns s = elim (Bool-cases (f m.version)) [
  | inl e ↦ rw e refl
  | inr e ↦ rw e (
      bind-bind (exec_script m.up s) (run_ups f ms) (run_ups f ns) (run_ups f (ms ++ ns))
        (run_ups-append f ms ns))
]

pub last_version-append :
    (v : ℕ) (ms : List Migration) (n : Migration) (ns : List Migration)
    → last_version v (ms ++ n ∷ ns) ≡ last_version n.version ns
unfolding last_version
last_version-append v [] n ns = refl
last_version-append v (m ∷ ms) n ns = last_version-append m.version ms n ns

pub pending-append :
    (c : ℕ) (ms ns : List Migration) → pending c (ms ++ ns) ≡ pending c ms ++ pending c ns
unfolding pending
pending-append c ms ns = filter-append (λ (m : Migration). ltb c m.version) ms ns
