-- ===== src/Dataset/Ingest/Resume.antt =====
-- `ingest`: the offset that a read starts at.
use burnmon.Base.{
  ℕ, ◌≤◌, Bool, true, false, not, ◌||◌, Option, none, some, ltb, ◌==◌, nat_eq, ◌≡◌, refl, ◌∙◌, ◌⊎◌,
  inl, inr, arith,
}
use burnmon.Store.Db.{CursorRow}
use burnmon.Dataset.Ingest.{Stat, read_from, plan, fully_read, start_offset}

-- A file that is not rewritten: of the time that the cursor has, or no shorter than then.
abbrev pub is_append : CursorRow → Stat → Bool
is_append c (m, s) = c.mtime == m || not (ltb s c.size)

start_offset-bounded :
    (c : CursorRow) (m s : ℕ)
    → (start_offset c (m, s) ≤ s)
      × ((start_offset c (m, s) ≡ 0)
          ⊎ ((is_append c (m, s) ≡ true) × (start_offset c (m, s) ≡ c.offset)))
unfolding start_offset
start_offset-bounded c m s = ground arith

read_at :
    (slow : Bool) (c : CursorRow) (st : Stat) (o : ℕ)
    → plan slow (some c) (some st) ≡ read_from o
    → (o ≡ start_offset c st) × (fully_read c st ≡ false)
unfolding plan
read_at slow c st o h = ground arith

-- A read never starts past the end of the file, and it starts either at 0, or at the offset of the
-- file's cursor, and then the file was appended to and the cursor does not say it is fully read.
plan_resumes :
    (slow : Bool) (known : Option CursorRow) (m s o : ℕ)
    → plan slow known (some (m, s)) ≡ read_from o
    → (o ≤ s)
      × ((o ≡ 0)
          ⊎ ((c : CursorRow) × ((known ≡ some c)
                × ((o ≡ c.offset)
                    × ((is_append c (m, s) ≡ true) × (fully_read c (m, s) ≡ false))))))
unfolding plan
plan_resumes slow none m s o h =
    let zero_start : o ≡ 0 = ground (arith, h) in (omega (arith, zero_start), inl zero_start)
plan_resumes slow (some c) m s o h =
    let at = read_at slow c (m, s) o h in
    let bound = start_offset-bounded c m s in
    (
      omega (arith, at.0, bound.0),
      elim bound.1 [
        | inl z ↦ inl (at.0 ∙ z)
        | inr (appended, same) ↦ inr (c, (refl, (at.0 ∙ same, (appended, at.1))))
      ],
    )
