-- ===== src/Calendar.antt =====
-- Go's time.Parse("2006-01-02", s), Time.ISOWeek and the "%04d-W%02d" of the week keys, over the
-- proleptic Gregorian calendar. A year is shifted by 400 (a whole cycle of the calendar), so that
-- the year before 0000 is a number too.
use Prim.Native.Char.{Char, code}
use Prim.Native.String.{◌++◌ as join}
use burnmon.Base.{
  ℕ, ◌+◌, ◌-◌, ◌*◌, ◌/◌, ◌%◌, ◌≡◌, refl, String, Bool, not, ◌&&◌, ◌||◌, Option, none, some, leb,
  ltb, nat_beq, if◌then◌else◌,
}

pub record Date : Type 0 where
  pub year : ℕ
  pub month : ℕ
  pub day : ℕ

abbrev pub is_leap : ℕ → Bool
is_leap y = nat_beq (y % 4) 0 && (not (nat_beq (y % 100) 0) || nat_beq (y % 400) 0)

-- The days of the year before the month.
abbrev pub days_before_month : ℕ → ℕ → ℕ
days_before_month y m =
    (if leb m 1
      then 0
      else if nat_beq m 2
      then 31
      else if nat_beq m 3
      then 59
      else if nat_beq m 4
      then 90
      else if nat_beq m 5
      then 120
      else if nat_beq m 6
      then 151
      else if nat_beq m 7
      then 181
      else if nat_beq m 8
      then 212
      else if nat_beq m 9
      then 243
      else if nat_beq m 10
      then 273
      else if nat_beq m 11
      then 304
      else if nat_beq m 12
      then 334
      else 365)
    + (if ltb 2 m && is_leap y then 1 else 0)

abbrev pub days_in_month : ℕ → ℕ → ℕ
days_in_month y m = days_before_month y (m + 1) - days_before_month y m

abbrev pub digit : Char → Option ℕ
digit c = if leb b'0' (code c) && leb (code c) b'9' then some (code c - b'0') else none

abbrev pub two_digits : Char → Char → Option ℕ
two_digits a b = elim (digit a) [
  | none ↦ none
  | some x ↦ elim (digit b) [ none ↦ none | some y ↦ some (10 * x + y) ]
]

abbrev pub valid_date : ℕ → ℕ → ℕ → Option Date
valid_date y m d =
    if leb 1 m && leb m 12 && leb 1 d && leb d (days_in_month y m)
    then some (record { year = y; month = m; day = d })
    else none

-- The ten characters of "YYYY-MM-DD".
unfoldable pub parse_day : String → Option Date
parse_day
      (String.◌∷◌ a (
        String.◌∷◌ b (
          String.◌∷◌ c (
            String.◌∷◌ d (
              String.◌∷◌ e (
                String.◌∷◌ f
                  (String.◌∷◌ g (String.◌∷◌ h (String.◌∷◌ i (String.◌∷◌ j String.[])))))))))) =
    if nat_beq (code e) b'-' && nat_beq (code h) b'-'
    then elim (two_digits a b) [
      | none ↦ none
      | some hi ↦ elim (two_digits c d) [
        | none ↦ none
        | some lo ↦ elim (two_digits f g) [
          | none ↦ none
          | some m ↦ elim (two_digits i j) [
            | none ↦ none
            | some n ↦ valid_date (400 + 100 * hi + lo) m n
          ]
        ]
      ]
    ]
    else none
parse_day _ = none

-- The days before 1 January of the shifted year; day 0 is a Monday.
abbrev pub year_start : ℕ → ℕ
year_start y = 365 * (y - 1) + (y - 1) / 4 - (y - 1) / 100 + (y - 1) / 400

abbrev pub day_number : Date → ℕ
day_number d = year_start d.year + days_before_month d.year d.month + d.day - 1

-- The Thursday of the same week decides the year.
unfoldable pub iso_week : Date → ℕ × ℕ
iso_week d =
    let n = day_number d in
    let thursday = n - n % 7 + 3 in
    let year =
      if ltb thursday (year_start d.year)
      then d.year - 1
      else if leb (year_start (d.year + 1)) thursday
      then d.year + 1
      else d.year in
    (year, (thursday - year_start year) / 7 + 1)

abbrev pub digit_text : ℕ → String
digit_text n =
    if nat_beq n 0
    then "0"
    else if nat_beq n 1
    then "1"
    else if nat_beq n 2
    then "2"
    else if nat_beq n 3
    then "3"
    else if nat_beq n 4
    then "4"
    else if nat_beq n 5
    then "5"
    else if nat_beq n 6
    then "6"
    else if nat_beq n 7
    then "7"
    else if nat_beq n 8
    then "8"
    else "9"

-- "%02d" of a number below 100.
abbrev pub pad_two : ℕ → String
pad_two n = join (digit_text (n / 10 % 10)) (digit_text (n % 10))

-- "%04d" of a year, shifted by 400.
abbrev pub year_text : ℕ → String
year_text y =
    if ltb y 400
    then join "-" (join (digit_text ((400 - y) / 100 % 10)) (pad_two ((400 - y) % 100)))
    else join (pad_two ((y - 400) / 100)) (pad_two ((y - 400) % 100))

-- fmt.Sprintf("%04d-W%02d", y, w)
unfoldable pub week_key : Date → String
unfolding iso_week
week_key d = let (y, w) = iso_week d in join (year_text y) (join "-W" (pad_two w))

-- `isoWeek` of internal/merge/merge.go.
unfoldable pub week_of_day : String → String
unfolding parse_day week_key
week_of_day s = elim (parse_day s) [ none ↦ "unknown" | some d ↦ week_key d ]

weeks_test :
    (week_of_day "2026-10-12" ≡ "2026-W42")
    × (week_of_day "2024-12-30" ≡ "2025-W01")
    × (week_of_day "2021-01-03" ≡ "2020-W53")
    × (week_of_day "0000-01-01" ≡ "-001-W52")
    × (week_of_day "2026-02-29" ≡ "unknown")
unfolding week_of_day
weeks_test = (refl, refl, refl, refl, refl)
