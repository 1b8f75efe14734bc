-- ===== src/Common/Dates.antt =====
-- Python's `datetime.date` and `datetime.datetime`, as far as the source uses them.
use Prim.Native.Char.{Char, code}
use Prim.Native.String
use text.Mathlib.Text.{◌==◌ as text_eq}
use tresqu_api.Common.{
  ◌*◌, ◌/◌, ◌>>=◌, String, ℕ, zero, suc, ◌+◌, ◌-◌, ◌%◌, ◌≤◌, Bool, not, ◌&&◌, ◌||◌, Option, none,
  some, ltb, leb, ◌==◌, if◌then◌else◌,
}

-- `datetime.MAXYEAR`
abbrev pub max_year : ℕ
max_year = 9999

pub record Date : Type 0 where
  pub year : ℕ
  pub month : ℕ
  pub day : ℕ

unfoldable pub is_leap : ℕ → Bool
is_leap year = year % 400 == 0 || year % 4 == 0 && not (year % 100 == 0)

abbrev pub date : ℕ → ℕ → ℕ → Date
date year month day = record { year = year; month = month; day = day }

unfoldable pub days_in_month : ℕ → ℕ → ℕ
days_in_month year month =
    if month == 4 || month == 6 || month == 9 || month == 11
    then 30
    else if month == 2
    then 28 + (if is_leap year then 1 else 0)
    else 31

-- `datetime(y, m, d).date()`; `ValueError` is `none`.
unfoldable pub make_date : ℕ → ℕ → ℕ → Option Date
make_date y m d =
    if leb 1 y && leb y max_year && leb 1 m && leb m 12 && leb 1 d && leb d (days_in_month y m)
    then some (date y m d)
    else none

abbrev pub IsDate : Date → Type 0
IsDate t =
    (1 ≤ t.year)
    × (t.year ≤ max_year)
    × (1 ≤ t.month)
    × (t.month ≤ 12)
    × (1 ≤ t.day)
    × (t.day ≤ days_in_month t.year t.month)

-- `t < u`
unfoldable pub is_before : Date → Date → Bool
is_before t u =
    if t.year == u.year
    then (if t.month == u.month then ltb t.day u.day else ltb t.month u.month)
    else ltb t.year u.year

-- `t == u`
unfoldable pub is_same_date : Date → Date → Bool
is_same_date t u = t.year == u.year && t.month == u.month && t.day == u.day

-- `t - timedelta(days=1)`; the source never goes back from 1 January of year 1.
unfoldable pub yesterday : Date → Date
yesterday t =
    if ltb 1 t.day
    then date t.year t.month (t.day - 1)
    else if ltb 1 t.month
    then date t.year (t.month - 1) (days_in_month t.year (t.month - 1))
    else date (t.year - 1) 12 31

-- `t + timedelta(days=1)`
pub tomorrow : Date → Date
tomorrow t =
    if ltb t.day (days_in_month t.year t.month)
    then date t.year t.month (t.day + 1)
    else if ltb t.month 12
    then date t.year (t.month + 1) 1
    else date (t.year + 1) 1 1

-- `t + timedelta(days=n)`
pub plus_days : ℕ → Date → Date
plus_days zero t = t
plus_days (suc n) t = tomorrow (plus_days n t)

-- A `datetime`: `time` counts the microseconds of the day.
pub record Datetime : Type 0 where
  pub date : Date
  pub time : ℕ

-- `t >= u`
pub is_reached : Datetime → Datetime → Bool
is_reached t u = is_before u.date t.date || is_same_date t.date u.date && leb u.time t.time

digit : ℕ → String
digit n = String.◌∷◌ (String.char_at "0123456789" n) ""

-- The last `width` digits of a number.
padded : ℕ → ℕ → String
padded zero n = ""
padded (suc width) n = String.◌++◌ (padded width (n / 10)) (digit (n % 10))

-- `t.isoformat()`
unfoldable pub isoformat : Date → String
unfolding digit padded
isoformat t =
    String.◌++◌ (padded 4 t.year)
      (String.◌++◌ "-" (String.◌++◌ (padded 2 t.month) (String.◌++◌ "-" (padded 2 t.day))))

digit_of : Char → Option ℕ
digit_of c = if leb b'0' (code c) && leb (code c) b'9' then some (code c - b'0') else none

-- One or two digits, and what follows them.
one_or_two : String → Option (ℕ × String)
unfolding digit_of
one_or_two String.[] = none
one_or_two (String.◌∷◌ c s) = do n ← digit_of c; second n s
  where
    second : ℕ → String → Option (ℕ × String)
    second n String.[] = some (n, "")
    second n (String.◌∷◌ d rest) = elim (digit_of d) [
      | none ↦ some (n, String.◌∷◌ d rest)
      | some m ↦ some (n * 10 + m, rest)
    ]

-- Exactly `count` digits.
exactly : ℕ → ℕ → String → Option (ℕ × String)
unfolding digit_of
exactly zero acc s = some (acc, s)
exactly (suc count) acc String.[] = none
exactly (suc count) acc (String.◌∷◌ c s) = do n ← digit_of c; exactly count (acc * 10 + n) s

dash : String → Option String
dash String.[] = none
dash (String.◌∷◌ c s) = if code c == b'-' then some s else none

-- `datetime.strptime(s, "%Y-%m-%d").date()` over ASCII digits, without its
-- leave to write a day as a space and a digit; `ValueError` is `none`.
unfoldable pub parse_date : String → Option Date
unfolding one_or_two exactly dash
parse_date s = do
  (year, s1) ← exactly 4 0 s
  s2 ← dash s1
  (month, s3) ← one_or_two s2
  s4 ← dash s3
  (day, s5) ← one_or_two s4
  if text_eq s5 "" then make_date year month day else none
