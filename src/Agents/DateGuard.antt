-- ===== src/Agents/DateGuard.antt =====
-- agents/date_guard.py: the date of a new record. The regular expressions that detect a date or a day
-- in the user's texts are parameters.
pub mod Corrected
use tresqu_api.Common.{
  ℕ, ◌+◌, ◌-◌, Bool, true, false, not, ◌&&◌, ◌||◌, Option, none, some, List, String, strip, prefix,
  str_eq, leb, if◌then◌else◌,
}
use tresqu_api.Common.Dates.{Date, date, make_date, is_before, isoformat, parse_date}

-- `_user_gave_a_date` and `user_gave_a_day`
pub record Detectors : Type 0 where
  pub user_gave_a_date : List String → Bool
  pub user_gave_a_day : List String → Bool

-- `parsed.replace(year=year)`, where that is a date up to `today`
unfoldable pub candidate : Date → Date → ℕ → Option Date
candidate parsed today year = elim (make_date year parsed.month parsed.day) [
  | none ↦ none
  | some t ↦ if is_before today t then none else some t
]

-- The loop over this year and the last one.
unfoldable pub corrected : String → Date → Date → String
corrected value parsed today = elim (candidate parsed today today.year) [
  | some t ↦ isoformat t
  | none ↦ elim (candidate parsed today (today.year - 1)) [ some t ↦ isoformat t | none ↦ value ]
]

unfoldable pub resolve_parsed : Detectors → String → Date → Date → List String → String
resolve_parsed detectors value parsed today texts =
    if leb (today.year) (parsed.year + 1)
    then value
    else if detectors.user_gave_a_date texts
    then value
    else corrected value parsed today

-- An empty value is returned as it is.
unfoldable pub resolve_year : Detectors → Option String → Date → List String → Option String
resolve_year detectors none today texts = none
resolve_year detectors (some value) today texts =
    if str_eq value "" then some value else elim (parse_date (prefix 10 (strip value))) [
      | none ↦ some value
      | some parsed ↦ some (resolve_parsed detectors value parsed today texts)
    ]

-- `value and value.strip()[:10] != today.isoformat()`
pub names_another_day : Option String → Date → Bool
names_another_day none today = false
names_another_day (some value) today =
    not (str_eq value "") && not (str_eq (prefix 10 (strip value)) (isoformat today))

pub resolve_new_record_date :
    Detectors → Option String → Date → List String → Option (List String) → Option String
resolve_new_record_date detectors value today day_texts year_texts =
    let texts : List String = elim year_texts [ none ↦ day_texts | some given ↦ given ] in
    if detectors.user_gave_a_day day_texts
    then resolve_year detectors value today texts
    else if names_another_day value today
    then some (isoformat today)
    else value
