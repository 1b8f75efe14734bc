-- ===== src/Agents/DateGuard/Corrected.antt =====
-- The only dates that the guard puts in place of the model's.
use tresqu_api.Common.{
  ℕ, ◌+◌, ◌-◌, ◌≤◌, ◌≡◌, ◌⊎◌, inl, inr, refl, sym, subst, ◌<◌, false, none, some, some_inj, List,
  String, strip, prefix, str_eq, leb, arith, Bool-cases, Option-cases, if◌then◌else◌, ap,
}
use tresqu_api.Common.Dates.{
  Date, date, days_in_month, make_date, IsDate, is_before, isoformat, parse_date,
}
use tresqu_api.Agents.DateGuard.{Detectors, candidate, corrected, resolve_parsed, resolve_year}

-- The same day of this year or the last, and not in the future.
abbrev pub IsCandidate : Date → Date → Date → Type 0
IsCandidate parsed today t =
    IsDate t
    × (t.month ≡ parsed.month)
    × (t.day ≡ parsed.day)
    × (is_before today t ≡ false)
    × (t.year ≤ today.year)
    × (today.year ≤ t.year + 1)

make_date-IsDate : (y m d : ℕ) (t : Date) → make_date y m d ≡ some t → IsDate t × (t ≡ date y m d)
unfolding make_date
make_date-IsDate y m d t h = ground arith

not_future :
    (parsed today t u : Date) (year : ℕ)
    → year ≤ today.year
    → today.year ≤ year + 1
    → make_date year parsed.month parsed.day ≡ some u
    → (if is_before today u then none else some u) ≡ some t
    → IsCandidate parsed today t
not_future parsed today t u year lo hi e h = elim (Bool-cases (is_before today u)) [
  | inl b ↦ let bad = rw b at h in cc
  | inr b ↦
      let same = some_inj (rw b at h) in
      let (valid, eq) = make_date-IsDate year parsed.month parsed.day u e in
      rw (sym same) (valid, ap (λ d. d.month) eq, ap (λ d. d.day) eq, b, ground arith, ground arith)
]

candidate-IsCandidate :
    (parsed today t : Date) (year : ℕ)
    → year ≤ today.year
    → today.year ≤ year + 1
    → candidate parsed today year ≡ some t
    → IsCandidate parsed today t
unfolding candidate
candidate-IsCandidate parsed today t year lo hi h =
    elim (Option-cases (make_date year parsed.month parsed.day)) [
      | inl n ↦ let bad = rw (n, candidate) at h in cc
      | inr (u, e) ↦ not_future parsed today t u year lo hi e (rw (e, candidate) at h)
    ]

-- The value as it was, or a text for such a date.
abbrev pub Keeps : String → Date → Date → String → Type 0
Keeps value parsed today result =
    (result ≡ value) ⊎ ((t : Date) × IsCandidate parsed today t × (result ≡ isoformat t))

corrected-Keeps :
    (value : String) (parsed today : Date) → Keeps value parsed today (corrected value parsed today)
unfolding corrected
corrected-Keeps value parsed today = elim (Option-cases (candidate parsed today today.year)) [
  | inr (t, e) ↦
      rw (e, corrected)
        (inr
          (t, candidate-IsCandidate parsed today t today.year (omega arith) (omega arith) e, refl))
  | inl n ↦ elim (Option-cases (candidate parsed today (today.year - 1))) [
    | inr (t, e) ↦
        rw (n, e, corrected)
          (inr (
            t,
            candidate-IsCandidate parsed today t (today.year - 1) (omega arith) (omega arith) e,
            refl,
          ))
    | inl m ↦ rw (n, m, corrected) (inl refl)
  ]
]

-- What the guard may answer for a value that the model gave.
abbrev pub Answers : Detectors → String → Date → List String → String → Type 0
Answers detectors value today texts result =
    (result ≡ value)
    ⊎ ((parsed t : Date) × (parse_date (prefix 10 (strip value)) ≡ some parsed)
        × (parsed.year + 2 ≤ today.year)
        × (detectors.user_gave_a_date texts ≡ false)
        × IsCandidate parsed today t
        × (result ≡ isoformat t))

resolve_parsed-Answers :
    (detectors : Detectors) (value : String) (parsed today : Date) (texts : List String)
    → parse_date (prefix 10 (strip value)) ≡ some parsed
    → Answers detectors value today texts (resolve_parsed detectors value parsed today texts)
unfolding resolve_parsed
resolve_parsed-Answers detectors value parsed today texts e =
    elim (Bool-cases (leb today.year (parsed.year + 1))) [
      | inl t ↦ rw (t, resolve_parsed) (inl refl)
      | inr f ↦ elim (Bool-cases (detectors.user_gave_a_date texts)) [
        | inl g ↦ rw (f, g, resolve_parsed) (inl refl)
        | inr n ↦
            rw (f, n, resolve_parsed)
              (elim (corrected-Keeps value parsed today) [
                | inl same ↦ inl same
                | inr (t, c, same) ↦ inr (parsed, t, e, ground arith, refl, c, same)
              ])
      ]
    ]

-- The guard returns the model's date as it was, or a date that replaces one of two or more years ago
-- when the user gave none: the same day of this year or the last, and not in the future.
pub resolve_year-Answers :
    (detectors : Detectors) (value result : String) (today : Date) (texts : List String)
    → resolve_year detectors (some value) today texts ≡ some result
    → Answers detectors value today texts result
unfolding resolve_year
resolve_year-Answers detectors value result today texts h = elim (Bool-cases (str_eq value "")) [
  | inl t ↦ inl (some_inj (sym (rw (t, resolve_year) at h)))
  | inr f ↦ elim (Option-cases (parse_date (prefix 10 (strip value)))) [
    | inl n ↦ inl (some_inj (sym (rw (f, n, resolve_year) at h)))
    | inr (parsed, e) ↦
        subst (λ r. Answers detectors value today texts r) (some_inj (rw (f, e, resolve_year) at h))
          (resolve_parsed-Answers detectors value parsed today texts e)
  ]
]

any_year :
    (t : Date) (year : ℕ)
    → IsDate t
    → ¬ ((t.month ≡ 2) × (t.day ≡ 29))
    → t.day ≤ days_in_month year t.month
unfolding days_in_month
any_year t year v n = ground arith

last_year :
    (parsed today : Date)
    → IsDate parsed
    → IsDate today
    → 1 < today.year
    → ¬ ((parsed.month ≡ 2) × (parsed.day ≡ 29))
    → make_date (today.year - 1) parsed.month parsed.day
      ≡ some (date (today.year - 1) parsed.month parsed.day)
unfolding make_date
last_year parsed today v w h n = ground (arith, any_year parsed (today.year - 1) v n)

last_year_candidate :
    (parsed today : Date)
    → IsDate parsed
    → IsDate today
    → 1 < today.year
    → ¬ ((parsed.month ≡ 2) × (parsed.day ≡ 29))
    → candidate parsed today (today.year - 1) ≡ some (date (today.year - 1) parsed.month parsed.day)
unfolding candidate is_before
last_year_candidate parsed today v w h n =
    let past : is_before today (date (today.year - 1) parsed.month parsed.day) ≡ false =
      ground arith in
    rw (last_year parsed today v w h n, candidate, past) refl

corrected-Replaced :
    (value : String) (parsed today : Date)
    → IsDate parsed
    → IsDate today
    → 1 < today.year
    → ¬ ((parsed.month ≡ 2) × (parsed.day ≡ 29))
    → (t : Date) × IsCandidate parsed today t × (corrected value parsed today ≡ isoformat t)
unfolding corrected
corrected-Replaced value parsed today v w h n =
    elim (Option-cases (candidate parsed today today.year)) [
      | inr (t, e) ↦
          rw (e, corrected)
            (t, candidate-IsCandidate parsed today t today.year (omega arith) (omega arith) e, refl)
      | inl m ↦
          let e = last_year_candidate parsed today v w h n in
          rw (m, e, corrected)
            (
              date (today.year - 1) parsed.month parsed.day,
              candidate-IsCandidate parsed today (date (today.year - 1) parsed.month parsed.day)
                  (today.year - 1) (omega arith) (omega arith) e,
              refl,
            )
    ]

-- A valid date of two or more years ago never stays when the user gave no date, unless it is a 29
-- February: where today is in the year 2 or later, it becomes the same day of this year or the
-- last, and not in the future.
pub resolve_year-IsCandidate :
    (detectors : Detectors) (value : String) (parsed today : Date) (texts : List String)
    → str_eq value "" ≡ false
    → parse_date (prefix 10 (strip value)) ≡ some parsed
    → IsDate parsed
    → IsDate today
    → 1 < today.year
    → parsed.year + 2 ≤ today.year
    → detectors.user_gave_a_date texts ≡ false
    → ¬ ((parsed.month ≡ 2) × (parsed.day ≡ 29))
    → (t : Date) × IsCandidate parsed today t
      × (resolve_year detectors (some value) today texts ≡ some (isoformat t))
unfolding resolve_year resolve_parsed
resolve_year-IsCandidate detectors value parsed today texts nonempty e v w h old none_given n =
    let past : leb today.year (parsed.year + 1) ≡ false = ground arith in
    let (t, c, same) = corrected-Replaced value parsed today v w h n in
    (t, c, rw (nonempty, e, resolve_year, resolve_parsed, past, none_given) (ap some same))
