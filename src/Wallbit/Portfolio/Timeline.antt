-- ===== src/Wallbit/Portfolio/Timeline.antt =====
-- wallbit/portfolio.py, `get_timeline`: the capital invested by day. A date is the number of its day,
-- of 86400 seconds. The order of the query plays no part, since the days are sorted.
use tresqu_api.Common.{
  ℕ, ◌-◌, ◌*◌, ◌/◌, Bool, ◌&&◌, ◌||◌, none, some, List, [], ◌∷◌, String, ltb, leb, ◌==◌, str_eq,
  if◌then◌else◌,
}
use tresqu_api.Common.Int.{ℤ, pos, ◌+ℤ◌, ◌-ℤ◌}
use tresqu_api.Common.Dict.{Dict}
use tresqu_api.Wallbit.Models.{World, Investment, Action, buy, sell}
use tresqu_api.Wallbit.Limits.{day_seconds}
use tresqu_api.Wallbit.Sync.{is_action}
use tresqu_api.Wallbit.Portfolio.{is_settled, signed_amount}

pub record TimelinePoint : Type 0 where
  pub date : ℕ
  pub invested_total_usd : ℤ

-- `_PERIOD_DAYS.get(period, 90)`
unfoldable pub period_days : String → ℕ
period_days period =
    if str_eq period "1m"
    then 30
    else if str_eq period "3m"
    then 90
    else if str_eq period "6m"
    then 180
    else if str_eq period "1y"
    then 365
    else if str_eq period "all"
    then 3650
    else 90

-- `Coalesce("executed_at", "created_at")`
unfoldable pub effective_at : Investment → ℕ
effective_at i = elim i.executed_at [ none ↦ i.created_at | some at ↦ at ]

-- `daily_delta[day] += amount`, on a dict that gives 0 for a missing key
unfoldable pub add_delta : ℕ → ℤ → Dict ℤ → Dict ℤ
add_delta day amount [] = (day, amount) ∷ []
add_delta day amount ((other, total) ∷ deltas) =
    if other == day
    then (other, total +ℤ amount) ∷ deltas
    else (other, total) ∷ add_delta day amount deltas

unfoldable pub insert_day : ℕ → ℤ → Dict ℤ → Dict ℤ
insert_day day delta [] = (day, delta) ∷ []
insert_day day delta ((other, total) ∷ deltas) =
    if leb day other
    then (day, delta) ∷ (other, total) ∷ deltas
    else (other, total) ∷ insert_day day delta deltas

-- `sorted(daily_delta.keys())`, with the values
unfoldable pub sort_days : Dict ℤ → Dict ℤ
sort_days [] = []
sort_days ((day, delta) ∷ deltas) = insert_day day delta (sort_days deltas)

unfoldable pub accumulate : ℤ → Dict ℤ → List TimelinePoint
accumulate cumulative [] = []
accumulate cumulative ((day, delta) ∷ deltas) =
    record { date = day; invested_total_usd = cumulative +ℤ delta }
    ∷ accumulate (cumulative +ℤ delta) deltas

module _ (user : ℕ) (w : World) where
  -- A settled row of the user, bought or sold.
  unfoldable pub is_trade : Investment → Bool
  is_trade i =
      i.user == user
      && (is_action i.action buy || is_action i.action sell)
      && is_settled w.mirrors i

  unfoldable pub add_deltas : ℕ → List Investment → Dict ℤ → Dict ℤ
  add_deltas since [] deltas = deltas
  add_deltas since (i ∷ is) deltas = add_deltas since is (
      if is_trade i && leb since (effective_at i)
      then add_delta (effective_at i / day_seconds) (signed_amount i.action i.amount_usd) deltas
      else deltas)

  -- The sum of one action before the window.
  unfoldable pub total_before : Action → ℕ → List Investment → ℤ
  total_before action since [] = pos 0
  total_before action since (i ∷ is) =
      let rest = total_before action since is in
      if i.user == user
        && is_action i.action action
        && is_settled w.mirrors i
        && ltb (effective_at i) since
      then i.amount_usd +ℤ rest
      else rest

  unfoldable pub get_timeline : String → List TimelinePoint
  unfolding period_days sort_days accumulate add_deltas total_before
  get_timeline period =
      let since = w.now - period_days period * day_seconds in
      accumulate (total_before buy since w.investments -ℤ total_before sell since w.investments)
        (sort_days (add_deltas since w.investments []))
