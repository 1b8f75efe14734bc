-- ===== src/Wallbit/Portfolio/Curve.antt =====
-- Where the curve of wallbit/portfolio.py, `get_timeline`, ends.
use tresqu_api.Common.{
  ℕ, ◌-◌, ◌*◌, ◌/◌, ◌≡◌, refl, ap, sym, ◌∙◌, inl, inr, Bool, true, false, not, ◌&&◌, ◌||◌, List, [],
  ◌∷◌, String, arith, ltb, leb, ◌==◌, if◌then◌else◌, Bool-cases,
}
use tresqu_api.Common.Int.{ℤ, pos, ◌+ℤ◌, ◌-ℤ◌, +ℤ_parts, eq_of_parts}
use tresqu_api.Common.Dict.{Dict}
use tresqu_api.Wallbit.Snapshot.{Formats}
use tresqu_api.Wallbit.Models.{World, Investment, Action, buy, sell, deposit, withdraw}
use tresqu_api.Wallbit.Limits.{day_seconds}
use tresqu_api.Wallbit.Sync.{is_action}
use tresqu_api.Wallbit.Portfolio.{is_settled, signed_amount}
use tresqu_api.Wallbit.Portfolio.Sums.{
  add_assoc_ℤ, add_left_comm, add_zero, bought_before, bought_inside, sold_before, sold_inside,
}
use tresqu_api.Wallbit.Portfolio.Totals.{total_of}
use tresqu_api.Wallbit.Portfolio.Timeline.{
  TimelinePoint, accumulate, add_delta, add_deltas, effective_at, get_timeline, insert_day,
  is_trade, period_days, sort_days, total_before,
}

-- The invested total of the last point, or the given one where there is no point.
abbrev pub last_total : ℤ → List TimelinePoint → ℤ
last_total total [] = total
last_total total (point ∷ points) = last_total point.invested_total_usd points

abbrev sum_values : Dict ℤ → ℤ
sum_values [] = pos 0
sum_values ((day, delta) ∷ deltas) = delta +ℤ sum_values deltas

last_total-accumulate :
    (total : ℤ) (deltas : Dict ℤ)
    → last_total total (accumulate total deltas) ≡ total +ℤ sum_values deltas
unfolding accumulate
last_total-accumulate total [] = sym (add_zero total)
last_total-accumulate total ((day, delta) ∷ deltas) =
    last_total-accumulate (total +ℤ delta) deltas ∙ add_assoc_ℤ total delta (sum_values deltas)

sum_values-insert_day :
    (day : ℕ) (delta : ℤ) (deltas : Dict ℤ)
    → sum_values (insert_day day delta deltas) ≡ delta +ℤ sum_values deltas
unfolding insert_day
sum_values-insert_day day delta [] = refl
sum_values-insert_day day delta ((other, total) ∷ deltas) = elim (Bool-cases (leb day other)) [
  | inl first ↦ rw first refl
  | inr later ↦
      rw (later, sum_values-insert_day day delta deltas)
        (add_left_comm total delta (sum_values deltas))
]

sum_values-sort_days : (deltas : Dict ℤ) → sum_values (sort_days deltas) ≡ sum_values deltas
unfolding sort_days
sum_values-sort_days [] = refl
sum_values-sort_days ((day, delta) ∷ deltas) =
    sum_values-insert_day day delta (sort_days deltas)
    ∙ ap (λ s. delta +ℤ s) (sum_values-sort_days deltas)

sum_values-add_delta :
    (day : ℕ) (amount : ℤ) (deltas : Dict ℤ)
    → sum_values (add_delta day amount deltas) ≡ amount +ℤ sum_values deltas
unfolding add_delta
sum_values-add_delta day amount [] = refl
sum_values-add_delta day amount ((other, total) ∷ deltas) = elim (Bool-cases (other == day)) [
  | inl same ↦ rw same (
      add_assoc_ℤ total amount (sum_values deltas) ∙ add_left_comm total amount (sum_values deltas))
  | inr distinct ↦
      rw (distinct, sum_values-add_delta day amount deltas)
        (add_left_comm total amount (sum_values deltas))
]

-- One row, with the tests of the three sums.
split_step :
    (mine settled before : Bool) (action : Action) (a old_b old_s inside b s : ℤ)
    → old_b -ℤ old_s +ℤ inside ≡ b -ℤ s
    → (if mine && is_action action buy && settled && before then a +ℤ old_b else old_b)
        -ℤ (if mine && is_action action sell && settled && before then a +ℤ old_s else old_s)
        +ℤ (if (mine && (is_action action buy || is_action action sell) && settled) && not before
            then signed_amount action a +ℤ inside
            else inside)
      ≡ (if mine && is_action action buy && settled then a +ℤ b else b)
        -ℤ (if mine && is_action action sell && settled then a +ℤ s else s)
unfolding signed_amount
split_step false settled before action a old_b old_s inside b s h = h
split_step true settled before deposit a old_b old_s inside b s h = h
split_step true settled before withdraw a old_b old_s inside b s h = h
split_step true false before buy a old_b old_s inside b s h = h
split_step true false before sell a old_b old_s inside b s h = h
split_step true true true buy a old_b old_s inside b s h = bought_before a old_b old_s inside b s h
split_step true true true sell a old_b old_s inside b s h = sold_before a old_b old_s inside b s h
split_step true true false buy a old_b old_s inside b s h = bought_inside a old_b old_s inside b s h
split_step true true false sell a old_b old_s inside b s h = sold_inside a old_b old_s inside b s h

leb_complement : (m n : ℕ) → leb m n ≡ not (ltb n m)
leb_complement m n = ground arith

module _ (formats : Formats) (user : ℕ) (w : World) (since : ℕ) where
  -- What the rows in the window add.
  windowed : List Investment → ℤ
  windowed [] = pos 0
  windowed (i ∷ is) =
      let rest = windowed is in
      if is_trade user w i && leb since (effective_at i)
      then signed_amount i.action i.amount_usd +ℤ rest
      else rest

  sum_values-add_deltas :
      (is : List Investment) (deltas : Dict ℤ)
      → sum_values (add_deltas user w since is deltas) ≡ windowed is +ℤ sum_values deltas
  unfolding add_deltas windowed
  sum_values-add_deltas [] deltas =
      eq_of_parts _ _ (omega (arith, +ℤ_parts (pos 0) (sum_values deltas)))
  sum_values-add_deltas (i ∷ is) deltas =
      elim (Bool-cases (is_trade user w i && leb since (effective_at i))) [
        | inl inside ↦ rw inside (
            sum_values-add_deltas is (
              add_delta (effective_at i / day_seconds) (signed_amount i.action i.amount_usd) deltas)
            ∙ ap (λ s. windowed is +ℤ s)
                (sum_values-add_delta (effective_at i / day_seconds)
                  (signed_amount i.action i.amount_usd) deltas)
            ∙ add_left_comm (windowed is) (signed_amount i.action i.amount_usd) (sum_values deltas)
            ∙ sym (
                add_assoc_ℤ (signed_amount i.action i.amount_usd) (windowed is)
                  (sum_values deltas)))
        | inr outside ↦ rw outside (sum_values-add_deltas is deltas)
      ]

  -- The rows before the window and those in it are all the rows.
  split_total :
      (is : List Investment)
      → total_before user w buy since is -ℤ total_before user w sell since is +ℤ windowed is
        ≡ total_of formats user w buy is -ℤ total_of formats user w sell is
  unfolding total_before windowed total_of is_trade
  split_total [] = add_zero (pos 0 -ℤ pos 0)
  split_total (i ∷ is) = rw (leb_complement since (effective_at i)) (
      split_step (i.user == user) (is_settled w.mirrors i) (ltb (effective_at i) since) i.action
        i.amount_usd (total_before user w buy since is) (total_before user w sell since is)
        (windowed is) (total_of formats user w buy is) (total_of formats user w sell is)
        (split_total is))

-- The last point of the curve is what the user has bought less what he has sold, whatever the period.
-- Where nothing was traded in the period the curve is empty, and the sum before the period is that.
pub get_timeline-last_total :
    (formats : Formats) (user : ℕ) (w : World) (period : String)
    → let since = w.now - period_days period * day_seconds in
      last_total
        (total_before user w buy since w.investments
          -ℤ total_before user w sell since w.investments)
        (get_timeline user w period)
      ≡ total_of formats user w buy w.investments -ℤ total_of formats user w sell w.investments
unfolding get_timeline
get_timeline-last_total formats user w period =
    let since = w.now - period_days period * day_seconds in
    let seed =
      total_before user w buy since w.investments -ℤ total_before user w sell since w.investments in
    last_total-accumulate seed (sort_days (add_deltas user w since w.investments []))
    ∙ ap (λ s. seed +ℤ s)
        (sum_values-sort_days (add_deltas user w since w.investments [])
          ∙ sum_values-add_deltas formats user w since w.investments []
          ∙ add_zero (windowed formats user w since w.investments))
    ∙ split_total formats user w since w.investments
