-- ===== src/Wallbit/Portfolio/Agreement.antt =====
-- What the P&L of the summary, that of the positions and the curve of wallbit/portfolio.py have to do
-- with each other.
use tresqu_api.Common.{ℕ, ◌≡◌, ap, ◌∙◌, String, ◌-◌, ◌*◌, ◌^◌, arith}
use tresqu_api.Common.Int.{ℤ, pos, ◌+ℤ◌, ◌-ℤ◌, ◌*ℤ◌, -ℤ_parts, *ℤ_pos_parts, eq_of_parts}
use tresqu_api.Wallbit.Models.{World, buy, sell}
use tresqu_api.Wallbit.Snapshot.{Formats, LiveSnapshot}
use tresqu_api.Wallbit.Portfolio.{scaled}
use tresqu_api.Wallbit.Portfolio.Totals.{holdings_of, summary_of, total_of}
use tresqu_api.Wallbit.Limits.{day_seconds}
use tresqu_api.Wallbit.Portfolio.Timeline.{get_timeline, period_days, total_before}
use tresqu_api.Wallbit.Portfolio.Curve.{get_timeline-last_total, last_total}
use tresqu_api.Wallbit.Portfolio.Books.{summary_balance, total_known_cost, total_pnl}

scaled_difference : (a b : ℤ) → scaled (a -ℤ b) ≡ scaled a -ℤ scaled b
unfolding scaled
scaled_difference a b = eq_of_parts _ _ (
    omega (
      arith,
      *ℤ_pos_parts (a -ℤ b) (10 ^ 8),
      *ℤ_pos_parts a (10 ^ 8),
      *ℤ_pos_parts b (10 ^ 8),
      -ℤ_parts a b,
      -ℤ_parts (a *ℤ pos (10 ^ 8)) (b *ℤ pos (10 ^ 8)),
    ))

-- Where the curve of the invested capital ends, for a period.
abbrev pub invested_capital : ℕ → World → String → ℤ
invested_capital user w period =
    let since = w.now - period_days period * day_seconds in
    last_total
      (total_before user w buy since w.investments -ℤ total_before user w sell since w.investments)
      (get_timeline user w period)

-- The P&L of the summary, that of the positions and the curve of the invested capital are computed
-- apart. The first with the capital at the end of the curve, of any period, is the sum of the second
-- with the settled costs of the shown positions whose settled cost is positive. So the two P&L differ
-- by what that capital and these costs differ by, as where a position has been sold out.
pub summary_of-holdings_of :
    (formats : Formats) (user : ℕ) (w : World) (snap : LiveSnapshot) (period : String)
    → (summary_of formats user w snap).summary_pnl_usd +ℤ scaled (invested_capital user w period)
      ≡ total_pnl (holdings_of formats user w snap)
        +ℤ total_known_cost formats user w snap.assets snap.positions
summary_of-holdings_of formats user w snap period =
    ap (λ a. (summary_of formats user w snap).summary_pnl_usd +ℤ a)
      (ap scaled (get_timeline-last_total formats user w period)
        ∙ scaled_difference (total_of formats user w buy w.investments)
            (total_of formats user w sell w.investments))
    ∙ summary_balance formats user w snap
