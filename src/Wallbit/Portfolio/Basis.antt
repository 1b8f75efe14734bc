-- ===== src/Wallbit/Portfolio/Basis.antt =====
-- The cost basis and the P&L of one position (wallbit/portfolio.py, `get_holdings`).
use tresqu_api.Common.{◌≡◌, refl, ap, inl, inr, true, arith, if◌then◌else◌, Bool-cases}
use tresqu_api.Common.Int.{
  ℤ, pos, ◌+ℤ◌, ◌-ℤ◌, ◌*ℤ◌, ltb_ℤ, +ℤ_parts, -ℤ_parts, eq_of_parts, zero-*ℤ, leb_ℤ-not_ltb,
  ltb_ℤ-not_leb,
}
use tresqu_api.Wallbit.Sync.{is_amount}
use tresqu_api.Wallbit.Portfolio.{CostBasis, cost_and_pnl, scaled, untracked_shares}
use tresqu_api.Wallbit.Portfolio.Totals.{untracked_value}

-- The settled cost of a position, where it is positive.
abbrev pub known_cost : CostBasis → ℤ
known_cost basis = if ltb_ℤ (pos 0) basis.net_cost then scaled basis.net_cost else pos 0

difference_balance : (m c : ℤ) → m -ℤ c +ℤ pos 0 +ℤ c ≡ m
difference_balance m c = omega (
  arith,
  -ℤ_parts m c,
  +ℤ_parts (m -ℤ c) (pos 0),
  +ℤ_parts (m -ℤ c +ℤ pos 0) c,
  eq_of_parts (m -ℤ c +ℤ pos 0 +ℤ c) m,
)

partial_balance : (m c u : ℤ) → m -ℤ (c +ℤ u) +ℤ u +ℤ c ≡ m
partial_balance m c u = eq_of_parts _ _ (
    omega (
      arith,
      -ℤ_parts m (c +ℤ u),
      +ℤ_parts c u,
      +ℤ_parts (m -ℤ (c +ℤ u)) u,
      +ℤ_parts (m -ℤ (c +ℤ u) +ℤ u) c,
    ))

zero_balance : (m : ℤ) → pos 0 +ℤ m +ℤ pos 0 ≡ m
zero_balance m = eq_of_parts _ m (omega (arith, +ℤ_parts (pos 0) m, +ℤ_parts (pos 0 +ℤ m) (pos 0)))

self_difference : (m : ℤ) → pos 0 ≡ m -ℤ m
self_difference m = eq_of_parts (pos 0) (m -ℤ m) (omega (arith, -ℤ_parts m m))

is_amount_zero : (a : ℤ) → is_amount a (pos 0) ≡ true → a ≡ pos 0
is_amount_zero a h = ground (arith, eq_of_parts a (pos 0))

module _ (price shares : ℤ) (basis : CostBasis) where
  abbrev beyond : ℤ
  beyond = untracked_shares shares basis.net_shares basis.n_trades

  -- The P&L is the value less the cost basis.
  pub cost_and_pnl_difference :
      (cost_and_pnl price shares basis).1 ≡ price *ℤ shares -ℤ (cost_and_pnl price shares basis).0
  unfolding cost_and_pnl
  cost_and_pnl_difference = elim (Bool-cases (ltb_ℤ (pos 0) basis.net_cost)) [
    | inr free ↦ rw free (self_difference (price *ℤ shares))
    | inl paid ↦ elim (Bool-cases (is_amount beyond (pos 0))) [
      | inl none_left ↦ rw (paid, none_left) refl
      | inr some_left ↦ rw (paid, some_left) refl
    ]
  ]

  pub cost_and_pnl_balance :
      (cost_and_pnl price shares basis).1 +ℤ untracked_value price shares basis +ℤ known_cost basis
      ≡ price *ℤ shares
  unfolding cost_and_pnl untracked_value
  cost_and_pnl_balance = elim (Bool-cases (ltb_ℤ (pos 0) basis.net_cost)) [
    | inr free ↦
        rw (free, ltb_ℤ-not_leb (pos 0) basis.net_cost free) (zero_balance (price *ℤ shares))
    | inl paid ↦ elim (Bool-cases (is_amount beyond (pos 0))) [
      | inl none_left ↦
          rw
            (
              paid,
              leb_ℤ-not_ltb (pos 0) basis.net_cost paid,
              none_left,
              ap (λ a. a *ℤ price) (is_amount_zero beyond none_left),
              zero-*ℤ price,
            )
            (difference_balance (price *ℤ shares) (scaled basis.net_cost))
      | inr some_left ↦
          rw (paid, leb_ℤ-not_ltb (pos 0) basis.net_cost paid, some_left)
            (partial_balance (price *ℤ shares) (scaled basis.net_cost) (beyond *ℤ price))
    ]
  ]
