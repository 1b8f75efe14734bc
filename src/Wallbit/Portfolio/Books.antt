-- ===== src/Wallbit/Portfolio/Books.antt =====
-- The books of wallbit/portfolio.py, position by position: `get_holdings` and `get_summary` apply the
-- same rule to shares whose cost is not known yet.
use tresqu_api.Common.{
  ℕ, ◌≡◌, refl, ap, subst, sym, ◌∙◌, inl, inr, Bool, true, false, ◌||◌, List, [], ◌∷◌, arith,
  str_eq, if◌then◌else◌, contains, Bool-cases,
}
use tresqu_api.Common.Int.{ℤ, pos, ◌+ℤ◌, ◌-ℤ◌, ◌*ℤ◌, leb_ℤ, ltb_ℤ, +ℤ_parts, eq_of_parts, leb_ℤ-not}
use tresqu_api.Common.Json.{Json}
use tresqu_api.Wallbit.Models.{World, buy, sell}
use tresqu_api.Wallbit.Snapshot.{
  Assets, Formats, LiveSnapshot, cash_symbols, is_skipped, shares_of, symbol_of,
}
use tresqu_api.Wallbit.Portfolio.{
  CostBasis, Holding, asset_of, cost_and_pnl, cost_basis_for_symbol, holding_of, asset_price,
  scaled,
}
use tresqu_api.Wallbit.Portfolio.Sums.{
  balance_step, empty_balance, final_balance, or_false, or_true,
}
use tresqu_api.Wallbit.Portfolio.Totals.{
  Totals, add_position, add_positions, collect, holdings_of, insert_holding, sort_holdings,
  summary_of, total_of, untracked_value,
}
use tresqu_api.Wallbit.Portfolio.Basis.{known_cost, cost_and_pnl_balance}

-- The P&L of all positions.
abbrev pub total_pnl : List Holding → ℤ
total_pnl [] = pos 0
total_pnl (h ∷ hs) = h.pnl_usd +ℤ total_pnl hs

total_pnl-insert_holding :
    (h : Holding) (hs : List Holding) → total_pnl (insert_holding h hs) ≡ h.pnl_usd +ℤ total_pnl hs
unfolding insert_holding
total_pnl-insert_holding h [] = refl
total_pnl-insert_holding h (g ∷ gs) = elim (Bool-cases (ltb_ℤ h.market_value g.market_value)) [
  | inr above ↦ rw above refl
  | inl below ↦
      rw (below, total_pnl-insert_holding h gs)
        (eq_of_parts _ _ (
          omega (
            arith,
            +ℤ_parts h.pnl_usd (total_pnl gs),
            +ℤ_parts g.pnl_usd (total_pnl gs),
            +ℤ_parts g.pnl_usd (h.pnl_usd +ℤ total_pnl gs),
            +ℤ_parts h.pnl_usd (g.pnl_usd +ℤ total_pnl gs),
          )))
]

total_pnl-sort_holdings : (hs : List Holding) → total_pnl (sort_holdings hs) ≡ total_pnl hs
unfolding sort_holdings
total_pnl-sort_holdings [] = refl
total_pnl-sort_holdings (h ∷ hs) =
    total_pnl-insert_holding h (sort_holdings hs)
    ∙ ap (λ p. h.pnl_usd +ℤ p) (total_pnl-sort_holdings hs)

-- Free cash moves neither the value nor the untracked cost.
add_cash :
    (usd : Bool) (t : Totals) (shares : ℤ)
    → ((if usd then record t { investment_cash = t.investment_cash +ℤ shares } else t).current_value
        ≡ t.current_value)
      × ((if usd
            then record t { investment_cash = t.investment_cash +ℤ shares }
            else t).untracked_cost
          ≡ t.untracked_cost)
add_cash true t shares = (refl, refl)
add_cash false t shares = (refl, refl)

module _ (formats : Formats) (user : ℕ) (w : World) (assets : Assets) where
  abbrev basis_of : Json → CostBasis
  basis_of position = cost_basis_for_symbol user (symbol_of position) w

  -- The known cost of all positions that are shown.
  abbrev pub total_known_cost : List Json → ℤ
  total_known_cost [] = pos 0
  total_known_cost (position ∷ positions) =
      if is_skipped formats position
      then total_known_cost positions
      else known_cost (basis_of position) +ℤ total_known_cost positions

  abbrev Balance : List Json → Totals → Type 0
  Balance positions t =
      total_pnl (collect formats user w assets positions)
        +ℤ total_known_cost positions
        +ℤ (add_positions formats user w assets positions t).untracked_cost
        +ℤ t.current_value
      ≡ (add_positions formats user w assets positions t).current_value +ℤ t.untracked_cost

  -- The tests of `is_skipped`.
  is_skipped_cases :
      (position : Json)
      → is_skipped formats position ≡ false
      → (str_eq (symbol_of position) "" ≡ false)
        × (contains cash_symbols (symbol_of position) ≡ false)
        × (leb_ℤ (shares_of formats position) (pos 0) ≡ false)
  unfolding is_skipped
  is_skipped_cases position h = or_false _ _ _ h

  holding_of-pnl :
      (position : Json)
      → is_skipped formats position ≡ false
      → (holding_of formats user w assets position).pnl_usd
        ≡ (cost_and_pnl
            (asset_price formats (asset_of (symbol_of position) assets))
            (shares_of formats position)
            (basis_of position)).1
  unfolding holding_of
  holding_of-pnl position h =
      rw (leb_ℤ-not (shares_of formats position) (pos 0) (is_skipped_cases position h).2) refl

  add_position_skipped :
      (position : Json) (t : Totals)
      → is_skipped formats position ≡ true
      → ((add_position formats user w assets position t).current_value ≡ t.current_value)
        × ((add_position formats user w assets position t).untracked_cost ≡ t.untracked_cost)
  unfolding add_position is_skipped
  add_position_skipped position t h =
      elim (Bool-cases
        (str_eq (symbol_of position) "" || leb_ℤ (shares_of formats position) (pos 0))) [
          | inl skipped ↦ rw skipped (refl, refl)
          | inr held ↦
              let cash =
                or_true (str_eq (symbol_of position) "")
                  (contains cash_symbols (symbol_of position))
                  (leb_ℤ (shares_of formats position) (pos 0)) h held in
              rw (held, cash)
                (add_cash (str_eq (symbol_of position) "USD") t (shares_of formats position))
        ]

  add_position_held :
      (position : Json) (t : Totals)
      → is_skipped formats position ≡ false
      → ((add_position formats user w assets position t).current_value
          ≡ t.current_value
            +ℤ asset_price formats (asset_of (symbol_of position) assets)
              *ℤ shares_of formats position)
        × ((add_position formats user w assets position t).untracked_cost
            ≡ t.untracked_cost
              +ℤ untracked_value
                  (asset_price formats (asset_of (symbol_of position) assets))
                  (shares_of formats position)
                  (basis_of position))
  unfolding add_position
  add_position_held position t h =
      let (named, no_cash, some_shares) = is_skipped_cases position h in
      rw (named, no_cash, some_shares) (refl, refl)

  abbrev held_price : Json → ℤ
  held_price position = asset_price formats (asset_of (symbol_of position) assets)

  held_balance :
      (position : Json)
      → is_skipped formats position ≡ false
      → (holding_of formats user w assets position).pnl_usd
          +ℤ untracked_value (held_price position) (shares_of formats position) (basis_of position)
          +ℤ known_cost (basis_of position)
        ≡ held_price position *ℤ shares_of formats position
  held_balance position h =
      subst
        (λ p.
          p
            +ℤ untracked_value (held_price position) (shares_of formats position)
                (basis_of position)
            +ℤ known_cost (basis_of position)
          ≡ held_price position *ℤ shares_of formats position)
        (sym (holding_of-pnl position h))
        (cost_and_pnl_balance (held_price position) (shares_of formats position)
          (basis_of position))

  add_positions-Balance : (positions : List Json) (t : Totals) → Balance positions t
  unfolding collect add_positions
  add_positions-Balance [] t = empty_balance t.untracked_cost t.current_value
  add_positions-Balance (position ∷ positions) t =
      let t' = add_position formats user w assets position t in
      let end_t = add_positions formats user w assets positions t' in
      let ih = add_positions-Balance positions t' in
      elim (Bool-cases (is_skipped formats position)) [
        | inl skipped ↦
            let (same_value, same_cost) = add_position_skipped position t skipped in
            rw skipped (rw (same_value, same_cost) at ih)
        | inr held ↦
            let (new_value, new_cost) = add_position_held position t held in
            rw held (
              balance_step (holding_of formats user w assets position).pnl_usd
                (known_cost (basis_of position))
                (untracked_value (held_price position) (shares_of formats position)
                  (basis_of position))
                (held_price position *ℤ shares_of formats position)
                (total_pnl (collect formats user w assets positions)) (total_known_cost positions)
                end_t.untracked_cost end_t.current_value t.untracked_cost t.current_value
                (held_balance position held) (rw (new_value, new_cost) at ih))
      ]

pub summary_balance :
    (formats : Formats) (user : ℕ) (w : World) (snap : LiveSnapshot)
    → (summary_of formats user w snap).summary_pnl_usd
        +ℤ (scaled (total_of formats user w buy w.investments)
            -ℤ scaled (total_of formats user w sell w.investments))
      ≡ total_pnl (holdings_of formats user w snap)
        +ℤ total_known_cost formats user w snap.assets snap.positions
unfolding summary_of holdings_of
summary_balance formats user w snap =
    let zero_totals : Totals = record {
      current_value = pos 0;
      untracked_cost = pos 0;
      holdings_count = 0;
      investment_cash = pos 0;
    } in
    let end_t = add_positions formats user w snap.assets snap.positions zero_totals in
    rw (total_pnl-sort_holdings (collect formats user w snap.assets snap.positions)) (
      final_balance (scaled (total_of formats user w buy w.investments))
        (scaled (total_of formats user w sell w.investments)) end_t.untracked_cost
        end_t.current_value (total_pnl (collect formats user w snap.assets snap.positions))
        (total_known_cost formats user w snap.assets snap.positions)
        (add_positions-Balance formats user w snap.assets snap.positions zero_totals))
