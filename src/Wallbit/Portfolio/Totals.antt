-- ===== src/Wallbit/Portfolio/Totals.antt =====
-- wallbit/portfolio.py: `get_holdings`, `get_summary` and `get_robo_advisor_position`.
use tresqu_api.Common.{
  ℕ, ◌+◌, Bool, true, not, ◌&&◌, ◌||◌, Option, none, some, List, [], ◌∷◌, String, ◌==◌, str_eq,
  if◌then◌else◌, upper, contains,
}
use tresqu_api.Common.Int.{ℤ, pos, ◌+ℤ◌, ◌-ℤ◌, ◌*ℤ◌, leb_ℤ, ltb_ℤ}
use tresqu_api.Common.Json.{Json}
use tresqu_api.Wallbit.Messages.{Log, Request, Outcome}
use tresqu_api.Wallbit.Models.{
  Decrypted, World, Investment, robo, chest, Action, buy, sell, deposit, withdraw,
}
use tresqu_api.Wallbit.Limits.{AccountResult, found, not_connected, get_account}
use tresqu_api.Wallbit.Snapshot.{
  Assets, Formats, LiveSnapshot, Served, Shared, StaleReason, cash_symbols, failure, is_skipped,
  shares_of, snapshot, symbol_of, text_of, to_decimal, get_or_get, unavailable,
}
use tresqu_api.Wallbit.Snapshot.Live.{get_live_snapshot}
use tresqu_api.Wallbit.Sync.{is_action, is_kind}
use tresqu_api.Wallbit.Portfolio.{
  CostBasis, Holding, asset_of, cost_basis_for_symbol, holding_of, is_settled, asset_price, scaled,
  untracked_shares,
}

-- `holdings.sort(key=lambda h: h.market_value, reverse=True)`, which is stable
unfoldable pub insert_holding : Holding → List Holding → List Holding
insert_holding h [] = h ∷ []
insert_holding h (g ∷ gs) =
    if ltb_ℤ h.market_value g.market_value then g ∷ insert_holding h gs else h ∷ g ∷ gs

unfoldable pub sort_holdings : List Holding → List Holding
unfolding insert_holding
sort_holdings [] = []
sort_holdings (h ∷ hs) = insert_holding h (sort_holdings hs)

-- The variables of the loop in `get_summary`.
pub record Totals : Type 0 where
  pub current_value : ℤ
  pub untracked_cost : ℤ
  pub holdings_count : ℕ
  pub investment_cash : ℤ

pub record CashBalance : Type 0 where
  pub currency : String
  pub amount : ℤ

-- `_cash_balances`
unfoldable pub cash_balances : Formats → List Json → List CashBalance
cash_balances formats [] = []
cash_balances formats (row ∷ rows) =
    let currency = upper (text_of (get_or_get "currency" "code" row)) in
    let amount = to_decimal formats (get_or_get "balance" "amount" row) in
    let rest = cash_balances formats rows in
    if not (str_eq currency "") && ltb_ℤ (pos 0) amount
    then record { currency = currency; amount = amount } ∷ rest
    else rest

-- A product of 10 ^ -16 stands beside amounts of 10 ^ -8, which are scaled. The time of the last
-- sync, the trades that are not settled and the percentage are left out.
pub record PortfolioSummary : Type 0 where
  pub total_invested_usd : ℤ
  pub total_withdrawn_usd : ℤ
  pub net_invested_usd : ℤ
  pub current_value_usd : ℤ
  pub summary_pnl_usd : ℤ
  pub holdings_count : ℕ
  pub cash : List CashBalance
  pub robo_net_contributed_usd : ℤ
  pub investment_cash_usd : ℤ
  pub is_stale : Bool
  pub as_of : Option ℕ

-- What a held position adds to `untracked_cost`.
unfoldable pub untracked_value : (price shares : ℤ) → CostBasis → ℤ
unfolding untracked_shares
untracked_value price shares basis =
    if leb_ℤ basis.net_cost (pos 0)
    then price *ℤ shares
    else untracked_shares shares basis.net_shares basis.n_trades *ℤ price

module _ (formats : Formats) (user : ℕ) (w : World) where
  -- The loop of `get_holdings`.
  unfoldable pub collect : Assets → List Json → List Holding
  unfolding is_skipped holding_of
  collect assets [] = []
  collect assets (position ∷ positions) =
      let rest = collect assets positions in
      if is_skipped formats position then rest else holding_of formats user w assets position ∷ rest

  -- `get_holdings`, on a snapshot
  unfoldable pub holdings_of : LiveSnapshot → List Holding
  unfolding collect sort_holdings
  holdings_of snap = sort_holdings (collect snap.assets snap.positions)

  -- The sum of the settled rows of one action.
  unfoldable pub total_of : Action → List Investment → ℤ
  unfolding is_settled
  total_of action [] = pos 0
  total_of action (i ∷ is) =
      let rest = total_of action is in
      if i.user == user && is_action i.action action && is_settled w.mirrors i
      then i.amount_usd +ℤ rest
      else rest

  unfoldable pub add_position : Assets → Json → Totals → Totals
  add_position assets position totals =
      let symbol = symbol_of position in
      let shares = shares_of formats position in
      let price = asset_price formats (asset_of symbol assets) in
      if str_eq symbol "" || leb_ℤ shares (pos 0)
      then totals
      else if contains cash_symbols symbol
      then (if str_eq symbol "USD"
          then record totals { investment_cash = totals.investment_cash +ℤ shares }
          else totals)
      else record totals {
        current_value = totals.current_value +ℤ price *ℤ shares;
        untracked_cost =
            totals.untracked_cost
            +ℤ untracked_value price shares (cost_basis_for_symbol user symbol w);
        holdings_count = totals.holdings_count + 1;
      }

  -- The loop of `get_summary`.
  unfoldable pub add_positions : Assets → List Json → Totals → Totals
  unfolding add_position
  add_positions assets [] totals = totals
  add_positions assets (position ∷ positions) totals =
      add_positions assets positions (add_position assets position totals)

  -- `get_robo_advisor_position(user)["net_contributed_usd"]`
  robo_total : Action → List Investment → ℤ
  robo_total action [] = pos 0
  robo_total action (i ∷ is) =
      let rest = robo_total action is in
      if i.user == user
        && (is_kind i.kind robo || is_kind i.kind chest)
        && is_action i.action action
      then i.amount_usd +ℤ rest
      else rest

  unfoldable pub robo_net_contributed : ℤ
  unfolding robo_total
  robo_net_contributed = robo_total deposit w.investments -ℤ robo_total withdraw w.investments

  -- `get_summary`, on a snapshot
  unfoldable pub summary_of : LiveSnapshot → PortfolioSummary
  unfolding total_of add_positions cash_balances robo_net_contributed scaled
  summary_of snap =
      let totals = add_positions snap.assets snap.positions (record {
        current_value = pos 0;
        untracked_cost = pos 0;
        holdings_count = 0;
        investment_cash = pos 0;
      }) in
      let withdrawn = scaled (total_of sell w.investments) in
      let invested = scaled (total_of buy w.investments) +ℤ totals.untracked_cost in
      let net_invested = invested -ℤ withdrawn in
      record {
        total_invested_usd = invested;
        total_withdrawn_usd = withdrawn;
        net_invested_usd = net_invested;
        current_value_usd = totals.current_value;
        summary_pnl_usd = totals.current_value -ℤ net_invested;
        holdings_count = totals.holdings_count;
        cash = cash_balances formats snap.checking;
        robo_net_contributed_usd = robo_net_contributed;
        investment_cash_usd = totals.investment_cash;
        is_stale = snap.stale;
        as_of = snap.fetched_at;
      }

-- How `get_holdings` and `get_summary` end.
pub data Shown {ℓ} (A : Type ℓ) : Type ℓ where
  shown : A → Shown A
  account_missing : (message : String) → Shown A
  no_data : StaleReason → Shown A
  crashed : (message : String) → Shown A

show_served {ℓ} : {A : Type ℓ} → (LiveSnapshot → A) → Served → Shown A
show_served view (snapshot snap) = shown (view snap)
show_served view (unavailable reason) = no_data reason
show_served view (failure message) = crashed message

module _ {ℓ} {A : Type ℓ} (answer : Log → Request → Outcome) (decrypt : String → Decrypted)
    (formats : Formats) (meanwhile : Shared → Shared) where
  -- The loop always ends (`get_live_snapshot_ends`), so the first clause is never reached.
  show_run : (LiveSnapshot → A) → Shared → Option (Served × Shared) → Shown A × Shared
  unfolding show_served
  show_run view s none = (crashed "", s)
  show_run view s (some (served, s')) = (show_served view served, s')

  shown_on_account : (LiveSnapshot → A) → AccountResult → Shared → Shown A × Shared
  unfolding show_run get_live_snapshot
  shown_on_account view (not_connected message) s = (account_missing message, s)
  shown_on_account view (found account) s =
      show_run view s (get_live_snapshot answer decrypt formats meanwhile account true s)

  -- The first two lines of both functions.
  unfoldable pub with_snapshot : (LiveSnapshot → A) → ℕ → World → Shared → Shown A × Shared
  unfolding shown_on_account get_account
  with_snapshot view user w s = shown_on_account view (get_account user w) s

module _ (answer : Log → Request → Outcome) (decrypt : String → Decrypted) (formats : Formats)
    (meanwhile : Shared → Shared) where
  unfoldable pub get_holdings : ℕ → World → Shared → Shown (List Holding) × Shared
  unfolding holdings_of with_snapshot
  get_holdings user w s =
      with_snapshot answer decrypt formats meanwhile (holdings_of formats user w) user w s

  unfoldable pub get_summary : ℕ → World → Shared → Shown PortfolioSummary × Shared
  unfolding summary_of with_snapshot
  get_summary user w s =
      with_snapshot answer decrypt formats meanwhile (summary_of formats user w) user w s
