-- ===== src/Wallbit/Portfolio.antt =====
-- wallbit/portfolio.py, lines 72 to 84 and 430 to 700: the positions and totals that the dashboard
-- shows. Amounts, prices and shares are in units of 10 ^ -8, and so their products in 10 ^ -16; the
-- average cost and the percentages, which are rounded quotients, are left out.
pub mod Totals
pub mod Timeline
pub mod Sums
pub mod Basis
pub mod Books
pub mod Agreement
pub mod Curve
use Prim.Native.String
use tresqu_api.Common.{
  ℕ, ◌+◌, ◌*◌, ◌^◌, max, Bool, true, false, not, ◌&&◌, ◌||◌, Option, none, some, List, [], ◌∷◌,
  ◌++◌, String, ltb, leb, ◌==◌, str_eq, if◌then◌else◌, upper, contains, find?,
}
use tresqu_api.Common.Int.{ℤ, pos, negsuc, ◌+ℤ◌, ◌-ℤ◌, ◌*ℤ◌, leb_ℤ, ltb_ℤ}
use tresqu_api.Common.Json.{Json, object, end, json_get}
use tresqu_api.Wallbit.Models.{
  World, WallbitAccount, WallbitTxMirror, Investment, Kind, robo, chest, Action, buy, sell, deposit,
  withdraw,
}
use tresqu_api.Wallbit.Snapshot.{
  Assets, Formats, LiveSnapshot, cash_symbols, get_or_get, is_skipped, shares_of, symbol_of,
  text_of, to_decimal,
}
use tresqu_api.Wallbit.Sync.{is_amount}

-- `PENDING_TX_STATUSES` of wallbit/models.py
abbrev pub pending_tx_statuses : List String
pending_tx_statuses =
    "PENDING" ∷ "PROCESSING" ∷ "OPEN" ∷ "CREATED" ∷ "WAITING" ∷ "QUEUED" ∷ "IN_PROGRESS"
    ∷ "SUBMITTED" ∷ []

-- `_settled_q`
unfoldable pub is_settled : List WallbitTxMirror → Investment → Bool
is_settled mirrors i = elim i.wallbit_tx [
  | none ↦ true
  | some uuid ↦ elim (find? (λ m. str_eq m.wallbit_uuid uuid) mirrors) [
    | none ↦ true
    | some m ↦ not (contains pending_tx_statuses m.status)
  ]
]

-- `sign * amount`
unfoldable pub signed_amount : Action → ℤ → ℤ
signed_amount buy amount = amount
signed_amount _ amount = pos 0 -ℤ amount

-- The result of `_cost_basis_for_symbol`.
pub record CostBasis : Type 0 where
  pub net_shares : ℤ
  pub net_cost : ℤ
  pub n_trades : ℕ

-- `symbol__iexact`, and settled
unfoldable pub counts_for : ℕ → String → List WallbitTxMirror → Investment → Bool
unfolding is_settled
counts_for user symbol mirrors i =
    i.user == user && str_eq (upper i.symbol) (upper symbol) && is_settled mirrors i

add_trade : CostBasis → Investment → CostBasis
unfolding signed_amount
add_trade basis i = record {
  net_shares = elim i.shares [
    | none ↦ basis.net_shares
    | some shares ↦ basis.net_shares +ℤ signed_amount i.action shares
  ];
  net_cost = basis.net_cost +ℤ signed_amount i.action i.amount_usd;
  n_trades = basis.n_trades + 1;
}

pub add_trades : ℕ → String → List WallbitTxMirror → List Investment → CostBasis → CostBasis
unfolding counts_for add_trade
add_trades user symbol mirrors [] basis = basis
add_trades user symbol mirrors (i ∷ is) basis =
    add_trades user symbol mirrors is
      (if counts_for user symbol mirrors i then add_trade basis i else basis)

-- `_cost_basis_for_symbol`
unfoldable pub cost_basis_for_symbol : ℕ → String → World → CostBasis
unfolding add_trades
cost_basis_for_symbol user symbol w =
    add_trades user symbol w.mirrors w.investments
      (record { net_shares = pos 0; net_cost = pos 0; n_trades = 0 })

-- 0.01 for each trade, and 0.001
abbrev pub share_tolerance : ℕ → ℤ
share_tolerance n_trades = pos (10 ^ 6 * max n_trades 1 + 10 ^ 5)

abbrev pub max_ℤ : ℤ → ℤ → ℤ
max_ℤ a b = if ltb_ℤ a b then b else a

-- `_untracked_shares`
unfoldable pub untracked_shares : ℤ → ℤ → ℕ → ℤ
untracked_shares live_shares net_shares n_trades =
    let extra = live_shares -ℤ max_ℤ net_shares (pos 0) in
    if ltb_ℤ (share_tolerance n_trades) extra then extra else pos 0

-- An amount of 10 ^ -8 in the units of a product.
unfoldable pub scaled : ℤ → ℤ
scaled amount = amount *ℤ pos (10 ^ 8)

pub record Holding : Type 0 where
  pub symbol : String
  pub shares : ℤ
  pub current_price : ℤ
  pub market_value : ℤ
  pub cost_basis : ℤ
  pub pnl_usd : ℤ
  pub kind : String
  pub name : String
  pub cost_pending : Bool

-- `snap.assets.get(symbol) or {}`
unfoldable pub asset_of : String → Assets → Json
asset_of symbol [] = object end
asset_of symbol ((other, asset) ∷ assets) =
    if str_eq other symbol then asset else asset_of symbol assets

unfoldable pub asset_price : Formats → Json → ℤ
asset_price formats asset = to_decimal formats (get_or_get "price" "current_price" asset)

-- The three cases of the cost basis in `get_holdings`, for a market value: the basis, the P&L, and
-- whether the cost is pending.
unfoldable pub cost_and_pnl : (price shares : ℤ) → CostBasis → ℤ × ℤ × Bool
unfolding untracked_shares scaled
cost_and_pnl price shares basis =
    let market_value = price *ℤ shares in
    let untracked =
      if ltb_ℤ (pos 0) basis.net_cost
      then untracked_shares shares basis.net_shares basis.n_trades
      else pos 0 in
    let partial = scaled basis.net_cost +ℤ untracked *ℤ price in
    if ltb_ℤ (pos 0) basis.net_cost && is_amount untracked (pos 0)
    then (scaled basis.net_cost, market_value -ℤ scaled basis.net_cost, false)
    else if ltb_ℤ (pos 0) basis.net_cost
    then (partial, market_value -ℤ partial, true)
    else (market_value, pos 0, true)

-- One round of the loop in `get_holdings`, past its `continue`.
unfoldable pub holding_of : Formats → ℕ → World → Assets → Json → Holding
holding_of formats user w assets position =
    let symbol = symbol_of position in
    let shares = shares_of formats position in
    let asset = asset_of symbol assets in
    let price = asset_price formats asset in
    let basis = cost_basis_for_symbol user symbol w in
    let effective = if ltb_ℤ (pos 0) shares then shares else max_ℤ basis.net_shares (pos 0) in
    let (cost_basis, pnl_usd, cost_pending) = cost_and_pnl price effective basis in
    record {
      symbol = symbol;
      shares = effective;
      current_price = price;
      market_value = price *ℤ effective;
      cost_basis = cost_basis;
      pnl_usd = pnl_usd;
      kind = upper (text_of (get_or_get "type" "kind" asset));
      name = text_of (get_or_get "name" "description" asset);
      cost_pending = cost_pending;
    }
