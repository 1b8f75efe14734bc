-- ===== src/Wallbit/Trades/Stored.antt =====
-- The proposals to trade (wallbit/write_tools.py, `_preview_place_trade`).
use tresqu_api.Common.{
  ℕ, ◌≡◌, refl, sym, ◌⊎◌, inl, inr, Bool, true, false, not, ◌||◌, Option, none, some, [], ◌∷◌,
  String, Bool-cases, str_eq, upper, strip, contains,
}
use tresqu_api.Common.Int.{ℤ}
use tresqu_api.Wallbit.Messages.{get, empty, Response}
use tresqu_api.Wallbit.Client.{idempotent}
use tresqu_api.Wallbit.Models.{
  Env, World, WallbitAccount, Call, place_trade, Tolerance, conservative, moderate, aggressive,
  unknown, Snapshot,
}
use tresqu_api.Wallbit.Limits.{limits_for, daily_move_total, evaluate_trade_limits, LimitsCheck}
use tresqu_api.Wallbit.Limits.Bounds.{Fits, Tradable, evaluate_trade_limits_iff}
use tresqu_api.Wallbit.Bodies.{Try, value, threw, or_default}
use tresqu_api.Wallbit.Executors.Queries.{call_wallbit-Asked}
use tresqu_api.Wallbit.Proposals.{Asker, is_positive, Access, granted, denied, access}
use tresqu_api.Wallbit.Proposals.Stored.{
  Unmoved, Unmoved-refl, Unmoved-trans, Asked-Unmoved, limits_for-Unmoved,
  evaluate_trade_limits-Unmoved, Proposes, store-Proposes, guard, IsOpen, access_granted,
}
use tresqu_api.Wallbit.Proposals.Moves.{true_of_not}
use tresqu_api.Wallbit.Trades.{
  gate_by_tolerance, evaluate_risk_profile_gate, read_meta, fetch_asset_meta, Order, trade_args,
  store_gated, lacks_price, limit_or, priced, checked, trade_by_access, bad_price, order_for,
  preview_place_trade,
}

-- A buy or a sale of a tradable symbol for a positive amount within the user's limits, at a positive
-- limit price if it is a LIMIT order, on an account that is connected and not paused.
abbrev pub GoodTrade : ℕ → World → Call → Type 0
GoodTrade user w (place_trade args) =
    (contains ("BUY" ∷ "SELL" ∷ []) args.action ≡ true)
    × (is_positive args.amount_usd ≡ true)
    × Tradable (limits_for user w).0 (upper args.symbol)
    × Fits (limits_for user w).0 (daily_move_total user w) args.amount_usd
    × ((args.order_type ≡ some "MARKET") ⊎ (lacks_price args.limit_price ≡ false))
    × IsOpen user w
GoodTrade user w _ = ⊥

gate_by_tolerance-Unmoved :
    (user : ℕ) (amount : ℤ) (w : World) (s : Snapshot) (t : Tolerance)
    → Unmoved w (gate_by_tolerance user amount w s t).1
unfolding gate_by_tolerance
gate_by_tolerance-Unmoved user amount w s aggressive = Unmoved-refl w
gate_by_tolerance-Unmoved user amount w s conservative = Unmoved-refl w
gate_by_tolerance-Unmoved user amount w s moderate = limits_for-Unmoved user w
gate_by_tolerance-Unmoved user amount w s unknown = Unmoved-refl w

gate-Unmoved :
    (user : ℕ) (action : String) (amount : ℤ) (s : Option Snapshot) (w : World)
    → Unmoved w (evaluate_risk_profile_gate user action amount s w).1
unfolding evaluate_risk_profile_gate
gate-Unmoved user action amount none w = Unmoved-refl w
gate-Unmoved user action amount (some s) w = elim (Bool-cases (not (str_eq (upper action) "BUY"))) [
  | inl t ↦ rw (t, evaluate_risk_profile_gate) (Unmoved-refl w)
  | inr f ↦
      rw (f, evaluate_risk_profile_gate) (gate_by_tolerance-Unmoved user amount w s s.tolerance)
]

read_meta-state : (env : Env) (r : Try Response × World) → (read_meta env r).1 ≡ r.1
unfolding read_meta
read_meta-state env (threw e, w) = refl
read_meta-state env (value response, w) = refl

fetch_asset_meta-Unmoved :
    (env : Env) (account : WallbitAccount) (symbol : String) (w : World)
    → Unmoved w (fetch_asset_meta env account symbol w).1
unfolding fetch_asset_meta idempotent
fetch_asset_meta-Unmoved env account symbol w =
    rw read_meta-state (Asked-Unmoved (call_wallbit-Asked env get _ empty w refl account))

module _ (asker : Asker) (w : World) (order : Order) where
  -- What is known of an order when its limits have passed.
  Ready : Type 0
  Ready =
      (contains ("BUY" ∷ "SELL" ∷ []) order.action ≡ true)
      × (is_positive order.amount ≡ true)
      × Tradable (limits_for asker.user w).0 (upper order.symbol)
      × Fits (limits_for asker.user w).0 (daily_move_total asker.user w) order.amount
      × IsOpen asker.user w

  priced-Proposes :
      (snapshot : Option Snapshot) (check : LimitsCheck) (r : (Option ℤ × Bool) × World)
      → Ready
      → Unmoved w r.1
      → Proposes (GoodTrade asker.user w) asker w (priced asker snapshot order check r)
  unfolding priced store_gated trade_args Ready
  priced-Proposes snapshot check ((current, limit_only), u) g s =
      let is_limit = order.is_limit || limit_only in
      let price = limit_or order.limit_price current in
      let gate = evaluate_risk_profile_gate asker.user order.action order.amount snapshot u in
      let two = check.two_step_required || gate.0.extra_two_step in
      let moved = Unmoved-trans s (gate-Unmoved asker.user order.action order.amount snapshot u) in
      elim (Bool-cases is_limit) [
        | inr market ↦ rw market (
            store-Proposes (GoodTrade asker.user w) asker w _ two gate.1
              (g.0, g.1, g.2, g.3, inl refl, g.4) moved)
        | inl limit ↦ elim (Bool-cases (lacks_price price)) [
          | inl lacking ↦ rw (limit, lacking) s
          | inr has ↦
              rw (limit, has)
                (store-Proposes (GoodTrade asker.user w) asker w _ two gate.1
                  (g.0, g.1, g.2, g.3, inr has, g.4) moved)
        ]
      ]

  checked-Proposes :
      (env : Env) (snapshot : Option Snapshot) (account : WallbitAccount) (r : LimitsCheck × World)
      → (r.0.ok ≡ true → Ready)
      → Unmoved w r.1
      → Proposes (GoodTrade asker.user w) asker w (checked env asker snapshot account order r)
  unfolding checked
  checked-Proposes env snapshot account (check, u) g s = elim (Bool-cases check.ok) [
    | inl t ↦ rw t (
        priced-Proposes snapshot check (fetch_asset_meta env account order.symbol u) (g t)
          (Unmoved-trans s (fetch_asset_meta-Unmoved env account order.symbol u)))
    | inr f ↦ rw f s
  ]

  trade_by_access-Proposes :
      (env : Env) (snapshot : Option Snapshot) (a : Access)
      → contains ("BUY" ∷ "SELL" ∷ []) order.action ≡ true
      → is_positive order.amount ≡ true
      → a ≡ access asker.user w
      → Proposes (GoodTrade asker.user w) asker w (trade_by_access env asker snapshot order w a)
  unfolding trade_by_access Ready
  trade_by_access-Proposes env snapshot (denied code) b p e = Unmoved-refl w
  trade_by_access-Proposes env snapshot (granted account) b p e =
      checked-Proposes env snapshot account
        (evaluate_trade_limits asker.user order.symbol order.amount w)
        (λ k.
          let f = ((evaluate_trade_limits_iff asker.user order.symbol order.amount w).0).0 k in
          (b, p, f.0, f.1, access_granted asker.user w account (sym e)))
        (evaluate_trade_limits-Unmoved asker.user order.symbol order.amount w)

-- `_preview_place_trade` refuses, or it stores one pending decision: a buy or a sale, for a positive
-- amount within the caps, of a symbol that the lists let through, at a positive limit price unless
-- it is a MARKET order, on an account that is connected and not paused. It sends no write to the
-- broker.
pub preview_place_trade-Proposes :
    (env : Env) (asker : Asker) (snapshot : Option Snapshot) (action symbol : String) (amount : ℤ)
    (order_type : String) (limit_price : Option ℤ) (time_in_force : String) (w : World)
    → Proposes (GoodTrade asker.user w) asker w (
        preview_place_trade env asker snapshot action symbol amount order_type limit_price
          time_in_force w)
unfolding preview_place_trade order_for
preview_place_trade-Proposes env asker snapshot action symbol amount order_type limit_price
      time_in_force w =
    let Good = GoodTrade asker.user w in
    let known = contains ("BUY" ∷ "SELL" ∷ []) (upper action) in
    let type_norm = or_default (some order_type) "MARKET" in
    let order = order_for action symbol amount order_type limit_price time_in_force in
    guard Good asker w (not known) _ _ (λ a.
      guard Good asker w (str_eq (strip (upper symbol)) "") _ _ (λ s.
        guard Good asker w (not (is_positive amount)) _ _ (λ p.
          guard Good asker w (not (contains ("MARKET" ∷ "LIMIT" ∷ []) type_norm)) _ _ (λ t.
            guard Good asker w (bad_price limit_price) _ _ (λ b.
              trade_by_access-Proposes asker w order env snapshot (access asker.user w)
                (true_of_not _ a) (true_of_not _ p) refl)))))
