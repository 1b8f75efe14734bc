-- ===== src/Wallbit/Limits/Bounds.antt =====
-- What a passed limits check guarantees (wallbit/agent_safety.py).
use tresqu_api.Common.{
  ℕ, ◌≡◌, refl, ◌↔◌, ◌⊎◌, inl, inr, true, List, [], ◌∷◌, map, String, arith, str_eq_iff, upper,
  contains, Option-cases,
}
use tresqu_api.Common.Int.{ℤ, ◌+ℤ◌, ◌≤ℤ◌}
use tresqu_api.Common.Dict.{lookup}
use tresqu_api.Wallbit.Models.{World, AgentLimits}
use tresqu_api.Wallbit.Limits.{
  limits_for, daily_move_total, refuse, check_amount, check_symbol, is_empty, evaluate_trade_limits,
  evaluate_move_limits,
}

-- `s` stands in the list.
abbrev pub IsIn : String → List String → Type 0
IsIn s [] = ⊥
IsIn s (n ∷ ns) = (n ≡ s) ⊎ IsIn s ns

contains_iff : (s : String) (ns : List String) → (contains ns s ≡ true) ↔ IsIn s ns
contains_iff s [] = ((λ h. cc), (λ h. absurd h))
contains_iff s (n ∷ ns) =
    let rest = contains_iff s ns in
    ((λ h. ground (arith, str_eq_iff n s, rest)), (λ h. ground (arith, str_eq_iff n s, rest)))

-- The amount fits both caps, given what was moved in the last 24 hours.
abbrev pub Fits : AgentLimits → ℤ → ℤ → Type 0
Fits limits spent amount =
    (amount ≤ℤ limits.max_trade_usd) × (spent +ℤ amount ≤ℤ limits.max_daily_move_usd)

-- The symbol is empty, or it is not blocked, and allowed where there is a list of allowed ones.
abbrev pub Tradable : AgentLimits → String → Type 0
Tradable limits symbol =
    (symbol ≡ "")
    ⊎ ((¬ IsIn symbol (map upper limits.blocked_symbols))
        × ((limits.allowed_symbols ≡ []) ⊎ IsIn symbol (map upper limits.allowed_symbols)))

module _ (limits : AgentLimits) (spent amount : ℤ) where
  check_amount_iff : ((check_amount limits spent amount).ok ≡ true) ↔ Fits limits spent amount
  unfolding check_amount refuse
  check_amount_iff = ((λ h. ground arith), (λ h. ground arith))

  check_amount_two_step :
      (check_amount limits spent amount).ok ≡ true
      → ((check_amount limits spent amount).two_step_required ≡ true)
        ↔ (¬ (amount ≤ℤ limits.require_2step_above_usd))
  unfolding check_amount refuse
  check_amount_two_step h = ((λ e. ground arith), (λ e. ground arith))

is_empty_iff : (l : List String) → (is_empty l ≡ true) ↔ (l ≡ [])
unfolding is_empty
is_empty_iff [] = ((λ h. refl), (λ h. refl))
is_empty_iff (s ∷ l) = ((λ h. cc), (λ h. cc))

module _ (limits : AgentLimits) (symbol : String) (spent amount : ℤ) where
  check_symbol_allowed :
      Tradable limits symbol
      → check_symbol limits symbol spent amount ≡ check_amount limits spent amount
  unfolding check_symbol
  check_symbol_allowed h = ground (
    arith,
    str_eq_iff symbol "",
    contains_iff symbol (map upper limits.blocked_symbols),
    contains_iff symbol (map upper limits.allowed_symbols),
    is_empty_iff limits.allowed_symbols,
  )

  check_symbol-Tradable :
      (check_symbol limits symbol spent amount).ok ≡ true → Tradable limits symbol
  unfolding check_symbol refuse
  check_symbol-Tradable h = ground (
    arith,
    str_eq_iff symbol "",
    contains_iff symbol (map upper limits.blocked_symbols),
    contains_iff symbol (map upper limits.allowed_symbols),
    is_empty_iff limits.allowed_symbols,
  )

  check_symbol_iff :
      ((check_symbol limits symbol spent amount).ok ≡ true)
      ↔ (Tradable limits symbol × Fits limits spent amount)
  check_symbol_iff = (
    (λ h.
        let t = check_symbol-Tradable h in
        (t, (check_amount_iff limits spent amount).0 (rw (check_symbol_allowed t) at h))),
    (λ h. rw (check_symbol_allowed h.0) ((check_amount_iff limits spent amount).1 h.1)),
  )

module _ (limits : AgentLimits) (symbol : String) (spent amount : ℤ) where
  check_symbol_two_step :
      (check_symbol limits symbol spent amount).ok ≡ true
      → ((check_symbol limits symbol spent amount).two_step_required ≡ true)
        ↔ (¬ (amount ≤ℤ limits.require_2step_above_usd))
  check_symbol_two_step h =
      let same =
        check_symbol_allowed limits symbol spent amount
          (check_symbol-Tradable limits symbol spent amount h) in
      rw same (check_amount_two_step limits spent amount (rw same at h))

daily_move_total-limits_for :
    (user : ℕ) (w : World) → daily_move_total user (limits_for user w).1 ≡ daily_move_total user w
unfolding daily_move_total limits_for
daily_move_total-limits_for user w = elim (Option-cases (lookup user w.limits)) [
  | inl e ↦ rw (e, limits_for)
  | inr (limits, e) ↦ rw (e, limits_for)
]

module _ (user : ℕ) (symbol : String) (amount : ℤ) (w : World) where
  -- A trade passes the limits exactly when its upper-cased symbol is tradable and its amount fits
  -- the cap of one operation and, with what moved in the last 24 hours, the daily cap. Where it
  -- passes, a second confirmation is asked for exactly above the user's threshold.
  pub evaluate_trade_limits_iff :
      let limits = (limits_for user w).0 in
      let check = (evaluate_trade_limits user symbol amount w).0 in
      ((check.ok ≡ true)
        ↔ (Tradable limits (upper symbol) × Fits limits (daily_move_total user w) amount))
      × (check.ok ≡ true
          → (check.two_step_required ≡ true) ↔ (¬ (amount ≤ℤ limits.require_2step_above_usd)))
  unfolding evaluate_trade_limits
  evaluate_trade_limits_iff =
      let limits = (limits_for user w).0 in
      rw (daily_move_total-limits_for user w) (
        check_symbol_iff limits (upper symbol) (daily_move_total user w) amount,
        check_symbol_two_step limits (upper symbol) (daily_move_total user w) amount,
      )

module _ (user : ℕ) (amount : ℤ) (w : World) where
  -- A move of funds passes exactly when its amount fits the cap of one operation and, with what
  -- moved in the last 24 hours, the daily cap. Where it passes, a second confirmation is asked for
  -- exactly above the user's threshold.
  pub evaluate_move_limits_iff :
      let limits = (limits_for user w).0 in
      let check = (evaluate_move_limits user amount w).0 in
      ((check.ok ≡ true) ↔ Fits limits (daily_move_total user w) amount)
      × (check.ok ≡ true
          → (check.two_step_required ≡ true) ↔ (¬ (amount ≤ℤ limits.require_2step_above_usd)))
  unfolding evaluate_move_limits
  evaluate_move_limits_iff =
      let limits = (limits_for user w).0 in
      rw (daily_move_total-limits_for user w) (
        check_amount_iff limits (daily_move_total user w) amount,
        check_amount_two_step limits (daily_move_total user w) amount,
      )
