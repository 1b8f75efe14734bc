-- ===== src/Agents/Profile/Caution.antt =====
-- The effective profile is the more prudent one unless the user has set it by hand
-- (agents/effective_profile.py, `_combine`).
use tresqu_api.Common.{
  ℕ, ◌≡◌, refl, inl, inr, min, true, false, Option, none, some, arith, upper, Bool-cases, ltb,
}
use tresqu_api.Common.Int.{ℤ}
use tresqu_api.Wallbit.Models.{World, Tolerance, conservative, moderate, aggressive, unknown}
use tresqu_api.Wallbit.Trades.{evaluate_risk_profile_gate}
use tresqu_api.Agents.Profile.{
  Assessment, EffectiveProfile, rank, is_same, agreed, as_declared, capped, by_rank, combine,
  snapshot_of,
}

same_rank : (t u : Tolerance) → is_same t u ≡ true → rank t ≡ rank u
unfolding is_same rank
same_rank conservative conservative h = refl
same_rank moderate moderate h = refl
same_rank aggressive aggressive h = refl
same_rank unknown unknown h = refl
same_rank conservative moderate h = cc
same_rank conservative aggressive h = cc
same_rank conservative unknown h = cc
same_rank moderate conservative h = cc
same_rank moderate aggressive h = cc
same_rank moderate unknown h = cc
same_rank aggressive conservative h = cc
same_rank aggressive moderate h = cc
same_rank aggressive unknown h = cc
same_rank unknown conservative h = cc
same_rank unknown moderate h = cc
same_rank unknown aggressive h = cc

some_same : (a b : ℕ) (o : Option ℕ) → o ≡ some a → o ≡ some b → a ≡ b
some_same a b o h k = ground arith

-- A profile of the lower rank of two.
abbrev pub IsPrudent : ℕ → ℕ → Option EffectiveProfile → Type 0
IsPrudent declared_rank inferred_rank none = ⊥
IsPrudent declared_rank inferred_rank (some profile) =
    rank profile.tolerance ≡ some (min declared_rank inferred_rank)

module _ (d i : Assessment) (declared_rank inferred_rank : ℕ)
    (hd : rank d.tolerance ≡ some declared_rank) (hi : rank i.tolerance ≡ some inferred_rank) where
  by_rank-IsPrudent :
      IsPrudent declared_rank inferred_rank
        (by_rank d i false (some declared_rank) (some inferred_rank))
  unfolding by_rank as_declared capped
  by_rank-IsPrudent = elim (Bool-cases (ltb inferred_rank declared_rank)) [
    | inl t ↦
        rw t (let m : min declared_rank inferred_rank ≡ inferred_rank = ground arith in rw m hi)
    | inr f ↦
        rw f (let m : min declared_rank inferred_rank ≡ declared_rank = ground arith in rw m hd)
  ]

  -- Two assessments of known tolerances combine, where the user has not set the profile by hand, to
  -- a profile of the more prudent of the two tolerances.
  pub combine-IsPrudent : IsPrudent declared_rank inferred_rank (combine (some d) (some i) false)
  unfolding combine agreed
  combine-IsPrudent = elim (Bool-cases (is_same d.tolerance i.tolerance)) [
    | inl t ↦
        rw (t, combine)
          (let e =
              some_same declared_rank inferred_rank (rank i.tolerance)
                (rw (same_rank d.tolerance i.tolerance t) at hd) hi in
            let m : min declared_rank inferred_rank ≡ declared_rank = omega (arith, e) in rw m hd)
    | inr f ↦ rw (f, hd, hi, combine) by_rank-IsPrudent
  ]

conservative_rank : (t : Tolerance) → rank t ≡ some 0 → t ≡ conservative
unfolding rank
conservative_rank conservative h = refl
conservative_rank moderate h = ground arith
conservative_rank aggressive h = ground arith
conservative_rank unknown h = cc

-- For a user whose situation suggests a conservative profile, who has declared some known tolerance
-- and has not set the profile by hand, the gate sets the flag that asks for a stronger confirmation,
-- at every purchase.
pub evaluate_risk_profile_gate-combine :
    (d i : Assessment) (declared_rank user : ℕ) (amount : ℤ) (w : World)
    (profile : EffectiveProfile)
    → rank d.tolerance ≡ some declared_rank
    → i.tolerance ≡ conservative
    → combine (some d) (some i) false ≡ some profile
    → (evaluate_risk_profile_gate user "BUY" amount (some (snapshot_of profile)) w).0.extra_two_step
      ≡ true
unfolding evaluate_risk_profile_gate snapshot_of upper rank
evaluate_risk_profile_gate-combine d i declared_rank user amount w profile hd hi e =
    let hi' : rank i.tolerance ≡ some 0 = rw hi refl in
    let p : IsPrudent declared_rank 0 (some profile) =
      rw e at (combine-IsPrudent d i declared_rank 0 hd hi') in
    let m : min declared_rank 0 ≡ 0 = omega arith in
    let c = conservative_rank profile.tolerance (rw m at p) in rw c refl
