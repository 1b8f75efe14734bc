-- ===== src/Agents/Tests.antt =====
-- Runs of the effective profile, and its theorems at such inputs.
mod Guards
use tresqu_api.Common.{◌≡◌, refl, true, false, some, []}
use tresqu_api.Wallbit.Models.{World, conservative, aggressive, safety_cap}
use tresqu_api.Wallbit.Limits.{usd}
use tresqu_api.Wallbit.Trades.{evaluate_risk_profile_gate}
use tresqu_api.Agents.Profile.{Assessment, EffectiveProfile, rank, combine, snapshot_of}
use tresqu_api.Agents.Profile.Caution.{
  IsPrudent, combine-IsPrudent, evaluate_risk_profile_gate-combine,
}

abbrev bold : Assessment
bold = record { tolerance = aggressive; score = 80; confidence = 90 }

abbrev strained : Assessment
strained = record { tolerance = conservative; score = 20; confidence = 50 }

abbrev capped_profile : EffectiveProfile
capped_profile = record {
  tolerance = conservative;
  score = 20;
  confidence = 60;
  source = safety_cap;
  user_override = false;
}

bold_rank : rank bold.tolerance ≡ some 2
unfolding rank
bold_rank = refl

strained_rank : rank strained.tolerance ≡ some 0
unfolding rank
strained_rank = refl

combined : combine (some bold) (some strained) false ≡ some capped_profile
unfolding combine rank
combined = refl

abbrev nothing_yet : World
nothing_yet = record {
  now = 1000;
  accounts = [];
  limits = [];
  decisions = [];
  next_decision = 1;
  investments = [];
  mirrors = [];
  log = [];
  queue = [];
  notes = [];
}

evaluate_risk_profile_gate-combine_example :
    (evaluate_risk_profile_gate 1 "BUY"
      (usd 5)
      (some (snapshot_of capped_profile))
      nothing_yet).0.extra_two_step
    ≡ true
evaluate_risk_profile_gate-combine_example =
    evaluate_risk_profile_gate-combine bold strained 2 1 (usd 5) nothing_yet capped_profile
      bold_rank refl combined
