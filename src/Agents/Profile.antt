-- ===== src/Agents/Profile.antt =====
-- agents/effective_profile.py, `_combine`: the declared and the inferred risk profile of a user as
-- one. Confidences are in hundredths; the warnings and the copies of the assessments are left out.
pub mod Caution
use tresqu_api.Common.{
  ℕ, ◌+◌, ◌-◌, ◌/◌, ◌%◌, min, max, Bool, true, false, Option, none, some, ltb, ◌==◌, if◌then◌else◌,
}
use tresqu_api.Wallbit.Models.{
  Tolerance, conservative, moderate, aggressive, unknown, Source, declared, inferred, agreement,
  safety_cap, default, Snapshot,
}

-- What `_combine` reads of a `RiskAssessment`.
pub record Assessment : Type 0 where
  pub tolerance : Tolerance
  pub score : ℕ
  pub confidence : ℕ

pub record EffectiveProfile : Type 0 where
  pub tolerance : Tolerance
  pub score : ℕ
  pub confidence : ℕ
  pub source : Source
  pub user_override : Bool

-- `_TOLERANCE_ORDER`; `none` is a missing key.
unfoldable pub rank : Tolerance → Option ℕ
rank conservative = some 0
rank moderate = some 1
rank aggressive = some 2
rank unknown = none

is_same : Tolerance → Tolerance → Bool
is_same conservative conservative = true
is_same moderate moderate = true
is_same aggressive aggressive = true
is_same unknown unknown = true
is_same _ _ = false

-- `int(round(n / 2))`, a tie to the even number
pub half : ℕ → ℕ
half n = if n % 2 == 0 then n / 2 else if n / 2 % 2 == 0 then n / 2 else n / 2 + 1

agreed : Assessment → Assessment → Bool → EffectiveProfile
unfolding half
agreed d i user_override = record {
  tolerance = d.tolerance;
  score = half (d.score + i.score);
  confidence = min 97 (max d.confidence i.confidence + 10);
  source = agreement;
  user_override = user_override;
}

as_declared : Assessment → Bool → EffectiveProfile
as_declared d user_override = record {
  tolerance = d.tolerance;
  score = d.score;
  confidence = d.confidence;
  source = declared;
  user_override = user_override;
}

capped : Assessment → EffectiveProfile
capped i = record {
  tolerance = i.tolerance;
  score = i.score;
  confidence = max 60 i.confidence;
  source = safety_cap;
  user_override = false;
}

as_inferred : Assessment → Bool → EffectiveProfile
as_inferred i user_override = record {
  tolerance = i.tolerance;
  score = i.score;
  confidence = max 40 (i.confidence - 10);
  source = inferred;
  user_override = user_override;
}

abbrev pub fallback : Bool → EffectiveProfile
fallback user_override = record {
  tolerance = moderate;
  score = 50;
  confidence = 30;
  source = default;
  user_override = user_override;
}

-- The two assessments differ: `none` is the KeyError of a tolerance without a rank.
by_rank : Assessment → Assessment → Bool → Option ℕ → Option ℕ → Option EffectiveProfile
unfolding as_declared capped
by_rank d i user_override (some declared_rank) (some inferred_rank) =
    if user_override
    then some (as_declared d true)
    else if ltb inferred_rank declared_rank
    then some (capped i)
    else some (as_declared d false)
by_rank d i user_override _ _ = none

-- `_combine`
unfoldable pub combine : Option Assessment → Option Assessment → Bool → Option EffectiveProfile
unfolding agreed as_declared as_inferred by_rank is_same
combine (some d) (some i) user_override =
    if is_same d.tolerance i.tolerance
    then some (agreed d i user_override)
    else by_rank d i user_override (rank d.tolerance) (rank i.tolerance)
combine (some d) none user_override = some (as_declared d user_override)
combine none (some i) user_override = some (as_inferred i user_override)
combine none none user_override = some (fallback user_override)

-- What the risk gate reads of `EffectiveProfile.to_dict`.
pub snapshot_of : EffectiveProfile → Snapshot
snapshot_of profile = record { tolerance = profile.tolerance; source = profile.source }
