-- ===== src/Balance/Criterion.antt =====
-- The filters of expenses/balance.py and telegrambot/tools.py place a movement by one date: its own,
-- or the local date of its timestamp.
use tresqu_api.Common.{
  ℕ, ◌+◌, ◌≤◌, ◌≡◌, ◌↔◌, refl, Bool, ◌&&◌, ◌||◌, Option, none, some, arith, ltb, leb, ◌==◌,
}
use tresqu_api.Balance.{
  Transaction, Zone, after_anchor, after_by_day, effective_day, from_bound, in_by_day, in_period,
  to_bound,
}

-- What is documented of a time zone: an instant is on a date or later exactly from the first instant
-- of that date on, and on it or earlier exactly up to its last.
pub record IsZone (zone : Zone) : Type 0 where
  pub starts : (t day : ℕ) → (zone.day_start day ≤ t) ↔ (day ≤ zone.local_day t)
  pub ends : (t day : ℕ) → (t ≤ zone.day_end day) ↔ (zone.local_day t ≤ day)

-- A movement counts_in from the day after the initial balance on, and on its day if it was recorded later.
abbrev pub comes_after : (zone : Zone) → Transaction → Transaction → Bool
comes_after zone anchor m =
    ltb (effective_day zone anchor) (effective_day zone m)
    || effective_day zone m == effective_day zone anchor && ltb anchor.created_at m.created_at

module _ (zone : Zone) (law : IsZone zone) where
  leb-day_start : (day t : ℕ) → leb (zone.day_start day) t ≡ leb day (zone.local_day t)
  leb-day_start day t = ground (arith, law.starts t day)

  leb-day_end : (day t : ℕ) → leb t (zone.day_end day) ≡ leb (zone.local_day t) day
  leb-day_end day t = ground (arith, law.ends t day)

  in_by_day_lem :
      (start end : Option ℕ) (t : ℕ)
      → in_by_day zone start end t none
        ≡ from_bound start (zone.local_day t) && to_bound end (zone.local_day t)
  unfolding in_by_day
  in_by_day_lem none none t = refl
  in_by_day_lem none (some end) t = leb-day_end end t
  in_by_day_lem (some start) none t = ground (arith, leb-day_start start t)
  in_by_day_lem (some start) (some end) t = ground (arith, leb-day_start start t, leb-day_end end t)

  in_by_day-effective :
      (start end : Option ℕ) (t : ℕ) (day_at : Option ℕ) (day : ℕ)
      → day ≡ (elim day_at [ none ↦ zone.local_day t | some d ↦ d ])
      → in_by_day zone start end t day_at ≡ from_bound start day && to_bound end day
  unfolding in_by_day
  in_by_day-effective start end t none day e = rw e (in_by_day_lem start end t)
  in_by_day-effective start end t (some d) day e = rw e refl

  pub in_period_lem :
      (start end : Option ℕ) (m : Transaction)
      → in_period zone start end m
        ≡ from_bound start (effective_day zone m) && to_bound end (effective_day zone m)
  unfolding in_period effective_day
  in_period_lem start end m = in_by_day-effective start end m.timestamp m.day_at _ refl

  after_by_day-effective :
      (anchor m : Transaction) (day_at : Option ℕ) (day : ℕ)
      → day ≡ (elim day_at [ none ↦ zone.local_day m.timestamp | some d ↦ d ])
      → after_by_day zone anchor m day_at ≡ (
          ltb (effective_day zone anchor) day
          || day == effective_day zone anchor && ltb anchor.created_at m.created_at)
  unfolding after_by_day
  after_by_day-effective anchor m none day e = ground (
    arith,
    leb-day_start (effective_day zone anchor + 1) m.timestamp,
    leb-day_start (effective_day zone anchor) m.timestamp,
  )
  after_by_day-effective anchor m (some d) day e = rw e refl

  pub after_anchor_lem :
      (anchor m : Transaction) → after_anchor zone anchor m ≡ comes_after zone anchor m
  unfolding after_anchor effective_day
  after_anchor_lem anchor m = after_by_day-effective anchor m m.day_at _ refl
