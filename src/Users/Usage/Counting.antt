-- ===== src/Users/Usage/Counting.antt =====
-- The monthly limit of a plan bounds the records that a month counts.
use tresqu_api.Common.{
  ℕ, ◌+◌, ◌-◌, ◌<◌, ◌≤◌, ◌≡◌, refl, ap, ◌∙◌, some, some_inj, List, [], ◌∷◌, ◌++◌, arith,
  Option-cases, Bool-cases, inl, inr, ltb,
}
use tresqu_api.Common.Dates.{Date}
use tresqu_api.Users.Models.{User, MonthlyUsage, Db}
use tresqu_api.Users.Plans.{RecordType, expense, income}
use tresqu_api.Users.Usage.{
  find_usage, save_usage, new_usage, is_usage_of, get_or_create_usage, increment, decrement, used,
  set_used, decrement_monthly_count,
}

-- Every row of the user counts at most `limit` records of the kind.
abbrev pub IsWithin : RecordType → ℕ → ℕ → List MonthlyUsage → Type 0
IsWithin kind limit id [] = Unit
IsWithin kind limit id (u ∷ us) = (u.user ≡ id → used kind u ≤ limit) × IsWithin kind limit id us

set_user :
    (k : RecordType) (n : ℕ) (u : MonthlyUsage) {id : ℕ} → (set_used k n u).user ≡ id → u.user ≡ id
unfolding set_used
set_user expense n u e = e
set_user income n u e = e

lowered :
    (kind k : RecordType) (limit : ℕ) (u : MonthlyUsage)
    → used kind u ≤ limit
    → used kind (set_used k (used k u - 1) u) ≤ limit
unfolding used set_used
lowered expense expense limit u h = omega arith
lowered expense income limit u h = h
lowered income expense limit u h = h
lowered income income limit u h = omega arith

raised :
    (kind k : RecordType) (limit : ℕ) (u : MonthlyUsage)
    → used kind u ≤ limit
    → (kind ≡ k → used k u < limit)
    → used kind (set_used k (used k u + 1) u) ≤ limit
unfolding used set_used
raised expense expense limit u h g = omega (arith, g refl)
raised expense income limit u h g = h
raised income expense limit u h g = h
raised income income limit u h g = omega (arith, g refl)

module _ (kind : RecordType) (limit id : ℕ) where
  save-IsWithin :
      (usage : MonthlyUsage) (rows : List MonthlyUsage)
      → (usage.user ≡ id → used kind usage ≤ limit)
      → IsWithin kind limit id rows
      → IsWithin kind limit id (save_usage usage rows)
  unfolding save_usage
  save-IsWithin usage [] h w = w
  save-IsWithin usage (u ∷ us) h (k, w) =
      elim (Bool-cases (is_usage_of usage.user usage.year usage.month u)) [
        | inl t ↦ rw t (h, w)
        | inr f ↦ rw f (k, save-IsWithin usage us h w)
      ]

  snoc-IsWithin :
      (usage : MonthlyUsage) (rows : List MonthlyUsage)
      → (usage.user ≡ id → used kind usage ≤ limit)
      → IsWithin kind limit id rows
      → IsWithin kind limit id (rows ++ usage ∷ [])
  snoc-IsWithin usage [] h w = (h, w)
  snoc-IsWithin usage (u ∷ us) h (k, w) = (k, snoc-IsWithin usage us h w)

  new-IsWithin : (user year month : ℕ) → used kind (new_usage user year month) ≤ limit
  unfolding used new_usage
  new-IsWithin user year month = ground arith

  pub get_or_create_usage-IsWithin :
      (user year month : ℕ) (db : Db)
      → IsWithin kind limit id db.usages
      → IsWithin kind limit id (get_or_create_usage user year month db).2.usages
  unfolding get_or_create_usage
  get_or_create_usage-IsWithin user year month db w =
      elim (Option-cases (find_usage user year month db.usages)) [
        | inl n ↦
            rw (n, get_or_create_usage)
              (snoc-IsWithin (new_usage user year month) db.usages
                (λ e. new-IsWithin user year month) w)
        | inr (u, s) ↦ rw (s, get_or_create_usage) w
      ]

  pub found-IsWithin :
      (user year month : ℕ) (rows : List MonthlyUsage) (u : MonthlyUsage)
      → IsWithin kind limit id rows
      → find_usage user year month rows ≡ some u
      → u.user ≡ id
      → used kind u ≤ limit
  unfolding find_usage
  found-IsWithin user year month [] u w h e = cc
  found-IsWithin user year month (v ∷ vs) u (k, w) h e =
      elim (Bool-cases (is_usage_of user year month v)) [
        | inl t ↦ let same = some_inj (rw t at h) in rw same at (k (ap (λ x. x.user) same ∙ e))
        | inr f ↦ found-IsWithin user year month vs u w (rw f at h) e
      ]

  decrement-IsWithin :
      (k : RecordType) (u : MonthlyUsage) (db : Db)
      → (u.user ≡ id → used kind u ≤ limit)
      → IsWithin kind limit id db.usages
      → IsWithin kind limit id (decrement k u db).usages
  unfolding decrement
  decrement-IsWithin k u db h w = elim (Bool-cases (ltb 0 (used k u))) [
    | inl t ↦
        rw (t, decrement)
          (save-IsWithin (set_used k (used k u - 1) u) db.usages
            (λ e. lowered kind k limit u (h (set_user k (used k u - 1) u e))) w)
    | inr f ↦ rw (f, decrement) w
  ]

  pub decrement_monthly_count-IsWithin :
      (k : RecordType) (user : User) (t : Date) (db : Db)
      → IsWithin kind limit id db.usages
      → IsWithin kind limit id (decrement_monthly_count k user t db).usages
  unfolding decrement_monthly_count
  decrement_monthly_count-IsWithin k user t db w =
      elim (Option-cases (find_usage user.id t.year t.month db.usages)) [
        | inl n ↦ rw (n, decrement_monthly_count) w
        | inr (u, s) ↦
            rw (s, decrement_monthly_count)
              (decrement-IsWithin k u db (found-IsWithin user.id t.year t.month db.usages u w s) w)
      ]

  pub increment-IsWithin :
      (k : RecordType) (u : MonthlyUsage) (db : Db)
      → (u.user ≡ id → used kind u ≤ limit)
      → (u.user ≡ id → kind ≡ k → used k u < limit)
      → IsWithin kind limit id db.usages
      → IsWithin kind limit id (increment k u db).usages
  unfolding increment
  increment-IsWithin k u db h g w =
      save-IsWithin (set_used k (used k u + 1) u) db.usages
        (λ e.
          raised kind k limit u (h (set_user k (used k u + 1) u e))
            (g (set_user k (used k u + 1) u e)))
        w
