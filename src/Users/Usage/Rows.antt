-- ===== src/Users/Usage/Rows.antt =====
-- Rows of monthly usage, found by their key.
use tresqu_api.Common.{
  ℕ, ◌≡◌, refl, Bool, true, false, Option, none, some, List, [], ◌∷◌, ◌++◌, arith, find?_passes,
  Option-cases, inl, inr,
}
use tresqu_api.Users.Models.{MonthlyUsage, Db}
use tresqu_api.Users.Periods.{Period}
use tresqu_api.Users.Usage.{is_usage_of, find_usage, save_usage, new_usage, get_or_create_usage}

abbrev pub HasKey : ℕ → ℕ → ℕ → MonthlyUsage → Type 0
HasKey user year month u = (u.user ≡ user) × (u.year ≡ year) × (u.month ≡ month)

key_of :
    (user year month : ℕ) (u : MonthlyUsage)
    → is_usage_of user year month u ≡ true
    → HasKey user year month u
unfolding is_usage_of
key_of user year month u h = ground arith

pub HasKey-is :
    (user year month : ℕ) (u : MonthlyUsage)
    → HasKey user year month u
    → is_usage_of user year month u ≡ true
unfolding is_usage_of
HasKey-is user year month u h = ground arith

pub find_usage-HasKey :
    (user year month : ℕ) (rows : List MonthlyUsage) (u : MonthlyUsage)
    → find_usage user year month rows ≡ some u
    → HasKey user year month u
unfolding find_usage
find_usage-HasKey user year month rows u h =
    key_of user year month u (find?_passes (is_usage_of user year month) rows u h)

module _ (user year month : ℕ) (usage : MonthlyUsage) where
  -- The row of a key after a save.
  pub find_usage-save :
      (rows : List MonthlyUsage) (old : MonthlyUsage)
      → HasKey user year month usage
      → find_usage user year month rows ≡ some old
      → find_usage user year month (save_usage usage rows) ≡ some usage
  unfolding find_usage save_usage is_usage_of
  find_usage-save [] old k h = cc
  find_usage-save (u ∷ us) old k h = ground (arith, find_usage-save us old k)

  pub find_usage-save_ne :
      (rows : List MonthlyUsage)
      → is_usage_of user year month usage ≡ false
      → find_usage user year month (save_usage usage rows) ≡ find_usage user year month rows
  unfolding find_usage save_usage is_usage_of
  find_usage-save_ne [] h = refl
  find_usage-save_ne (u ∷ us) h = ground (arith, find_usage-save_ne us h)

  pub find_usage-snoc :
      (rows : List MonthlyUsage)
      → HasKey user year month usage
      → find_usage user year month rows ≡ none
      → find_usage user year month (rows ++ usage ∷ []) ≡ some usage
  unfolding find_usage is_usage_of
  find_usage-snoc [] k h = ground arith
  find_usage-snoc (u ∷ us) k h = ground (arith, find_usage-snoc us k)

module _ (user : ℕ) (p : Period) where
  -- The usage row of the month in which the period begins, found or created.
  abbrev pub row_of : Db → Option MonthlyUsage
  row_of db = find_usage user p.period_start.year p.period_start.month db.usages

  abbrev pub obtained : Db → MonthlyUsage × Bool × Db
  obtained db = get_or_create_usage user p.period_start.year p.period_start.month db

  pub created_row : (db : Db) → row_of (obtained db).2 ≡ some (obtained db).0
  unfolding get_or_create_usage new_usage
  created_row db = elim (Option-cases (row_of db)) [
    | inl n ↦
        rw (n, get_or_create_usage)
          (find_usage-snoc user p.period_start.year p.period_start.month
            (new_usage user p.period_start.year p.period_start.month) db.usages (refl, refl, refl)
            n)
    | inr (u, s) ↦ rw (s, get_or_create_usage) s
  ]

  pub created_HasKey :
      (db : Db) → HasKey user p.period_start.year p.period_start.month (obtained db).0
  created_HasKey db =
      find_usage-HasKey user p.period_start.year p.period_start.month (obtained db).2.usages
        (obtained db).0 (created_row db)

  pub created_now : (db : Db) → (obtained db).2.now ≡ db.now
  unfolding get_or_create_usage
  created_now db = elim (Option-cases (row_of db)) [
    | inl n ↦ rw (n, get_or_create_usage) refl
    | inr (u, s) ↦ rw (s, get_or_create_usage) refl
  ]

  pub created_again :
      (db : Db) (u : MonthlyUsage) → row_of db ≡ some u → obtained db ≡ (u, false, db)
  unfolding get_or_create_usage
  created_again db u s = rw (s, get_or_create_usage) refl
