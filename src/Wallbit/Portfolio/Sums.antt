-- ===== src/Wallbit/Portfolio/Sums.antt =====
-- Sums of signed amounts, and tests in a row, for the books of wallbit/portfolio.py.
use tresqu_api.Common.{◌≡◌, ◌∙◌, ap, Bool, true, false, ◌||◌, arith}
use tresqu_api.Common.Int.{ℤ, pos, pos_part, neg_part, ◌+ℤ◌, ◌-ℤ◌, +ℤ_parts, -ℤ_parts, eq_of_parts}

pub or_false : (a b c : Bool) → a || b || c ≡ false → (a ≡ false) × (b ≡ false) × (c ≡ false)
or_false a b c h = ground arith

pub or_true : (a b c : Bool) → a || b || c ≡ true → a || c ≡ false → b ≡ true
or_true a b c h n = ground arith

pub empty_balance : (u v : ℤ) → pos 0 +ℤ pos 0 +ℤ u +ℤ v ≡ v +ℤ u
empty_balance u v = eq_of_parts _ _ (
    omega (
      arith,
      +ℤ_parts (pos 0) (pos 0),
      +ℤ_parts (pos 0 +ℤ pos 0) u,
      +ℤ_parts (pos 0 +ℤ pos 0 +ℤ u) v,
      +ℤ_parts v u,
    ))

-- One held position, put before others whose books balance.
pub balance_step :
    (p k u mv rest_p rest_k end_u end_v start_u start_v : ℤ)
    → p +ℤ u +ℤ k ≡ mv
    → rest_p +ℤ rest_k +ℤ end_u +ℤ (start_v +ℤ mv) ≡ end_v +ℤ (start_u +ℤ u)
    → (p +ℤ rest_p) +ℤ (k +ℤ rest_k) +ℤ end_u +ℤ start_v ≡ end_v +ℤ start_u
balance_step p k u mv rest_p rest_k end_u end_v start_u start_v h ih = eq_of_parts _ _ (
    omega (
      arith,
      ap pos_part h,
      ap neg_part h,
      ap pos_part ih,
      ap neg_part ih,
      +ℤ_parts p u,
      +ℤ_parts (p +ℤ u) k,
      +ℤ_parts rest_p rest_k,
      +ℤ_parts (rest_p +ℤ rest_k) end_u,
      +ℤ_parts start_v mv,
      +ℤ_parts (rest_p +ℤ rest_k +ℤ end_u) (start_v +ℤ mv),
      +ℤ_parts start_u u,
      +ℤ_parts end_v (start_u +ℤ u),
      +ℤ_parts p rest_p,
      +ℤ_parts k rest_k,
      +ℤ_parts (p +ℤ rest_p) (k +ℤ rest_k),
      +ℤ_parts ((p +ℤ rest_p) +ℤ (k +ℤ rest_k)) end_u,
      +ℤ_parts ((p +ℤ rest_p) +ℤ (k +ℤ rest_k) +ℤ end_u) start_v,
      +ℤ_parts end_v start_u,
    ))

pub final_balance :
    (bought sold u v p k : ℤ)
    → p +ℤ k +ℤ u +ℤ pos 0 ≡ v +ℤ pos 0
    → v -ℤ (bought +ℤ u -ℤ sold) +ℤ (bought -ℤ sold) ≡ p +ℤ k
final_balance bought sold u v p k h = eq_of_parts _ _ (
    omega (
      arith,
      ap pos_part h,
      ap neg_part h,
      +ℤ_parts (p +ℤ k) u,
      +ℤ_parts (p +ℤ k +ℤ u) (pos 0),
      +ℤ_parts v (pos 0),
      +ℤ_parts bought u,
      -ℤ_parts (bought +ℤ u) sold,
      -ℤ_parts v (bought +ℤ u -ℤ sold),
      -ℤ_parts bought sold,
      +ℤ_parts (v -ℤ (bought +ℤ u -ℤ sold)) (bought -ℤ sold),
    ))

pub add_zero : (a : ℤ) → a +ℤ pos 0 ≡ a
add_zero a = eq_of_parts _ _ (omega (arith, +ℤ_parts a (pos 0)))

pub add_assoc_ℤ : (a b c : ℤ) → a +ℤ b +ℤ c ≡ a +ℤ (b +ℤ c)
add_assoc_ℤ a b c =
    eq_of_parts _ _
      (omega (arith, +ℤ_parts a b, +ℤ_parts (a +ℤ b) c, +ℤ_parts b c, +ℤ_parts a (b +ℤ c)))

pub add_left_comm : (a b c : ℤ) → a +ℤ (b +ℤ c) ≡ b +ℤ (a +ℤ c)
add_left_comm a b c =
    eq_of_parts _ _
      (omega (arith, +ℤ_parts b c, +ℤ_parts a (b +ℤ c), +ℤ_parts a c, +ℤ_parts b (a +ℤ c)))

-- A row bought before the window.
pub bought_before :
    (a old_b old_s inside b s : ℤ)
    → old_b -ℤ old_s +ℤ inside ≡ b -ℤ s
    → a +ℤ old_b -ℤ old_s +ℤ inside ≡ a +ℤ b -ℤ s
bought_before a old_b old_s inside b s h = eq_of_parts _ _ (
    omega (
      arith,
      ap pos_part h,
      ap neg_part h,
      -ℤ_parts old_b old_s,
      +ℤ_parts (old_b -ℤ old_s) inside,
      -ℤ_parts b s,
      +ℤ_parts a old_b,
      -ℤ_parts (a +ℤ old_b) old_s,
      +ℤ_parts (a +ℤ old_b -ℤ old_s) inside,
      +ℤ_parts a b,
      -ℤ_parts (a +ℤ b) s,
    ))

pub sold_before :
    (a old_b old_s inside b s : ℤ)
    → old_b -ℤ old_s +ℤ inside ≡ b -ℤ s
    → old_b -ℤ (a +ℤ old_s) +ℤ inside ≡ b -ℤ (a +ℤ s)
sold_before a old_b old_s inside b s h = eq_of_parts _ _ (
    omega (
      arith,
      ap pos_part h,
      ap neg_part h,
      -ℤ_parts old_b old_s,
      +ℤ_parts (old_b -ℤ old_s) inside,
      -ℤ_parts b s,
      +ℤ_parts a old_s,
      -ℤ_parts old_b (a +ℤ old_s),
      +ℤ_parts (old_b -ℤ (a +ℤ old_s)) inside,
      +ℤ_parts a s,
      -ℤ_parts b (a +ℤ s),
    ))

pub bought_inside :
    (a old_b old_s inside b s : ℤ)
    → old_b -ℤ old_s +ℤ inside ≡ b -ℤ s
    → old_b -ℤ old_s +ℤ (a +ℤ inside) ≡ a +ℤ b -ℤ s
bought_inside a old_b old_s inside b s h =
    add_left_comm (old_b -ℤ old_s) a inside
    ∙ ap (λ t. a +ℤ t) h
    ∙ eq_of_parts _ _
        (omega (arith, -ℤ_parts b s, +ℤ_parts a (b -ℤ s), +ℤ_parts a b, -ℤ_parts (a +ℤ b) s))

pub sold_inside :
    (a old_b old_s inside b s : ℤ)
    → old_b -ℤ old_s +ℤ inside ≡ b -ℤ s
    → old_b -ℤ old_s +ℤ (pos 0 -ℤ a +ℤ inside) ≡ b -ℤ (a +ℤ s)
sold_inside a old_b old_s inside b s h =
    add_left_comm (old_b -ℤ old_s) (pos 0 -ℤ a) inside
    ∙ ap (λ t. pos 0 -ℤ a +ℤ t) h
    ∙ eq_of_parts _ _ (
        omega (
          arith,
          -ℤ_parts b s,
          -ℤ_parts (pos 0) a,
          +ℤ_parts (pos 0 -ℤ a) (b -ℤ s),
          +ℤ_parts a s,
          -ℤ_parts b (a +ℤ s),
        ))
