-- ===== src/Wallbit/Confirm/Buttons.antt =====
-- The buttons of a confirmation (wallbit/confirmation_actions.py, handle_button_press), with the ids
-- that whatsappbot/wallbit_handlers.py and telegrambot/wallbit_handlers.py give them.
use Prim.Native.Char.{code}
use Prim.Native.String
use text.Mathlib.TextLemmas.{nil-append, cons-append}
use tresqu_api.Common.{
  ℕ, ◌≡◌, refl, ap, Bool, true, false, Option, none, some, String, ◌==◌, if◌then◌else◌, arith,
}
use tresqu_api.Common.Int.{pos, negsuc}
use tresqu_api.Common.Show.{show_ℕ}
use tresqu_api.Common.Parse.{parse_int}
use tresqu_api.Common.Parse.Digits.{parse_int-show_ℕ}
use tresqu_api.Wallbit.Models.{Env, World}
use tresqu_api.Wallbit.Confirm.{
  Reply, already_resolved, unrecognised, nothing, execute_confirmed_decision,
  cancel_pending_decision,
}

abbrev pub confirm_prefix : String
confirm_prefix = "wallbit_confirm_"

abbrev pub cancel_prefix : String
cancel_prefix = "wallbit_cancel_"

-- The ids of the two buttons of a decision.
unfoldable pub confirm_button : ℕ → String
confirm_button id = String.◌++◌ confirm_prefix (show_ℕ id)

unfoldable pub cancel_button : ℕ → String
cancel_button id = String.◌++◌ cancel_prefix (show_ℕ id)

-- `s[len(p):]` where `s.startswith(p)`
unfoldable pub after_prefix : String → String → Option String
after_prefix String.[] s = some s
after_prefix (String.◌∷◌ c p) String.[] = none
after_prefix (String.◌∷◌ c p) (String.◌∷◌ d s) =
    let rest = after_prefix p s in if code c == code d then rest else none

-- `int(...)`, and the action on the decision with that id. No decision has a negative id.
unfoldable pub on_id : (ℕ → World → Reply × World) → String → World → Reply × World
on_id act digits w = elim (parse_int digits) [
  | none ↦ (unrecognised, w)
  | some (negsuc n) ↦ (already_resolved, w)
  | some (pos id) ↦ act id w
]

unfoldable pub handle_button_press : Env → ℕ → String → World → Reply × World
handle_button_press env user button_id w =
    let cancelled : Reply × World = elim (after_prefix cancel_prefix button_id) [
      | none ↦ (nothing, w)
      | some digits ↦ on_id (cancel_pending_decision user) digits w
    ] in
    elim (after_prefix confirm_prefix button_id) [
      | none ↦ cancelled
      | some digits ↦ on_id (execute_confirmed_decision env user) digits w
    ]

after_prefix-append : (p s : String) → after_prefix p (String.◌++◌ p s) ≡ some s
unfolding after_prefix
after_prefix-append String.[] s = ap some (nil-append s)
after_prefix-append (String.◌∷◌ c p) s =
    let same : (code c == code c) ≡ true = ground arith in
    rw (cons-append c p s, same) (after_prefix-append p s)

on_id-show_ℕ :
    (act : ℕ → World → Reply × World) (id : ℕ) (w : World) → on_id act (show_ℕ id) w ≡ act id w
unfolding on_id
on_id-show_ℕ act id w = rw (parse_int-show_ℕ id, on_id) refl

-- Both texts have a character at some place where they differ.
differ : String → String → Bool
differ String.[] q = false
differ (String.◌∷◌ c p) String.[] = false
differ (String.◌∷◌ c p) (String.◌∷◌ d q) =
    let rest = differ p q in if code c == code d then rest else true

after_prefix-none : (p q s : String) → differ p q ≡ true → after_prefix p (String.◌++◌ q s) ≡ none
unfolding after_prefix differ
after_prefix-none String.[] q s h = cc
after_prefix-none (String.◌∷◌ c p) String.[] s h = cc
after_prefix-none (String.◌∷◌ c p) (String.◌∷◌ d q) s h =
    rw (cons-append d q s) (ground (arith, after_prefix-none p q s))

-- A cancel button is no confirm button.
not_confirm : (s : String) → after_prefix confirm_prefix (String.◌++◌ cancel_prefix s) ≡ none
unfolding differ
not_confirm s = after_prefix-none confirm_prefix cancel_prefix s refl

-- The confirm button of a decision executes that decision, and its cancel button cancels it: the id
-- that is read from a button is the one that was written on it.
pub handle_button_press-button :
    (env : Env) (user id : ℕ) (w : World)
    → (handle_button_press env user (confirm_button id) w
        ≡ execute_confirmed_decision env user id w)
      × (handle_button_press env user (cancel_button id) w ≡ cancel_pending_decision user id w)
unfolding handle_button_press confirm_button cancel_button
handle_button_press-button env user id w = (
  rw (after_prefix-append confirm_prefix (show_ℕ id), handle_button_press)
      (on_id-show_ℕ (execute_confirmed_decision env user) id w),
  rw (not_confirm (show_ℕ id), after_prefix-append cancel_prefix (show_ℕ id), handle_button_press)
      (on_id-show_ℕ (cancel_pending_decision user) id w),
)
