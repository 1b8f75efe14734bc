-- ===== src/Wallbit/Proposals.antt =====
-- wallbit/write_tools.py, lines 64 to 443, with the risk gate of wallbit/agent_safety.py: the tools
-- by which the agent proposes an operation. Previews and warnings, which are texts, are left out.
-- The snapshot of the user's effective profile, which the gate reads, is an argument.
pub mod Stored
pub mod Moves
pub mod Cards
use tresqu_api.Common.{
  ℕ, ◌+◌, ◌*◌, Bool, true, false, not, ◌&&◌, ◌||◌, Option, none, some, String, [], ◌∷◌, ltb, str_eq,
  if◌then◌else◌, upper, strip, contains,
}
use mathlib.Core.List.{List}
use tresqu_api.Common.Int.{ℤ, pos, pos_part, leb_ℤ, ltb_ℤ}
use tresqu_api.Common.Dict.{lookup, modify}
use tresqu_api.Wallbit.Models.{
  World, WallbitAccount, MoveArgs, ChestArgs, Call, move_funds, deposit_chest, withdraw_chest,
  set_card_status, resume,
}
use tresqu_api.Wallbit.Limits.{
  Code, wallbit_not_connected, kill_switch_active, amount_invalid, currency_required,
  invalid_account, same_account, amount_too_low, card_uuid_required, invalid_status,
  duration_invalid, not_paused, LimitsCheck, AccountResult, found, not_connected, get_account,
  kill_switch_on, usd, evaluate_move_limits,
}
use tresqu_api.Wallbit.Decisions.{create_pending_decision}
use tresqu_api.Wallbit.Bodies.{or_default}

-- What a tool answers: an error code (`none` where a failed check carries none), or the
-- confirmation id of the stored proposal and whether a second confirmation is asked for.
pub data Proposal : Type 0 where
  refused : (code : Option Code) → Proposal
  proposed : (confirmation_id : ℕ) (two_step_required : Bool) → Proposal

-- Who asks, on which channel, in which words.
pub record Asker : Type 0 where
  pub user : ℕ
  pub channel : String
  pub user_message : String

unfoldable pub is_positive : ℤ → Bool
is_positive a = ltb_ℤ (pos 0) a

-- `create_pending_decision` and `_pending_payload`
unfoldable pub store : Asker → Call → Bool → World → Proposal × World
unfolding create_pending_decision
store asker call two_step w =
    let (id, w') = create_pending_decision asker.user asker.channel asker.user_message call w in
    (proposed id two_step, w')

-- `if not check.ok: return _limits_error_payload(check)`, and the proposal otherwise
pub store_checked : Asker → Call → LimitsCheck × World → Proposal × World
unfolding store
store_checked asker call (check, w) =
    if check.ok then store asker call check.two_step_required w else (refused check.code, w)

-- `get_account_or_raise` and `check_kill_switch`
pub data Access : Type 0 where
  granted : WallbitAccount → Access
  denied : Code → Access

access_of : ℕ → AccountResult → Access
unfolding kill_switch_on
access_of now (not_connected message) = denied wallbit_not_connected
access_of now (found account) =
    if kill_switch_on account now then denied kill_switch_active else granted account

unfoldable pub access : ℕ → World → Access
unfolding access_of get_account
access user w = access_of w.now (get_account user w)

abbrev pub account_buckets : List String
account_buckets = "DEFAULT" ∷ "INVESTMENT" ∷ []

move_by_access : Asker → MoveArgs → World → Access → Proposal × World
unfolding store_checked evaluate_move_limits
move_by_access asker args w (denied code) = (refused (some code), w)
move_by_access asker args w (granted account) =
    store_checked asker (move_funds args) (evaluate_move_limits asker.user args.amount w)

-- `_preview_move_funds`
unfoldable pub preview_move_funds : Asker → String → String → String → ℤ → World → Proposal × World
unfolding move_by_access is_positive access
preview_move_funds asker currency from_account to_account amount w =
    let currency_norm = strip (upper currency) in
    let src = strip (upper from_account) in
    let dst = strip (upper to_account) in
    let args : MoveArgs = record {
      currency = currency_norm;
      from_account = src;
      to_account = dst;
      amount = amount;
    } in
    if str_eq currency_norm ""
    then (refused (some currency_required), w)
    else if not (contains account_buckets src) || not (contains account_buckets dst)
    then (refused (some invalid_account), w)
    else if str_eq src dst
    then (refused (some same_account), w)
    else if not (is_positive amount)
    then (refused (some amount_invalid), w)
    else move_by_access asker args w (access asker.user w)

chest_call : Bool → ChestArgs → Call
chest_call true args = deposit_chest args
chest_call false args = withdraw_chest args

chest_by_access : Asker → Bool → ChestArgs → World → Access → Proposal × World
unfolding store_checked evaluate_move_limits chest_call
chest_by_access asker is_deposit args w (denied code) = (refused (some code), w)
chest_by_access asker is_deposit args w (granted account) =
    store_checked asker (chest_call is_deposit args)
      (evaluate_move_limits asker.user args.amount_usd w)

-- `_preview_chest`
unfoldable pub preview_chest : Asker → String → ℕ → ℤ → String → String → World → Proposal × World
unfolding chest_by_access is_positive access or_default
preview_chest asker action robo_advisor_id amount counter_account chest_category w =
    let is_deposit = str_eq (upper action) "DEPOSIT" in
    let counter = or_default (some counter_account) "DEFAULT" in
    let args : ChestArgs = record {
      robo_advisor_id = robo_advisor_id;
      amount_usd = amount;
      counter_account = some counter;
      chest_category = chest_category;
    } in
    if not (is_positive amount)
    then (refused (some amount_invalid), w)
    else if is_deposit && ltb_ℤ amount (usd 10)
    then (refused (some amount_too_low), w)
    else if not (contains account_buckets counter)
    then (refused (some invalid_account), w)
    else chest_by_access asker is_deposit args w (access asker.user w)

card_by_access : Asker → String → String → World → Access → Proposal × World
unfolding store
card_by_access asker card_uuid new_status w (denied code) = (refused (some code), w)
card_by_access asker card_uuid new_status w (granted account) =
    store asker (set_card_status card_uuid new_status) false w

-- `_preview_set_card_status`
unfoldable pub preview_set_card_status : Asker → String → String → World → Proposal × World
unfolding card_by_access access
preview_set_card_status asker card_uuid new_status w =
    let card_uuid_norm = strip card_uuid in
    let status_norm = upper new_status in
    if str_eq card_uuid_norm ""
    then (refused (some card_uuid_required), w)
    else if not (contains ("ACTIVE" ∷ "SUSPENDED" ∷ []) status_norm)
    then (refused (some invalid_status), w)
    else card_by_access asker card_uuid_norm status_norm w (access asker.user w)

-- `_preview_resume_bot`
unfoldable pub preview_resume_bot : Asker → World → Proposal × World
unfolding store kill_switch_on
preview_resume_bot asker w = elim (lookup asker.user w.accounts) [
  | none ↦ (refused (some wallbit_not_connected), w)
  | some account ↦
      if kill_switch_on account w.now
      then store asker resume true w
      else (refused (some not_paused), w)
]

abbrev pub pause_max_hours : ℕ
pause_max_hours = 720

-- The save of `_pause_bot_directly`, which keeps a longer pause.
pub longer : Option ℕ → ℕ → Option ℕ
longer none new_until = some new_until
longer (some until) new_until = if ltb until new_until then some new_until else some until

pub data Pause : Type 0 where
  not_paused_for : Code → Pause
  paused_until : Option ℕ → Pause

-- `_pause_bot_directly`
unfoldable pub pause_bot_directly : ℕ → ℤ → World → Pause × World
unfolding longer
pause_bot_directly user duration_hours w = elim (lookup user w.accounts) [
  | none ↦ (not_paused_for wallbit_not_connected, w)
  | some account ↦
      let until = longer account.kill_switch_until (w.now + pos_part duration_hours * 3600) in
      if leb_ℤ duration_hours (pos 0) || ltb_ℤ (pos pause_max_hours) duration_hours
      then (not_paused_for duration_invalid, w)
      else (
        paused_until until,
        record w {
          accounts = modify user (λ row. record row { kill_switch_until = until }) w.accounts;
        },
      )
]
