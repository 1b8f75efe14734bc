-- ===== src/Wallbit/Tests.antt =====
-- Runs of the `wallbit` app on small inputs, and the theorems at inputs that meet their hypotheses.
mod Settle
mod Propose
mod Portfolio
mod Views
use tresqu_api.Common.{
  ◌+◌, ◌≤◌, ◌≡◌, refl, ◌⊎◌, true, false, none, some, [], ◌∷◌, ◌↔◌, max, arith, upper,
}
use tresqu_api.Common.Int.{pos, ◌≤ℤ◌}
use tresqu_api.Common.Dict.{lookup, insert}
use tresqu_api.Common.Json
use tresqu_api.Common.Json.{Json}
use tresqu_api.Wallbit.Messages.{
  get, post, empty, Request, Response, answered, transport_error, sent, WallbitError, Result,
  raised, rate_limit,
}
use tresqu_api.Wallbit.Client.{WallbitClient, send, request_for, new_client, idempotent}
use tresqu_api.Wallbit.Client.Attempts.{
  send_write_once, send_write-IsUncertain, is_unanswered, IsUncertain, sent_count,
}
use tresqu_api.Common.Show.{show_ℕ}
use tresqu_api.Wallbit.Confirm.{cancel_pending_decision}
use tresqu_api.Wallbit.Confirm.Buttons.{
  confirm_button, cancel_button, handle_button_press, handle_button_press-button,
}
use tresqu_api.Wallbit.Client.Reads.{send_read, send_read_blocked}
use tresqu_api.Wallbit.Models.{
  Env, key, World, WallbitAccount, connected, AgentDecision, move_funds, pending, cancelled,
}
use tresqu_api.Wallbit.Limits.{
  usd, limits_for, get_account, daily_move_total, evaluate_trade_limits, evaluate_move_limits,
}
use tresqu_api.Wallbit.Limits.Bounds.{
  Tradable, Fits, evaluate_trade_limits_iff, evaluate_move_limits_iff,
}
use tresqu_api.Wallbit.Decisions.{get_pending_decision, claim_pending_decision, mark_cancelled}
use tresqu_api.Wallbit.Decisions.Lifecycle.{claimed_row}
use tresqu_api.Wallbit.Decisions.Counting.{IsSpent, claimable_count, write_count}
use tresqu_api.Wallbit.Bodies.{shares_for}
use tresqu_api.Wallbit.Confirm.{
  already_resolved, executed_ok, uncertain_reply, execute_confirmed_decision,
}
use tresqu_api.Wallbit.Confirm.Replay.{confirm_replay}
use tresqu_api.Wallbit.Confirm.Outcome.{RowIs, Promises, confirm-Promises}
use tresqu_api.Wallbit.Confirm.Race.{claim_exclusive, cancel_overwrites}

abbrev filled : Response
filled = record {
  status = 200;
  retry_after = none;
  payload = Json.object (Json.field "uuid" (Json.text "tx-1") Json.end);
}

abbrev blocked : Response
blocked = record { status = 429; retry_after = some 3600000; payload = Json.null }

abbrev broker : Env
broker = record {
  answer = λ log request. answered filled;
  decrypt = λ token. key token;
  show_usd = λ amount. "1";
  constraint_message = "duplicate key";
  repr = λ payload. "{}";
  decimal_of = λ s. none;
  datetime_of = λ s. none;
}

-- The broker never answers.
abbrev silent : Env
silent = record broker { answer = λ log request. transport_error "ReadTimeout" "timed out" }

abbrev account : WallbitAccount
account = record {
  id = 3;
  encrypted_api_key = "secret";
  status = connected;
  last_sync_at = none;
  kill_switch_until = none;
  last_error = "";
}

abbrev proposal : AgentDecision
proposal = record {
  user = 1;
  channel = "whatsapp";
  user_message = "mueve 20";
  tools_called =
      move_funds (record {
        currency = "usd";
        from_account = "DEFAULT";
        to_account = "INVESTMENT";
        amount = usd 20;
      })
      ∷ [];
  requires_confirmation = true;
  confirmed_at = none;
  executed = false;
  wallbit_tx_uuid = none;
  error = "";
  status = pending;
  created_at = 1000;
}

abbrev start : World
start = record {
  now = 1100;
  accounts = (1, account) ∷ [];
  limits = [];
  decisions = (7, proposal) ∷ [];
  next_decision = 8;
  investments = [];
  mirrors = [];
  log = [];
  queue = [];
  notes = [];
}

found : get_pending_decision 1 7 start ≡ some proposal
unfolding get_pending_decision lookup
found = refl

confirmed : (execute_confirmed_decision broker 1 7 start).0 ≡ executed_ok "tx-1"
unfolding execute_confirmed_decision get_pending_decision get_account lookup insert Json.json_get
    Json.truthy
confirmed = refl

-- No answer: one write went out, and the decision is left to the reconciliation.
left_uncertain :
    ((execute_confirmed_decision silent 1 7 start).0 ≡ uncertain_reply)
    × (write_count (execute_confirmed_decision silent 1 7 start).1.log ≡ 1)
unfolding execute_confirmed_decision get_pending_decision get_account lookup insert request_for
left_uncertain = (refl, refl)

-- The LIMIT order of USD 100 at USD 3 buys 33.3333 shares.
shares_rounded_down : shares_for (usd 100) (usd 3) ≡ some (pos 333333)
unfolding shares_for
shares_rounded_down = refl

confirm-Promises_example : Promises start 7 (execute_confirmed_decision broker 1 7 start)
confirm-Promises_example = confirm-Promises broker 1 7 start proposal found

abbrev claimed_start : World
claimed_start = record start { decisions = (7, claimed_row proposal start) ∷ [] }

handle_button_press-button_example :
    (handle_button_press broker 1 (confirm_button 7) start
      ≡ execute_confirmed_decision broker 1 7 start)
    × (handle_button_press broker 1 (cancel_button 7) start ≡ cancel_pending_decision 1 7 start)
handle_button_press-button_example = handle_button_press-button broker 1 7 start

a_button : confirm_button 12 ≡ "wallbit_confirm_12"
unfolding confirm_button show_ℕ
a_button = refl

claimed : claim_pending_decision 1 7 start ≡ some (claimed_row proposal start, claimed_start)
unfolding claim_pending_decision lookup insert
claimed = refl

cancel_overwrites_example :
    RowIs 7 cancelled true
      (mark_cancelled 7 proposal (execute_confirmed_decision broker 1 7 start).1)
cancel_overwrites_example = cancel_overwrites broker 1 7 start proposal "tx-1" found confirmed

abbrev client : WallbitClient
client = record { api_key = "k"; max_attempts = 4; retry_rate_limited = true }

client_made : new_client "k" 4 true ≡ Result.ok client
unfolding new_client
client_made = refl

abbrev post_trades : Request
post_trades = request_for post "/trades" empty

post_is_write : idempotent post ≡ false
unfolding idempotent
post_is_write = refl

get_is_read : idempotent get ≡ true
unfolding idempotent
get_is_read = refl

send_write_once_example :
    (send silent.answer client post "/trades" empty []).1 ≡ sent post_trades ∷ []
send_write_once_example = send_write_once silent.answer client post "/trades" empty [] post_is_write

send_write-IsUncertain_example :
    IsUncertain (send silent.answer client post "/trades" empty []).0
    ↔ (is_unanswered (silent.answer [] post_trades) ≡ true)
send_write-IsUncertain_example =
    send_write-IsUncertain silent.answer client post "/trades" empty [] post_is_write

send_read_example :
    (sent_count [] + 1 ≤ sent_count (send silent.answer client get "/cards" empty []).1)
    × (sent_count (send silent.answer client get "/cards" empty []).1 ≤ sent_count [] + max 1 4)
    × (¬ IsUncertain (send silent.answer client get "/cards" empty []).0)
send_read_example =
    send_read silent.answer client get "/cards" empty [] "k" 4 true client_made get_is_read
