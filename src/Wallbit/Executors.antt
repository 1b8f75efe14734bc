-- ===== src/Wallbit/Executors.antt =====
-- wallbit/executors.py: one executor per tool, and `execute_decision` with its exception handlers.
-- Logging is left out; the two `delay` calls that dispatch Celery tasks are taken to succeed.
pub mod Writes
pub mod Tracking
pub mod Rows
pub mod Queries
use Prim.Native.String
use tresqu_api.Common.{
  ℕ, ◌+◌, ◌*◌, ◌/◌, ◌^◌, Bool, true, false, not, Option, none, some, List, [], ◌∷◌, ◌++◌, String,
  zero, suc, ltb, leb, ◌==◌, str_eq, if◌then◌else◌, upper, find?, any,
}
use mathlib.Core.Option
use tresqu_api.Common.Int.{ℤ, pos, negsuc, pos_part, neg_part, leb_ℤ}
use tresqu_api.Common.Json.{Json, null, boolean, number, text, array, object, json_get, truthy}
use tresqu_api.Wallbit.Messages.{
  Method, post, patch, Body, market_order, limit_order, internal_move, robo_deposit, robo_withdraw,
  card_status, Response, ErrorKind, plain, auth, permission, not_found, kyc, validation, rate_limit,
  server, uncertain, WallbitError, Result, ok, raised, Log,
}
use tresqu_api.Wallbit.Client.{WallbitClient, new_client, default_attempts, send}
use tresqu_api.Wallbit.Models.{
  Env, Decrypted, key, undecryptable, World, WallbitAccount, WallbitTxMirror, Investment, Kind,
  chest, Action, deposit, withdraw, AgentDecision, TradeArgs, MoveArgs, ChestArgs, Call,
  place_trade, move_funds, deposit_chest, withdraw_chest, set_card_status, resume, other_tool, Task,
  sync_account, reconcile_decision,
}
use tresqu_api.Common.Dict.{lookup, insert}
use tresqu_api.Wallbit.Decisions.{mark_executed, mark_failed, mark_uncertain}
use tresqu_api.Wallbit.Bodies.{
  Exception, api, crash, Try, value, threw, or_default, uuid_keys, extract_tx_uuid, quantize,
  shares_for, trade_body,
}

-- A row of a transaction's one-to-one relation.
abbrev pub is_linked : String → Option String → Bool
is_linked uuid none = false
is_linked uuid (some linked) = str_eq linked uuid

abbrev pub is_linked_to : String → Investment → Bool
is_linked_to uuid i = is_linked uuid i.wallbit_tx

-- What a client call gives its executor.
lift : Result Response × Log → World → Try Response × World
lift (ok response, log) w = (value response, record w { log = log })
lift (raised e, log) w = (threw (api e), record w { log = log })

-- Each executor works on the decision `id` by the handler's copy `d`.
module _ (env : Env) where
  with_client : Result WallbitClient → Method → String → Body → World → Try Response × World
  unfolding lift
  with_client (raised e) method path body w = (threw (api e), w)
  with_client (ok client) method path body w =
      lift (send env.answer client method path body w.log) w

  with_key : Decrypted → Method → String → Body → World → Try Response × World
  unfolding with_client
  with_key (undecryptable message) method path body w = (threw (crash message), w)
  with_key (key api_key) method path body w =
      with_client (new_client api_key default_attempts true) method path body w

  -- `with _client(account) as client: client.post(path, json=body)`, or `patch`
  unfoldable pub call_wallbit :
      WallbitAccount → Method → String → Body → World → Try Response × World
  unfolding with_key send new_client
  call_wallbit account method path body w =
      with_key (env.decrypt account.encrypted_api_key) method path body w

  -- `tx_uuid = _extract_tx_uuid(response.data); mark_executed(decision, wallbit_tx_uuid=tx_uuid)`
  settle : ℕ → AgentDecision → Try Response × World → Try String × World
  unfolding mark_executed extract_tx_uuid
  settle id d (threw e, w) = (threw e, w)
  settle id d (value response, w) =
      let tx_uuid = extract_tx_uuid env.repr response.payload in
      (value tx_uuid, mark_executed id d tx_uuid w)

  -- `wallbit_tx=tx_mirror`, the mirrored transaction with the uuid
  link_of : String → World → Option String
  link_of tx_uuid w =
      if str_eq tx_uuid ""
      then none
      else Option.map (λ m. m.wallbit_uuid) (find? (λ m. str_eq m.wallbit_uuid tx_uuid) w.mirrors)

  -- The one-to-one constraint on `Investment.wallbit_tx`.
  violates : Option String → World → Bool
  violates none w = false
  violates (some tx_uuid) w = any (is_linked_to tx_uuid) w.investments

  chest_row : AgentDecision → Action → ChestArgs → String → World → Investment
  unfolding link_of
  chest_row d action args tx_uuid w = record {
    user = d.user;
    kind = chest;
    action = action;
    symbol = "";
    chest_category = args.chest_category;
    amount_usd = quantize args.amount_usd;
    shares = none;
    wallbit_tx = link_of tx_uuid w;
    executed_at = none;
    created_at = w.now;
  }

  -- `_record_investment`, for a chest; the amount as a column with 2 decimals stores it. A transaction
  -- that another investment has already raises an `IntegrityError`.
  record_chest : AgentDecision → Action → ChestArgs → String → World → Try String × World
  unfolding chest_row violates
  record_chest d action args tx_uuid w =
      if violates (link_of tx_uuid w) w then (threw (crash env.constraint_message), w) else (
        value tx_uuid,
        record w { investments = w.investments ++ chest_row d action args tx_uuid w ∷ [] },
      )

  record_settled : AgentDecision → Action → ChestArgs → Try String × World → Try String × World
  unfolding record_chest
  record_settled d action args (threw e, w) = (threw e, w)
  record_settled d action args (value tx_uuid, w) = record_chest d action args tx_uuid w

  settle_chest : ℕ → AgentDecision → Action → ChestArgs → Try Response × World → Try String × World
  unfolding settle record_settled
  settle_chest id d action args called = record_settled d action args (settle id d called)

  place_order : ℕ → AgentDecision → WallbitAccount → World → Try Body → Try String × World
  unfolding settle call_wallbit
  place_order id d account w (threw e) = (threw e, w)
  place_order id d account w (value body) = settle id d (call_wallbit account post "/trades" body w)

  execute_place_trade : ℕ → AgentDecision → WallbitAccount → TradeArgs → World → Try String × World
  unfolding trade_body place_order
  execute_place_trade id d account args w =
      place_order id d account w (trade_body env.show_usd args)

  execute_move_funds : ℕ → AgentDecision → WallbitAccount → MoveArgs → World → Try String × World
  unfolding settle call_wallbit
  execute_move_funds id d account args w = settle id d (
      call_wallbit account post "/operations/internal"
        (internal_move (upper args.currency) (upper args.from_account) (upper args.to_account)
          args.amount)
        w)

  execute_deposit_chest :
      ℕ → AgentDecision → WallbitAccount → ChestArgs → World → Try String × World
  unfolding settle_chest call_wallbit or_default
  execute_deposit_chest id d account args w = settle_chest id d deposit args (
      call_wallbit account post "/roboadvisor/deposit"
        (robo_deposit args.robo_advisor_id args.amount_usd
          (or_default args.counter_account "DEFAULT"))
        w)

  execute_withdraw_chest :
      ℕ → AgentDecision → WallbitAccount → ChestArgs → World → Try String × World
  unfolding settle_chest call_wallbit or_default
  execute_withdraw_chest id d account args w = settle_chest id d withdraw args (
      call_wallbit account post "/roboadvisor/withdraw"
        (robo_withdraw args.robo_advisor_id args.amount_usd
          (or_default args.counter_account "DEFAULT"))
        w)

  -- A change of a card links no transaction.
  settle_card : ℕ → AgentDecision → Try Response × World → Try String × World
  unfolding mark_executed
  settle_card id d (threw e, w) = (threw e, w)
  settle_card id d (value response, w) = (value "", mark_executed id d "" w)

  execute_set_card_status :
      ℕ → AgentDecision → WallbitAccount → String → String → World → Try String × World
  unfolding settle_card call_wallbit
  execute_set_card_status id d account card_uuid new_status w = settle_card id d (
      call_wallbit account patch (String.◌++◌ "/cards/" (String.◌++◌ card_uuid "/status"))
        (card_status (upper new_status)) w)

  -- `account.kill_switch_until = None`, saved to the account row of the user.
  clear_pause : ℕ → World → World
  clear_pause user w = record w {
    accounts = elim (lookup user w.accounts) [
      | none ↦ w.accounts
      | some row ↦ insert user (record row { kill_switch_until = none }) w.accounts
    ];
  }

  execute_resume_bot : ℕ → AgentDecision → World → Try String × World
  unfolding mark_executed clear_pause
  execute_resume_bot id d w = (value "", mark_executed id d "" (clear_pause d.user w))

  -- `executor(decision, account, args)`; a name with no executor never gets here.
  pub run_tool : ℕ → AgentDecision → WallbitAccount → Call → World → Try String × World
  unfolding execute_place_trade execute_move_funds execute_deposit_chest execute_withdraw_chest
      execute_set_card_status execute_resume_bot
  run_tool id d account (place_trade args) w = execute_place_trade id d account args w
  run_tool id d account (move_funds args) w = execute_move_funds id d account args w
  run_tool id d account (deposit_chest args) w = execute_deposit_chest id d account args w
  run_tool id d account (withdraw_chest args) w = execute_withdraw_chest id d account args w
  run_tool id d account (set_card_status card_uuid new_status) w =
      execute_set_card_status id d account card_uuid new_status w
  run_tool id d account resume w = execute_resume_bot id d w
  run_tool id d account (other_tool name) w = (threw (crash name), w)

-- `tool_name in LOCAL_ONLY_TOOLS`
unfoldable pub is_local_only : Call → Bool
is_local_only resume = true
is_local_only _ = false

-- The `finally` of `execute_decision`, with `_dispatch_sync`.
dispatch_sync : Call → WallbitAccount → World → World
unfolding is_local_only
dispatch_sync call account w =
    if is_local_only call then w else record w { queue = sync_account account.id ∷ w.queue }

abbrev pub reconcile_first_delay : ℕ
reconcile_first_delay = 20

-- The dict that `execute_decision` returns, or its `UnknownTool`.
pub data Execution : Type 0 where
  succeeded : (tx_uuid : String) → Execution
  unanswered : (error : String) → Execution
  rejected : (error : String) → Execution
  unknown_tool : (message : String) → Execution

pub is_uncertain_kind : ErrorKind → Bool
is_uncertain_kind uncertain = true
is_uncertain_kind _ = false

-- The `except` clauses of `execute_decision`.
handle_exception : ℕ → AgentDecision → Exception → World → Execution × World
unfolding is_uncertain_kind mark_uncertain mark_failed
handle_exception id d (crash message) w = (rejected message, mark_failed id d message w)
handle_exception id d (api e) w =
    if is_uncertain_kind e.kind
    then (
      unanswered e.message,
      (let marked = mark_uncertain id d e.message w in
          record marked { queue = reconcile_decision id reconcile_first_delay ∷ marked.queue }),
    )
    else (rejected e.message, mark_failed id d e.message w)

conclude : ℕ → AgentDecision → Try String × World → Execution × World
unfolding handle_exception
conclude id d (value tx_uuid, w) = (succeeded tx_uuid, w)
conclude id d (threw e, w) = handle_exception id d e w

attempt_tool : Env → ℕ → AgentDecision → WallbitAccount → Call → World → Execution × World
unfolding run_tool conclude dispatch_sync
attempt_tool env id d account call w =
    let (result, w') = conclude id d (run_tool env id d account call w) in
    (result, dispatch_sync call account w')

execute_first : Env → ℕ → AgentDecision → WallbitAccount → List Call → World → Execution × World
unfolding attempt_tool
execute_first env id d account [] w = (unknown_tool "decision has no recorded tool call", w)
execute_first env id d account (other_tool name ∷ calls) w =
    (unknown_tool (String.◌++◌ "no executor for " name), w)
execute_first env id d account (call ∷ calls) w = attempt_tool env id d account call w

unfoldable pub execute_decision :
    Env → ℕ → AgentDecision → WallbitAccount → World → Execution × World
unfolding execute_first
execute_decision env id d account w = execute_first env id d account d.tools_called w
