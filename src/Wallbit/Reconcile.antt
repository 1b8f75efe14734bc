-- ===== src/Wallbit/Reconcile.antt =====
-- wallbit/tasks.py: the reconciliation of uncertain decisions with the broker's transactions. The
-- number of retries that Celery counts is an argument, and a retry is a queued task.
pub mod Match
pub mod Settled
pub mod Writes
use tresqu_api.Common.{
  ℕ, ◌+◌, ◌*◌, ◌^◌, ◌-◌, max, Bool, true, false, not, ◌&&◌, ◌||◌, Option, none, some, List, [], ◌∷◌,
  String, ◌==◌, ltb, leb, str_eq, if◌then◌else◌, upper, contains,
}
use tresqu_api.Common.Int.{ℤ, pos_part, neg_part}
use tresqu_api.Common.Json.{Json, object, json_get, truthy}
use tresqu_api.Common.Dict.{Dict, lookup}
use tresqu_api.Wallbit.Models.{
  Env, World, WallbitAccount, WallbitTxMirror, AgentDecision, DecisionStatus, uncertain_status,
  Call, place_trade, move_funds, deposit_chest, withdraw_chest, set_card_status, reconcile_decision,
  Note, did_execute, did_not_execute, unverifiable,
}
use tresqu_api.Wallbit.Bodies.{str_of}
use tresqu_api.Wallbit.Decisions.{mark_executed, mark_failed}
use tresqu_api.Wallbit.Sync.{SyncResult, sync_crashed, run_wallbit_sync}

abbrev pub reconcile_max_attempts : ℕ
reconcile_max_attempts = 4

abbrev pub reconcile_retry_seconds : ℕ
reconcile_retry_seconds = 45

abbrev pub reconcile_lookback : ℕ
reconcile_lookback = 180

-- `abs(a - b)`
pub distance : ℤ → ℤ → ℕ
distance a b =
    (pos_part a + neg_part b - (pos_part b + neg_part a))
    + (pos_part b + neg_part a - (pos_part a + neg_part b))

-- `_amount_matches`, times 100: the tolerance is USD 0.10, or 2 % of the expected amount.
pub amount_matches : ℤ → ℤ → Bool
unfolding distance
amount_matches observed expected =
    leb (distance observed expected * 100) (max (10 ^ 9) (pos_part expected * 2))

abbrev pub move_tx_types : List String
move_tx_types = "INTERNAL" ∷ "INVESTMENT_DEPOSIT" ∷ "INVESTMENT_WITHDRAW" ∷ []

-- `.exclude(wallbit_tx_uuid__isnull=True).exclude(wallbit_tx_uuid="")`, and the uuid
is_link : String → Option String → Bool
is_link uuid none = false
is_link uuid (some linked) = not (str_eq linked "") && str_eq linked uuid

-- `claimed`: another decision is linked to the transaction.
pub is_claimed : ℕ → String → Dict AgentDecision → Bool
unfolding is_link
is_claimed id uuid [] = false
is_claimed id uuid ((other, d) ∷ rows) =
    not (other == id) && is_link uuid d.wallbit_tx_uuid || is_claimed id uuid rows

-- `str(info.get("direction") or direction).upper()`, where `info` has a `get`
direction_of : (Json → String) → String → WallbitTxMirror → String
direction_of repr direction tx = elim (json_get "trade_info" tx.raw) [
  | none ↦ upper direction
  | some info ↦ elim (json_get "direction" info) [
    | none ↦ upper direction
    | some v ↦ if truthy v then upper (str_of repr v) else upper direction
  ]
]

trade_matches : (Json → String) → String → String → ℤ → WallbitTxMirror → Bool
unfolding direction_of amount_matches
trade_matches repr direction symbol amount tx =
    str_eq (upper tx.tx_type) "TRADE"
    && str_eq (direction_of repr direction tx) direction
    && (if str_eq direction "BUY"
        then str_eq (upper tx.dest_currency) symbol && amount_matches tx.source_amount amount
        else str_eq (upper tx.source_currency) symbol && amount_matches tx.dest_amount amount)

chest_matches : String → ℤ → WallbitTxMirror → Bool
unfolding amount_matches
chest_matches tx_type amount tx =
    str_eq tx.tx_type tx_type
    && (amount_matches tx.source_amount amount || amount_matches tx.dest_amount amount)

-- The test that `find_transaction_for_decision` makes of a candidate, by the tool.
pub call_matches : (Json → String) → Call → WallbitTxMirror → Bool
unfolding trade_matches chest_matches amount_matches
call_matches repr (place_trade args) tx =
    trade_matches repr (upper args.action) (upper args.symbol) args.amount_usd tx
call_matches repr (move_funds args) tx =
    contains move_tx_types tx.tx_type && amount_matches tx.source_amount args.amount
call_matches repr (deposit_chest args) tx = chest_matches "ROBOADVISOR_DEPOSIT" args.amount_usd tx
call_matches repr (withdraw_chest args) tx = chest_matches "ROBOADVISOR_WITHDRAW" args.amount_usd tx
call_matches repr _ tx = false

pub first_matches : (Json → String) → List Call → WallbitTxMirror → Bool
unfolding call_matches
first_matches repr [] tx = false
first_matches repr (call ∷ calls) tx = call_matches repr call tx

-- `decision.confirmed_at or decision.created_at`
pub anchor : AgentDecision → ℕ
anchor d = elim d.confirmed_at [ none ↦ d.created_at | some at ↦ at ]

-- Whether `find_transaction_for_decision` takes a mirrored transaction.
pub is_match : Env → ℕ → AgentDecision → WallbitAccount → World → WallbitTxMirror → Bool
unfolding first_matches anchor is_claimed
is_match env id d account w tx =
    tx.account == account.id
    && leb (anchor d) (tx.created_at_wallbit + reconcile_lookback)
    && not (is_claimed id tx.wallbit_uuid w.decisions)
    && first_matches env.repr d.tools_called tx

-- The earlier of a row and what was found below it; the first of equals.
earlier : WallbitTxMirror → Option WallbitTxMirror → Option WallbitTxMirror
earlier tx none = some tx
earlier tx (some other) =
    if ltb other.created_at_wallbit tx.created_at_wallbit then some other else some tx

-- The first of the rows that pass, under `order_by("created_at_wallbit")`.
pub earliest : (WallbitTxMirror → Bool) → List WallbitTxMirror → Option WallbitTxMirror
unfolding earlier
earliest p [] = none
earliest p (tx ∷ txs) = let rest = earliest p txs in if p tx then earlier tx rest else rest

-- `find_transaction_for_decision`
unfoldable pub find_transaction :
    Env → ℕ → AgentDecision → WallbitAccount → World → Option WallbitTxMirror
unfolding earliest is_match
find_transaction env id d account w = earliest (is_match env id d account w) w.mirrors

is_object : Json → Bool
is_object (object fields) = true
is_object _ = false

-- `info.get` raises: the transaction says something else of its trade than an object.
has_no_get : WallbitTxMirror → Bool
unfolding is_object
has_no_get tx = elim (json_get "trade_info" tx.raw) [
  | none ↦ false
  | some info ↦ truthy info && not (is_object info)
]

is_trade_call : List Call → Bool
is_trade_call (place_trade args ∷ calls) = true
is_trade_call _ = false

-- A transaction on which the loop of `find_transaction_for_decision` raises when it reaches it.
raises_on : ℕ → AgentDecision → WallbitAccount → World → WallbitTxMirror → Bool
unfolding has_no_get is_trade_call
raises_on id d account w tx =
    is_trade_call d.tools_called
    && tx.account == account.id
    && leb (anchor d) (tx.created_at_wallbit + reconcile_lookback)
    && str_eq (upper tx.tx_type) "TRADE"
    && not (is_claimed id tx.wallbit_uuid w.decisions)
    && has_no_get tx

-- The loop reaches such a transaction before it finds a match.
pub search_raises : Env → ℕ → AgentDecision → WallbitAccount → World → Bool
unfolding raises_on is_match earliest
search_raises env id d account w =
    elim (earliest (λ tx. is_match env id d account w tx || raises_on id d account w tx)
      w.mirrors) [ none ↦ false | some tx ↦ raises_on id d account w tx ]

-- What the task returns, or that it raised: `crashed` is an exception that no handler catches.
pub data Settlement : Type 0 where
  skipped : Settlement
  missing_account : Settlement
  settled_executed : (tx : String) → Settlement
  retried : Settlement
  settled_unverifiable : Settlement
  settled_not_executed : Settlement
  crashed : (message : String) → Settlement

unfoldable pub is_card_call : List Call → Bool
is_card_call (set_card_status c n ∷ calls) = true
is_card_call _ = false

pub note : Note → World → World
note n w = record w { notes = n ∷ w.notes }

give_up : ℕ → AgentDecision → World → Settlement × World
unfolding is_card_call note mark_failed
give_up id d w =
    if is_card_call d.tools_called
    then (
      settled_unverifiable,
      note (unverifiable id) (mark_failed id d "reconcile: no transaction trail for card status" w),
    )
    else (
      settled_not_executed,
      note (did_not_execute id)
          (mark_failed id d "reconcile: not found in Wallbit history after retries" w),
    )

-- The task below the search for a match.
conclude_search : ℕ → ℕ → AgentDecision → Option WallbitTxMirror → World → Settlement × World
unfolding note give_up mark_executed
conclude_search retries id d (some tx) w = (
  settled_executed tx.wallbit_uuid,
  note (did_execute id tx.wallbit_uuid) (mark_executed id d tx.wallbit_uuid w),
)
conclude_search retries id d none w =
    if ltb retries (reconcile_max_attempts - 1)
    then (retried, record w { queue = reconcile_decision id reconcile_retry_seconds ∷ w.queue })
    else give_up id d w

-- The search, which may raise, and what follows it.
search_sync : Env → ℕ → ℕ → AgentDecision → WallbitAccount → World → Settlement × World
unfolding conclude_search find_transaction search_raises
search_sync env retries id d account w =
    if search_raises env id d account w
    then (crashed "AttributeError", w)
    else conclude_search retries id d (find_transaction env id d account w) w

-- The task below the sync, whose own failure is only logged.
after_sync : Env → ℕ → ℕ → AgentDecision → WallbitAccount → SyncResult × World → Settlement × World
unfolding search_sync
after_sync env retries id d account (sync_crashed message, w) = (crashed message, w)
after_sync env retries id d account (result, w) = search_sync env retries id d account w

unfoldable pub is_uncertain : DecisionStatus → Bool
is_uncertain uncertain_status = true
is_uncertain _ = false

settle_uncertain : Env → ℕ → ℕ → AgentDecision → World → Settlement × World
unfolding after_sync mark_failed run_wallbit_sync
settle_uncertain env retries id d w = elim (lookup d.user w.accounts) [
  | none ↦ (missing_account, mark_failed id d "reconcile: wallbit account missing" w)
  | some account ↦ after_sync env retries id d account (run_wallbit_sync env account.id w)
]

-- `reconcile_uncertain_decision`
unfoldable pub reconcile_uncertain_decision : Env → ℕ → ℕ → World → Settlement × World
unfolding settle_uncertain is_uncertain
reconcile_uncertain_decision env retries id w = elim (lookup id w.decisions) [
  | none ↦ (skipped, w)
  | some d ↦ if is_uncertain d.status then settle_uncertain env retries id d w else (skipped, w)
]
