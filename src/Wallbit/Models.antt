-- ===== src/Wallbit/Models.antt =====
-- wallbit/models.py: the rows of the app's tables, and the state that its handlers share. A
-- database table is a `Dict` by primary key (accounts and limits by their user, one to one), or a
-- list in order of creation. Times are seconds, money is in units of 10 ^ -8 USD.
use tresqu_api.Common.{ℕ, Bool, Option, List, String}
use tresqu_api.Common.Int.{ℤ}
use tresqu_api.Common.Dict.{Dict}
use tresqu_api.Common.Json.{Json}
use tresqu_api.Wallbit.Messages.{Log, Request, Outcome}

pub data AccountStatus : Type 0 where
  connected revoked error : AccountStatus

pub record WallbitAccount : Type 0 where
  pub id : ℕ
  pub encrypted_api_key : String
  pub status : AccountStatus
  pub last_sync_at : Option ℕ
  pub kill_switch_until : Option ℕ
  pub last_error : String

pub record AgentLimits : Type 0 where
  pub max_trade_usd : ℤ
  pub max_daily_move_usd : ℤ
  pub allowed_symbols : List String
  pub blocked_symbols : List String
  pub require_2step_above_usd : ℤ

pub record WallbitTxMirror : Type 0 where
  pub account : ℕ
  pub wallbit_uuid : String
  pub tx_type : String
  pub status : String
  pub source_currency : String
  pub dest_currency : String
  pub source_amount : ℤ
  pub dest_amount : ℤ
  pub created_at_wallbit : ℕ
  pub raw : Json

pub data Kind : Type 0 where
  stock etf bond robo chest : Kind

pub data Action : Type 0 where
  buy sell deposit withdraw : Action

-- `wallbit_tx` is the uuid of the linked mirror row.
pub record Investment : Type 0 where
  pub user : ℕ
  pub kind : Kind
  pub action : Action
  pub symbol : String
  pub chest_category : String
  pub amount_usd : ℤ
  pub shares : Option ℤ
  pub wallbit_tx : Option String
  pub executed_at : Option ℕ
  pub created_at : ℕ

-- The tolerance of an effective risk profile; `unknown` is any other text.
pub data Tolerance : Type 0 where
  conservative moderate aggressive unknown : Tolerance

-- Where an effective profile comes from.
pub data Source : Type 0 where
  declared inferred agreement safety_cap default : Source

pub record Snapshot : Type 0 where
  pub tolerance : Tolerance
  pub source : Source

-- `tool_args["risk_gate"]`
pub record GateNote : Type 0 where
  pub pass_through : Bool
  pub extra_two_step : Bool
  pub snapshot : Snapshot

pub record TradeArgs : Type 0 where
  pub action : String
  pub symbol : String
  pub amount_usd : ℤ
  pub currency : Option String
  pub order_type : Option String
  pub limit_price : Option ℤ
  pub time_in_force : Option String
  pub risk_gate : Option GateNote

pub record MoveArgs : Type 0 where
  pub currency : String
  pub from_account : String
  pub to_account : String
  pub amount : ℤ

-- `counter_account` is `from_account` of a deposit and `to_account` of a withdrawal.
pub record ChestArgs : Type 0 where
  pub robo_advisor_id : ℕ
  pub amount_usd : ℤ
  pub counter_account : Option String
  pub chest_category : String

-- A tool name with its arguments; `other_tool` is a name that is not in `EXECUTORS`.
pub data Call : Type 0 where
  place_trade : TradeArgs → Call
  move_funds : MoveArgs → Call
  deposit_chest : ChestArgs → Call
  withdraw_chest : ChestArgs → Call
  set_card_status : (card_uuid new_status : String) → Call
  resume : Call
  other_tool : String → Call

pub data DecisionStatus : Type 0 where
  pending executing executed_status failed cancelled uncertain_status : DecisionStatus

pub record AgentDecision : Type 0 where
  pub user : ℕ
  pub channel : String
  pub user_message : String
  pub tools_called : List Call
  pub requires_confirmation : Bool
  pub confirmed_at : Option ℕ
  pub executed : Bool
  pub wallbit_tx_uuid : Option String
  pub error : String
  pub status : DecisionStatus
  pub created_at : ℕ

-- Celery work that a handler enqueues: by account id, or by decision id and delay.
pub data Task : Type 0 where
  sync_account : (account_id : ℕ) → Task
  reconcile_decision : (decision_id countdown : ℕ) → Task

-- The answers of `notify_decision_user` that the reconciliation gives.
pub data Note : Type 0 where
  did_execute : (decision_id : ℕ) (tx : String) → Note
  did_not_execute : (decision_id : ℕ) → Note
  unverifiable : (decision_id : ℕ) → Note

-- The database, the clock, what was sent to the broker, and what was enqueued or notified (the
-- latest first).
pub record World : Type 0 where
  pub now : ℕ
  pub accounts : Dict WallbitAccount
  pub limits : Dict AgentLimits
  pub decisions : Dict AgentDecision
  pub next_decision : ℕ
  pub investments : List Investment
  pub mirrors : List WallbitTxMirror
  pub log : Log
  pub queue : List Task
  pub notes : List Note

-- `decrypt_api_key`: the key, or the text of the exception.
pub data Decrypted : Type 0 where
  key : String → Decrypted
  undecryptable : String → Decrypted

-- What the app takes from outside: the network, the decryption of a stored key, the text of a
-- Decimal, which keeps more than its value, `str` of a list or dict, `Decimal` of a text as a column
-- with 8 decimals stores it, and `datetime.fromisoformat`.
pub record Env : Type 0 where
  pub answer : Log → Request → Outcome
  pub decrypt : String → Decrypted
  pub show_usd : ℤ → String
  pub repr : Json → String
  pub decimal_of : String → Option ℤ
  pub datetime_of : String → Option ℕ
  pub constraint_message : String
