-- ===== src/Wallbit/Messages.antt =====
-- wallbit/client.py: what the client sends, what comes back, its log and its exceptions. Times are in
-- milliseconds. The random part of a backoff is not drawn: a pause is logged by its attempt.
use tresqu_api.Common.{ℕ, Bool, Option, List, String}
use tresqu_api.Common.Int.{ℤ}
use tresqu_api.Common.Json.{Json}

pub data Method : Type 0 where
  get head options post patch delete : Method

-- The JSON bodies and query strings that the app sends. Amounts are Decimals in units of
-- 10 ^ -8 USD, shares in units of 10 ^ -4.
pub data Body : Type 0 where
  empty : Body
  market_order : (symbol direction currency : String) (amount : ℤ) → Body
  limit_order :
      (symbol direction currency : String) (shares : ℕ) (limit_price : ℤ) (time_in_force : String)
      → Body
  internal_move : (currency from_account to_account : String) (amount : ℤ) → Body
  robo_deposit : (robo_advisor_id : ℕ) (amount : ℤ) (from_account : String) → Body
  robo_withdraw : (robo_advisor_id : ℕ) (amount : ℤ) (to_account : String) → Body
  card_status : (status : String) → Body
  page : (number limit : ℕ) → Body

pub record Request : Type 0 where
  pub method : Method
  pub path : String
  pub url : String
  pub body : Body
  pub long_timeout : Bool

pub record Response : Type 0 where
  pub status : ℕ
  pub retry_after : Option ℕ
  pub payload : Json

-- What comes back for one request: `httpx.RequestError` with its class name and text, or a response.
pub data Outcome : Type 0 where
  transport_error : (class_name message : String) → Outcome
  answered : Response → Outcome

-- What the client has done so far, the latest first.
pub data Event : Type 0 where
  sent : Request → Event
  backoff : (attempt : ℕ) → Event
  waited : (retry_after : ℕ) → Event

abbrev pub Log : Type 0
Log = List Event

-- The exception classes. `plain` is `WallbitError` itself.
pub data ErrorKind : Type 0 where
  plain auth permission not_found kyc validation rate_limit server uncertain : ErrorKind

pub record WallbitError : Type 0 where
  pub kind : ErrorKind
  pub message : String
  pub status : Option ℕ
  pub retry_after : Option ℕ

pub data Result {ℓ} (A : Type ℓ) : Type ℓ where
  ok : A → Result A
  raised : WallbitError → Result A
