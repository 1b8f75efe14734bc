-- ===== src/Wallbit/Client.antt =====
-- wallbit/client.py: the HTTP client and its retry loop. The network is the parameter `answer`:
-- what the broker's side does with a request, given all that was sent and slept before it.
pub mod Attempts
pub mod Reads
use text.Mathlib.Text.{starts_with}
use Prim.Native.String
use tresqu_api.Common.{
  ℕ, zero, suc, ◌+◌, ◌-◌, ◌*◌, ◌^◌, min, max, Bool, true, false, not, ◌&&◌, ◌||◌, Option, none,
  some, List, ◌∷◌, String, ltb, leb, ◌==◌, str_eq, if◌then◌else◌,
}
use tresqu_api.Common.Int.{ℤ}
use tresqu_api.Common.Json.{Json, json_get, as_text}
use tresqu_api.Common.Show.{show_ℕ}
use tresqu_api.Wallbit.Messages.{
  Body, ErrorKind, Event, Log, Method, Outcome, Request, Response, Result, WallbitError, answered,
  auth, backoff, card_status, delete, empty, get, head, internal_move, kyc, limit_order,
  market_order, not_found, ok, options, page, patch, permission, plain, post, raised, rate_limit,
  robo_deposit, robo_withdraw, sent, server, transport_error, uncertain, validation, waited,
}

abbrev pub api_prefix : String
api_prefix = "/api/public/v1"

abbrev pub default_attempts : ℕ
default_attempts = 4

abbrev pub backoff_base : ℕ
backoff_base = 500

abbrev pub backoff_cap : ℕ
backoff_cap = 8000

abbrev pub retry_after_max_sleep : ℕ
retry_after_max_sleep = 120000

-- `method.upper() in IDEMPOTENT_METHODS`
unfoldable pub idempotent : Method → Bool
idempotent get = true
idempotent head = true
idempotent options = true
idempotent _ = false

pub record WallbitClient : Type 0 where
  pub api_key : String
  pub max_attempts : ℕ
  pub retry_rate_limited : Bool

-- `WallbitClient.__init__`
unfoldable pub new_client : String → ℕ → Bool → Result WallbitClient
new_client api_key max_attempts retry_rate_limited =
    if str_eq api_key ""
    then raised
        (record { kind = auth; message = "API key is required"; status = none; retry_after = none })
    else ok (record {
      api_key = api_key;
      max_attempts = max 1 max_attempts;
      retry_rate_limited = retry_rate_limited;
    })

-- `_extract_message`
pub extract_message : Json → Option String
extract_message payload = elim (as_text (json_get "message" payload)) [
  | some m ↦ some m
  | none ↦ elim (as_text (json_get "error" payload)) [
    | some m ↦ some m
    | none ↦ as_text (json_get "detail" payload)
  ]
]

status_message : ℕ → Json → String
unfolding extract_message
status_message status payload = elim (extract_message payload) [
  | some m ↦ m
  | none ↦ String.◌++◌ "Wallbit responded with status " (show_ℕ status)
]

-- The class that `_error_for_status` chooses.
pub kind_for_status : ℕ → ErrorKind
kind_for_status status =
    if status == 401
    then auth
    else if status == 403
    then permission
    else if status == 404
    then not_found
    else if status == 412
    then kyc
    else if status == 400 || status == 422
    then validation
    else if status == 429
    then rate_limit
    else if leb 500 status && ltb status 600
    then server
    else plain

error_for_status : ℕ → Json → WallbitError
unfolding status_message kind_for_status
error_for_status status payload = record {
  kind = kind_for_status status;
  message = status_message status payload;
  status = some status;
  retry_after = none;
}

-- `isinstance(error, WallbitRateLimitError)`
unfoldable pub is_rate_limit : ErrorKind → Bool
is_rate_limit rate_limit = true
is_rate_limit _ = false

-- `_build_response`
pub build_response : Response → Result Response
unfolding error_for_status is_rate_limit
build_response response =
    let error = error_for_status response.status response.payload in
    if leb 400 response.status
    then raised (
        if is_rate_limit error.kind
        then record error { retry_after = response.retry_after }
        else error)
    else ok response

-- The longest pause of `_sleep_backoff` at an attempt, its random part included.
pub backoff_delay : ℕ → ℕ
backoff_delay attempt = min backoff_cap (backoff_base * 2 ^ (attempt - 1)) + backoff_base

-- `_sleep_for_retry_after`: the pause made, or `none` where it answers False.
pub sleep_for_retry_after : Response → ℕ → Option Event
sleep_for_retry_after response attempt = elim response.retry_after [
  | none ↦ some (backoff attempt)
  | some seconds ↦ if ltb retry_after_max_sleep seconds then none else some (waited seconds)
]

-- How one round of the loop in `_request` ends: it returns or raises, or pauses and goes on.
pub data Verdict : Type 0 where
  finish : Result Response → Verdict
  again : Event → Verdict

uncertain_error : String → Option ℕ → WallbitError
uncertain_error message status = record {
  kind = uncertain;
  message = message;
  status = status;
  retry_after = none;
}

plain_error : String → WallbitError
plain_error message = record { kind = plain; message = message; status = none; retry_after = none }

method_name : Method → String
method_name get = "GET"
method_name head = "HEAD"
method_name options = "OPTIONS"
method_name post = "POST"
method_name patch = "PATCH"
method_name delete = "DELETE"

no_answer : Request → String → String
unfolding method_name
no_answer request class_name =
    (String.◌++◌ (method_name request.method) (
      String.◌++◌ " " (
        String.◌++◌ request.path (
          String.◌++◌ ": Wallbit no respondió ("
            (String.◌++◌ class_name "); la operación pudo haberse ejecutado")))))

transport_message : ℕ → String → String
transport_message attempt message =
    String.◌++◌ "Transport error after "
      (String.◌++◌ (show_ℕ attempt) (String.◌++◌ " attempts: " message))

-- The part of a round below the 429 test.
judge_status : Request → Bool → ℕ → Response → Verdict
unfolding idempotent build_response uncertain_error status_message
judge_status request last attempt response =
    if leb 500 response.status && ltb response.status 600
    then (if not (idempotent request.method)
        then finish (
            raised (
              uncertain_error (status_message response.status response.payload)
                (some response.status)))
        else if not last
        then again (backoff attempt)
        else finish (build_response response))
    else finish (build_response response)

pub judge : WallbitClient → Request → Bool → ℕ → Outcome → Verdict
unfolding idempotent judge_status sleep_for_retry_after uncertain_error plain_error no_answer
    transport_message
judge client request last attempt (transport_error class_name message) =
    if not (idempotent request.method)
    then finish (raised (uncertain_error (no_answer request class_name) none))
    else if last
    then finish (raised (plain_error (transport_message attempt message)))
    else again (backoff attempt)
judge client request last attempt (answered response) =
    if response.status == 429 && client.retry_rate_limited && not last
    then elim (sleep_for_retry_after response attempt) [
      | some pause ↦ again pause
      | none ↦ judge_status request last attempt response
    ]
    else judge_status request last attempt response

-- The request of every attempt of `_request`.
unfoldable pub request_for : Method → String → Body → Request
unfolding idempotent
request_for method path body = record {
  method = method;
  path = path;
  url = (if starts_with path api_prefix then path else String.◌++◌ api_prefix path);
  body = body;
  long_timeout = not (idempotent method);
}

module _ (answer : Log → Request → Outcome) where
  -- `for attempt in range(1, max_attempts + 1)`, by the rounds left
  unfoldable pub request_from : WallbitClient → Request → ℕ → ℕ → Log → Result Response × Log
  unfolding judge plain_error
  request_from client request zero attempt log =
      (raised (plain_error "Unreachable retry path"), log)
  request_from client request (suc rest) attempt log =
      elim (judge client request (rest == 0) attempt (answer log request)) [
        | finish result ↦ (result, sent request ∷ log)
        | again pause ↦ request_from client request rest (attempt + 1) (pause ∷ sent request ∷ log)
      ]

  -- `_request`
  unfoldable pub send : WallbitClient → Method → String → Body → Log → Result Response × Log
  unfolding request_from
  send client method path body log =
      request_from client (request_for method path body)
        (if idempotent method then client.max_attempts else 1) 1 log
