-- ===== src/Wallbit/Client/Attempts.antt =====
-- How often a request goes out, and what its errors mean (wallbit/client.py, `_request`).
use tresqu_api.Common.{
  ℕ, ◌≡◌, ◌≢◌, refl, ◌↔◌, inl, inr, Bool, true, false, not, ◌&&◌, none, some, ◌∷◌, String, arith,
  Bool-cases, if◌then◌else◌, ltb, leb, count_if,
}
use tresqu_api.Wallbit.Messages.{
  Method, Body, Request, Response, Outcome, transport_error, answered, Event, sent, Log, uncertain,
  Result, ok, raised,
}
use tresqu_api.Wallbit.Client.{
  idempotent, WallbitClient, build_response, finish, judge, judge_status, request_for, request_from,
  send, error_for_status, is_rate_limit, kind_for_status, uncertain_error, plain_error, no_answer,
  status_message, transport_message,
}

-- The broker gave no usable answer: a transport error, or a 5xx.
abbrev pub is_unanswered : Outcome → Bool
is_unanswered (transport_error class_name message) = true
is_unanswered (answered response) = leb 500 response.status && ltb response.status 600

abbrev pub IsUncertain : {A : Type 0} → Result A → Type 0
IsUncertain (ok a) = ⊥
IsUncertain (raised e) = e.kind ≡ uncertain

abbrev pub is_sent : Event → Bool
is_sent (sent request) = true
is_sent _ = false

abbrev pub sent_count : Log → ℕ
sent_count = count_if is_sent

kind_for_status_certain : (status : ℕ) → kind_for_status status ≢ uncertain
unfolding kind_for_status
kind_for_status_certain status h = ground arith

pub build_response_certain : (r : Response) → ¬ IsUncertain (build_response r)
unfolding build_response error_for_status is_rate_limit
build_response_certain r h = elim (Bool-cases (leb 400 r.status)) [
  | inl bad ↦ ground (arith, kind_for_status_certain r.status)
  | inr fine ↦ ground arith
]

-- What a request that is in no way resent reports.
pub final_result : Request → ℕ → Outcome → Result Response
final_result request attempt (transport_error class_name message) =
    if not (idempotent request.method)
    then raised (uncertain_error (no_answer request class_name) none)
    else raised (plain_error (transport_message attempt message))
final_result request attempt (answered response) =
    if is_unanswered (answered response) && not (idempotent request.method)
    then raised
        (uncertain_error (status_message response.status response.payload) (some response.status))
    else build_response response

-- The last round of the loop always ends it.
pub judge_last :
    (client : WallbitClient) (request : Request) (attempt : ℕ) (o : Outcome)
    → judge client request true attempt o ≡ finish (final_result request attempt o)
unfolding judge judge_status final_result
judge_last client request attempt (transport_error class_name message) = ground arith
judge_last client request attempt (answered response) = ground arith

-- A write that got no answer, and nothing else, is reported as uncertain.
final_result-IsUncertain :
    (request : Request) (attempt : ℕ) (o : Outcome)
    → idempotent request.method ≡ false
    → IsUncertain (final_result request attempt o) ↔ (is_unanswered o ≡ true)
unfolding final_result uncertain_error
final_result-IsUncertain request attempt (transport_error class_name message) h =
    rw h ((λ u. refl), (λ u. refl))
final_result-IsUncertain request attempt (answered response) h =
    elim (Bool-cases (is_unanswered (answered response))) [
      | inl e ↦ rw (h, e) ((λ u. refl), (λ u. refl))
      | inr e ↦ rw (h, e) ((λ u. absurd (build_response_certain response u)), (λ u. cc))
    ]

module _ (answer : Log → Request → Outcome) (client : WallbitClient) (method : Method)
    (path : String) (body : Body) (log : Log) where
  pub request_from_last :
      (request : Request) (attempt : ℕ)
      → request_from answer client request 1 attempt log
        ≡ (final_result request attempt (answer log request), sent request ∷ log)
  unfolding request_from
  request_from_last request attempt =
      rw (judge_last client request attempt (answer log request), request_from)

  send_write :
      idempotent method ≡ false
      → send answer client method path body log ≡ (
        final_result (request_for method path body) 1 (answer log (request_for method path body)),
        sent (request_for method path body) ∷ log,
      )
  unfolding send
  send_write h = rw (h, request_from_last (request_for method path body) 1)

  -- A write goes out exactly once, whatever comes back.
  pub send_write_once :
      idempotent method ≡ false
      → (send answer client method path body log).1 ≡ sent (request_for method path body) ∷ log
  send_write_once h = rw (send_write h)

  -- A write is reported as uncertain exactly when the broker gave no usable answer to it.
  pub send_write-IsUncertain :
      idempotent method ≡ false
      → IsUncertain (send answer client method path body log).0
        ↔ (is_unanswered (answer log (request_for method path body)) ≡ true)
  unfolding request_for
  send_write-IsUncertain h = rw (send_write h) (
      final_result-IsUncertain (request_for method path body) 1
        (answer log (request_for method path body)) h)
