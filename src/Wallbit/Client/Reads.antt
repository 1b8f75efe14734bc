-- ===== src/Wallbit/Client/Reads.antt =====
-- The retry loop on reads: its bounds and how it ends (wallbit/client.py, `_request`).
use tresqu_api.Common.{
  ℕ, zero, suc, ◌+◌, ◌-◌, max, ◌≤◌, ◌<◌, ◌≡◌, ap, refl, ◌⊎◌, inl, inr, Bool, true, false, some, ◌∷◌,
  String, arith, ◌==◌,
}
use tresqu_api.Wallbit.Messages.{
  Method, empty, get, Body, Request, Response, Outcome, transport_error, answered, Event, sent, Log,
  rate_limit, WallbitError, Result, ok, raised,
}
use tresqu_api.Wallbit.Client.{
  idempotent, WallbitClient, new_client, build_response, Verdict, finish, again, judge,
  judge_status, request_for, request_from, send, sleep_for_retry_after, error_for_status,
  is_rate_limit, kind_for_status, plain_error, retry_after_max_sleep,
}
use tresqu_api.Wallbit.Client.Attempts.{
  IsUncertain, is_sent, sent_count, build_response_certain, request_from_last,
}

-- A pause is no request.
pub judge_pause :
    (client : WallbitClient) (request : Request) (last : Bool) (attempt : ℕ) (o : Outcome)
    (e : Event)
    → judge client request last attempt o ≡ again e
    → is_sent e ≡ false
unfolding judge judge_status sleep_for_retry_after
judge_pause client request last attempt (transport_error class_name message) e h = ground arith
judge_pause client request last attempt (answered response) e h = ground arith

-- What ends a read is not an uncertain error.
judge_read_certain :
    (client : WallbitClient) (request : Request) (last : Bool) (attempt : ℕ) (o : Outcome)
    (result : Result Response)
    → idempotent request.method ≡ true
    → judge client request last attempt o ≡ finish result
    → ¬ IsUncertain result
unfolding judge judge_status sleep_for_retry_after plain_error
judge_read_certain client request last attempt (transport_error class_name message) result i h u =
    ground arith
judge_read_certain client request last attempt (answered response) result i h u =
    ground (arith, build_response_certain response)

judge_blocked :
    (client : WallbitClient) (request : Request) (last : Bool) (attempt : ℕ) (response : Response)
    (seconds : ℕ)
    → response.status ≡ 429
    → response.retry_after ≡ some seconds
    → retry_after_max_sleep < seconds
    → judge client request last attempt (answered response) ≡ finish (build_response response)
unfolding judge judge_status sleep_for_retry_after
judge_blocked client request last attempt response seconds s r h = ground arith

pub Verdict-cases :
    (v : Verdict) → ((r : Result Response) × (v ≡ finish r)) ⊎ ((e : Event) × (v ≡ again e))
Verdict-cases (finish r) = inl (r, refl)
Verdict-cases (again e) = inr (e, refl)

module _ (answer : Log → Request → Outcome) (client : WallbitClient) (request : Request) where
  pub request_from_finish :
      (rest attempt : ℕ) (log : Log) {r : Result Response}
      → judge client request (rest == 0) attempt (answer log request) ≡ finish r
      → request_from answer client request (suc rest) attempt log ≡ (r, sent request ∷ log)
  unfolding request_from
  request_from_finish rest attempt log e = rw (e, request_from)

  pub request_from_again :
      (rest attempt : ℕ) (log : Log) {pause : Event}
      → judge client request (rest == 0) attempt (answer log request) ≡ again pause
      → request_from answer client request (suc rest) attempt log
        ≡ request_from answer client request rest (attempt + 1) (pause ∷ sent request ∷ log)
  unfolding request_from
  request_from_again rest attempt log e = rw (e, request_from)

  request_from_bounds :
      (rest attempt : ℕ) (log : Log)
      → (sent_count log + 1
          ≤ sent_count (request_from answer client request (suc rest) attempt log).1)
        × (sent_count (request_from answer client request (suc rest) attempt log).1
            ≤ sent_count log + suc rest)
  request_from_bounds zero attempt log =
      rw (request_from_last answer client get "" empty log request attempt) (omega arith)
  request_from_bounds (suc rest) attempt log =
      elim (Verdict-cases (judge client request (suc rest == 0) attempt (answer log request))) [
        | inl (r, e) ↦ rw (request_from_finish (suc rest) attempt log e) (omega arith)
        | inr (pause, e) ↦ rw (request_from_again (suc rest) attempt log e) (
            ground (
              arith,
              judge_pause client request (suc rest == 0) attempt (answer log request) pause e,
              request_from_bounds rest (attempt + 1) (pause ∷ sent request ∷ log),
            ))
      ]

  request_from_certain :
      idempotent request.method ≡ true
      → (left attempt : ℕ) (log : Log)
      → ¬ IsUncertain (request_from answer client request left attempt log).0
  unfolding request_from plain_error
  request_from_certain i zero attempt log u = cc
  request_from_certain i (suc rest) attempt log u =
      elim (Verdict-cases (judge client request (rest == 0) attempt (answer log request))) [
        | inl (r, e) ↦
            judge_read_certain client request (rest == 0) attempt (answer log request) r i e
              (rw (e, request_from) at u)
        | inr (pause, e) ↦
            request_from_certain i rest (attempt + 1) (pause ∷ sent request ∷ log)
              (rw (e, request_from) at u)
      ]

  -- A block that asks for a longer wait than the client will sit out ends the loop at once.
  request_from_blocked :
      (rest attempt : ℕ) (log : Log) (response : Response) (seconds : ℕ)
      → answer log request ≡ answered response
      → response.status ≡ 429
      → response.retry_after ≡ some seconds
      → retry_after_max_sleep < seconds
      → request_from answer client request (suc rest) attempt log
        ≡ (build_response response, sent request ∷ log)
  request_from_blocked rest attempt log response seconds a s r h =
      request_from_finish rest attempt log
        (rw a (judge_blocked client request (rest == 0) attempt response seconds s r h))

build_response_blocked :
    (response : Response) (seconds : ℕ)
    → response.status ≡ 429
    → response.retry_after ≡ some seconds
    → (e : WallbitError) × (build_response response ≡ raised e)
      × (e.kind ≡ rate_limit)
      × (e.retry_after ≡ some seconds)
unfolding build_response error_for_status is_rate_limit kind_for_status
build_response_blocked response seconds s r = (
  record (error_for_status response.status response.payload) { retry_after = some seconds },
  ground arith,
  ground arith,
  refl,
)

new_client-attempts :
    (api_key : String) (n : ℕ) (retry : Bool) (client : WallbitClient)
    → new_client api_key n retry ≡ ok client
    → client.max_attempts ≡ max 1 n
unfolding new_client
new_client-attempts api_key n retry client h = ground arith

module _ (answer : Log → Request → Outcome) (client : WallbitClient) (method : Method)
    (path : String) (body : Body) (log : Log) where
  send_read-eq :
      (k : ℕ)
      → idempotent method ≡ true
      → client.max_attempts ≡ suc k
      → send answer client method path body log
        ≡ request_from answer client (request_for method path body) (suc k) 1 log
  unfolding send
  send_read-eq k i m =
      rw i (ap (λ (j : ℕ). request_from answer client (request_for method path body) j 1 log) m)

  -- A read through a client that was made with `max_attempts = n` goes out at least once and at
  -- most `max(1, n)` times, and it never ends in the error that stands for an unknown outcome.
  pub send_read :
      (api_key : String) (n : ℕ) (retry : Bool)
      → new_client api_key n retry ≡ ok client
      → idempotent method ≡ true
      → (sent_count log + 1 ≤ sent_count (send answer client method path body log).1)
        × (sent_count (send answer client method path body log).1 ≤ sent_count log + max 1 n)
        × (¬ IsUncertain (send answer client method path body log).0)
  unfolding request_for
  send_read api_key n retry made i =
      let k = max 1 n - 1 in
      let m = new_client-attempts api_key n retry client made in
      let request = request_for method path body in
      let bounds = request_from_bounds answer client request k 1 log in
      rw (send_read-eq k i (omega arith)) (
        bounds.0,
        omega (arith, bounds.1),
        request_from_certain answer client request i (suc k) 1 log,
      )

  -- A read that the broker answers at once by a 429 with a `Retry-After` above 120 s is not resent:
  -- one request goes out, nothing is slept, and the error is a rate limit that carries the wait.
  pub send_read_blocked :
      (response : Response) (seconds : ℕ)
      → idempotent method ≡ true
      → 0 < client.max_attempts
      → answer log (request_for method path body) ≡ answered response
      → response.status ≡ 429
      → response.retry_after ≡ some seconds
      → retry_after_max_sleep < seconds
      → ((send answer client method path body log).1 ≡ sent (request_for method path body) ∷ log)
        × ((e : WallbitError) × ((send answer client method path body log).0 ≡ raised e)
            × (e.kind ≡ rate_limit)
            × (e.retry_after ≡ some seconds))
  send_read_blocked response seconds i p a s r h =
      let k = client.max_attempts - 1 in
      let request = request_for method path body in
      rw
        (
          send_read-eq k i (omega arith),
          request_from_blocked answer client request k 1 log response seconds a s r h,
        )
        (refl, build_response_blocked response seconds s r)
