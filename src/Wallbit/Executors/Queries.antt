-- ===== src/Wallbit/Executors/Queries.antt =====
-- Reads through the broker's API (wallbit/client.py): they change the log of the client alone.
use tresqu_api.Common.{
  arith, ℕ, zero, suc, ◌+◌, ◌≡◌, refl, inl, inr, true, false, String, ◌∷◌, ◌==◌, if◌then◌else◌,
}
use tresqu_api.Wallbit.Messages.{
  Method, Body, Request, Response, Outcome, Event, sent, backoff, waited, Log, Result, ok, raised,
}
use tresqu_api.Wallbit.Client.{
  WallbitClient, new_client, default_attempts, idempotent, request_for, request_from, judge, send,
}
use tresqu_api.Wallbit.Client.Attempts.{is_sent}
use tresqu_api.Wallbit.Client.Reads.{
  judge_pause, Verdict-cases, request_from_finish, request_from_again,
}
use tresqu_api.Wallbit.Models.{Env, Decrypted, key, undecryptable, World, WallbitAccount}
use tresqu_api.Wallbit.Decisions.Counting.{is_write, write_count}
use tresqu_api.Wallbit.Executors.{lift, with_client, with_key, call_wallbit}

pause_no_write : (e : Event) → is_sent e ≡ false → is_write e ≡ false
pause_no_write (sent request) h = cc
pause_no_write (backoff attempt) h = refl
pause_no_write (waited seconds) h = refl

module _ (answer : Log → Request → Outcome) (client : WallbitClient) (request : Request)
    (i : idempotent request.method ≡ true) where
  request_from_no_write :
      (left attempt : ℕ) (log : Log)
      → write_count (request_from answer client request left attempt log).1 ≡ write_count log
  unfolding request_from
  request_from_no_write zero attempt log = refl
  request_from_no_write (suc rest) attempt log =
      elim (Verdict-cases (judge client request (rest == 0) attempt (answer log request))) [
        | inl (r, e) ↦
            rw (request_from_finish answer client request rest attempt log e, i) (omega arith)
        | inr (pause, e) ↦
            let p =
              pause_no_write pause
                (judge_pause client request (rest == 0) attempt (answer log request) pause e) in
            rw (request_from_again answer client request rest attempt log e) (
              rw (request_from_no_write rest (attempt + 1) (pause ∷ sent request ∷ log), p, i)
                (omega arith))
      ]

-- All but the log is as it was, and no write went out.
pub record Asked (w w' : World) : Type 0 where
  pub log : Log
  pub same : w' ≡ record w { log = log }
  pub quiet : write_count log ≡ write_count w.log

Asked-refl : (w : World) → Asked w w
Asked-refl w = record { log = w.log; same = refl; quiet = refl }

lift-Asked :
    (p : Result Response × Log) (w : World)
    → write_count p.1 ≡ write_count w.log
    → Asked w (lift p w).1
unfolding lift
lift-Asked (ok response, log) w h = record { log = log; same = refl; quiet = h }
lift-Asked (raised e, log) w h = record { log = log; same = refl; quiet = h }

module _ (env : Env) (method : Method) (path : String) (body : Body) (w : World)
    (i : idempotent method ≡ true) where
  send_no_write :
      (client : WallbitClient)
      → write_count (send env.answer client method path body w.log).1 ≡ write_count w.log
  unfolding send request_for
  send_no_write client =
      request_from_no_write env.answer client (request_for method path body) i
        (if idempotent method then client.max_attempts else 1) 1 w.log

  with_client-Asked :
      (made : Result WallbitClient) → Asked w (with_client env made method path body w).1
  unfolding with_client
  with_client-Asked (raised e) = Asked-refl w
  with_client-Asked (ok client) = lift-Asked _ w (send_no_write client)

  with_key-Asked : (k : Decrypted) → Asked w (with_key env k method path body w).1
  unfolding with_key
  with_key-Asked (undecryptable message) = Asked-refl w
  with_key-Asked (key api_key) = with_client-Asked (new_client api_key default_attempts true)

  -- A read changes nothing but the log, and it logs no write.
  pub call_wallbit-Asked :
      (account : WallbitAccount) → Asked w (call_wallbit env account method path body w).1
  unfolding call_wallbit
  call_wallbit-Asked account = with_key-Asked (env.decrypt account.encrypted_api_key)
