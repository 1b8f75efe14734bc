-- ===== src/Wallbit/Executors/Writes.antt =====
-- Executing a decision sends at most one write to the broker (wallbit/executors.py).
use tresqu_api.Common.{
  ℕ, ◌≡◌, refl, inl, inr, true, false, List, [], ◌∷◌, String, arith, Bool-cases,
}
use tresqu_api.Wallbit.Messages.{Method, post, patch, Body, Response, Result, ok, raised, sent, Log}
use tresqu_api.Wallbit.Client.{WallbitClient, new_client, default_attempts, idempotent, request_for}
use tresqu_api.Wallbit.Client.Attempts.{send_write_once}
use tresqu_api.Wallbit.Models.{
  Env, Decrypted, key, undecryptable, World, WallbitAccount, AgentDecision, Action, ChestArgs, Call,
  place_trade, move_funds, deposit_chest, withdraw_chest, set_card_status, resume, other_tool,
  deposit, withdraw,
}
use tresqu_api.Wallbit.Decisions.Counting.{
  Steps, Steps-refl, Steps-trans, Steps-weaken, Steps-same, mark_executed-Steps, mark_failed-Steps,
  mark_uncertain-Steps,
}
use tresqu_api.Wallbit.Bodies.{
  Try, value, threw, Exception, api, crash, trade_body, extract_tx_uuid,
}
use tresqu_api.Wallbit.Executors.{
  lift, with_client, with_key, call_wallbit, settle, link_of, violates, record_chest,
  record_settled, settle_chest, place_order, settle_card, clear_pause, execute_place_trade,
  execute_move_funds, execute_deposit_chest, execute_withdraw_chest, execute_set_card_status,
  execute_resume_bot, run_tool, handle_exception, conclude, dispatch_sync, attempt_tool,
  execute_first, execute_decision, is_local_only, is_uncertain_kind,
}

lift-state : (p : Result Response × Log) (w : World) → (lift p w).1 ≡ record w { log = p.1 }
unfolding lift
lift-state (ok response, log) w = refl
lift-state (raised e, log) w = refl

sent_once :
    (w : World) (log : Log) (method : Method) (path : String) (body : Body)
    → idempotent method ≡ false
    → log ≡ sent (request_for method path body) ∷ w.log
    → Steps 1 w (record w { log = log })
unfolding request_for
sent_once w log method path body h e = record {
  writes = rw (e, h) (omega arith);
  claims = omega arith;
  spent = λ id s. s;
  fresh = λ f. f;
}

module _ (env : Env) where
  with_client-Steps :
      (made : Result WallbitClient) (method : Method) (path : String) (body : Body) (w : World)
      → idempotent method ≡ false
      → Steps 1 w (with_client env made method path body w).1
  unfolding with_client
  with_client-Steps (raised e) method path body w h = Steps-weaken (Steps-refl w)
  with_client-Steps (ok client) method path body w h = rw lift-state (
      sent_once w _ method path body h (send_write_once env.answer client method path body w.log h))

  with_key-Steps :
      (k : Decrypted) (method : Method) (path : String) (body : Body) (w : World)
      → idempotent method ≡ false
      → Steps 1 w (with_key env k method path body w).1
  unfolding with_key
  with_key-Steps (undecryptable message) method path body w h = Steps-weaken (Steps-refl w)
  with_key-Steps (key api_key) method path body w h =
      with_client-Steps (new_client api_key default_attempts true) method path body w h

  call_wallbit-Steps :
      (account : WallbitAccount) (method : Method) (path : String) (body : Body) (w : World)
      → idempotent method ≡ false
      → Steps 1 w (call_wallbit env account method path body w).1
  unfolding call_wallbit
  call_wallbit-Steps account method path body w h =
      with_key-Steps (env.decrypt account.encrypted_api_key) method path body w h

  settle-Steps :
      (id : ℕ) (d : AgentDecision) (called : Try Response × World)
      → Steps 0 called.1 (settle env id d called).1
  unfolding settle
  settle-Steps id d (threw e, w) = Steps-refl w
  settle-Steps id d (value response, w) =
      mark_executed-Steps id d w (extract_tx_uuid env.repr response.payload)

  record_chest-Steps :
      (d : AgentDecision) (action : Action) (args : ChestArgs) (uuid : String) (w : World)
      → Steps 0 w (record_chest env d action args uuid w).1
  unfolding record_chest
  record_chest-Steps d action args uuid w =
      elim (Bool-cases (violates env (link_of env uuid w) w)) [
        | inl t ↦ rw t (Steps-refl w)
        | inr f ↦ rw f (Steps-same w _ refl refl refl)
      ]

  settle_chest-Steps :
      (id : ℕ) (d : AgentDecision) (action : Action) (args : ChestArgs)
      (called : Try Response × World)
      → Steps 0 called.1 (settle_chest env id d action args called).1
  unfolding settle_chest settle record_settled
  settle_chest-Steps id d action args (threw e, w) = Steps-refl w
  settle_chest-Steps id d action args (value response, w) =
      let uuid = extract_tx_uuid env.repr response.payload in
      Steps-trans 0 0 (mark_executed-Steps id d w uuid) (record_chest-Steps d action args uuid _)

  module _ (id : ℕ) (d : AgentDecision) (account : WallbitAccount) (w : World) where
    settle_post :
        (method : Method) (path : String) (body : Body)
        → idempotent method ≡ false
        → Steps 1 w (settle env id d (call_wallbit env account method path body w)).1
    settle_post method path body h =
        Steps-trans 1 0 (call_wallbit-Steps account method path body w h)
          (settle-Steps id d (call_wallbit env account method path body w))

    settle_chest_post :
        (action : Action) (args : ChestArgs) (method : Method) (path : String) (body : Body)
        → idempotent method ≡ false
        → Steps 1 w
            (settle_chest env id d action args (call_wallbit env account method path body w)).1
    settle_chest_post action args method path body h =
        Steps-trans 1 0 (call_wallbit-Steps account method path body w h)
          (settle_chest-Steps id d action args (call_wallbit env account method path body w))

    place_order-Steps : (built : Try Body) → Steps 1 w (place_order env id d account w built).1
    unfolding place_order idempotent
    place_order-Steps (threw e) = Steps-weaken (Steps-refl w)
    place_order-Steps (value body) = settle_post post "/trades" body refl

    resume-Steps : Steps 0 w (execute_resume_bot env id d w).1
    unfolding execute_resume_bot clear_pause
    resume-Steps =
        Steps-trans 0 0 (Steps-same w (clear_pause env d.user w) refl refl refl)
          (mark_executed-Steps id d (clear_pause env d.user w) "")

    settle_card-Steps :
        (called : Try Response × World) → Steps 0 called.1 (settle_card env id d called).1
    unfolding settle_card
    settle_card-Steps (threw e, u) = Steps-refl u
    settle_card-Steps (value response, u) = mark_executed-Steps id d u ""

    run_tool-Steps : (call : Call) → Steps 1 w (run_tool env id d account call w).1
    unfolding run_tool execute_place_trade execute_move_funds execute_deposit_chest
        execute_withdraw_chest execute_set_card_status idempotent
    run_tool-Steps (place_trade args) = place_order-Steps (trade_body env.show_usd args)
    run_tool-Steps (move_funds args) = settle_post post _ _ refl
    run_tool-Steps (deposit_chest args) = settle_chest_post deposit args post _ _ refl
    run_tool-Steps (withdraw_chest args) = settle_chest_post withdraw args post _ _ refl
    run_tool-Steps (set_card_status card_uuid new_status) =
        Steps-trans 1 0 (call_wallbit-Steps account patch _ _ w refl) (settle_card-Steps _)
    run_tool-Steps resume = Steps-weaken resume-Steps
    run_tool-Steps (other_tool name) = Steps-weaken (Steps-refl w)

module _ (id : ℕ) (d : AgentDecision) where
  handle_exception-Steps : (e : Exception) (w : World) → Steps 0 w (handle_exception id d e w).1
  unfolding handle_exception
  handle_exception-Steps (crash message) w = mark_failed-Steps id d w message
  handle_exception-Steps (api e) w = elim (Bool-cases (is_uncertain_kind e.kind)) [
    | inl u ↦
        rw u
          (Steps-trans 0 0 (mark_uncertain-Steps id d w e.message) (Steps-same _ _ refl refl refl))
    | inr c ↦ rw c (mark_failed-Steps id d w e.message)
  ]

  conclude-Steps : (r : Try String × World) → Steps 0 r.1 (conclude id d r).1
  unfolding conclude
  conclude-Steps (value uuid, w) = Steps-refl w
  conclude-Steps (threw e, w) = handle_exception-Steps e w

dispatch_sync-Steps :
    (call : Call) (account : WallbitAccount) (w : World) → Steps 0 w (dispatch_sync call account w)
unfolding dispatch_sync
dispatch_sync-Steps call account w = elim (Bool-cases (is_local_only call)) [
  | inl l ↦ rw l (Steps-refl w)
  | inr r ↦ rw r (Steps-same w _ refl refl refl)
]

module _ (env : Env) (id : ℕ) (d : AgentDecision) (account : WallbitAccount) (w : World) where
  attempt_tool-Steps : (call : Call) → Steps 1 w (attempt_tool env id d account call w).1
  unfolding attempt_tool
  attempt_tool-Steps call = Steps-trans 1 0 (run_tool-Steps env id d account w call) (
      Steps-trans 0 0 (conclude-Steps id d (run_tool env id d account call w))
        (dispatch_sync-Steps call account _))

  execute_first-Steps : (calls : List Call) → Steps 1 w (execute_first env id d account calls w).1
  unfolding execute_first
  execute_first-Steps [] = Steps-weaken (Steps-refl w)
  execute_first-Steps (other_tool name ∷ calls) = Steps-weaken (Steps-refl w)
  execute_first-Steps (place_trade args ∷ calls) = attempt_tool-Steps (place_trade args)
  execute_first-Steps (move_funds args ∷ calls) = attempt_tool-Steps (move_funds args)
  execute_first-Steps (deposit_chest args ∷ calls) = attempt_tool-Steps (deposit_chest args)
  execute_first-Steps (withdraw_chest args ∷ calls) = attempt_tool-Steps (withdraw_chest args)
  execute_first-Steps (set_card_status c n ∷ calls) = attempt_tool-Steps (set_card_status c n)
  execute_first-Steps (resume ∷ calls) = attempt_tool-Steps resume

  -- Executing a decision sends at most one write, and makes no decision claimable again.
  pub execute_decision-Steps : Steps 1 w (execute_decision env id d account w).1
  unfolding execute_decision
  execute_decision-Steps = execute_first-Steps d.tools_called
