-- ===== src/Wallbit/Views/Decisions.antt =====
-- wallbit/views.py, lines 175 to 372: the endpoints that resume the agent, confirm and cancel a
-- decision, show the limits, and synchronise.
use tresqu_api.Common.{ℕ, Bool, not, ◌&&◌, none, some, ◌∷◌, if◌then◌else◌}
use tresqu_api.Common.Dict.{lookup}
use tresqu_api.Wallbit.Models.{
  Env, World, WallbitAccount, AccountStatus, revoked, AgentDecision, sync_account,
}
use tresqu_api.Wallbit.Limits.{
  AccountResult, found, not_connected, get_account, kill_switch_on, limits_for,
}
use tresqu_api.Wallbit.Decisions.{claim_pending_decision, get_pending_decision, mark_failed}
use tresqu_api.Wallbit.Executors.{
  Execution, succeeded, unanswered, rejected, unknown_tool, execute_decision,
}
use tresqu_api.Wallbit.Confirm.{cancel_pending_decision, first_is_local}
use tresqu_api.Wallbit.Sync.{SyncResult, synced, run_wallbit_sync}
use tresqu_api.Wallbit.Views.{
  HttpResponse, account_row, decision_cancelled, decision_result, detail, limits_row, queued,
  respond, save_row, sync_result,
}

unfoldable pub resumed_row : WallbitAccount → WallbitAccount
resumed_row account = record account { kill_switch_until = none }

resume_by : ℕ → WallbitAccount → World → AccountStatus → HttpResponse × World
unfolding resumed_row save_row
resume_by user account w revoked =
    (respond 400 (detail "Account is revoked — reconnect from the dashboard."), w)
resume_by user account w _ =
    (respond 200 (account_row (resumed_row account)), save_row user resumed_row w)

-- `WallbitResumeView.post`
unfoldable pub resume_agent : ℕ → World → HttpResponse × World
unfolding resume_by
resume_agent user w = elim (lookup user w.accounts) [
  | none ↦ (respond 404 (detail "No Wallbit account connected."), w)
  | some account ↦ resume_by user account w account.status
]

-- The end of `AgentConfirmView.post`, by what `execute_decision` returned or raised.
unfoldable pub respond_executed : ℕ → AgentDecision → Execution × World → HttpResponse × World
unfolding mark_failed
respond_executed id d (succeeded tx_uuid, w) =
    (respond 200 (decision_result (succeeded tx_uuid) (lookup id w.decisions)), w)
respond_executed id d (unanswered message, w) =
    (respond 202 (decision_result (unanswered message) (lookup id w.decisions)), w)
respond_executed id d (rejected message, w) =
    (respond 502 (decision_result (rejected message) (lookup id w.decisions)), w)
respond_executed id d (unknown_tool message, w) =
    (respond 400 (detail message), mark_failed id d message w)

unfoldable pub confirm_on_account :
    Env → ℕ → AgentDecision → WallbitAccount → World → HttpResponse × World
unfolding first_is_local kill_switch_on respond_executed execute_decision mark_failed
confirm_on_account env id d account w =
    let bypass_kill_switch = first_is_local d.tools_called in
    if not bypass_kill_switch && kill_switch_on account w.now
    then (
      respond 403 (detail "Kill switch active — cannot execute."),
      mark_failed id d "kill_switch_active" w,
    )
    else respond_executed id d (execute_decision env id d account w)

unfoldable pub confirm_with : Env → ℕ → AgentDecision → World → AccountResult → HttpResponse × World
unfolding confirm_on_account mark_failed
confirm_with env id d w (not_connected message) =
    (respond 400 (detail message), mark_failed id d message w)
confirm_with env id d w (found account) = confirm_on_account env id d account w

unfoldable pub confirm_with_claimed : Env → ℕ → ℕ → AgentDecision × World → HttpResponse × World
unfolding confirm_with get_account
confirm_with_claimed env user id (d, w) = confirm_with env id d w (get_account user w)

-- `AgentConfirmView.post`
unfoldable pub agent_confirm : Env → ℕ → ℕ → World → HttpResponse × World
unfolding confirm_with_claimed claim_pending_decision
agent_confirm env user id w = elim (claim_pending_decision user id w) [
  | none ↦ (respond 404 (detail "Decision not found, in progress or already resolved."), w)
  | some claimed ↦ confirm_with_claimed env user id claimed
]

-- `AgentCancelView.post`
unfoldable pub agent_cancel : ℕ → ℕ → World → HttpResponse × World
unfolding get_pending_decision cancel_pending_decision
agent_cancel user id w = elim (get_pending_decision user id w) [
  | none ↦ (respond 404 (detail "Decision not found or already resolved."), w)
  | some d ↦ (respond 200 decision_cancelled, (cancel_pending_decision user id w).1)
]

-- `AgentLimitsView.get`
unfoldable pub agent_limits : ℕ → World → HttpResponse × World
unfolding limits_for
agent_limits user w = let (limits, w') = limits_for user w in (respond 200 (limits_row limits), w')

-- The status that tells whether the synchronisation succeeded.
sync_status : SyncResult → ℕ
sync_status synced = 200
sync_status _ = 502

sync_found : Env → Bool → World → AccountResult → HttpResponse × World
unfolding sync_status run_wallbit_sync
sync_found env wants_async w (not_connected message) = (respond 400 (detail message), w)
sync_found env wants_async w (found account) =
    if wants_async
    then (respond 202 queued, record w { queue = sync_account account.id ∷ w.queue })
    else (let (result, w') = run_wallbit_sync env account.id w in
        (respond (sync_status result) (sync_result result), w'))

-- `WallbitSyncView.post`
unfoldable pub sync_now : Env → ℕ → Bool → World → HttpResponse × World
unfolding sync_found get_account
sync_now env user wants_async w = sync_found env wants_async w (get_account user w)
