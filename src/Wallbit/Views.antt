-- ===== src/Wallbit/Views.antt =====
-- wallbit/views.py, lines 52 to 372: the endpoints that change the state of the `wallbit` app. A view
-- takes the user of the request. The app's cache of snapshots is a function of the account's id.
-- Serializers answer with the row itself.
pub mod Decisions
pub mod Confirming
pub mod Closed
pub mod Pausing
use Prim.Native.String
use tresqu_api.Common.{
  ℕ, suc, ◌+◌, ◌*◌, max, Bool, true, false, not, ◌&&◌, ◌||◌, Option, none, some, List, [], ◌∷◌,
  String, ltb, leb, ◌==◌, str_eq, if◌then◌else◌, strip,
}
use tresqu_api.Common.Int.{ℤ, pos, pos_part, leb_ℤ, ltb_ℤ}
use tresqu_api.Common.Dict.{Dict, lookup, insert, modify}
use tresqu_api.Common.Json.{Json}
use tresqu_api.Wallbit.Messages.{
  get, empty, ErrorKind, auth, permission, Log, Response, WallbitError, Result, ok, raised,
}
use tresqu_api.Wallbit.Client.{new_client, default_attempts, send}
use tresqu_api.Wallbit.Models.{
  Env, World, WallbitAccount, AccountStatus, connected, revoked, error, AgentDecision, AgentLimits,
  Task, sync_account,
}
use tresqu_api.Wallbit.Limits.{
  AccountResult, found, not_connected, get_account, kill_switch_on, limits_for,
}
use tresqu_api.Wallbit.Decisions.{claim_pending_decision, get_pending_decision, mark_failed}
use tresqu_api.Wallbit.Executors.{
  Execution, succeeded, unanswered, rejected, unknown_tool, execute_decision,
}
use tresqu_api.Wallbit.Confirm.{cancel_pending_decision, first_is_local}
use tresqu_api.Wallbit.Sync.{SyncResult, synced, run_wallbit_sync}
use tresqu_api.Wallbit.Snapshot.{SnapshotCache, invalidate_snapshot}

-- What the body of a response shows.
pub data ResponseBody : Type 0 where
  detail : String → ResponseBody
  disconnected : ResponseBody
  account_row : WallbitAccount → ResponseBody
  decision_result : Execution → Option AgentDecision → ResponseBody
  decision_cancelled : ResponseBody
  limits_row : AgentLimits → ResponseBody
  sync_result : SyncResult → ResponseBody
  queued : ResponseBody

pub record HttpResponse : Type 0 where
  pub http_status : ℕ
  pub payload : ResponseBody

abbrev pub respond : ℕ → ResponseBody → HttpResponse
respond http_status payload = record { http_status = http_status; payload = payload }

-- `WallbitAccount.objects.filter(user=user).first()` and `account.save(update_fields=[...])`
unfoldable pub save_row : ℕ → (WallbitAccount → WallbitAccount) → World → World
save_row user f w = record w { accounts = modify user f w.accounts }

text_length : String → ℕ
text_length String.[] = 0
text_length (String.◌∷◌ c s) = suc (text_length s)

-- The validation of `WallbitConnectSerializer`, for a key that is given.
unfoldable pub is_valid_key : String → Bool
unfolding text_length
is_valid_key api_key = leb 10 (text_length api_key) && leb (text_length api_key) 512

-- The response to a `WallbitError` of the check.
unfoldable pub connect_error : WallbitError → ErrorKind → HttpResponse
connect_error e auth = respond 401 (detail "API key inválida o sin permisos.")
connect_error e permission =
    respond 403 (detail "La API key no tiene permisos suficientes (scope o IP whitelist).")
connect_error e _ = respond 400 (detail (String.◌++◌ "No se pudo validar la API key: " e.message))

abbrev pub Caches : Type 0
Caches = ℕ → SnapshotCache

unfoldable pub invalidate_in : ℕ → Caches → Caches
unfolding invalidate_snapshot
invalidate_in account_id caches id =
    if id == account_id then invalidate_snapshot (caches id) else caches id

-- `encrypt` is `encrypt_api_key`, and `new_id` the id that the database gives a new row.
module _ (env : Env) (encrypt : String → String) (new_id : ℕ) where
  -- The row that `update_or_create` writes.
  unfoldable pub connected_row : String → Option WallbitAccount → WallbitAccount
  connected_row api_key none = record {
    id = new_id;
    encrypted_api_key = encrypt api_key;
    status = connected;
    last_sync_at = none;
    kill_switch_until = none;
    last_error = "";
  }
  connected_row api_key (some row) = record row {
    encrypted_api_key = encrypt api_key;
    status = connected;
    kill_switch_until = none;
    last_error = "";
  }

  store_account : ℕ → WallbitAccount → World → Caches → HttpResponse × World × Caches
  unfolding invalidate_in
  store_account user row w caches = (
    respond 200 (account_row row),
    record w { accounts = insert user row w.accounts },
    invalidate_in row.id caches,
  )

  -- What follows the read of `/balance/checking`.
  checked_key : ℕ → String → World → Caches → Result Response × Log → HttpResponse × World × Caches
  unfolding connected_row store_account connect_error
  checked_key user api_key w caches (ok response, log) =
      store_account user (connected_row api_key (lookup user w.accounts)) (record w { log = log })
        caches
  checked_key user api_key w caches (raised e, log) =
      (connect_error e e.kind, record w { log = log }, caches)

  -- `with WallbitClient(api_key) as client: client.get("/balance/checking")`
  check_key : String → Log → Result Response × Log
  unfolding new_client send
  check_key api_key log = elim (new_client api_key default_attempts true) [
    | ok client ↦ send env.answer client get "/balance/checking" empty log
    | raised e ↦ (raised e, log)
  ]

  -- `WallbitConnectView.post`
  unfoldable pub connect : ℕ → String → World → Caches → HttpResponse × World × Caches
  unfolding checked_key check_key is_valid_key
  connect user api_key w caches =
      if is_valid_key (strip api_key)
      then checked_key user (strip api_key) w caches (check_key (strip api_key) w.log)
      else (respond 400 (detail "api_key"), w, caches)

-- `WallbitStatusView.get`
unfoldable pub account_status : ℕ → World → HttpResponse
account_status user w = elim (lookup user w.accounts) [
  | none ↦ respond 200 disconnected
  | some account ↦ respond 200 (account_row account)
]

-- The days of 24 hours that the views add.
abbrev pub hours_seconds : ℕ → ℕ
hours_seconds hours = hours * 3600

unfoldable pub revoked_row : ℕ → WallbitAccount → WallbitAccount
revoked_row now account = record account {
  status = revoked;
  kill_switch_until = some (now + hours_seconds (365 * 24));
}

-- `WallbitDisconnectView.post`
unfoldable pub disconnect : ℕ → World → HttpResponse × World
unfolding revoked_row save_row
disconnect user w = elim (lookup user w.accounts) [
  | none ↦ (respond 200 disconnected, w)
  | some account ↦
      (respond 200 (account_row (revoked_row w.now account)), save_row user (revoked_row w.now) w)
]

abbrev pub pause_hours_limit : ℕ
pause_hours_limit = 720

unfoldable pub keeps_longer : Option ℕ → ℕ → Bool
keeps_longer none new_until = false
keeps_longer (some until) new_until = ltb new_until until

unfoldable pub paused_row : ℕ → WallbitAccount → WallbitAccount
paused_row new_until account = record account { kill_switch_until = some new_until }

pub pause_account : ℕ → WallbitAccount → ℕ → World → HttpResponse × World
unfolding keeps_longer paused_row save_row
pause_account user account new_until w =
    if keeps_longer account.kill_switch_until new_until
    then (respond 200 (account_row account), w)
    else (
      respond 200 (account_row (paused_row new_until account)),
      save_row user (paused_row new_until) w,
    )

pub pause_for : ℕ → WallbitAccount → World → Option ℤ → HttpResponse × World
unfolding pause_account
pause_for user account w none = (respond 400 (detail "duration_hours must be an integer."), w)
pause_for user account w (some hours) =
    if leb_ℤ hours (pos 0) || ltb_ℤ (pos pause_hours_limit) hours
    then (respond 400 (detail "duration_hours must be between 1 and 720."), w)
    else pause_account user account (w.now + hours_seconds (pos_part hours)) w

-- `WallbitPauseView.post`; `hours` is `int(...)` of the request's value, 24 where it has none, and
-- `none` where that raises.
unfoldable pub pause_agent : ℕ → Option ℤ → World → HttpResponse × World
unfolding pause_for
pause_agent user hours w = elim (lookup user w.accounts) [
  | none ↦ (respond 404 (detail "No Wallbit account connected."), w)
  | some account ↦ pause_for user account w hours
]
