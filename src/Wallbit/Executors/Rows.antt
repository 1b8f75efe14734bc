-- ===== src/Wallbit/Executors/Rows.antt =====
-- What executing a decision records in its row (wallbit/executors.py).
use tresqu_api.Common.{
  false, ℕ, ◌≡◌, any, str_eq, refl, ◌⊎◌, inl, inr, true, List, [], ◌∷◌, String, Bool-cases, prefix,
}
use tresqu_api.Common.Dict.{modify}
use tresqu_api.Wallbit.Models.{
  Env, World, WallbitAccount, AgentDecision, Call, place_trade, move_funds, deposit_chest,
  withdraw_chest, set_card_status, resume, other_tool, failed, uncertain_status, Task, sync_account,
  reconcile_decision,
}
use tresqu_api.Wallbit.Decisions.{
  executed_row, closed_row, mark_failed, mark_uncertain, error_limit,
}
use tresqu_api.Wallbit.Bodies.{Try, value, threw, Exception, api, crash}
use tresqu_api.Wallbit.Executors.{
  is_linked_to, run_tool, handle_exception, conclude, dispatch_sync, attempt_tool, execute_first,
  execute_decision, is_local_only, is_uncertain_kind, reconcile_first_delay, Execution, succeeded,
  unanswered, rejected, unknown_tool,
}
use tresqu_api.Wallbit.Executors.Tracking.{Tracked, Untouched, Untouched-refl, run_tool-Tracked}

-- The task stands in the queue.
abbrev pub IsQueued : Task → List Task → Type 0
IsQueued t [] = ⊥
IsQueued t (q ∷ qs) = (q ≡ t) ⊎ IsQueued t qs

-- What `execute_decision` has written, by what it returned.
abbrev pub Recorded : ℕ → AgentDecision → World → Execution × World → Type 0
Recorded id d w (succeeded uuid, w') =
    w'.decisions ≡ modify id (executed_row w.now d uuid) w.decisions
Recorded id d w (unanswered error, w') =
    (w'.decisions
      ≡ modify id (closed_row w.now d uncertain_status (prefix error_limit error)) w.decisions)
    × IsQueued (reconcile_decision id reconcile_first_delay) w'.queue
Recorded id d w (rejected error, w') =
    (w'.decisions ≡ modify id (closed_row w.now d failed (prefix error_limit error)) w.decisions)
    ⊎ ((uuid : String) × (str_eq uuid "" ≡ false)
        × (any (is_linked_to uuid) w.investments ≡ true)
        × (w'.decisions
            ≡ modify id (closed_row w.now d failed (prefix error_limit error))
                (modify id (executed_row w.now d uuid) w.decisions)))
Recorded id d w (unknown_tool message, w') = Untouched w w'

module _ (id : ℕ) (d : AgentDecision) (w : World) where
  handle_exception-Recorded :
      (e : Exception) (u : World)
      → Tracked id d w (threw e, u)
      → Recorded id d w (handle_exception id d e u)
  unfolding handle_exception mark_failed mark_uncertain
  handle_exception-Recorded (crash message) u (inl h) = inl (rw (h.rows, h.clock) refl)
  handle_exception-Recorded (crash message) u (inr (uuid, named, linked, (marked, clock))) =
      inr (uuid, named, linked, rw (marked, clock) refl)
  handle_exception-Recorded (api e) u h = elim (Bool-cases (is_uncertain_kind e.kind)) [
    | inl t ↦ rw t (rw (h.rows, h.clock) (refl, inl refl))
    | inr f ↦ rw f (inl (rw (h.rows, h.clock) refl))
  ]

  conclude-Recorded :
      (r : Try String × World) → Tracked id d w r → Recorded id d w (conclude id d r)
  unfolding conclude
  conclude-Recorded (value uuid, u) h = h.0
  conclude-Recorded (threw e, u) h = handle_exception-Recorded e u h

  queued :
      (account : WallbitAccount) (result : Execution) (u : World)
      → Recorded id d w (result, u)
      → Recorded id d w (result, record u { queue = sync_account account.id ∷ u.queue })
  queued account (succeeded uuid) u h = h
  queued account (unanswered error) u h = (h.0, inr h.1)
  queued account (rejected error) u h = h
  queued account (unknown_tool message) u h = record {
    rows = h.rows;
    clock = h.clock;
    books = h.books;
  }

  dispatch_sync-Recorded :
      (call : Call) (account : WallbitAccount) (r : Execution × World)
      → Recorded id d w r
      → Recorded id d w (r.0, dispatch_sync call account r.1)
  unfolding dispatch_sync
  dispatch_sync-Recorded call account (result, u) h = elim (Bool-cases (is_local_only call)) [
    | inl t ↦ rw t h
    | inr f ↦ rw f (queued account result u h)
  ]

  attempt_tool-Recorded :
      (env : Env) (account : WallbitAccount) (call : Call)
      → Recorded id d w (attempt_tool env id d account call w)
  unfolding attempt_tool
  attempt_tool-Recorded env account call =
      dispatch_sync-Recorded call account (conclude id d (run_tool env id d account call w))
        (conclude-Recorded _ (run_tool-Tracked env id d w account call))

  execute_first-Recorded :
      (env : Env) (account : WallbitAccount) (calls : List Call)
      → Recorded id d w (execute_first env id d account calls w)
  unfolding execute_first
  execute_first-Recorded env account [] = Untouched-refl w
  execute_first-Recorded env account (other_tool name ∷ calls) = Untouched-refl w
  execute_first-Recorded env account (place_trade args ∷ calls) =
      attempt_tool-Recorded env account (place_trade args)
  execute_first-Recorded env account (move_funds args ∷ calls) =
      attempt_tool-Recorded env account (move_funds args)
  execute_first-Recorded env account (deposit_chest args ∷ calls) =
      attempt_tool-Recorded env account (deposit_chest args)
  execute_first-Recorded env account (withdraw_chest args ∷ calls) =
      attempt_tool-Recorded env account (withdraw_chest args)
  execute_first-Recorded env account (set_card_status c n ∷ calls) =
      attempt_tool-Recorded env account (set_card_status c n)
  execute_first-Recorded env account (resume ∷ calls) = attempt_tool-Recorded env account resume

  -- What `execute_decision` returns is what it has recorded in the decision's row.
  pub execute_decision-Recorded :
      (env : Env) (account : WallbitAccount) → Recorded id d w (execute_decision env id d account w)
  unfolding execute_decision
  execute_decision-Recorded env account = execute_first-Recorded env account d.tools_called
