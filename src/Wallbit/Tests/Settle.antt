-- ===== src/Wallbit/Tests/Settle.antt =====
-- Runs of the sync and the reconciliation, and their theorems at such inputs.
use tresqu_api.Common.{upper, arith, ◌≤◌, ◌≡◌, refl, true, none, some, [], ◌∷◌}
use tresqu_api.Common.Int.{pos}
use tresqu_api.Common.Dict.{insert, lookup, modify}
use tresqu_api.Common.Show.{show_ℕ}
use tresqu_api.Common.Json
use tresqu_api.Wallbit.Models.{
  did_not_execute, World, AgentDecision, WallbitTxMirror, uncertain_status, chest, deposit,
  Investment, ChestArgs, deposit_chest,
}
use tresqu_api.Wallbit.Client.{request_for}
use tresqu_api.Wallbit.Limits.{get_account, usd}
use tresqu_api.Wallbit.Decisions.{get_pending_decision}
use tresqu_api.Wallbit.Confirm.{execute_confirmed_decision, wallbit_rejected}
use tresqu_api.Wallbit.Executors.{call_wallbit}
use tresqu_api.Wallbit.Sync.{Movement, movement, run_wallbit_sync}
use tresqu_api.Wallbit.Sync.Links.{IsLinkedOnce, run_wallbit_sync-IsLinkedOnce}
use tresqu_api.Wallbit.Reconcile.{
  is_card_call, is_uncertain, settled_not_executed, reconcile_uncertain_decision, settled_executed,
  find_transaction, is_match,
}
use tresqu_api.Wallbit.Reconcile.Match.{IsIn, Matched, find_transaction-Matched}
use tresqu_api.Wallbit.Reconcile.Settled.{Settles, reconcile-Settles}
use tresqu_api.Wallbit.Tests.{broker, silent, account, proposal, start}

abbrev lost : AgentDecision
lost = record proposal { status = uncertain_status; confirmed_at = some 1050 }

-- The move went through after all, with a fee of USD 0.05.
abbrev move_tx : WallbitTxMirror
move_tx = record {
  account = 3;
  wallbit_uuid = "tx-9";
  tx_type = "INTERNAL";
  status = "COMPLETED";
  source_currency = "USD";
  dest_currency = "USD";
  source_amount = pos 2005000000;
  dest_amount = pos 2000000000;
  created_at_wallbit = 1049;
  raw = Json.null;
}

abbrev lost_start : World
lost_start = record start { decisions = (7, lost) ∷ []; mirrors = move_tx ∷ [] }

lost_at : lookup 7 lost_start.decisions ≡ some lost
unfolding lookup
lost_at = refl

settled : (reconcile_uncertain_decision silent 0 7 lost_start).0 ≡ settled_executed "tx-9"
unfolding reconcile_uncertain_decision lookup run_wallbit_sync find_transaction call_wallbit
    request_for
settled = refl

reconcile-Settles_example :
    Settles silent 0 7 lost lost_start (reconcile_uncertain_decision silent 0 7 lost_start)
reconcile-Settles_example = reconcile-Settles silent 0 7 lost_start lost lost_at refl

move_found : find_transaction silent 7 lost account lost_start ≡ some move_tx
unfolding find_transaction
move_found = refl

find_transaction-Matched_example :
    Matched silent 7 lost account lost_start move_tx
    × ((other : WallbitTxMirror)
        → IsIn other lost_start.mirrors
        → is_match silent 7 lost account lost_start other ≡ true
        → move_tx.created_at_wallbit ≤ other.created_at_wallbit)
find_transaction-Matched_example =
    find_transaction-Matched silent 7 lost account lost_start move_tx move_found

abbrev chest_tx : WallbitTxMirror
chest_tx = record move_tx { tx_type = "ROBOADVISOR_DEPOSIT" }

abbrev into_chest : Movement
into_chest = record {
  kind = chest;
  action = deposit;
  symbol = "";
  amount_usd = pos 2005000000;
  shares = none;
}

into_chest_moves : movement chest_tx ≡ some into_chest
unfolding movement upper
into_chest_moves = refl

none_linked : IsLinkedOnce start.investments
none_linked uuid = omega arith

run_wallbit_sync-IsLinkedOnce_example : IsLinkedOnce (run_wallbit_sync broker 3 start).1.investments
run_wallbit_sync-IsLinkedOnce_example = run_wallbit_sync-IsLinkedOnce broker 3 start none_linked

account_at : lookup 1 start.accounts ≡ some account
unfolding lookup
account_at = refl

-- The move stands in no mirrored list, and the broker cannot be reached: after the last retry the user
-- is told that it did not run.
abbrev blind : World
blind = record lost_start { mirrors = [] }

told_unverified :
    ((reconcile_uncertain_decision silent 3 7 blind).0 ≡ settled_not_executed)
    × ((reconcile_uncertain_decision silent 3 7 blind).1.notes ≡ did_not_execute 7 ∷ [])
unfolding reconcile_uncertain_decision find_transaction run_wallbit_sync call_wallbit request_for
    modify lookup show_ℕ is_uncertain is_card_call
told_unverified = (refl, refl)

-- A sync between the broker's answer and the record of the investment has linked the transaction
-- already: the operation went through, and the decision fails.
abbrev booked : Investment
booked = record {
  user = 1;
  kind = chest;
  action = deposit;
  symbol = "";
  chest_category = "";
  amount_usd = usd 20;
  shares = none;
  wallbit_tx = some "tx-1";
  executed_at = none;
  created_at = 990;
}

abbrev into_first_chest : ChestArgs
into_first_chest = record {
  robo_advisor_id = 1;
  amount_usd = usd 20;
  counter_account = none;
  chest_category = "";
}

abbrev booked_start : World
booked_start = record start {
  mirrors = record move_tx { wallbit_uuid = "tx-1" } ∷ [];
  investments = booked ∷ [];
  decisions = (7, record proposal { tools_called = deposit_chest into_first_chest ∷ [] }) ∷ [];
}

failed_though_executed :
    (execute_confirmed_decision broker 1 7 booked_start).0 ≡ wallbit_rejected "duplicate key"
unfolding execute_confirmed_decision get_pending_decision get_account lookup insert request_for
    Json.json_get Json.truthy
failed_though_executed = refl
