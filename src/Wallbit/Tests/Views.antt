-- ===== src/Wallbit/Tests/Views.antt =====
-- The endpoints on small inputs, and their theorems at such inputs.
use tresqu_api.Common.{◌≡◌, refl, false, none, some, some_inj, subst, arith, strip}
use tresqu_api.Common.Int.{pos}
use tresqu_api.Common.Dict.{lookup, insert, modify}
use tresqu_api.Wallbit.Client.{request_for}
use tresqu_api.Wallbit.Models.{World, AgentDecision}
use tresqu_api.Wallbit.Decisions.{get_pending_decision}
use tresqu_api.Wallbit.Executors.{is_local_only}
use tresqu_api.Wallbit.Confirm.{execute_confirmed_decision, first_is_local}
use tresqu_api.Wallbit.Views.{Caches, connect, disconnect, pause_agent}
use tresqu_api.Wallbit.Views.Decisions.{agent_confirm}
use tresqu_api.Wallbit.Views.Confirming.{Agrees, agent_confirm-Agrees}
use tresqu_api.Wallbit.Views.Pausing.{disconnect_closes, pause_closes}
use tresqu_api.Wallbit.Tests.{account, broker, proposal, start}

abbrev no_caches : Caches
no_caches account_id = record { live = none; lastgood = none; lock = none; cooldown = none }

-- A key of four characters is refused before the broker is asked.
short_key : (connect broker (λ s. s) 9 2 " abcd " start no_caches).0.http_status ≡ 400
unfolding connect strip
short_key = refl

accepted_key : (connect broker (λ s. s) 9 2 "abcdefghijkl" start no_caches).0.http_status ≡ 200
unfolding connect strip lookup insert request_for
accepted_key = refl

row : lookup 1 start.accounts ≡ some account
unfolding lookup
row = refl

agent_confirm-Agrees_example :
    Agrees (agent_confirm broker 1 7 start) (execute_confirmed_decision broker 1 7 start)
agent_confirm-Agrees_example = agent_confirm-Agrees broker 1 7 start

abbrev an_hour_later : World
an_hour_later = record (pause_agent 1 (some (pos 24)) start).1 { now = 4700 }

-- The proposal is a move of funds.
remote :
    (d : AgentDecision)
    → get_pending_decision 1 7 an_hour_later ≡ some d
    → first_is_local d.tools_called ≡ false
unfolding pause_agent lookup modify insert get_pending_decision first_is_local is_local_only
remote d e =
    let same : proposal ≡ d = some_inj e in
    subst (λ (row : AgentDecision). first_is_local row.tools_called ≡ false) same refl

pause_closes_example : (agent_confirm broker 1 7 an_hour_later).1.log ≡ start.log
pause_closes_example = pause_closes 1 start account row broker 7 24 4700 refl (omega arith) remote

disconnect_closes_example :
    (agent_confirm broker 1 7 (record (disconnect 1 start).1 { now = 4700 })).1.log ≡ start.log
disconnect_closes_example = disconnect_closes 1 start account row broker 7 4700
