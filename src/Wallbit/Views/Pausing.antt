-- ===== src/Wallbit/Views/Pausing.antt =====
-- The pause_agent and the disconnection of wallbit/views.py, and what they keep from the broker.
use tresqu_api.Common.{
  ℕ, ◌+◌, max, ◌<◌, ◌≡◌, refl, ◌∙◌, ap, inl, inr, not, ◌&&◌, ◌||◌, Bool, true, false, Option, none,
  some, arith, ltb, Bool-cases, if◌then◌else◌,
}
use tresqu_api.Common.Int.{pos, leb_ℤ, ltb_ℤ}
use tresqu_api.Common.Dict.{lookup, lookup-modify}
use tresqu_api.Wallbit.Limits.{by_status, get_account, kill_switch_on}
use tresqu_api.Wallbit.Models.{
  Env, World, WallbitAccount, AccountStatus, connected, revoked, error, AgentDecision,
}
use tresqu_api.Wallbit.Decisions.{get_pending_decision}
use tresqu_api.Wallbit.Decisions.Lifecycle.{claimed_row}
use tresqu_api.Wallbit.Confirm.{first_is_local}
use tresqu_api.Wallbit.Views.{
  disconnect, hours_seconds, keeps_longer, pause_agent, pause_account, pause_for, pause_hours_limit,
  paused_row, revoked_row, save_row,
}
use tresqu_api.Wallbit.Views.Decisions.{agent_confirm}
use tresqu_api.Wallbit.Views.Closed.{IsClosed, IsClosed→IsShut, agent_confirm_shut}

-- The end of a pause_agent of the account, where there is one.
abbrev pub later_end : Option ℕ → ℕ → ℕ
later_end none until = until
later_end (some old) until = max old until

keeps_longer-later_end :
    (old : Option ℕ) (until : ℕ) → keeps_longer old until ≡ true → old ≡ some (later_end old until)
unfolding keeps_longer
keeps_longer-later_end none until h = cc
keeps_longer-later_end (some old) until h = ground arith

not_keeps_longer-later_end :
    (old : Option ℕ) (until : ℕ) → keeps_longer old until ≡ false → until ≡ later_end old until
unfolding keeps_longer
not_keeps_longer-later_end none until h = refl
not_keeps_longer-later_end (some old) until h = ground arith

is_refused : (hours : ℕ) → Bool
is_refused hours = leb_ℤ (pos hours) (pos 0) || ltb_ℤ (pos pause_hours_limit) (pos hours)

is_refused_lem : (hours : ℕ) → is_refused hours ≡ not (ltb 0 hours && ltb hours 721)
unfolding is_refused
is_refused_lem hours = ground arith

abbrev pub ended : WallbitAccount → ℕ → WallbitAccount
ended account until = record account {
  kill_switch_until = some (later_end account.kill_switch_until until);
}

ended_early : (old : Option ℕ) (until now : ℕ) → now < until → ltb now (later_end old until) ≡ true
ended_early none until now h = ground arith
ended_early (some old) until now h = ground arith

by_status-IsClosed :
    (account : WallbitAccount) (now : ℕ) (status : AccountStatus)
    → kill_switch_on account now ≡ true
    → IsClosed now (by_status account status)
unfolding by_status
by_status-IsClosed account now connected on = on
by_status-IsClosed account now revoked on = tt
by_status-IsClosed account now error on = tt

-- An account whose pause_agent is not over is closed.
IsClosed-until :
    (user : ℕ) (account : WallbitAccount) (u : World) (until : ℕ)
    → lookup user u.accounts ≡ some (ended account until)
    → u.now < until
    → IsClosed u.now (get_account user u)
unfolding get_account kill_switch_on
IsClosed-until user account u until at early =
    rw (at, get_account)
      (by_status-IsClosed (ended account until) u.now account.status
        (ended_early account.kill_switch_until until u.now early))

module _ (user : ℕ) (w : World) (account : WallbitAccount)
    (row : lookup user w.accounts ≡ some account) where
  pause_account_lem :
      (until : ℕ)
      → ((pause_account user account until w).0.http_status ≡ 200)
        × (lookup user (pause_account user account until w).1.accounts ≡ some (ended account until))
  unfolding pause_account keeps_longer paused_row save_row
  pause_account_lem until = elim (Bool-cases (keeps_longer account.kill_switch_until until)) [
    | inl keeps ↦ rw keeps (
      refl,
      row
          ∙ ap (λ k. some (record account { kill_switch_until = k }))
              (keeps_longer-later_end account.kill_switch_until until keeps),
    )
    | inr new ↦ rw new (
      refl,
      lookup-modify user (paused_row until) account w.accounts row
          ∙ ap (λ (k : ℕ). some (record account { kill_switch_until = some k }))
              (not_keeps_longer-later_end account.kill_switch_until until new),
    )
  ]

  -- A pause_agent of 1 to 720 hours is accepted, and ends that many hours from now, or when the pause_agent in
  -- force ends if that is later; nothing else of the account changes. Any other number of hours is
  -- refused and changes nothing.
  pub pause_lem :
      (hours : ℕ)
      → (if ltb 0 hours && ltb hours 721
          then ((pause_agent user (some (pos hours)) w).0.http_status ≡ 200)
            × (lookup user (pause_agent user (some (pos hours)) w).1.accounts
                ≡ some (ended account (w.now + hours_seconds hours)))
          else ((pause_agent user (some (pos hours)) w).0.http_status ≡ 400)
            × ((pause_agent user (some (pos hours)) w).1 ≡ w))
  unfolding pause_agent pause_for is_refused
  pause_lem hours = elim (Bool-cases (ltb 0 hours && ltb hours 721)) [
    | inl fits ↦
        rw (row, pause_agent, fits, is_refused_lem hours ∙ ap not fits)
          (pause_account_lem (w.now + hours_seconds hours))
    | inr bad ↦ rw (row, pause_agent, bad, is_refused_lem hours ∙ ap not bad) (refl, refl)
  ]

  pause-log : (hours : ℕ) → (pause_agent user (some (pos hours)) w).1.log ≡ w.log
  unfolding pause_agent pause_for pause_account save_row is_refused
  pause-log hours = elim (Bool-cases (is_refused hours)) [
    | inl bad ↦ rw (row, pause_agent, bad) refl
    | inr fits ↦
        elim (Bool-cases (keeps_longer account.kill_switch_until (w.now + hours_seconds hours))) [
          | inl keeps ↦ rw (row, pause_agent, fits, keeps) refl
          | inr new ↦ rw (row, pause_agent, fits, new) refl
        ]
  ]

  -- Through an accepted pause_agent, until its hours are over, a confirmation of a decision that is to be
  -- carried out at the broker sends nothing to it.
  pub pause_closes :
      (env : Env) (id hours later : ℕ)
      → ltb 0 hours && ltb hours 721 ≡ true
      → later < w.now + hours_seconds hours
      → ((d : AgentDecision)
          → get_pending_decision user id
              (record (pause_agent user (some (pos hours)) w).1 { now = later })
            ≡ some d
          → first_is_local d.tools_called ≡ false)
      → (agent_confirm env user id
          (record (pause_agent user (some (pos hours)) w).1 { now = later })).1.log
        ≡ w.log
  pause_closes env id hours later fits early remote =
      let paused = (pause_agent user (some (pos hours)) w).1 in
      let at = (rw fits at (pause_lem hours)).1 in
      let u = record paused { now = later } in
      let closed = IsClosed-until user account u (w.now + hours_seconds hours) at early in
      agent_confirm_shut env user id u (λ d waiting.
        IsClosed→IsShut (claimed_row d u) later (get_account user u) (remote d waiting) closed)
      ∙ pause-log hours

  disconnect_lem : lookup user (disconnect user w).1.accounts ≡ some (revoked_row w.now account)
  unfolding disconnect save_row
  disconnect_lem =
      rw (row, disconnect) (lookup-modify user (revoked_row w.now) account w.accounts row)

  disconnect-log : (disconnect user w).1.log ≡ w.log
  unfolding disconnect save_row
  disconnect-log = rw (row, disconnect) refl

  -- After a disconnection no confirmation sends anything to the broker, at any later time, until the
  -- account is changed again.
  pub disconnect_closes :
      (env : Env) (id later : ℕ)
      → (agent_confirm env user id (record (disconnect user w).1 { now = later })).1.log ≡ w.log
  unfolding get_account by_status revoked_row
  disconnect_closes env id later =
      let u = record (disconnect user w).1 { now = later } in
      agent_confirm_shut env user id u (λ d waiting. rw (disconnect_lem, get_account) tt)
      ∙ disconnect-log
