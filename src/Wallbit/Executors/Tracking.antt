-- ===== src/Wallbit/Executors/Tracking.antt =====
-- What an executor has written to the row of the decision (wallbit/executors.py).
use mathlib.Core.Option
use tresqu_api.Common.{
  false, ℕ, ◌≡◌, sym, ◌∙◌, Option, none, some, some_inj, find?, any, str_eq, str_eq_iff, refl, ◌⊎◌,
  inl, inr, true, List, [], ◌∷◌, String, Bool-cases,
}
use tresqu_api.Common.Dict.{modify}
use tresqu_api.Wallbit.Messages.{
  Method, post, patch, Body, robo_deposit, robo_withdraw, Response, Result, ok, raised, Log,
}
use tresqu_api.Wallbit.Client.{WallbitClient, new_client, default_attempts, send}
use tresqu_api.Wallbit.Models.{
  Env, Decrypted, key, undecryptable, World, WallbitAccount, WallbitTxMirror, AgentDecision, Action,
  ChestArgs, Call, place_trade, move_funds, deposit_chest, withdraw_chest, set_card_status, resume,
  other_tool, deposit, withdraw,
}
use tresqu_api.Wallbit.Decisions.{executed_row, mark_executed}
use tresqu_api.Wallbit.Bodies.{
  Try, value, threw, Exception, api, crash, trade_body, or_default, extract_tx_uuid,
}
use tresqu_api.Wallbit.Executors.{
  lift, with_client, with_key, call_wallbit, settle, is_linked_to, link_of, violates, record_chest,
  record_settled, settle_chest, place_order, settle_card, clear_pause, execute_place_trade,
  execute_move_funds, execute_deposit_chest, execute_withdraw_chest, execute_set_card_status,
  execute_resume_bot, run_tool,
}

-- The decisions, the investments and the clock are as they were.
pub record Untouched (w w' : World) : Type 0 where
  pub rows : w'.decisions ≡ w.decisions
  pub clock : w'.now ≡ w.now
  pub books : w'.investments ≡ w.investments

pub Untouched-refl : (w : World) → Untouched w w
Untouched-refl w = record { rows = refl; clock = refl; books = refl }

-- The row is marked as executed, in the world `w'`.
abbrev pub IsMarked : ℕ → AgentDecision → String → World → World → Type 0
IsMarked id d uuid w w' =
    (w'.decisions ≡ modify id (executed_row w.now d uuid) w.decisions) × (w'.now ≡ w.now)

-- An executor has marked the row as executed, and then met the one-to-one constraint of an investment
-- that has the transaction already.
abbrev pub IsLinkedTwice : ℕ → AgentDecision → World → World → Type 0
IsLinkedTwice id d w w' =
    (uuid : String) × (str_eq uuid "" ≡ false)
    × (any (is_linked_to uuid) w.investments ≡ true)
    × IsMarked id d uuid w w'

-- What an executor has written to the row, by how it ended.
abbrev pub Tracked : ℕ → AgentDecision → World → Try String × World → Type 0
Tracked id d w (threw (api e), w') = Untouched w w'
Tracked id d w (threw (crash message), w') = Untouched w w' ⊎ IsLinkedTwice id d w w'
Tracked id d w (value uuid, w') = IsMarked id d uuid w w'

-- The same before an investment is recorded.
abbrev Settled : ℕ → AgentDecision → World → Try String × World → Type 0
Settled id d w (threw e, w') = Untouched w w'
Settled id d w (value uuid, w') = IsMarked id d uuid w w' × (w'.investments ≡ w.investments)

threw-Tracked :
    (id : ℕ) (d : AgentDecision) (e : Exception) (w u : World)
    → Untouched w u
    → Tracked id d w (threw e, u)
threw-Tracked id d (api e) w u h = h
threw-Tracked id d (crash message) w u h = inl h

Settled-Tracked :
    (id : ℕ) (d : AgentDecision) (w : World) (r : Try String × World)
    → Settled id d w r
    → Tracked id d w r
Settled-Tracked id d w (threw e, u) h = threw-Tracked id d e w u h
Settled-Tracked id d w (value uuid, u) h = h.0

mark_executed-Settled :
    (id : ℕ) (d : AgentDecision) (uuid : String) (w u : World)
    → Untouched w u
    → Settled id d w (value uuid, mark_executed id d uuid u)
unfolding mark_executed
mark_executed-Settled id d uuid w u h = rw (h.rows, h.clock) ((refl, refl), h.books)

mark_executed-Tracked :
    (id : ℕ) (d : AgentDecision) (uuid : String) (w u : World)
    → Untouched w u
    → Tracked id d w (value uuid, mark_executed id d uuid u)
mark_executed-Tracked id d uuid w u h = (mark_executed-Settled id d uuid w u h).0

-- What the search by uuid finds has that uuid.
found_uuid :
    (uuid : String) (mirrors : List WallbitTxMirror) (tx : String)
    → Option.map (λ m. m.wallbit_uuid) (find? (λ m. str_eq m.wallbit_uuid uuid) mirrors) ≡ some tx
    → tx ≡ uuid
found_uuid uuid [] tx h = cc
found_uuid uuid (m ∷ mirrors) tx h = elim (Bool-cases (str_eq m.wallbit_uuid uuid)) [
  | inl t ↦ sym (some_inj (rw t at h)) ∙ (str_eq_iff _ _).0 t
  | inr f ↦ found_uuid uuid mirrors tx (rw f at h)
]

link_of-eq : (env : Env) (uuid tx : String) (w : World) → link_of env uuid w ≡ some tx → tx ≡ uuid
unfolding link_of
link_of-eq env uuid tx w h = elim (Bool-cases (str_eq uuid "")) [
  | inl t ↦ let e : none ≡ some tx = rw t at h in cc
  | inr f ↦ found_uuid uuid w.mirrors tx (rw f at h)
]

violates_named :
    (env : Env) (uuid : String) (w : World)
    → violates env (link_of env uuid w) w ≡ true
    → str_eq uuid "" ≡ false
unfolding link_of violates
violates_named env uuid w h = elim (Bool-cases (str_eq uuid "")) [
  | inl t ↦ let e : false ≡ true = rw t at h in cc
  | inr f ↦ f
]

violates_linked :
    (env : Env) (uuid : String) (link : Option String) (w : World)
    → ((tx : String) → link ≡ some tx → tx ≡ uuid)
    → violates env link w ≡ true
    → any (is_linked_to uuid) w.investments ≡ true
unfolding violates
violates_linked env uuid none w same h = cc
violates_linked env uuid (some tx) w same h = rw (same tx refl) at h

lift-Untouched : (p : Result Response × Log) (w : World) → Untouched w (lift p w).1
unfolding lift
lift-Untouched (ok response, log) w = record { rows = refl; clock = refl; books = refl }
lift-Untouched (raised e, log) w = record { rows = refl; clock = refl; books = refl }

module _ (env : Env) where
  with_client-Untouched :
      (made : Result WallbitClient) (method : Method) (path : String) (body : Body) (w : World)
      → Untouched w (with_client env made method path body w).1
  unfolding with_client
  with_client-Untouched (raised e) method path body w = Untouched-refl w
  with_client-Untouched (ok client) method path body w =
      lift-Untouched (send env.answer client method path body w.log) w

  with_key-Untouched :
      (k : Decrypted) (method : Method) (path : String) (body : Body) (w : World)
      → Untouched w (with_key env k method path body w).1
  unfolding with_key
  with_key-Untouched (undecryptable message) method path body w = Untouched-refl w
  with_key-Untouched (key api_key) method path body w =
      with_client-Untouched (new_client api_key default_attempts true) method path body w

  call_wallbit-Untouched :
      (account : WallbitAccount) (method : Method) (path : String) (body : Body) (w : World)
      → Untouched w (call_wallbit env account method path body w).1
  unfolding call_wallbit
  call_wallbit-Untouched account method path body w =
      with_key-Untouched (env.decrypt account.encrypted_api_key) method path body w

  module _ (id : ℕ) (d : AgentDecision) (w : World) where
    settle-Settled :
        (called : Try Response × World)
        → Untouched w called.1
        → Settled id d w (settle env id d called)
    unfolding settle
    settle-Settled (threw e, u) h = h
    settle-Settled (value response, u) h =
        mark_executed-Settled id d (extract_tx_uuid env.repr response.payload) w u h

    settle_card-Tracked :
        (called : Try Response × World)
        → Untouched w called.1
        → Tracked id d w (settle_card env id d called)
    unfolding settle_card
    settle_card-Tracked (threw e, u) h = threw-Tracked id d e w u h
    settle_card-Tracked (value response, u) h = mark_executed-Tracked id d "" w u h

    record_settled-Tracked :
        (action : Action) (args : ChestArgs) (r : Try String × World)
        → Settled id d w r
        → Tracked id d w (record_settled env d action args r)
    unfolding record_settled record_chest
    record_settled-Tracked action args (threw e, u) h = threw-Tracked id d e w u h
    record_settled-Tracked action args (value uuid, u) h =
        elim (Bool-cases (violates env (link_of env uuid u) u)) [
          | inl t ↦
              let linked =
                violates_linked env uuid (link_of env uuid u) u (λ tx e. link_of-eq env uuid tx u e)
                  t in
              rw t (inr (uuid, violates_named env uuid u t, rw h.1 at linked, h.0))
          | inr f ↦ rw f h.0
        ]

    place_order-Tracked :
        (account : WallbitAccount) (built : Try Body)
        → Tracked id d w (place_order env id d account w built)
    unfolding place_order
    place_order-Tracked account (threw e) = threw-Tracked id d e w w (Untouched-refl w)
    place_order-Tracked account (value body) =
        Settled-Tracked id d w _
          (settle-Settled _ (call_wallbit-Untouched account post "/trades" body w))

    post_chest-Tracked :
        (account : WallbitAccount) (action : Action) (args : ChestArgs) (path : String)
        (body : Body)
        → Tracked id d w
            (settle_chest env id d action args (call_wallbit env account post path body w))
    unfolding settle_chest
    post_chest-Tracked account action args path body =
        let called = call_wallbit env account post path body w in
        record_settled-Tracked action args (settle env id d called)
          (settle-Settled called (call_wallbit-Untouched account post path body w))

    pub run_tool-Tracked :
        (account : WallbitAccount) (call : Call) → Tracked id d w (run_tool env id d account call w)
    unfolding run_tool execute_place_trade execute_move_funds execute_deposit_chest
        execute_withdraw_chest execute_set_card_status execute_resume_bot settle_chest clear_pause
    run_tool-Tracked account (place_trade args) =
        place_order-Tracked account (trade_body env.show_usd args)
    run_tool-Tracked account (move_funds args) =
        Settled-Tracked id d w _ (settle-Settled _ (call_wallbit-Untouched account post _ _ w))
    run_tool-Tracked account (deposit_chest args) =
        post_chest-Tracked account deposit args "/roboadvisor/deposit" (
          robo_deposit args.robo_advisor_id args.amount_usd
            (or_default args.counter_account "DEFAULT"))
    run_tool-Tracked account (withdraw_chest args) =
        post_chest-Tracked account withdraw args "/roboadvisor/withdraw" (
          robo_withdraw args.robo_advisor_id args.amount_usd
            (or_default args.counter_account "DEFAULT"))
    run_tool-Tracked account (set_card_status card_uuid new_status) =
        settle_card-Tracked _ (call_wallbit-Untouched account patch _ _ w)
    run_tool-Tracked account resume =
        mark_executed-Tracked id d "" w (clear_pause env d.user w)
          (record { rows = refl; clock = refl; books = refl })
    run_tool-Tracked account (other_tool name) = inl (Untouched-refl w)
