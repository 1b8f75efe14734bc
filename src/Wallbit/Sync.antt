-- ===== src/Wallbit/Sync.antt =====
-- wallbit/tasks.py: the sync of the broker's transactions into the mirror table, with the
-- investments it adopts or adds. Embeddings, and the mirror's columns that nothing else reads
-- (external_address, comment), are left out.
pub mod Effects
pub mod Links
use tresqu_api.Common.{
  ℕ, Bool, true, false, not, ◌&&◌, Option, none, some, List, [], ◌∷◌, ◌++◌, String, ◌==◌, str_eq,
  if◌then◌else◌, is_some, prefix, upper, any,
}
use tresqu_api.Common.Int.{ℤ, pos_part, neg_part}
use tresqu_api.Common.Json.{Json, json_get, truthy}
use tresqu_api.Common.Dict.{Dict, modify}
use tresqu_api.Wallbit.Messages.{get, page, Response}
use tresqu_api.Wallbit.Models.{
  Env, World, WallbitAccount, AccountStatus, connected, WallbitTxMirror, Investment, Kind, stock,
  etf, bond, robo, chest, Action, buy, sell, deposit, withdraw,
}
use tresqu_api.Wallbit.Bodies.{api, crash, Try, value, threw, str_of, quantize}
use tresqu_api.Wallbit.Executors.{call_wallbit, is_linked, is_linked_to}
use tresqu_api.Wallbit.Payload.{extract_transactions, str_field, decimal, parse_dt}

-- What a mirrored transaction says of an investment.
pub record Movement : Type 0 where
  pub kind : Kind
  pub action : Action
  pub symbol : String
  pub amount_usd : ℤ
  pub shares : Option ℤ

-- `mirror.source_amount or mirror.dest_amount or Decimal(0)`
first_nonzero : ℤ → ℤ → ℤ
first_nonzero a b = if pos_part a == 0 && neg_part a == 0 then b else a

trade_movement : WallbitTxMirror → Movement
trade_movement mirror =
    let bought = upper mirror.dest_currency in
    if not (str_eq mirror.dest_currency "") && not (str_eq bought "USD")
    then record {
      kind = stock;
      action = buy;
      symbol = bought;
      amount_usd = mirror.source_amount;
      shares = some mirror.dest_amount;
    }
    else record {
      kind = stock;
      action = sell;
      symbol = upper mirror.source_currency;
      amount_usd = mirror.dest_amount;
      shares = some mirror.source_amount;
    }

chest_movement : Action → WallbitTxMirror → Movement
unfolding first_nonzero
chest_movement action mirror = record {
  kind = chest;
  action = action;
  symbol = "";
  amount_usd = first_nonzero mirror.source_amount mirror.dest_amount;
  shares = none;
}

-- The part of `_backfill_investment` above the adoption; `none` is a type that moves no investment.
unfoldable pub movement : WallbitTxMirror → Option Movement
unfolding trade_movement chest_movement
movement mirror =
    let tx_type = upper mirror.tx_type in
    if str_eq tx_type "TRADE"
    then some (trade_movement mirror)
    else if str_eq tx_type "ROBOADVISOR_DEPOSIT"
    then some (chest_movement deposit mirror)
    else if str_eq tx_type "ROBOADVISOR_WITHDRAW"
    then some (chest_movement withdraw mirror)
    else none

abbrev pub is_kind : Kind → Kind → Bool
is_kind stock stock = true
is_kind etf etf = true
is_kind bond bond = true
is_kind robo robo = true
is_kind chest chest = true
is_kind _ _ = false

abbrev pub is_action : Action → Action → Bool
is_action buy buy = true
is_action sell sell = true
is_action deposit deposit = true
is_action withdraw withdraw = true
is_action _ _ = false

abbrev pub is_amount : ℤ → ℤ → Bool
is_amount a b = pos_part a == pos_part b && neg_part a == neg_part b

-- `adopt_qs`: the investments that an executor recorded before the transaction was mirrored.
adoptable : ℕ → Movement → Investment → Bool
adoptable user m i =
    i.user == user
    && is_kind i.kind m.kind
    && is_action i.action m.action
    && is_amount i.amount_usd (quantize m.amount_usd)
    && not (is_some i.wallbit_tx)
    && (if str_eq m.symbol "" then true else str_eq (upper i.symbol) (upper m.symbol))

-- `symbol[:16] or optimistic.symbol`, and so on
adopted : Movement → WallbitTxMirror → Investment → Investment
adopted m mirror i = record i {
  symbol = (if str_eq (prefix 16 m.symbol) "" then i.symbol else prefix 16 m.symbol);
  shares = elim m.shares [ none ↦ i.shares | some n ↦ some n ];
  wallbit_tx = some mirror.wallbit_uuid;
  executed_at = some mirror.created_at_wallbit;
}

-- A save of the first row that passes the test; the rows stand in order of creation.
update_first : (Investment → Bool) → (Investment → Investment) → List Investment → List Investment
update_first p f [] = []
update_first p f (i ∷ is) = if p i then f i ∷ is else i ∷ update_first p f is

created : ℕ → ℕ → Movement → WallbitTxMirror → Investment
created user now m mirror = record {
  user = user;
  kind = m.kind;
  action = m.action;
  symbol = prefix 16 m.symbol;
  chest_category = "";
  amount_usd = quantize m.amount_usd;
  shares = m.shares;
  wallbit_tx = some mirror.wallbit_uuid;
  executed_at = some mirror.created_at_wallbit;
  created_at = now;
}

book : ℕ → ℕ → WallbitTxMirror → List Investment → Option Movement → List Investment
unfolding adoptable adopted update_first created
book user now mirror investments none = investments
book user now mirror investments (some m) =
    if any (is_linked_to mirror.wallbit_uuid) investments
    then investments
    else if any (adoptable user m) investments
    then update_first (adoptable user m) (adopted m mirror) investments
    else investments ++ created user now m mirror ∷ []

-- `_backfill_investment` for the account of `user`
pub backfill_investment : ℕ → WallbitTxMirror → World → World
unfolding book movement
backfill_investment user mirror w = record w {
  investments = book user w.now mirror w.investments (movement mirror);
}

-- `update_or_create(wallbit_uuid=...)`
upsert_mirror : WallbitTxMirror → List WallbitTxMirror → List WallbitTxMirror
upsert_mirror m [] = m ∷ []
upsert_mirror m (old ∷ ms) =
    let rest = upsert_mirror m ms in
    if str_eq old.wallbit_uuid m.wallbit_uuid then m ∷ ms else old ∷ rest

-- `tx.get("uuid") or tx.get("id")`
uuid_of : Json → Option Json
uuid_of tx = elim (json_get "uuid" tx) [
  | some v ↦ if truthy v then some v else json_get "id" tx
  | none ↦ json_get "id" tx
]

mirror_of : Env → WallbitAccount → ℕ → Json → String → WallbitTxMirror
mirror_of env account now tx uuid = record {
  account = account.id;
  wallbit_uuid = uuid;
  tx_type = prefix 32 (str_field env (json_get "type" tx));
  status = prefix 32 (str_field env (json_get "status" tx));
  source_currency = prefix 8 (str_field env (json_get "source_currency" tx));
  dest_currency = prefix 8 (str_field env (json_get "dest_currency" tx));
  source_amount = decimal env (json_get "source_amount" tx);
  dest_amount = decimal env (json_get "dest_amount" tx);
  created_at_wallbit = parse_dt env (json_get "created_at" tx) now;
  raw = tx;
}

mirror_tx : ℕ → WallbitTxMirror → World → World
unfolding upsert_mirror backfill_investment
mirror_tx user mirror w =
    backfill_investment user mirror (record w { mirrors = upsert_mirror mirror w.mirrors })

-- One round of the loop of `run_wallbit_sync`.
sync_item : Env → ℕ → WallbitAccount → Json → World → World
unfolding uuid_of mirror_of mirror_tx
sync_item env user account tx w = elim (uuid_of tx) [
  | none ↦ w
  | some uuid ↦
      if truthy uuid
      then mirror_tx user (mirror_of env account w.now tx (str_of env.repr uuid)) w
      else w
]

sync_items : Env → ℕ → WallbitAccount → List Json → World → World
unfolding sync_item
sync_items env user account [] w = w
sync_items env user account (tx ∷ txs) w =
    sync_items env user account txs (sync_item env user account tx w)

-- `account.save(update_fields=[...])`
save_account : ℕ → (WallbitAccount → WallbitAccount) → World → World
save_account user f w = record w { accounts = modify user f w.accounts }

-- What `run_wallbit_sync` returns or raises.
pub data SyncResult : Type 0 where
  synced : SyncResult
  account_missing : SyncResult
  account_unusable : AccountStatus → SyncResult
  upstream_failed : (message : String) → SyncResult
  sync_crashed : (message : String) → SyncResult

ingest : Env → ℕ → WallbitAccount → Try Response × World → SyncResult × World
unfolding sync_items save_account
ingest env user account (threw (crash message), w) = (sync_crashed message, w)
ingest env user account (threw (api e), w) = (
  upstream_failed e.message,
  save_account user (λ row. record row { last_error = prefix 500 e.message }) w,
)
ingest env user account (value response, w) = (
  synced,
  save_account user (λ row. record row { last_sync_at = some w.now; last_error = "" })
      (sync_items env user account (extract_transactions response.payload) w),
)

-- `run_wallbit_sync` on an account that exists, by its status.
sync_by_status : Env → ℕ → WallbitAccount → World → AccountStatus → SyncResult × World
unfolding ingest
sync_by_status env user account w connected =
    ingest env user account (call_wallbit env account get "/transactions" (page 1 50) w)
sync_by_status env user account w other = (account_unusable other, w)

-- `WallbitAccount.objects.get(id=account_id)`, with the user that the row stands under
pub account_with_id : ℕ → Dict WallbitAccount → Option (ℕ × WallbitAccount)
account_with_id id [] = none
account_with_id id ((user, account) ∷ rows) =
    if account.id == id then some (user, account) else account_with_id id rows

-- `run_wallbit_sync`
unfoldable pub run_wallbit_sync : Env → ℕ → World → SyncResult × World
unfolding sync_by_status account_with_id
run_wallbit_sync env account_id w = elim (account_with_id account_id w.accounts) [
  | none ↦ (account_missing, w)
  | some (user, account) ↦ sync_by_status env user account w account.status
]
