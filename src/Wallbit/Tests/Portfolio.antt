-- ===== src/Wallbit/Tests/Portfolio.antt =====
-- The live snapshot and the portfolio on small inputs, and their theorems at such inputs.
use tresqu_api.Common.{
  ℕ, ◌+◌, ◌*◌, ◌≤◌, ◌<◌, ◌≡◌, ◌≢◌, refl, ap, sym, ◌∙◌, true, false, Option, none, some, List, [],
  ◌∷◌, str_eq, if◌then◌else◌, arith, upper, rstrip, lstrip, strip,
}
use tresqu_api.Common.Int.{ℤ, pos, ◌+ℤ◌, ◌-ℤ◌}
use tresqu_api.Common.Json
use tresqu_api.Common.Json.{Json}
use tresqu_api.Common.Parse.{parse_int}
use tresqu_api.Common.Parse.Digits.{parse_int-show_ℕ}
use tresqu_api.Common.Show.{show_ℕ}
use tresqu_api.Wallbit.Messages.{
  get, empty, sent, Log, Request, Outcome, answered, WallbitError, rate_limit, raised, ok,
}
use tresqu_api.Wallbit.Client.{request_for, is_rate_limit}
use tresqu_api.Wallbit.Models.{World, Investment, stock, buy, sell}
use tresqu_api.Wallbit.Limits.{day_seconds, usd}
use tresqu_api.Wallbit.Snapshot.{
  Formats, LiveSnapshot, Shared, fresh, is_skipped, rate_limited, shares_of, snapshot, symbol_of,
  to_decimal, unavailable,
}
use tresqu_api.Wallbit.Snapshot.Fetch.{fetch_snapshot, with_assets, with_checking}
use tresqu_api.Wallbit.Snapshot.Live.{
  cooldown_seconds, fetch_locked, get_live_snapshot, live_hit, after_miss,
}
use tresqu_api.Wallbit.Snapshot.Serving.{IsHonest, get_live_snapshot-IsHonest}
use tresqu_api.Wallbit.Snapshot.Waiting.{get_live_snapshot_ends}
use tresqu_api.Wallbit.Snapshot.Cooldown.{
  Visit, cooldown_silences, elapsed, run_all, sent_elsewhere,
}
use tresqu_api.Wallbit.Snapshot.Again.{fetched_again}
use tresqu_api.Wallbit.Portfolio.{is_settled, scaled, signed_amount}
use tresqu_api.Wallbit.Portfolio.Timeline.{
  accumulate, add_delta, add_deltas, effective_at, get_timeline, insert_day, is_trade, period_days,
  sort_days, total_before,
}
use tresqu_api.Wallbit.Portfolio.Curve.{get_timeline-last_total, last_total}
use tresqu_api.Wallbit.Portfolio.Totals.{holdings_of, summary_of, total_of}
use tresqu_api.Wallbit.Portfolio.Agreement.{invested_capital, summary_of-holdings_of}
use tresqu_api.Wallbit.Portfolio.Books.{total_known_cost, total_pnl}
use tresqu_api.Wallbit.Tests.{account, blocked, broker, filled, start}

abbrev natural : Option ℤ → Option ℕ
natural (some (pos n)) = some n
natural _ = none

abbrev formats : Formats
formats = record {
  decimal = λ s. some (usd 2);
  isoformat = show_ℕ;
  fromisoformat = λ s. natural (parse_int s);
}

read_back : (t : ℕ) → formats.fromisoformat (formats.isoformat t) ≡ some t
read_back t = ap natural (parse_int-show_ℕ t)

not_empty : (t : ℕ) → formats.isoformat t ≢ ""
unfolding parse_int strip lstrip rstrip
not_empty t e = let bad = sym (parse_int-show_ℕ t) ∙ ap parse_int e in cc

abbrev apple : Json
apple =
    Json.object
      (Json.field "symbol" (Json.text "aapl") (Json.field "shares" (Json.number "2") Json.end))

-- The broker lists one position, and answers "tx-1" to anything else.
abbrev answers : Log → Request → Outcome
answers log request =
    if str_eq request.path "/balance/stocks"
    then answered (record filled { payload = Json.array (Json.cons apple Json.nil) })
    else answered filled

abbrev idle : Shared
idle = record {
  clock = 1000;
  cache = record { live = none; lastgood = none; lock = none; cooldown = none };
  sent_log = [];
}

-- Another worker holds the lock for 30 s.
abbrev busy : Shared
busy = record idle {
  cache = record idle.cache { lock = some (record { content = tt; expires = 30_000 }) };
}

abbrev cooling : Shared
cooling = record idle {
  cache = record idle.cache { cooldown = some (record { content = tt; expires = 91_000 }) };
}

abbrev nap : Shared → Shared
nap s = record s { clock = s.clock + 250 }

abbrev read : LiveSnapshot
read = record {
  checking = [];
  positions = apple ∷ [];
  assets = ("AAPL", filled.payload) ∷ [];
  fetched_at = some 1000;
  stale = false;
  reason = fresh;
}

abbrev read_log : Log
read_log =
    sent (request_for get "/assets/AAPL" empty)
    ∷ sent (request_for get "/balance/checking" empty)
    ∷ sent (request_for get "/balance/stocks" empty)
    ∷ []

fetched : fetch_snapshot answers formats 1000 "secret" [] ≡ (ok read, read_log)
unfolding fetch_snapshot is_skipped symbol_of shares_of request_for with_checking with_assets upper
    to_decimal Json.json_get Json.truthy
fetched = refl

fetched_again_example :
    (s' : Shared) × (fetch_locked answers broker.decrypt formats account true idle
      ≡ (snapshot read, s'))
    × (get_live_snapshot answers broker.decrypt formats nap account false
          (record s' { clock = 60_999 })
        ≡ some (snapshot read, record s' { clock = 60_999 }))
    × (s'.sent_log ≡ read_log)
fetched_again_example =
    fetched_again answers broker.decrypt formats nap read_back not_empty account
      account.encrypted_api_key true false idle "secret" read read_log 60_999 refl fetched
      (omega arith)

get_live_snapshot_ends_example :
    get_live_snapshot answers broker.decrypt formats nap account true busy ≢ none
get_live_snapshot_ends_example =
    get_live_snapshot_ends answers broker.decrypt formats nap (λ s. omega arith) account true busy

-- Nothing to serve during a cooldown.
cooling_down :
    get_live_snapshot answers broker.decrypt formats nap account true cooling
    ≡ some (unavailable rate_limited, cooling)
unfolding get_live_snapshot live_hit after_miss
cooling_down = refl

get_live_snapshot-IsHonest_example : IsHonest (unavailable rate_limited)
get_live_snapshot-IsHonest_example =
    get_live_snapshot-IsHonest answers broker.decrypt formats nap account cooling cooling
      (unavailable rate_limited) cooling_down

-- The broker blocks for an hour.
abbrev blocks : Log → Request → Outcome
blocks log request = answered blocked

abbrev block : WallbitError
block = record {
  kind = rate_limit;
  message = "Wallbit responded with status 429";
  status = some 429;
  retry_after = some 3600000;
}

refused :
    fetch_snapshot blocks formats 1000 "secret" []
    ≡ (raised block, sent (request_for get "/balance/stocks" empty) ∷ [])
unfolding fetch_snapshot request_for show_ℕ Json.as_text Json.json_get
refused = refl

is_limit : is_rate_limit rate_limit ≡ true
unfolding is_rate_limit
is_limit = refl

cooldown_silences_example :
    (1 ≤ cooldown_seconds (some 3600000))
    × (cooldown_seconds (some 3600000) ≤ 3600)
    × ((operations : List Visit)
        → elapsed operations < cooldown_seconds (some 3600000) * 1000
        → (run_all blocks broker.decrypt formats nap account operations
            (fetch_locked blocks broker.decrypt formats account true idle).1).sent_log
          ≡ sent_elsewhere operations (sent (request_for get "/balance/stocks" empty) ∷ []))
cooldown_silences_example =
    cooldown_silences blocks broker.decrypt formats nap account true idle "secret" block
      (sent (request_for get "/balance/stocks" empty) ∷ []) refl refused is_limit

abbrev bought : Investment
bought = record {
  user = 1;
  kind = stock;
  action = buy;
  symbol = "AAPL";
  chest_category = "";
  amount_usd = usd 3;
  shares = some (usd 2);
  wallbit_tx = none;
  executed_at = none;
  created_at = 1000;
}

abbrev invested : World
invested = record start { investments = bought ∷ [] }

summary_of-holdings_of_example :
    (summary_of formats 1 invested read).summary_pnl_usd
      +ℤ scaled (invested_capital 1 invested "3m")
    ≡ total_pnl (holdings_of formats 1 invested read)
      +ℤ total_known_cost formats 1 invested read.assets read.positions
summary_of-holdings_of_example = summary_of-holdings_of formats 1 invested read "3m"

-- Bought on day 0, and sold for a third on day 95.
abbrev traded : World
traded = record invested {
  now = 100 * day_seconds;
  investments =
      bought
      ∷ record bought { action = sell; amount_usd = usd 1; executed_at = some (95 * day_seconds) }
      ∷ [];
}

curve : get_timeline 1 traded "1m" ≡ record { date = 95; invested_total_usd = usd 2 } ∷ []
unfolding get_timeline add_deltas total_before is_trade is_settled signed_amount accumulate
    period_days add_delta effective_at sort_days insert_day ◌+ℤ◌ ◌-ℤ◌
curve = refl

get_timeline-last_total_example :
    last_total
      (total_before 1 traded buy (70 * day_seconds) traded.investments
        -ℤ total_before 1 traded sell (70 * day_seconds) traded.investments)
      (get_timeline 1 traded "1m")
    ≡ total_of formats 1 traded buy traded.investments
      -ℤ total_of formats 1 traded sell traded.investments
unfolding period_days
get_timeline-last_total_example = get_timeline-last_total formats 1 traded "1m"
