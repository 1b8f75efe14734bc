-- ===== src/Agents/Tests/Guards.antt =====
-- Runs of the guards on the agent's tools, and their theorems at such inputs.
use tresqu_api.Common.{
  ℕ, ◌+◌, ◌≡◌, ◌≢◌, ◌↔◌, refl, true, not, str_eq, false, some, none, [], ◌∷◌, map, count_if, ◌≤◌,
  String, arith, strip, prefix, lstrip, rstrip, is_space, upper, lower, has_part,
}
use tresqu_api.Common.Int.{pos}
use tresqu_api.Common.Dates.{
  Date, date, days_in_month, is_leap, isoformat, parse_date, make_date, is_before,
}
use tresqu_api.Agents.DateGuard.{Detectors, candidate, corrected, resolve_parsed, resolve_year}
use tresqu_api.Agents.DateGuard.Corrected.{
  IsCandidate, Answers, resolve_year-Answers, resolve_year-IsCandidate,
}
use tresqu_api.Agents.CurrencyGuard.{
  Unicode, currency_aliases, normalize, requested_code, is_word_char, match_word, mentions_currency,
  mentions_token, resolve_currency, search_word, starts_in_word,
}
use tresqu_api.Agents.CurrencyGuard.Words.{IsWordOf, mentions_token_iff}
use tresqu_api.Agents.DuplicateGuard.{Reader, Creation, key_of, limit_for, new_turn, create_all}
use tresqu_api.Agents.DuplicateGuard.Made.{create_all-limit_for, is_made, logged}

-- No text names a date or a day.
abbrev silent : Detectors
silent = record { user_gave_a_date = λ texts. false; user_gave_a_day = λ texts. false }

abbrev today : Date
today = date 2026 10 1

parsed : parse_date (prefix 10 (strip "2023-10-01")) ≡ some (date 2023 10 1)
unfolding parse_date strip prefix make_date days_in_month is_leap
parsed = refl

resolved : resolve_year silent (some "2023-10-01") today ("12000 gaseosa" ∷ []) ≡ some "2026-10-01"
unfolding resolve_year resolve_parsed corrected candidate parse_date strip prefix make_date
    days_in_month is_leap is_before isoformat
resolved = refl

resolve_year-Answers_example : Answers silent "2023-10-01" today ("12000 gaseosa" ∷ []) "2026-10-01"
resolve_year-Answers_example =
    resolve_year-Answers silent "2023-10-01" "2026-10-01" today ("12000 gaseosa" ∷ []) resolved

resolve_year-IsCandidate_example :
    (t : Date) × IsCandidate (date 2023 10 1) today t
    × (resolve_year silent (some "2023-10-01") today ("12000 gaseosa" ∷ []) ≡ some (isoformat t))
unfolding days_in_month is_leap
resolve_year-IsCandidate_example =
    resolve_year-IsCandidate silent "2023-10-01" (date 2023 10 1) today ("12000 gaseosa" ∷ []) refl
      parsed (ground arith) (ground arith) (omega arith) (omega arith) refl
      (λ both. omega (arith, both.0))

-- A message in which every amount stands once.
abbrev plain : Reader
plain = record {
  asks_for_repetition = λ text. false;
  amount_mentions = λ text amount. 1;
  note_key = λ note. note ∷ [];
  show_value = λ amount. "200000";
}

abbrev repayment : Creation
repayment = record {
  kind = "income";
  amount = some (pos 200000);
  currency = "COP";
  text = "préstamo Darwin";
  category = "";
  day = none;
}

-- The state of the outside world is the number of rows created.
abbrev stores : ℕ → String × ℕ
stores n = ("Ingreso registrado", n + 1)

repayment_limit :
    limit_for plain (new_turn "200000 de Darwin" "") (key_of plain repayment (pos 200000)).value
    ≡ some 1
unfolding limit_for new_turn key_of
repayment_limit = refl

create_all-limit_for_example :
    count_if
      (is_made plain (key_of plain repayment (pos 200000)))
      (create_all plain
        (map logged ((repayment, stores) ∷ (repayment, stores) ∷ []))
        (0, [])
        (new_turn "200000 de Darwin" "")).0.1
    ≤ 1
create_all-limit_for_example =
    create_all-limit_for plain ((repayment, stores) ∷ (repayment, stores) ∷ []) 0 "200000 de Darwin"
      "" (key_of plain repayment (pos 200000)) 1 repayment_limit

-- For texts without marks, and tokens of letters and digits except one.
abbrev plain_unicode : Unicode
plain_unicode = record {
  lower_case = lower;
  without_marks = λ text. text;
  is_alnum = λ text. not (str_eq text "us$");
}

named : mentions_token plain_unicode "son 5 usd" "USD" ≡ true
unfolding mentions_token search_word match_word starts_in_word is_word_char normalize lower
named = refl

-- Within another word a code is not found, and an invented currency gives way to the user's own.
invented : resolve_currency plain_unicode (some " usd") "COP" ("6M de usdt" ∷ "en pesos" ∷ []) ≡ ""
unfolding resolve_currency mentions_currency mentions_token search_word match_word starts_in_word
    is_word_char strip lstrip rstrip is_space upper lower has_part normalize requested_code
    currency_aliases
invented = refl

named_token : normalize plain_unicode "USD" ≢ ""
unfolding normalize lower
named_token e = cc

mentions_token_iff_example :
    (mentions_token plain_unicode "son 5 usd" "USD" ≡ true)
    ↔ IsWordOf false (normalize plain_unicode "USD") "son 5 usd"
unfolding normalize lower
mentions_token_iff_example = mentions_token_iff plain_unicode "son 5 usd" "USD" named_token refl
