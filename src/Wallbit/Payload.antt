-- ===== src/Wallbit/Payload.antt =====
-- wallbit/tasks.py: how the sync reads a transaction list of the broker.
use Prim.Native.String
use Prim.Native.Char.{code}
use tresqu_api.Common.{ℕ, Option, none, some, List, [], ◌∷◌, String, ◌==◌, str_eq, if◌then◌else◌}
use tresqu_api.Common.Int.{ℤ, pos}
use tresqu_api.Common.Json.{
  Json, null, boolean, number, text, array, object, Items, nil, cons, Fields, end, field, json_get,
  truthy,
}
use tresqu_api.Wallbit.Models.{Env}
use tresqu_api.Wallbit.Bodies.{str_of}

-- The items of a list that are dicts.
only_dicts : Items → List Json
only_dicts nil = []
only_dicts (cons (object fs) items) = object fs ∷ only_dicts items
only_dicts (cons _ items) = only_dicts items

-- A nested answer counts when it is not empty.
nonempty : List Json → Option (List Json)
nonempty [] = none
nonempty (tx ∷ txs) = some (tx ∷ txs)

or_else : Option (List Json) → Option (List Json) → Option (List Json)
or_else (some txs) later = some txs
or_else none later = later

-- The end of the loop over the keys "data", "transactions", "items", "results".
pick : Option (List Json) → Option (List Json) → Option (List Json) → Option (List Json) → List Json
unfolding or_else
pick inner transactions items results =
    elim (or_else inner (or_else transactions (or_else items results))) [
      | none ↦ []
      | some txs ↦ txs
    ]

mutual
  -- One round of the loop of `_extract_transactions`: `none` goes on to the next key.
  extract_under : String → Fields → Option (List Json)
  extract_under k end = none
  extract_under k (field j v fs) =
      let here = extract_value v in
      let later = extract_under k fs in if str_eq j k then here else later

  extract_value : Json → Option (List Json)
  extract_value (array items) = some (only_dicts items)
  extract_value (object fs) = nonempty (
      pick (extract_under "data" fs) (extract_under "transactions" fs) (extract_under "items" fs)
        (extract_under "results" fs))
  extract_value _ = none

-- `_extract_transactions`
pub extract_transactions : Json → List Json
unfolding pick extract_under
extract_transactions (array items) = only_dicts items
extract_transactions (object fs) =
    pick (extract_under "data" fs) (extract_under "transactions" fs) (extract_under "items" fs)
      (extract_under "results" fs)
extract_transactions _ = []

module _ (env : Env) where
  -- The loop of `_str_field` over the keys of a nested object.
  nested_text : List String → Json → String
  nested_text [] tx = ""
  nested_text (k ∷ ks) tx =
      let rest = nested_text ks tx in
      elim (json_get k tx) [
        | some (text s) ↦ if str_eq s "" then rest else s
        | some (number n) ↦ n
        | some (boolean b) ↦ str_of env.repr (boolean b)
        | _ ↦ rest
      ]

  -- `_str_field`
  pub str_field : Option Json → String
  unfolding nested_text
  str_field none = ""
  str_field (some null) = ""
  str_field (some (object fs)) =
      nested_text ("code" ∷ "symbol" ∷ "name" ∷ "value" ∷ "id" ∷ "ticker" ∷ []) (object fs)
  str_field (some v) = str_of env.repr v

  -- The first key that holds something other than None.
  first_present : List String → Json → Option Json
  first_present [] v = none
  first_present (k ∷ ks) v =
      let rest = first_present ks v in
      elim (json_get k v) [ none ↦ rest | some null ↦ rest | some found ↦ some found ]

  or_zero : Option ℤ → ℤ
  or_zero none = pos 0
  or_zero (some amount) = amount

  -- `Decimal(str(value or 0))`, 0 where that fails
  scalar_decimal : Json → ℤ
  unfolding or_zero
  scalar_decimal v = if truthy v then or_zero (env.decimal_of (str_of env.repr v)) else pos 0

  decimal_or_zero : Option Json → ℤ
  unfolding scalar_decimal
  decimal_or_zero none = pos 0
  decimal_or_zero (some v) = scalar_decimal v

  -- `_decimal`
  pub decimal : Option Json → ℤ
  unfolding decimal_or_zero first_present
  decimal (some (object fs)) =
      decimal_or_zero (first_present ("value" ∷ "amount" ∷ "raw" ∷ []) (object fs))
  decimal v = decimal_or_zero v

  -- `s.replace("Z", "+00:00")`
  replace_z : String → String
  replace_z String.[] = ""
  replace_z (String.◌∷◌ c s) =
      let rest = replace_z s in
      if code c == b'Z' then String.◌++◌ "+00:00" rest else String.◌∷◌ c rest

  -- `_parse_dt(value) or timezone.now()`
  pub parse_dt : Option Json → ℕ → ℕ
  unfolding replace_z
  parse_dt none now = now
  parse_dt (some v) now =
      if truthy v
      then elim (env.datetime_of (replace_z (str_of env.repr v))) [ none ↦ now | some at ↦ at ]
      else now
