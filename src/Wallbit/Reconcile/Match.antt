-- ===== src/Wallbit/Reconcile/Match.antt =====
-- The transaction that the reconciliation takes for a decision (wallbit/tasks.py,
-- `find_transaction_for_decision`).
use tresqu_api.Common.{
  ℕ, ◌+◌, ◌*◌, ◌^◌, ◌≤◌, ◌≡◌, ◌≢◌, refl, ◌↔◌, ◌⊎◌, inl, inr, Bool, true, false, Option, none, some,
  List, [], ◌∷◌, String, arith, Bool-cases, ltb, min, str_eq, str_eq_iff,
}
use tresqu_api.Common.Dict.{Dict, lookup}
use tresqu_api.Common.Int.{ℤ, pos_part}
use tresqu_api.Wallbit.Models.{Env, World, WallbitAccount, WallbitTxMirror, AgentDecision}
use tresqu_api.Wallbit.Reconcile.{
  distance, amount_matches, is_link, is_claimed, first_matches, anchor, is_match, earliest, earlier,
  find_transaction, reconcile_lookback,
}

abbrev pub IsIn : WallbitTxMirror → List WallbitTxMirror → Type 0
IsIn tx [] = ⊥
IsIn tx (t ∷ ts) = (t ≡ tx) ⊎ IsIn tx ts

-- The result of a search: a row of the table that passes, and no row that passes is earlier.
pub record Earliest (p : WallbitTxMirror → Bool) (txs : List WallbitTxMirror) (tx : WallbitTxMirror)
    : Type 0 where
  pub member : IsIn tx txs
  pub passes : p tx ≡ true
  pub first :
      (other : WallbitTxMirror)
      → IsIn other txs
      → p other ≡ true
      → tx.created_at_wallbit ≤ other.created_at_wallbit

-- A search that finds nothing leaves no row that passes.
abbrev pub Found :
    (p : WallbitTxMirror → Bool) → List WallbitTxMirror → Option WallbitTxMirror → Type 0
Found p txs none = (tx : WallbitTxMirror) → IsIn tx txs → p tx ≡ false
Found p txs (some tx) = Earliest p txs tx

same_test :
    (p : WallbitTxMirror → Bool) {t other : WallbitTxMirror} {b : Bool}
    → p t ≡ b
    → t ≡ other
    → p other ≡ b
same_test p h e = rw e at h

same_time :
    {t other : WallbitTxMirror} → t ≡ other → t.created_at_wallbit ≤ other.created_at_wallbit
same_time {t} {other} e = rw e (omega arith)

module _ (p : WallbitTxMirror → Bool) (t : WallbitTxMirror) (ts : List WallbitTxMirror) where
  skip_none : p t ≡ false → Found p ts none → Found p (t ∷ ts) none
  skip_none f h tx (inl e) = same_test p f e
  skip_none f h tx (inr i) = h tx i

  skip_first :
      (tx other : WallbitTxMirror)
      → p t ≡ false
      → Earliest p ts tx
      → IsIn other (t ∷ ts)
      → p other ≡ true
      → tx.created_at_wallbit ≤ other.created_at_wallbit
  skip_first tx other f h (inl e) q = ground (arith, same_test p f e)
  skip_first tx other f h (inr i) q = h.first other i q

  skip_Found : (o : Option WallbitTxMirror) → p t ≡ false → Found p ts o → Found p (t ∷ ts) o
  skip_Found none f h = skip_none f h
  skip_Found (some tx) f h = record {
    member = inr h.member;
    passes = h.passes;
    first = λ other i q. skip_first tx other f h i q;
  }

  alone_first :
      (other : WallbitTxMirror)
      → Found p ts none
      → IsIn other (t ∷ ts)
      → p other ≡ true
      → t.created_at_wallbit ≤ other.created_at_wallbit
  alone_first other h (inl e) q = same_time e
  alone_first other h (inr i) q = ground (arith, h other i)

  both_first :
      (tx other : WallbitTxMirror)
      → Earliest p ts tx
      → IsIn other (t ∷ ts)
      → p other ≡ true
      → min t.created_at_wallbit tx.created_at_wallbit ≤ other.created_at_wallbit
  both_first tx other h (inl e) q = let s = same_time e in omega (arith, s)
  both_first tx other h (inr i) q = let s = h.first other i q in omega (arith, s)

  keep_Found :
      (o : Option WallbitTxMirror) → p t ≡ true → Found p ts o → Found p (t ∷ ts) (earlier t o)
  unfolding earlier
  keep_Found none k h = record {
    member = inl refl;
    passes = k;
    first = λ other i q. alone_first other h i q;
  }
  keep_Found (some tx) k h = elim (Bool-cases (ltb tx.created_at_wallbit t.created_at_wallbit)) [
    | inl lt ↦ rw lt (record {
      member = inr h.member;
      passes = h.passes;
      first = λ other i q. ground (arith, both_first tx other h i q);
    })
    | inr ge ↦ rw ge (record {
      member = inl refl;
      passes = k;
      first = λ other i q. ground (arith, both_first tx other h i q);
    })
  ]

earliest-Found :
    (p : WallbitTxMirror → Bool) (txs : List WallbitTxMirror) → Found p txs (earliest p txs)
unfolding earliest
earliest-Found p [] = λ tx i. absurd i
earliest-Found p (t ∷ ts) = elim (Bool-cases (p t)) [
  | inl k ↦ rw (k, earliest) (keep_Found p t ts (earliest p ts) k (earliest-Found p ts))
  | inr f ↦ rw (f, earliest) (skip_Found p t ts (earliest p ts) f (earliest-Found p ts))
]

-- No other decision is linked to the transaction.
abbrev pub IsUnclaimed : ℕ → String → World → Type 0
IsUnclaimed id uuid w =
    (other : ℕ) (row : AgentDecision)
    → other ≢ id
    → lookup other w.decisions ≡ some row
    → row.wallbit_tx_uuid ≢ some uuid

is_link_self :
    (uuid : String) (link : Option String) → uuid ≢ "" → link ≡ some uuid → is_link uuid link ≡ true
unfolding is_link
is_link_self uuid link n e = rw e (elim (Bool-cases (str_eq uuid "")) [
  | inl t ↦ absurd (n ((str_eq_iff uuid "").0 t))
  | inr f ↦ rw (f, (str_eq_iff uuid uuid).1 refl) refl
])

is_claimed_other :
    (id : ℕ) (uuid : String) (rows : Dict AgentDecision) (other : ℕ) (row : AgentDecision)
    → is_claimed id uuid rows ≡ false
    → other ≢ id
    → lookup other rows ≡ some row
    → is_link uuid row.wallbit_tx_uuid ≡ false
unfolding is_claimed lookup
is_claimed_other id uuid [] other row c o e = cc
is_claimed_other id uuid ((j, d) ∷ rows) other row c o e =
    ground (arith, is_claimed_other id uuid rows other row)

-- What the search found: a mirrored transaction of the account, not older than three minutes before
-- the confirmation, of the kind and amount of the decision's call, unclaimed, and the earliest such.
pub record Matched (env : Env) (id : ℕ) (d : AgentDecision) (account : WallbitAccount) (w : World)
    (tx : WallbitTxMirror) : Type 0 where
  pub member : IsIn tx w.mirrors
  pub owner : tx.account ≡ account.id
  pub recent : anchor d ≤ tx.created_at_wallbit + reconcile_lookback
  pub same_call : first_matches env.repr d.tools_called tx ≡ true
  pub free : tx.wallbit_uuid ≢ "" → IsUnclaimed id tx.wallbit_uuid w

module _ (env : Env) (id : ℕ) (d : AgentDecision) (account : WallbitAccount) (w : World) where
  is_match-Matched :
      (tx : WallbitTxMirror)
      → IsIn tx w.mirrors
      → is_match env id d account w tx ≡ true
      → Matched env id d account w tx
  unfolding is_match
  is_match-Matched tx i m = record {
    member = i;
    owner = ground arith;
    recent = ground arith;
    same_call = ground arith;
    free = λ n other row o e l.
        let c = is_claimed_other id tx.wallbit_uuid w.decisions other row (ground arith) o e in
        let s = is_link_self tx.wallbit_uuid row.wallbit_tx_uuid n l in ground (arith, c, s);
  }

  find_transaction-Found :
      Found (is_match env id d account w) w.mirrors (find_transaction env id d account w)
  unfolding find_transaction
  find_transaction-Found = earliest-Found (is_match env id d account w) w.mirrors

  -- A transaction that the search finds is mirrored for the account, at most three minutes older
  -- than the confirmation (or than the decision, where it was not confirmed), of the kind and amount
  -- of the decision's call, and, where its uuid is not empty, linked to no other decision; and no
  -- mirrored transaction that passes the same test is earlier.
  pub find_transaction-Matched :
      (tx : WallbitTxMirror)
      → find_transaction env id d account w ≡ some tx
      → Matched env id d account w tx
        × ((other : WallbitTxMirror)
            → IsIn other w.mirrors
            → is_match env id d account w other ≡ true
            → tx.created_at_wallbit ≤ other.created_at_wallbit)
  find_transaction-Matched tx e =
      let f : Found (is_match env id d account w) w.mirrors (some tx) =
        rw e at find_transaction-Found in
      (is_match-Matched tx f.member f.passes, λ other i q. f.first other i q)

-- Two amounts match exactly when they differ by USD 0.10 at most, or by 2 % of the expected one,
-- which counts as 0 where it is negative.
pub amount_matches_iff :
    (observed expected : ℤ)
    → (amount_matches observed expected ≡ true) ↔ (
        (distance observed expected ≤ 10 ^ 7)
        ⊎ (distance observed expected * 100 ≤ pos_part expected * 2))
unfolding amount_matches
amount_matches_iff observed expected = ((λ h. ground arith), (λ h. ground arith))
