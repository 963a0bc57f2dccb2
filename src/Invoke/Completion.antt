-- ===== src/Invoke/Completion.antt =====
-- The record does not depend on who finished first.
use coxswain_graphs.Prelude.{
  ◌≡◌, refl, sym, ap, ◌∙◌, true, Option, none, some, List, [], ◌∷◌, all, elem, count, list_eq,
  nat_eq, Text, Dict, lookup, keys, Result, ok, err, ◌>>=◌, arith, elem-count, sort, sort-count,
  text_ord,
}
use coxswain_graphs.Invoke.{
  Returned, Child, InvokeError, Invocation, Specs, collect, values_at, gathered, Gathered,
  refuse_malformed, run_child, invoke_graphs,
}
use coxswain_graphs.Invoke.Collected.{
  carries_on, kept, noted, collect-kept, elem-kept, count-kept, lookup-kept, count-sort-noted,
}

values_at-same :
    (m n : Dict Text Returned) (ks : List Text)
    → ((j : Text) → lookup j m ≡ lookup j n)
    → values_at m ks ≡ values_at n ks
values_at-same m n [] h = refl
values_at-same m n (k ∷ ks) h = ground (arith, h k, values_at-same m n ks h)

module _ (outcome : Text → Child) (ks js : List Text)
    (same : (k : Text) → count k ks ≡ count k js) where
  same_elem : (k : Text) → elem k ks ≡ elem k js
  same_elem k = ground (arith, same k, elem-count k ks, elem-count k js)

  same_lookup : (j : Text) → lookup j (kept outcome ks []) ≡ lookup j (kept outcome js [])
  same_lookup j =
      ground (arith, lookup-kept outcome j ks [], lookup-kept outcome j js [], same_elem j)

  same_keys : (j : Text) → count j (keys (kept outcome ks [])) ≡ count j (keys (kept outcome js []))
  same_keys j = ground (
    arith,
    elem-kept outcome j ks [],
    elem-kept outcome j js [],
    same_elem j,
    elem-count j (keys (kept outcome ks [])),
    elem-count j (keys (kept outcome js [])),
    count-kept outcome j ks [] (omega arith),
    count-kept outcome j js [] (omega arith),
  )

  same_noted : (f : Text) → count f (noted outcome ks) ≡ count f (noted outcome js)
  same_noted f =
      sym (count-sort-noted outcome f ks)
      ∙ ap (λ xs. count f (noted outcome xs)) (sort-count ks js same)
      ∙ count-sort-noted outcome f js

  gathered-same :
      gathered (kept outcome ks []) (noted outcome ks)
      ≡ gathered (kept outcome js []) (noted outcome js)
  unfolding gathered
  gathered-same =
      rw
        (
          sort-count (keys (kept outcome ks [])) (keys (kept outcome js [])) same_keys,
          values_at-same (kept outcome ks []) (kept outcome js [])
              (sort (keys (kept outcome js []))) same_lookup,
          sort-count (noted outcome ks) (noted outcome js) same_noted,
        )
        refl

abbrev finished : (Text → Child) → List Text → Result InvokeError Gathered
finished outcome ks = collect outcome ks [] [] >>= λ c. ok (gathered c.0 c.1)

finished-same :
    (outcome : Text → Child) (ks js : List Text)
    → all (λ k. carries_on (outcome k)) ks ≡ true
    → all (λ k. carries_on (outcome k)) js ≡ true
    → ((k : Text) → count k ks ≡ count k js)
    → finished outcome ks ≡ finished outcome js
finished-same outcome ks js hk hj same =
    ap (λ c. c >>= λ c. ok (gathered c.0 c.1)) (collect-kept outcome ks [] [] hk)
    ∙ ap (λ g. ok g) (gathered-same outcome ks js same)
    ∙ sym (ap (λ c. c >>= λ c. ok (gathered c.0 c.1)) (collect-kept outcome js [] [] hj))

past :
    (refusal : Option InvokeError) {r s : Result InvokeError Gathered}
    → r ≡ s
    → elim refusal as (λ x. Result InvokeError Gathered) [ some error ↦ err error | none ↦ r ]
      ≡ elim refusal as (λ x. Result InvokeError Gathered) [ some error ↦ err error | none ↦ s ]
past none h = h
past (some error) h = refl

-- Where no child stops the call, two orders in which the same children complete give the same results,
-- proposals and failures, in the same order.
pub invoke_graphs-order :
    (specs : Specs) (run_id : Text) (invocations : List Invocation) (ks js : List Text)
    → all (λ k. carries_on (run_child specs run_id invocations k)) ks ≡ true
    → all (λ k. carries_on (run_child specs run_id invocations k)) js ≡ true
    → ((k : Text) → count k ks ≡ count k js)
    → invoke_graphs specs run_id invocations ks ≡ invoke_graphs specs run_id invocations js
unfolding invoke_graphs
invoke_graphs-order specs run_id invocations ks js hk hj same =
    past (refuse_malformed specs invocations)
      (finished-same (run_child specs run_id invocations) ks js hk hj same)
