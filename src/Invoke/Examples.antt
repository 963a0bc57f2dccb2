-- ===== src/Invoke/Examples.antt =====
-- Three children, two of which complete in either order, and the theorem at them.
use coxswain_graphs.Prelude.{
  String, ◌≡◌, refl, true, List, [], ◌∷◌, count, Text, codes, Dict, ok, err, list_eq, nat_eq, arith,
  all,
}
use coxswain_graphs.Invoke.{
  Invocation, returns, refused, Child, Specs, refuse_malformed, bounded, collect, gathered,
  run_child, invoke_graphs, duplicates,
}
use coxswain_graphs.Invoke.Collected.{carries_on}
use coxswain_graphs.Invoke.Completion.{invoke_graphs-order}

program : Unit {0}
unfolding refuse_malformed bounded collect gathered run_child invoke_graphs
program = tt

abbrev works : Dict Text Text → Child
works args = returns (record { body = codes "w"; proposals = codes "x" ∷ [] })

abbrev fails : Dict Text Text → Child
fails args = refused (codes "no evidence")

abbrev specs : Specs
specs = (codes "g", works) ∷ (codes "h", fails) ∷ []

abbrev call : String → String → Invocation
call ident graph = record { ident = codes ident; graph = codes graph; args = [] }

abbrev calls : List Invocation
calls = call "b" "g" ∷ call "a" "h" ∷ []

abbrev forwards : List Text
forwards = codes "a" ∷ codes "b" ∷ []

abbrev backwards : List Text
backwards = codes "b" ∷ codes "a" ∷ []

collected :
    invoke_graphs specs (codes "r") calls backwards
    ≡ ok (record {
      ordered = record { body = codes "w"; proposals = codes "x" ∷ [] } ∷ [];
      proposals = codes "x" ∷ [];
      failures = codes "a: no evidence" ∷ [];
    })
unfolding program
collected = refl

repeated :
    invoke_graphs specs (codes "r") (call "a" "g" ∷ call "a" "h" ∷ []) []
    ≡ err (duplicates (codes "a" ∷ []))
unfolding program
repeated = refl

same_count : (k : Text) → count k backwards ≡ count k forwards
same_count k = omega arith

goes_on :
    (all (λ k. carries_on (run_child specs (codes "r") calls k)) backwards ≡ true)
    × (all (λ k. carries_on (run_child specs (codes "r") calls k)) forwards ≡ true)
unfolding program
goes_on = (refl, refl)

invoke_graphs-order_example :
    invoke_graphs specs (codes "r") calls backwards ≡ invoke_graphs specs (codes "r") calls forwards
invoke_graphs-order_example =
    invoke_graphs-order specs (codes "r") calls backwards forwards goes_on.0 goes_on.1 same_count
