-- ===== src/Policy/Caps.antt =====
-- The split keeps every proposal in its order, and a limit of the policy holds over the run.
use coxswain_graphs.Prelude.{
  ℕ, ◌+◌, ◌≤◌, String, ◌≡◌, sym, ap, Bool, true, false, List, [], ◌∷◌, if◌then◌else◌, ◌==◌,
  string_eq, arith, select, option_eq,
}
use coxswain_graphs.Policy.{Queued, Row, Config, bump, clears, split_from, split_by_policy}

-- `Interleaved xs ys zs`: `zs` is made of `xs` and `ys`, each in its order.
pub data Interleaved : List Queued → List Queued → List Queued → Type 0 where
  nothing : Interleaved [] [] []
  left :
      {x : Queued} {xs ys zs : List Queued}
      → Interleaved xs ys zs
      → Interleaved (x ∷ xs) ys (x ∷ zs)
  right :
      {y : Queued} {xs ys zs : List Queued}
      → Interleaved xs ys zs
      → Interleaved xs (y ∷ ys) (y ∷ zs)

-- How many of the proposals are of the kind.
abbrev pub of_kind : String → List Queued → ℕ
of_kind k [] = 0
of_kind k (item ∷ items) = (if k == item.kind then 1 else 0) + of_kind k items

module _ (is_auto : String → String → List Row → Config → Bool) (rows : List Row) where
  split_from-Interleaved :
      (applied : String → ℕ) (items : List Queued)
      → let s = split_from is_auto rows applied items in Interleaved s.0 s.1 items
  unfolding split_from
  split_from-Interleaved applied [] = nothing
  split_from-Interleaved applied (item ∷ items) =
      go (clears is_auto rows applied item) (split_from-Interleaved (bump item.kind applied) items)
        (split_from-Interleaved applied items)
    where
      go :
          (b : Bool)
          → (let s = split_from is_auto rows (bump item.kind applied) items in
              Interleaved s.0 s.1 items)
          → (let s = split_from is_auto rows applied items in Interleaved s.0 s.1 items)
          → let s = elim b as (λ x. List Queued × List Queued) [
            | true ↦
                let rest = split_from is_auto rows (bump item.kind applied) items in
                (item ∷ rest.0, rest.1)
            | false ↦ let rest = split_from is_auto rows applied items in (rest.0, item ∷ rest.1)
          ] in
            Interleaved s.0 s.1 (item ∷ items)
      go true h k = left h
      go false h k = right k

  -- No proposal is lost, repeated or moved: the two lists, each in its order, make up the input.
  pub split_by_policy-Interleaved :
      (items : List Queued)
      → let s = split_by_policy is_auto rows items in Interleaved s.0 s.1 items
  unfolding split_by_policy
  split_by_policy-Interleaved items = split_from-Interleaved (λ k. 0) items

  counted :
      (k : String) (limit : ℕ)
      → ((risk : String) (seen : List Row) (config : Config)
          → limit ≤ config.applied_this_run
          → is_auto k risk seen config ≡ false)
      → (applied : String → ℕ) (item : Queued) → k ≡ item.kind
      → limit ≤ applied k
      → clears is_auto rows applied item ≡ false
  unfolding clears
  counted k limit refuses applied item same h = rw (sym same) (
      refuses item.risk (select (λ row. row.model == item.model) rows)
        (record {
          applied_this_run = applied k;
          subject = item.subject;
          subject_new = item.subject_new;
        })
        h)

  split_from-capped :
      (k : String) (limit : ℕ)
      → ((risk : String) (seen : List Row) (config : Config)
          → limit ≤ config.applied_this_run
          → is_auto k risk seen config ≡ false)
      → (applied : String → ℕ) (items : List Queued) → applied k ≤ limit
      → applied k + of_kind k (split_from is_auto rows applied items).0 ≤ limit
  unfolding split_from clears bump
  split_from-capped k limit refuses applied [] h = omega arith
  split_from-capped k limit refuses applied (item ∷ items) h = ground (
    arith,
    split_from-capped k limit refuses applied items,
    split_from-capped k limit refuses (bump item.kind applied) items,
    string_eq.beq_iff k item.kind,
    λ (same : k ≡ item.kind). ap applied same,
    λ (same : k ≡ item.kind). counted k limit refuses applied item same,
  )

  -- Where the policy never clears a kind of which `limit` were already applied in the run, at most `limit`
  -- proposals of that kind skip the gate.
  pub split_by_policy-capped :
      (k : String) (limit : ℕ)
      → ((risk : String) (seen : List Row) (config : Config)
          → limit ≤ config.applied_this_run
          → is_auto k risk seen config ≡ false)
      → (items : List Queued) → of_kind k (split_by_policy is_auto rows items).0 ≤ limit
  unfolding split_by_policy
  split_by_policy-capped k limit refuses items =
      omega (arith, split_from-capped k limit refuses (λ k. 0) items (omega arith))
