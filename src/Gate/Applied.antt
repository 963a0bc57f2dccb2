-- ===== src/Gate/Applied.antt =====
-- What executing decisions does to the world and to the ledger.
use coxswain_graphs.Prelude.{
  ◌⊎◌, ◌≡◌, refl, String, Bool, true, false, none, some, List, [], ◌∷◌, any, string_eq, Text, Dict,
  arith, inl, inr, Result, ok, err,
}
use coxswain_graphs.Cartridge.{Spec}
use coxswain_graphs.Gate.{
  Proposed, Decision, approved, refused, Decided, Arms, auto_apply, executed, apply_decisions, Diff,
  apply_workstore, item_create, item_update, apply_arm_for, entered,
}
use coxswain_graphs.Gate.Deciding.{is_approved}

-- What carrying out decisions one after the other is: from a world, through the decisions, to the entries of
-- the ledger or to what was raised, and a world.
pub data Executes {W : Type 0} (arms : Arms W) (write_kinds : Dict String Spec)
    : List Decided → W → Result Text (List Diff) → W → Type 0 where
  finished : {w : W} → Executes arms write_kinds [] w (ok []) w
  -- An approved item is handed to `auto_apply` in the world that the decisions before it left, and its entry
  -- says what came back.
  carried_out :
      {item : Proposed} {edited applied : Bool} {detail : Text} {ds : List Decided} {xs : List Diff}
      {w mid last : W}
      → auto_apply arms write_kinds item w ≡ (ok (applied, detail), mid)
      → Executes arms write_kinds ds mid (ok xs) last
      → Executes arms write_kinds
          (record { item = item; decision = approved; edited = edited } ∷ ds)
          w
          (ok
            (record { item = item; decision = approved; applied = applied; edited = edited } ∷ xs))
          last
  -- A refused item is entered as not applied, and the world is left alone.
  passed_over :
      {item : Proposed} {edited : Bool} {ds : List Decided} {xs : List Diff} {w last : W}
      → Executes arms write_kinds ds w (ok xs) last
      → Executes arms write_kinds
          (record { item = item; decision = refused; edited = edited } ∷ ds)
          w
          (ok (record { item = item; decision = refused; applied = false; edited = edited } ∷ xs))
          last
  -- What the arm of an approved item raises ends the run: no later decision is carried out.
  raised_at :
      {item : Proposed} {edited : Bool} {raised : Text} {ds : List Decided} {w last : W}
      → auto_apply arms write_kinds item w ≡ (err raised, last)
      → Executes arms write_kinds
          (record { item = item; decision = approved; edited = edited } ∷ ds)
          w
          (err raised)
          last
  -- What a later decision raises leaves no entries of the earlier ones.
  raised_later :
      {item : Proposed} {edited applied : Bool} {raised detail : Text} {ds : List Decided}
      {w mid last : W}
      → auto_apply arms write_kinds item w ≡ (ok (applied, detail), mid)
      → Executes arms write_kinds ds mid (err raised) last
      → Executes arms write_kinds
          (record { item = item; decision = approved; edited = edited } ∷ ds)
          w
          (err raised)
          last
  refused_before :
      {item : Proposed} {edited : Bool} {raised : Text} {ds : List Decided} {w last : W}
      → Executes arms write_kinds ds w (err raised) last
      → Executes arms write_kinds
          (record { item = item; decision = refused; edited = edited } ∷ ds)
          w
          (err raised)
          last

module _ {W : Type 0} (arms : Arms W) (write_kinds : Dict String Spec) where
  executed-refused :
      (d : Decision) (item : Proposed) (w : W)
      → is_approved d ≡ false
      → executed arms write_kinds d item w ≡ (ok false, w)
  executed-refused approved item w h = absurd (ground arith)
  executed-refused refused item w h = refl

  apply_decisions-approved :
      (item : Proposed) (edited applied : Bool) (detail : Text) (ds : List Decided) (w mid last : W)
      (rest : Result Text (List Diff))
      → auto_apply arms write_kinds item w ≡ (ok (applied, detail), mid)
      → apply_decisions arms write_kinds ds mid ≡ (rest, last)
      → let d : Decided = record { item = item; decision = approved; edited = edited } in
        apply_decisions arms write_kinds (d ∷ ds) w
        ≡ (entered arms write_kinds d applied rest, last)
  unfolding apply_decisions
  apply_decisions-approved item edited applied detail ds w mid last rest e f = ground (arith, e, f)

  apply_decisions-raised :
      (item : Proposed) (edited : Bool) (raised : Text) (ds : List Decided) (w mid : W)
      → auto_apply arms write_kinds item w ≡ (err raised, mid)
      → let d : Decided = record { item = item; decision = approved; edited = edited } in
        apply_decisions arms write_kinds (d ∷ ds) w ≡ (err raised, mid)
  unfolding apply_decisions
  apply_decisions-raised item edited raised ds w mid e = ground (arith, e)

  approved-Executes :
      (item : Proposed) (edited : Bool) (ds : List Decided) (w mid last : W)
      (r : Result Text (Bool × Text)) (rest : Result Text (List Diff))
      → auto_apply arms write_kinds item w ≡ (r, mid)
      → apply_decisions arms write_kinds ds mid ≡ (rest, last)
      → Executes arms write_kinds ds mid rest last
      → let d : Decided = record { item = item; decision = approved; edited = edited } in
        let after = apply_decisions arms write_kinds (d ∷ ds) w in
        Executes arms write_kinds (d ∷ ds) w after.0 after.1
  unfolding apply_decisions
  approved-Executes item edited ds w mid last (err raised) rest e f x =
      rw (apply_decisions-raised item edited raised ds w mid e) (raised_at e)
  approved-Executes item edited ds w mid last (ok (applied, detail)) (err raised) e f x =
      rw (apply_decisions-approved item edited applied detail ds w mid last (err raised) e f)
        (raised_later e x)
  approved-Executes item edited ds w mid last (ok (applied, detail)) (ok xs) e f x =
      rw (apply_decisions-approved item edited applied detail ds w mid last (ok xs) e f)
        (carried_out e x)

  refused-Executes :
      (item : Proposed) (edited : Bool) (ds : List Decided) (w last : W)
      (rest : Result Text (List Diff))
      → apply_decisions arms write_kinds ds w ≡ (rest, last)
      → Executes arms write_kinds ds w rest last
      → let d : Decided = record { item = item; decision = refused; edited = edited } in
        let after = apply_decisions arms write_kinds (d ∷ ds) w in
        Executes arms write_kinds (d ∷ ds) w after.0 after.1
  unfolding apply_decisions
  refused-Executes item edited ds w last (err raised) f x = rw f (refused_before x)
  refused-Executes item edited ds w last (ok xs) f x = rw f (passed_over x)

  one-Executes :
      (decision : Decision) (item : Proposed) (edited : Bool) (ds : List Decided) (w : W)
      → ((v : W)
          → let rest = apply_decisions arms write_kinds ds v in
            Executes arms write_kinds ds v rest.0 rest.1)
      → let d : Decided = record { item = item; decision = decision; edited = edited } in
        let after = apply_decisions arms write_kinds (d ∷ ds) w in
        Executes arms write_kinds (d ∷ ds) w after.0 after.1
  one-Executes approved item edited ds w later =
      let r = auto_apply arms write_kinds item w in
      let rest = apply_decisions arms write_kinds ds r.1 in
      approved-Executes item edited ds w r.1 rest.1 r.0 rest.0 refl refl (later r.1)
  one-Executes refused item edited ds w later =
      let rest = apply_decisions arms write_kinds ds w in
      refused-Executes item edited ds w rest.1 rest.0 refl (later w)

  -- Decisions are carried out in order, each in the world that the one before it left. A refused one is not
  -- executed and is entered as not applied; an approved one is entered as applied exactly where
  -- `auto_apply` came back with that; and each entry carries the item, the decision and the edited mark of
  -- its decision. What an arm raises ends the run there, with no entries, in the world as the arm left it.
  pub apply_decisions-Executes :
      (decisions : List Decided) (w : W)
      → let after = apply_decisions arms write_kinds decisions w in
        Executes arms write_kinds decisions w after.0 after.1
  apply_decisions-Executes [] w = unfold apply_decisions in finished
  apply_decisions-Executes (d ∷ decisions) w =
      one-Executes d.decision d.item d.edited decisions w (apply_decisions-Executes decisions)

  -- Where no decision approves, the world is left as it was.
  pub apply_decisions-refused :
      (decisions : List Decided) (w : W)
      → any (λ d. is_approved d.decision) decisions ≡ false
      → (apply_decisions arms write_kinds decisions w).1 ≡ w
  unfolding apply_decisions
  apply_decisions-refused [] w h = refl
  apply_decisions-refused (d ∷ decisions) w h = ground (
    arith,
    executed-refused d.decision d.item w,
    apply_decisions-refused decisions w (ground arith),
  )

  -- A `pr` or `shell` kind, or a kind without an arm, is never executed here: the world is left as it was
  -- and nothing is reported as applied.
  pub auto_apply-unarmed :
      (item : Proposed) (w : W)
      → (apply_arm_for item.kind write_kinds ≡ none)
        ⊎ ((apply_arm_for item.kind write_kinds ≡ some "pr")
            ⊎ (apply_arm_for item.kind write_kinds ≡ some "shell"))
      → (detail : Text) × (auto_apply arms write_kinds item w ≡ (ok (false, detail), w))
  unfolding auto_apply
  auto_apply-unarmed item w (inl e) = rw (auto_apply, e) (_, refl)
  auto_apply-unarmed item w (inr (inl e)) = rw (auto_apply, e) (_, refl)
  auto_apply-unarmed item w (inr (inr e)) = rw (auto_apply, e) (_, refl)

  -- The workstore arm never overwrites with a creation, and never creates with an update.
  pub apply_workstore-guards :
      (path item : Text) (w : W)
      → (arms.exists path w ≡ true → (apply_workstore arms (item_create path item) w).1 ≡ w)
        × (arms.exists path w ≡ false → (apply_workstore arms (item_update path item) w).1 ≡ w)
  unfolding apply_workstore
  apply_workstore-guards path item w = (λ h. rw h refl, λ h. rw h refl)
