-- ===== src/Queue/Examples.antt =====
-- A queue of two tasks, and the theorems at it.
use coxswain_graphs.Prelude.{
  ◌+◌, Bool, ◌≡◌, ◌≢◌, refl, String, true, false, not, ◌||◌, none, some, [], ◌∷◌, ◌==◌, list_eq,
  nat_eq, string_eq, if◌then◌else◌, text_eq, codes, arith, all, ok, err,
}
use coxswain_graphs.Queue.{
  Value, null, text, integer, truth, json, Stored, Table, read_rows, current, Sent,
  priority_problem, issue_number_problem, resolved, unchanged, upsert_stmt, upsert, bad_priority,
  refused_row, Engine, is_accepted, is_missing, content_columns, claim, Claim, release,
}
use coxswain_graphs.Queue.Cells.{cell, IsKeyed}
use coxswain_graphs.Queue.Claims.{Others, claim-exclusive}
use coxswain_graphs.Queue.Columns.{is_typed, IsFaithful}
use coxswain_graphs.Queue.Upserts.{column, claim_in, read_back, upsert-read}
use coxswain_graphs.Queue.Resent.{upsert-twice, upsert-stored}

program : Unit {0}
unfolding read_rows current priority_problem issue_number_problem resolved unchanged upsert_stmt
    upsert is_accepted claim release
program = tt

abbrev stored : String → Stored
stored task = record {
  initiative = codes "e1";
  task_id = codes task;
  content = λ k.
      if k == "priority"
      then integer 2
      else if k == "phase"
      then text (codes "build")
      else if k == "state"
      then text (codes "new")
      else if k == "needs"
      then json (codes "[]")
      else null;
  updated_at = [];
  updated_by = [];
  holder = none;
  epoch = 4;
  expires_at = none;
}

abbrev table : Table
table = stored "a" ∷ []

table-IsKeyed : IsKeyed table
table-IsKeyed = λ initiative task. (λ _. refl, tt)

abbrev sent : String → Sent
sent task = record {
  initiative = codes "e1";
  task_id = codes task;
  fields = ("state", text (codes "ready")) ∷ [];
  updated_at = none;
  updated_by = none;
}

abbrev first : Claim
first = record { holder = some (codes "h"); epoch = 5; expires_at = some 160 }

claimed_first : (claim (codes "e1") (codes "a") (codes "h") 60 100 table).0 ≡ some first
unfolding program
claimed_first = refl

abbrev held_table : Table
held_table = (claim (codes "e1") (codes "a") (codes "h") 60 100 table).1

h_ne : codes "g" ≢ codes "h"
h_ne e = ground (arith, text_eq.beq_iff (codes "g") (codes "h"))

-- Another holder tries twice, and the state is written in between.
between :
    Others
      (codes "h")
      (100 + 60)
      held_table
      (release (codes "e1") (codes "a") (codes "g") held_table).1
between = Others.releases (codes "e1") (codes "a") (codes "g") h_ne Others.nothing

claim-exclusive_example :
    let u = (release (codes "e1") (codes "a") (codes "g") held_table).1 in
    (claim (codes "e1") (codes "a") (codes "g") 30 160 u ≡ (none, u))
    × ((r : Stored) × (cell (codes "e1") (codes "a") u ≡ some r) × (some r.epoch ≡ some 5))
claim-exclusive_example =
    claim-exclusive (codes "e1") (codes "a") (codes "h") (codes "g") 60 100 30 160 table
      (release (codes "e1") (codes "a") (codes "g") held_table).1 first table-IsKeyed claimed_first
      between h_ne (omega arith)

-- After its expiry another holder gets it, at the next epoch.
expired :
    (claim (codes "e1") (codes "a") (codes "g") 30 161 held_table).0
    ≡ some (record { holder = some (codes "g"); epoch = 6; expires_at = some 191 })
unfolding program
expired = refl

-- A database that turns a truth into a digit where the column is one of text or of integers.
abbrev digit : Value → Value
digit (truth true) = text (codes "1")
digit (truth false) = text (codes "0")
digit v = v

abbrev engine : Engine
engine = record { takes = λ k v. true; gives_back = λ k v. if is_typed k v then v else digit v }

engine-IsFaithful : IsFaithful engine
engine-IsFaithful = record { kept = λ k v typed taken. rw typed refl }

abbrev row_of : String → Value → Sent
row_of k v = record {
  initiative = codes "e1";
  task_id = codes "a";
  fields = (k, v) ∷ [];
  updated_at = none;
  updated_by = none;
}

bad : upsert engine (row_of "priority" (truth true)) [] table ≡ err (bad_priority (truth true))
unfolding program
bad = refl

-- A state that is cleared is refused, and so is a new row of a state alone.
refused_rows :
    (upsert engine (row_of "state" null) [] table ≡ err refused_row)
    × (upsert engine (sent "b") [] table ≡ err refused_row)
unfolding program
refused_rows = (refl, refl)

abbrev after : Table
after =
    upsert_stmt (sent "a") (read_back engine (current (codes "e1") (codes "a") table) (sent "a"))
      (codes "now") table

wrote : upsert engine (sent "a") (codes "now") table ≡ ok (true, after)
unfolding program
wrote = refl

kept_columns :
    (column "state" (cell (codes "e1") (codes "a") after) ≡ some (text (codes "ready")))
    × (column "priority" (cell (codes "e1") (codes "a") after) ≡ some (integer 2))
unfolding program
kept_columns = (refl, refl)

-- A title that is not a text is read back as another value, so the same row is written again.
abbrev titled : Sent
titled = row_of "title" (truth true)

abbrev titled_after : Table
titled_after =
    upsert_stmt titled (read_back engine (current (codes "e1") (codes "a") table) titled) [] table

untyped :
    (upsert engine titled [] table ≡ ok (true, titled_after))
    × (unchanged (current (codes "e1") (codes "a") titled_after) titled.fields ≡ false)
unfolding program
untyped = (refl, refl)

state_typed :
    is_typed "state" (
      resolved (cell (codes "e1") (codes "a") table) (("state", text (codes "ready")) ∷ []) "state")
    ≡ true
unfolding program
state_typed = refl

all_typed :
    all
      (λ k.
        is_typed k
          (resolved (cell (codes "e1") (codes "a") table) (("state", text (codes "ready")) ∷ []) k))
      content_columns
    ≡ true
unfolding program
all_typed = refl

upsert-read_example :
    (column "state" (cell (codes "e1") (codes "a") after)
      ≡ some (
          resolved
            (cell (codes "e1") (codes "a") table)
            (("state", text (codes "ready")) ∷ [])
            "state"))
    × (claim_in (cell (codes "e1") (codes "a") after)
        ≡ claim_in (cell (codes "e1") (codes "a") table))
    × ((not true
          || not (
              is_missing "state" (
                resolved
                  (cell (codes "e1") (codes "a") table)
                  (("state", text (codes "ready")) ∷ [])
                  "state")))
        ≡ true)
upsert-read_example =
    upsert-read engine (sent "a") (codes "now") table after true "state" engine-IsFaithful
      table-IsKeyed wrote refl state_typed

upsert-twice_example : upsert engine (sent "a") (codes "later") after ≡ ok (false, after)
upsert-twice_example =
    upsert-twice engine (sent "a") (codes "now") (codes "later") table after true engine-IsFaithful
      table-IsKeyed wrote all_typed

-- A new row with what its columns ask for.
abbrev whole : Sent
whole = record {
  initiative = codes "e1";
  task_id = codes "b";
  fields =
      ("phase", text (codes "build"))
      ∷ ("state", text (codes "new"))
      ∷ ("needs", json (codes "[\"a\"]"))
      ∷ [];
  updated_at = none;
  updated_by = none;
}

whole_accepted :
    is_accepted engine (resolved (cell (codes "e1") (codes "b") table) whole.fields) ≡ true
unfolding program
whole_accepted = refl

whole_typed :
    all
      (λ j. is_typed j (resolved (cell (codes "e1") (codes "b") table) whole.fields j))
      content_columns
    ≡ true
unfolding program
whole_typed = refl

whole_problems : (priority_problem whole ≡ none) × (issue_number_problem whole ≡ none)
unfolding program
whole_problems = (refl, refl)

upsert-stored_example :
    (wrote : Bool) × (u : Table) × (upsert engine whole (codes "now") table ≡ ok (wrote, u))
    × (column "needs" (cell (codes "e1") (codes "b") u)
        ≡ some (resolved (cell (codes "e1") (codes "b") table) whole.fields "needs"))
    × (upsert engine whole (codes "later") u ≡ ok (false, u))
upsert-stored_example =
    upsert-stored engine whole (codes "now") (codes "later") table "needs" engine-IsFaithful
      table-IsKeyed whole_problems.0 whole_problems.1 whole_accepted whole_typed refl
