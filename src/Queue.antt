-- ===== src/Queue.antt =====
-- harness/store_queue.py: the queue rows of the work items, and the claims on them.
-- A timestamp that is compared is its instant in whole seconds; the stamps that are only stored are texts.
-- A statement is a function of the table. The columns' defaults are those of the migrations: no claim,
-- epoch 0, priority 0; and so are the columns that refuse NULL. What the database makes of a value that is
-- not of a column's type is an argument.
pub mod Cells
pub mod Claims
pub mod Columns
pub mod Upserts
pub mod Resent
mod Examples
use coxswain_graphs.Prelude.{
  ℕ, zero, suc, ◌+◌, String, Bool, true, false, not, ◌&&◌, ◌||◌, Option, none, some, List, [], ◌∷◌,
  ◌++◌, map, all, select, elem, length, if◌then◌else◌, ◌==◌, Eq, list_eq, string_eq, nat_eq,
  option_eq, nat_beq, ltb, Text, text_ord, codes, sort_by, Dict, lookup, Result, ok, err, is_empty,
  ◌↔◌, ◌≡◌, arith, text_eq,
}

-- A column's value, as `json` decodes it; a list or an object by its text.
pub data Value : Type 0 where
  null : Value
  text : Text → Value
  integer : ℕ → Value
  negative : ℕ → Value
  truth : Bool → Value
  json : Text → Value

abbrev bool_beq : Bool → Bool → Bool
bool_beq true b = b
bool_beq false b = not b

-- Python's `==` on the values, where True and 1 do not meet: a column holds one kind.
abbrev value_beq : Value → Value → Bool
value_beq null null = true
value_beq (text a) (text b) = a == b
value_beq (integer a) (integer b) = a == b
value_beq (negative a) (negative b) = a == b
value_beq (truth a) (truth b) = bool_beq a b
value_beq (json a) (json b) = a == b
value_beq _ _ = false

pub value_beq_iff : (x y : Value) → (value_beq x y ≡ true) ↔ (x ≡ y)
value_beq_iff (text a) (text b) = ground (arith, text_eq.beq_iff a b)
value_beq_iff (json a) (json b) = ground (arith, text_eq.beq_iff a b)
value_beq_iff _ _ = ground arith

instance abbrev pub value_eq : Eq Value
value_eq = record { beq = value_beq; beq_iff = value_beq_iff }

-- A row of `work_items`. `content` is read at the names of `content_columns` only.
pub record Stored : Type 0 where
  pub initiative : Text
  pub task_id : Text
  pub content : String → Value
  pub updated_at : Text
  pub updated_by : Text
  pub holder : Option Text
  pub epoch : ℕ
  pub expires_at : Option ℕ

abbrev pub Table : Type 0
Table = List Stored

-- `_CONTENT`
abbrev pub content_columns : List String
content_columns =
    "kind" ∷ "phase" ∷ "state" ∷ "needs" ∷ "title" ∷ "surfaces" ∷ "body" ∷ "extra" ∷ "priority"
    ∷ "issue_number" ∷ "project_item_id" ∷ "parent_item" ∷ []

abbrev pub is_key : Text → Text → Stored → Bool
is_key initiative task r = r.initiative == initiative && r.task_id == task

abbrev pub find_first {ℓ} : {A : Type ℓ} → (A → Bool) → List A → Option A
find_first p [] = none
find_first p (x ∷ xs) = let rest = find_first p xs in if p x then some x else rest

abbrev fits : Option Value → Value → Bool
fits none v = true
fits (some w) v = v == w

-- `read`: the rows of an initiative and of a kind, where these are given, in order of the key.
pub read_rows : Option Text → Option Value → Table → List Stored
read_rows initiative kind table =
    sort_by (λ r. r.initiative)
      (sort_by (λ r. r.task_id)
        (select
          (λ r.
            (elim initiative [ none ↦ true | some i ↦ r.initiative == i ])
            && fits kind (r.content "kind"))
          table))

-- `_current`
pub current : Text → Text → Table → Option Stored
current initiative task table =
    find_first (λ r. r.task_id == task) (read_rows (some initiative) none table)

-- What a caller sends: the keys of the content that the row carries, and its stamps.
pub record Sent : Type 0 where
  pub initiative : Text
  pub task_id : Text
  pub fields : Dict String Value
  pub updated_at : Option Text
  pub updated_by : Option Text

abbrev is_integer : Value → Bool
is_integer null = false
is_integer (text s) = false
is_integer (integer n) = true
is_integer (negative n) = true
is_integer (truth b) = false
is_integer (json s) = false

-- `bad_…` is a ValueError of `upsert`, `refused_row` an error of the database.
pub data Problem : Type 0 where
  bad_priority bad_issue_number : Value → Problem
  refused_row : Problem

pub priority_problem : Sent → Option Problem
priority_problem row = elim (lookup "priority" row.fields) [
  | none ↦ none
  | some v ↦ if is_integer v then none else some (bad_priority v)
]

pub issue_number_problem : Sent → Option Problem
issue_number_problem row = elim (lookup "issue_number" row.fields) [
  | none ↦ none
  | some v ↦ if v == null || is_integer v then none else some (bad_issue_number v)
]

-- `{**kept, **row, "priority": …}` at a column, `none` for a key that is left out read as null.
pub resolved : Option Stored → Dict String Value → String → Value
resolved now fields k = elim (lookup k fields) [
  | some v ↦ v
  | none ↦ elim now [ some r ↦ r.content k | none ↦ if k == "priority" then integer 0 else null ]
]

pub unchanged : Option Stored → Dict String Value → Bool
unchanged none fields = false
unchanged (some r) fields = all (λ k. r.content k == resolved (some r) fields k) content_columns

-- `value or default`
abbrev stamp : Option Text → Text → Text
stamp none d = d
stamp (some s) d = if is_empty s then d else s

-- The database: whether a column takes a value, and what it gives back of one that it took.
pub record Engine : Type 0 where
  pub takes : String → Value → Bool
  pub gives_back : String → Value → Value

-- The columns of migrations 0006 and 0012 that refuse NULL.
abbrev pub not_null : List String
not_null = "phase" ∷ "state" ∷ "needs" ∷ "priority" ∷ []

abbrev pub is_missing : String → Value → Bool
is_missing k v = elem k not_null && v == null

-- Whether the statement goes through with these values.
pub is_accepted : Engine → (String → Value) → Bool
is_accepted engine values =
    all (λ k. not (is_missing k (values k)) && engine.takes k (values k)) content_columns

-- What the statement leaves in a row that is there: the listed columns, and no claim. `values` are the
-- columns as they are read back.
abbrev pub written : Sent → (String → Value) → Text → Stored → Stored
written row values clock r = record r {
  content = values;
  updated_at = stamp row.updated_at clock;
  updated_by = stamp row.updated_by (codes "store_queue");
}

abbrev pub blank_row : Text → Text → Stored
blank_row initiative task = record {
  initiative = initiative;
  task_id = task;
  content = λ k. null;
  updated_at = [];
  updated_by = [];
  holder = none;
  epoch = 0;
  expires_at = none;
}

abbrev pub update : (Stored → Bool) → (Stored → Stored) → Table → Table
update p f table = map (λ r. if p r then f r else r) table

-- `INSERT … ON CONFLICT (initiative, task_id) DO UPDATE SET …`
pub upsert_stmt : Sent → (String → Value) → Text → Table → Table
upsert_stmt row values clock table = elim (find_first (is_key row.initiative row.task_id) table) [
  | some r ↦ update (is_key row.initiative row.task_id) (written row values clock) table
  | none ↦ table ++ written row values clock (blank_row row.initiative row.task_id) ∷ []
]

-- `problem or problem`
abbrev or_else : Option Problem → Option Problem → Option Problem
or_else none q = q
or_else (some p) q = some p

-- `upsert`, where `clock` is the time that a row without a stamp gets. A refused row is rolled back.
pub upsert : Engine → Sent → Text → Table → Result Problem (Bool × Table)
upsert engine row clock table = elim (or_else (priority_problem row) (issue_number_problem row)) [
  | some problem ↦ err problem
  | none ↦
      let now = current row.initiative row.task_id table in
      let values = resolved now row.fields in
      if unchanged now row.fields
      then ok (false, table)
      else if is_accepted engine values
      then ok (true, upsert_stmt row (λ k. engine.gives_back k (values k)) clock table)
      else err refused_row
]

-- `expires_at < now`, where NULL compares to nothing.
abbrev pub is_past : Option ℕ → ℕ → Bool
is_past none now = false
is_past (some t) now = ltb t now

abbrev pub may_claim : Text → ℕ → Stored → Bool
may_claim holder now r = r.holder == none || is_past r.expires_at now || r.holder == some holder

abbrev pub claimed : Text → ℕ → Stored → Stored
claimed holder until r = record r {
  holder = some holder;
  epoch = r.epoch + 1;
  expires_at = some until;
}

pub record Claim : Type 0 where
  pub holder : Option Text
  pub epoch : ℕ
  pub expires_at : Option ℕ

abbrev pub claim_of : Stored → Claim
claim_of r = record { holder = r.holder; epoch = r.epoch; expires_at = r.expires_at }

pub claim : Text → Text → Text → ℕ → ℕ → Table → Option Claim × Table
claim initiative task holder ttl now table =
    let wins = λ (r : Stored). is_key initiative task r && may_claim holder now r in
    let after = update wins (claimed holder (now + ttl)) table in
    if nat_beq (length (select wins table)) 1
    then (
      elim (find_first (is_key initiative task) after) [ none ↦ none | some r ↦ some (claim_of r) ],
      after,
    )
    else (none, after)

abbrev pub freed : Stored → Stored
freed r = record r { holder = none; expires_at = none }

pub release : Text → Text → Text → Table → Bool × Table
release initiative task holder table =
    let hers = λ (r : Stored). is_key initiative task r && r.holder == some holder in
    (nat_beq (length (select hers table)) 1, update hers freed table)
