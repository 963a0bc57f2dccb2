-- ===== src/Queue/Columns.antt =====
-- The types of the columns of `work_items`, by the migrations 0006, 0009, 0012 and 0013.
use coxswain_graphs.Prelude.{
  ◌≡◌, String, Bool, true, false, ◌∷◌, [], if◌then◌else◌, elem, string_eq, ltb,
}
use coxswain_graphs.Queue.{Value, null, text, integer, negative, truth, json, Engine}

abbrev pub is_string : Value → Bool
is_string null = true
is_string (text s) = true
is_string (integer n) = false
is_string (negative n) = false
is_string (truth b) = false
is_string (json s) = false

-- Within the four bytes of an integer column.
abbrev pub is_number : Value → Bool
is_number null = true
is_number (text s) = false
is_number (integer n) = ltb n 2147483648
is_number (negative n) = ltb n 2147483648
is_number (truth b) = false
is_number (json s) = false

-- A json column holds any value: it is written by `json_text` and read by `json_load`.
abbrev pub is_typed : String → Value → Bool
is_typed k v =
    if elem k ("needs" ∷ "surfaces" ∷ "extra" ∷ [])
    then true
    else if elem k ("priority" ∷ "issue_number" ∷ [])
    then is_number v
    else is_string v

-- A column gives back a value of its own type as it was written.
pub record IsFaithful (engine : Engine) : Type 0 where
  pub kept :
      (k : String) (v : Value)
      → is_typed k v ≡ true
      → engine.takes k v ≡ true
      → engine.gives_back k v ≡ v
