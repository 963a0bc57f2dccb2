-- ===== src/Cartridge.antt =====
-- The resolved cartridge, the proposals that graphs emit, and their evidence, with the fields that the
-- modelled code reads. A missing key is `none`, or is no key of the dictionary.
use coxswain_graphs.Prelude.{ℕ, String, Bool, Option, List, Text, Dict}

-- One entry of `write_kinds`: a mapping, or something else that the cartridge put there.
pub data Spec : Type 0 where
  mapping : (risk apply_arm : Option String) → Spec
  malformed : Spec

pub record EpicThreshold : Type 0 where
  pub phases_min : Option ℕ
  pub tickets_min : Option ℕ
  pub multi_repo : Option Bool

pub record ReviewConfig : Type 0 where
  pub tier2_surfaces : List String
  pub tier0_patterns : List String
  pub tier0_max_changed_lines : Option ℕ
  pub tier1_max_changed_lines : Option ℕ
  pub tier1_max_modules : Option ℕ

pub record Cartridge : Type 0 where
  pub write_kinds : Dict String Spec
  pub epic_threshold : EpicThreshold
  pub routing_states : Dict String String
  pub landing_areas : Dict String String
  pub review : ReviewConfig

pub record Evidence : Type 0 where
  pub check : String
  pub output : Text

pub record Proposal : Type 0 where
  pub kind : String
  pub risk : String
  pub target : String
  pub evidence : List Evidence
  pub rationale : String
  pub suggested_action : String
  pub subject : Option String
  pub subject_new : Bool
  pub attempts : Option ℕ
  pub escalated_from : Option String
