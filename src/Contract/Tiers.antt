-- ===== src/Contract/Tiers.antt =====
-- Review tiers and epic shapes: danger first, then size, and nothing skips review.
use coxswain_graphs.Prelude.{ℕ, ◌≤◌, String, ◌≡◌, true, List, arith}
use coxswain_graphs.Cartridge.{Cartridge, EpicThreshold}
use coxswain_graphs.Contract.{ChangeFacts, review_tier, touches_danger, epic, epic_shape}

-- For the same surfaces and patterns, a change that is no smaller in lines and in modules is reviewed at
-- no lower a tier, and every tier is at most 2.
pub review_tier-grows :
    (cartridge : Cartridge) (small large : ChangeFacts) (surfaces patterns : List String)
    → small.changed_lines ≤ large.changed_lines
    → small.module_count ≤ large.module_count
    → (review_tier cartridge small surfaces patterns
        ≤ review_tier cartridge large surfaces patterns)
      × (review_tier cartridge large surfaces patterns ≤ 2)
unfolding review_tier
review_tier-grows cartridge small large surfaces patterns lines modules = ground arith

-- A change on a dangerous surface is at tier 2, whatever its size and its patterns.
pub review_tier-danger :
    (cartridge : Cartridge) (facts : ChangeFacts) (surfaces patterns : List String)
    → touches_danger cartridge.review surfaces ≡ true
    → review_tier cartridge facts surfaces patterns ≡ 2
unfolding review_tier
review_tier-danger cartridge facts surfaces patterns h = ground arith

-- More phases, tickets and repositories never make a smaller shape: what is an epic stays one.
pub epic_shape-grows :
    (threshold : EpicThreshold) (phases tickets repos phases' tickets' repos' : ℕ)
    → phases ≤ phases'
    → tickets ≤ tickets'
    → repos ≤ repos'
    → epic_shape threshold phases tickets repos ≡ epic
    → epic_shape threshold phases' tickets' repos' ≡ epic
unfolding epic_shape
epic_shape-grows threshold phases tickets repos phases' tickets' repos' p t r h = ground arith
