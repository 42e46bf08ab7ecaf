-- ===== src/Memory/Types/Quality.antt =====
-- How the quality of an item depends on what is known of it.
use xenopus.Prelude.{◌≤◌, arith}
use xenopus.Memory.Types.{MemoryQuality, score}

-- A score lies between 0 and 1. It does not fall with better provenance, freshness or more reuses, nor
-- rise with more corrections.
pub score_bounds :
    (q r : MemoryQuality)
    → q.provenance ≤ r.provenance
    → q.freshness ≤ r.freshness
    → q.reuse_success ≤ r.reuse_success
    → r.corrections ≤ q.corrections
    → (score q ≤ score r) × (score r ≤ 1000)
unfolding score
score_bounds q r p f u c = omega arith
