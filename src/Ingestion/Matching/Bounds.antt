-- ===== src/Ingestion/Matching/Bounds.antt =====
-- The confidences that a match can have.
use fifa_world_cup_ai_agent.Prelude.{ℕ, ◌*◌, ◌+◌, ◌-◌, ◌≤◌, arith}
use fifa_world_cup_ai_agent.Ingestion.Matching.{
  unit, smaller, full_score, fuzzy_floor_score, quantize, scale_fuzzy_confidence,
}

quantize-bounds :
    (n : ℕ)
    → 850 * (15 * unit) ≤ n
    → n ≤ 949 * (15 * unit)
    → (850 ≤ quantize n) × (quantize n ≤ 949)
unfolding quantize
quantize-bounds n h k = (ground arith, ground arith)

smaller-bounds : (c a b : ℕ) → c ≤ a → c ≤ b → (c ≤ smaller a b) × (smaller a b ≤ b)
smaller-bounds c a b h k = (ground arith, ground arith)

-- The scaled confidence of a score at or above the floor is from 850 to 949 thousandths, below the
-- 950 that is accepted without a review.
pub scale_fuzzy_confidence-bounds :
    (score : ℕ)
    → fuzzy_floor_score ≤ score
    → (850 ≤ scale_fuzzy_confidence score) × (scale_fuzzy_confidence score ≤ 949)
unfolding scale_fuzzy_confidence
scale_fuzzy_confidence-bounds score h =
    let scaled = 850 * (15 * unit) + (smaller score full_score - fuzzy_floor_score) * 99 in
    let (low, high) =
      smaller-bounds (850 * (15 * unit)) scaled (949 * (15 * unit)) (omega arith) (omega arith) in
    quantize-bounds (smaller scaled (949 * (15 * unit))) low high
