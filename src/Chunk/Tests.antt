-- ===== src/Chunk/Tests.antt =====
-- The planner at concrete objects, and the theorems about it at inputs that meet their hypotheses.
use pget.Base.{ℕ, ◌≡◌, refl, List, [], ◌∷◌, Option, none, some, map, arith, length}
use mathlib.Core.Bool.{xor}
use pget.Base.Int64.{div64}
use pget.Chunk.{Chunk, chunk_at, plan, chunk_count}
use pget.Chunk.Tiling.{Tiles, plan-Tiles}

spans : Option (List Chunk) → List ℕ
spans none = []
spans (some cs) = map (λ c. c.length) cs

plan_ten_by_four : spans (plan 4 10) ≡ 4 ∷ 4 ∷ 2 ∷ []
unfolding spans plan div64 xor chunk_at
plan_ten_by_four = refl

plan_unknown_size : plan 4 (18446744073709551615) ≡ some []
unfolding plan
plan_unknown_size = refl

plan_split_zero : plan 0 10 ≡ none
unfolding plan
plan_split_zero = refl

plan-Tiles_example :
    (cs : List Chunk) × (plan 4 10 ≡ some cs)
    × Tiles 4 10 0 0 cs
    × (chunk_count 4 10 ≡ some (length cs))
plan-Tiles_example = plan-Tiles 4 10 (omega arith) (omega arith) (omega arith)
