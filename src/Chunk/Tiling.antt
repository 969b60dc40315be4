-- ===== src/Chunk/Tiling.antt =====
-- The layout that `Plan` computes.
use pget.Base.{
  ℕ, zero, suc, ◌+◌, ◌-◌, ◌*◌, ◌/◌, ◌≤◌, ◌<◌, ◌≡◌, refl, sym, ap, subst, ◌∙◌, false, List, [], ◌∷◌,
  some, arith, length,
}
use native.Mathlib.Nat.{div-le_self, add-div_left, div-add-mod', mod-lt}
use Prim.Native.Nat.add
use pget.Base.Int64.{half, div64, div64-eq, add64, sub64, le64}
use pget.Chunk.{Chunk, pending, chunk_at, chunks_from, quotient_up, plan, chunk_count}

-- The chunks, numbered from `i`, cut the bytes from `off` to `size` into consecutive non-empty
-- pieces of at most `split` bytes; all but the last have exactly `split`.
abbrev pub Tiles : ℕ → ℕ → ℕ → ℕ → List Chunk → Type 0
Tiles split size i off [] = off ≡ size
Tiles split size i off (c ∷ cs) =
    (c.index ≡ i)
    × (c.start ≡ off)
    × (0 < c.length)
    × (c.length ≤ split)
    × (c.state ≡ pending)
    × Tiles split size (suc i) (off + c.length) cs

module _ (split size : ℕ) (positive : 0 < split) (small : size + split ≤ half) where
  chunk_at_full :
      (i : ℕ)
      → suc i * split ≤ size
      → ((chunk_at split size i).start ≡ i * split) × ((chunk_at split size i).length ≡ split)
  unfolding chunk_at
  chunk_at_full i h = ground arith

  chunk_at_last :
      (i : ℕ)
      → i * split < size
      → size ≤ suc i * split
      → ((chunk_at split size i).start ≡ i * split)
        × ((chunk_at split size i).length ≡ size - i * split)
  unfolding chunk_at
  chunk_at_last i h k = ground arith

  chunks_from-Tiles :
      (n i : ℕ)
      → (i + n) * split < size
      → size ≤ suc (i + n) * split
      → Tiles split size i (i * split) (chunks_from split size (suc n) i)
  unfolding chunks_from
  chunks_from-Tiles zero i h k =
      let (at, len) = chunk_at_last i (omega arith) (omega arith) in
      (unfold chunk_at in refl, at, omega arith, omega arith, unfold chunk_at in refl, omega arith)
  chunks_from-Tiles (suc n) i h k =
      let (at, len) = chunk_at_full i (grind arith) in
      let next : i * split + (chunk_at split size i).length ≡ suc i * split = omega arith in
      (
        unfold chunk_at in refl,
        at,
        omega arith,
        omega arith,
        unfold chunk_at in refl,
        rw next (chunks_from-Tiles n (suc i) (omega arith) (omega arith)),
      )

  quotient_up_lem : 0 < size → quotient_up split size ≡ some (suc ((size - 1) / split))
  unfolding quotient_up
  quotient_up_lem h =
      let numerator : sub64 (add64 size split) 1 ≡ split + (size - 1) = omega arith in
      let up : (split + (size - 1)) / split ≡ suc ((size - 1) / split) =
        omega (arith, add-div_left (size - 1) positive) in
      let small_up : (split + (size - 1)) / split < half =
        omega (arith, div-le_self (split + (size - 1)) split) in
      let value : div64 (sub64 (add64 size split) 1) split ≡ suc ((size - 1) / split) =
        rw numerator
          (div64-eq (split + (size - 1)) split (omega arith) (omega arith) small_up ∙ up) in
      ground (arith, value)

  chunk_bound : 0 < size → suc ((size - 1) / split) < half
  chunk_bound h = omega (arith, div-le_self (size - 1) split)

  plan-chunks_from :
      0 < size → plan split size ≡ some (chunks_from split size (suc ((size - 1) / split)) 0)
  unfolding plan
  plan-chunks_from h =
      let positive_size : le64 size 0 ≡ false = ground arith in
      rw (positive_size, quotient_up_lem h) (ground (arith, chunk_bound h))

  chunk_count_lem : 0 < size → chunk_count split size ≡ some (suc ((size - 1) / split))
  unfolding chunk_count
  chunk_count_lem h =
      let positive_size : le64 size 0 ≡ false = ground arith in rw positive_size (quotient_up_lem h)

  length-chunks_from : (n i : ℕ) → length (chunks_from split size n i) ≡ n
  unfolding chunks_from
  length-chunks_from zero i = refl
  length-chunks_from (suc n) i = omega (arith, length-chunks_from n (suc i))

  last_round :
      0 < size → (((size - 1) / split) * split < size) × (size ≤ suc ((size - 1) / split) * split)
  last_round h = omega (arith, div-add-mod' (size - 1) split, mod-lt (size - 1) positive)

  -- For an object of a positive size, with size and split size together at most 2^63, `Plan`
  -- returns chunks that are numbered from 0 and that cut the bytes 0 to `size` into consecutive,
  -- non-empty, pending pieces of at most the split size, as many as `ChunkCount` says.
  pub plan-Tiles :
      0 < size
      → (cs : List Chunk) × (plan split size ≡ some cs)
        × Tiles split size 0 0 cs
        × (chunk_count split size ≡ some (length cs))
  plan-Tiles h =
      let n = (size - 1) / split in
      let (under, over) = last_round h in
      (
        chunks_from split size (suc n) 0,
        plan-chunks_from h,
        subst (λ off. Tiles split size 0 off (chunks_from split size (suc n) 0))
            (let origin : 0 * split ≡ 0 = omega arith in origin)
            (chunks_from-Tiles n 0 (rw add.zero under) (rw add.zero over)),
        chunk_count_lem h ∙ ap some (sym (length-chunks_from (suc n) 0)),
      )
