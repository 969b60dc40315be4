-- ===== src/Sidecar/Bitmap/Bits.antt =====
-- The single bits that the encoder sets.
use pget.Base.{
  ℕ, zero, suc, ◌+◌, ◌-◌, ◌*◌, ◌/◌, ◌%◌, ◌^◌, ◌≤◌, ◌<◌, ◌≡◌, refl, inl, inr, Bool, true, false,
  ◌||◌, List, [], ◌∷◌, arith, ◌==◌, ltb, if◌then◌else◌, length, modify, replicate, Bool-cases,
  length-modify, length-replicate, ltb→lt,
}
use native.Mathlib.Nat.{pow-suc}
use pget.Sidecar.Bitmap.{test_bit, or_bit, set_bits, pack}

-- Setting bit `k` sets that one and no other.
test_bit-or_bit : (k j b : ℕ) → test_bit (or_bit k b) j ≡ (if k == j then true else test_bit b j)
unfolding test_bit or_bit
test_bit-or_bit zero zero b = ground arith
test_bit-or_bit zero (suc j) b =
    let same : (if b % 2 == 1 then b else b + 1) / 2 ≡ b / 2 = ground arith in
    rw same (ground arith)
test_bit-or_bit (suc k) zero b = ground arith
test_bit-or_bit (suc k) (suc j) b =
    let same : (or_bit k (b / 2) * 2 + b % 2) / 2 ≡ or_bit k (b / 2) = omega arith in
    rw same (ground (arith, test_bit-or_bit k j (b / 2)))

pub or_bit-lt : (n k b : ℕ) → k < n → b < 2 ^ n → or_bit k b < 2 ^ n
unfolding or_bit
or_bit-lt zero k b h l = absurd (omega arith)
or_bit-lt (suc n) zero b h l = ground (arith, pow-suc 2 n)
or_bit-lt (suc n) (suc k) b h l =
    omega (arith, pow-suc 2 n, or_bit-lt n k (b / 2) (omega arith) (omega (arith, pow-suc 2 n)))

-- Bit `j` of the bytes, false behind their end.
abbrev pub bit_at : List ℕ → ℕ → Bool
bit_at [] j = false
bit_at (b ∷ bytes) j = if ltb j 8 then test_bit b j else bit_at bytes (j - 8)

-- Bit `j` of a bitmap, false behind its end.
abbrev pub bit_of : List Bool → ℕ → Bool
bit_of [] j = false
bit_of (v ∷ vs) zero = v
bit_of (v ∷ vs) (suc j) = bit_of vs j

test_bit-zero : (k : ℕ) → test_bit 0 k ≡ false
unfolding test_bit
test_bit-zero zero = refl
test_bit-zero (suc k) = test_bit-zero k

bit_at-replicate : (n j : ℕ) → bit_at (replicate n 0) j ≡ false
bit_at-replicate zero j = refl
bit_at-replicate (suc n) j = ground (arith, test_bit-zero j, bit_at-replicate n (j - 8))

-- The assignment of the encoder's loop.
abbrev pub set_bit : ℕ → List ℕ → List ℕ
set_bit i bytes = modify bytes (i / 8) (or_bit (i % 8))

set_bit-bit_at :
    (bytes : List ℕ) (i j : ℕ)
    → i < length bytes * 8
    → bit_at (set_bit i bytes) j ≡ (if i == j then true else bit_at bytes j)
set_bit-bit_at [] i j h = absurd (omega arith)
set_bit-bit_at (b ∷ bytes) i j h = elim (Bool-cases (ltb i 8)) [
  | inl near ↦
      let block : i / 8 ≡ 0 = omega (arith, ltb→lt i 8 near) in
      let offset : i % 8 ≡ i = omega (arith, ltb→lt i 8 near) in
      rw (block, offset) (ground (arith, test_bit-or_bit i j b))
  | inr far ↦
      let block : i / 8 ≡ suc ((i - 8) / 8) = ground arith in
      let offset : i % 8 ≡ (i - 8) % 8 = ground arith in
      rw (block, offset) (ground (arith, set_bit-bit_at bytes (i - 8) (j - 8)))
]

bit_of-cons :
    (v : Bool) (vs : List Bool) (k : ℕ)
    → bit_of (v ∷ vs) k ≡ (if k == 0 then v else bit_of vs (k - 1))
bit_of-cons v vs zero = refl
bit_of-cons v vs (suc k) = let back : suc k - 1 ≡ k = omega arith in rw back (ground arith)

set_bits-bit_at :
    (vs : List Bool) (i j : ℕ) (bytes : List ℕ)
    → i + length vs ≤ length bytes * 8
    → bit_at (set_bits i vs bytes) j
      ≡ (if ltb j i then bit_at bytes j else bit_at bytes j || bit_of vs (j - i))
unfolding set_bits
set_bits-bit_at [] i j bytes h = ground arith
set_bits-bit_at (true ∷ vs) i j bytes h =
    let back : j - suc i ≡ j - i - 1 = omega arith in
    let bound : suc i + length vs ≤ length (set_bit i bytes) * 8 =
      omega (arith, length-modify bytes (i / 8) (or_bit (i % 8))) in
    ground (
      arith,
      set_bits-bit_at vs (suc i) j (set_bit i bytes) bound,
      set_bit-bit_at bytes i j (omega arith),
      bit_of-cons true vs (j - i),
      back,
    )
set_bits-bit_at (false ∷ vs) i j bytes h =
    let back : j - suc i ≡ j - i - 1 = omega arith in
    ground
      (arith, set_bits-bit_at vs (suc i) j bytes (omega arith), bit_of-cons false vs (j - i), back)

-- The bytes of a bitmap have its bits.
pub pack-bit_at : (bitmap : List Bool) (j : ℕ) → bit_at (pack bitmap) j ≡ bit_of bitmap j
pack-bit_at bitmap j =
    let n = (length bitmap + 7) / 8 in
    unfold pack in
    ground (
      arith,
      set_bits-bit_at bitmap 0 j (replicate n 0) (omega (arith, length-replicate {A = ℕ} n 0)),
      bit_at-replicate n j,
    )
