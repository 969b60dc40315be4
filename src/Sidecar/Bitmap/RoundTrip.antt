-- ===== src/Sidecar/Bitmap/RoundTrip.antt =====
-- Reading a written bitmap gives the bits back.
use pget.Base.{
  ℕ, zero, suc, ◌+◌, ◌-◌, ◌*◌, ◌/◌, ◌%◌, ◌≤◌, ◌<◌, ◌≡◌, ◌≢◌, refl, ap, ◌∙◌, inl, inr, Bool, true,
  false, List, [], ◌∷◌, some, arith, ltb, if◌then◌else◌, length, modify, replicate, All, Bool-cases,
  length-modify, length-replicate,
}
use pget.Sidecar.Base64
use pget.Sidecar.Bitmap.{
  or_bit, set_bits, pack, encode_bitmap, unpack, expand, decode_bytes, decode_bitmap,
}
use pget.Sidecar.Bitmap.Bits.{or_bit-lt, bit_at, bit_of, set_bit, pack-bit_at}

add_eight_sub : (j : ℕ) → suc (suc (suc (suc (suc (suc (suc (suc j))))))) - 8 ≡ j
add_eight_sub j = omega arith

unpack-bit_of : (bytes : List ℕ) (j : ℕ) → bit_of (unpack bytes) j ≡ bit_at bytes j
unfolding unpack
unpack-bit_of [] j = refl
unpack-bit_of (b ∷ bytes) zero = refl
unpack-bit_of (b ∷ bytes) (suc zero) = refl
unpack-bit_of (b ∷ bytes) (suc (suc zero)) = refl
unpack-bit_of (b ∷ bytes) (suc (suc (suc zero))) = refl
unpack-bit_of (b ∷ bytes) (suc (suc (suc (suc zero)))) = refl
unpack-bit_of (b ∷ bytes) (suc (suc (suc (suc (suc zero))))) = refl
unpack-bit_of (b ∷ bytes) (suc (suc (suc (suc (suc (suc zero)))))) = refl
unpack-bit_of (b ∷ bytes) (suc (suc (suc (suc (suc (suc (suc zero))))))) = refl
unpack-bit_of (b ∷ bytes) (suc (suc (suc (suc (suc (suc (suc (suc j)))))))) =
    ground (arith, unpack-bit_of bytes j, ap (bit_at bytes) (add_eight_sub j))

length-unpack : (bytes : List ℕ) → length (unpack bytes) ≡ length bytes * 8
unfolding unpack
length-unpack [] = refl
length-unpack (b ∷ bytes) = omega (arith, length-unpack bytes)

bit_of-expand : (n : ℕ) (bitmap : List Bool) (j : ℕ) → bit_of (expand n bitmap) j ≡ bit_of bitmap j
unfolding expand
bit_of-expand zero bitmap j = refl
bit_of-expand (suc n) [] zero = refl
bit_of-expand (suc n) [] (suc j) = bit_of-expand n [] j
bit_of-expand (suc n) (v ∷ vs) zero = refl
bit_of-expand (suc n) (v ∷ vs) (suc j) = bit_of-expand n vs j

length-expand : (n : ℕ) (bitmap : List Bool) → length bitmap ≤ n → length (expand n bitmap) ≡ n
unfolding expand
length-expand zero [] h = refl
length-expand zero (v ∷ vs) h = absurd (omega arith)
length-expand (suc n) [] h = omega (arith, length-expand n [] (omega arith))
length-expand (suc n) (v ∷ vs) h = omega (arith, length-expand n vs (omega arith))

modify-All :
    (bytes : List ℕ) (i k : ℕ)
    → k < 8
    → All (λ b. b < 256) bytes
    → All (λ b. b < 256) (modify bytes i (or_bit k))
modify-All [] i k h a = tt
modify-All (b ∷ bytes) zero k h (hb, hs) = (or_bit-lt 8 k b h hb, hs)
modify-All (b ∷ bytes) (suc i) k h (hb, hs) = (hb, modify-All bytes i k h hs)

set_bits-All :
    (vs : List Bool) (i : ℕ) (bytes : List ℕ)
    → All (λ b. b < 256) bytes
    → All (λ b. b < 256) (set_bits i vs bytes)
unfolding set_bits
set_bits-All [] i bytes h = h
set_bits-All (true ∷ vs) i bytes h =
    set_bits-All vs (suc i) (set_bit i bytes) (modify-All bytes (i / 8) (i % 8) (omega arith) h)
set_bits-All (false ∷ vs) i bytes h = set_bits-All vs (suc i) bytes h

length-set_bits :
    (vs : List Bool) (i : ℕ) (bytes : List ℕ) → length (set_bits i vs bytes) ≡ length bytes
unfolding set_bits
length-set_bits [] i bytes = refl
length-set_bits (true ∷ vs) i bytes =
    length-set_bits vs (suc i) (set_bit i bytes) ∙ length-modify bytes (i / 8) (or_bit (i % 8))
length-set_bits (false ∷ vs) i bytes = length-set_bits vs (suc i) bytes

replicate-All : (n : ℕ) → All (λ b. b < 256) (replicate n 0)
replicate-All zero = tt
replicate-All (suc n) = (omega arith, replicate-All n)

pack-All : (bitmap : List Bool) → All (λ b. b < 256) (pack bitmap)
unfolding pack
pack-All bitmap = set_bits-All bitmap 0 _ (replicate-All ((length bitmap + 7) / 8))

length-pack : (bitmap : List Bool) → length (pack bitmap) ≡ (length bitmap + 7) / 8
unfolding pack
length-pack bitmap =
    length-set_bits bitmap 0 _ ∙ length-replicate {A = ℕ} ((length bitmap + 7) / 8) 0

decode_bytes-bits :
    (n : ℕ) (bytes : List ℕ)
    → (bits : List Bool) × (decode_bytes n (some bytes) ≡ some bits)
      × ((j : ℕ) → bit_of bits j ≡ bit_at bytes j)
      × (length bits ≡ (if ltb (length bytes * 8) n then n else length bytes * 8))
unfolding decode_bytes
decode_bytes-bits n bytes = elim (Bool-cases (ltb (length (unpack bytes)) n)) [
  | inl short ↦ (
    expand n (unpack bytes),
    rw short refl,
    λ j. bit_of-expand n (unpack bytes) j ∙ unpack-bit_of bytes j,
    ground (arith, short, length-unpack bytes, length-expand n (unpack bytes)),
  )
  | inr long ↦
      (unpack bytes, rw long refl, unpack-bit_of bytes, ground (arith, long, length-unpack bytes))
]

decode_bitmap-decode_bytes :
    (text : List ℕ) (min_size : ℕ)
    → text ≢ []
    → decode_bitmap text min_size ≡ decode_bytes min_size (Base64.decode text)
unfolding decode_bitmap
decode_bitmap-decode_bytes [] min_size h = absurd (h refl)
decode_bitmap-decode_bytes (c ∷ text) min_size h = refl

-- Some letter stands for a bitmap that is not empty.
pub encode_bitmap-ne-nil : (bitmap : List Bool) → 0 < length bitmap → encode_bitmap bitmap ≢ []
unfolding encode_bitmap
encode_bitmap-ne-nil bitmap h =
    Base64.encode-ne-nil (pack bitmap) (omega (arith, length-pack bitmap))

decode-pack : (bitmap : List Bool) → Base64.decode (encode_bitmap bitmap) ≡ some (pack bitmap)
unfolding encode_bitmap
decode-pack bitmap = Base64.decode-encode (pack bitmap) (pack-All bitmap)

bit_of-replicate : (n j : ℕ) → bit_of (replicate n false) j ≡ false
bit_of-replicate zero j = refl
bit_of-replicate (suc n) zero = refl
bit_of-replicate (suc n) (suc j) = bit_of-replicate n j

-- Reading back a written bitmap succeeds, gives every bit back and only unset bits behind it, and the
-- result covers both the bitmap and the size asked for: its length is a multiple of eight unless
-- that size is larger.
pub decode_bitmap-encode_bitmap :
    (bitmap : List Bool) (min_size : ℕ)
    → (bits : List Bool) × (decode_bitmap (encode_bitmap bitmap) min_size ≡ some bits)
      × ((j : ℕ) → bit_of bits j ≡ bit_of bitmap j)
      × (length bits ≡ (
          let whole = (length bitmap + 7) / 8 * 8 in
          if ltb whole min_size then min_size else whole))
decode_bitmap-encode_bitmap [] min_size = (
  replicate min_size false,
  unfold encode_bitmap Base64.encode Base64.values decode_bitmap in refl,
  bit_of-replicate min_size,
  ground (arith, length-replicate min_size false),
)
decode_bitmap-encode_bitmap (v ∷ vs) min_size =
    let bitmap = v ∷ vs in
    let (bits, read, same, size) = decode_bytes-bits min_size (pack bitmap) in
    (
      bits,
      decode_bitmap-decode_bytes (encode_bitmap bitmap) min_size
            (encode_bitmap-ne-nil bitmap (omega arith))
          ∙ ap (decode_bytes min_size) (decode-pack bitmap)
          ∙ read,
      λ j. same j ∙ pack-bit_at bitmap j,
      ground (arith, size, length-pack bitmap),
    )
