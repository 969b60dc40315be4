-- ===== src/Sidecar/Bitmap.antt =====
-- internal/sidecar/sidecar.go: EncodeBitmap and DecodeBitmap. A byte is a number below 256; bit `k` of
-- it is found by halving.
pub mod Bits
pub mod RoundTrip
use pget.Base.{
  ℕ, zero, suc, ◌+◌, ◌*◌, ◌/◌, ◌%◌, ◌<◌, Bool, true, false, List, [], ◌∷◌, ◌++◌, Option, none, some,
  ◌==◌, ltb, if◌then◌else◌, length, modify, replicate, drop,
}
use pget.Sidecar.Base64

-- b & (1<<k) != 0
unfoldable pub test_bit : ℕ → ℕ → Bool
test_bit b zero = b % 2 == 1
test_bit b (suc k) = test_bit (b / 2) k

-- b | 1<<k
unfoldable pub or_bit : ℕ → ℕ → ℕ
or_bit zero b = if b % 2 == 1 then b else b + 1
or_bit (suc k) b = or_bit k (b / 2) * 2 + b % 2

-- The loop of EncodeBitmap from position `i` on.
unfoldable pub set_bits : ℕ → List Bool → List ℕ → List ℕ
unfolding or_bit
set_bits i [] bytes = bytes
set_bits i (v ∷ vs) bytes =
    set_bits (suc i) vs (if v then modify bytes (i / 8) (or_bit (i % 8)) else bytes)

unfoldable pub pack : List Bool → List ℕ
unfolding set_bits
pack bitmap = set_bits 0 bitmap (replicate ((length bitmap + 7) / 8) 0)

unfoldable pub encode_bitmap : List Bool → List ℕ
unfolding pack
encode_bitmap bitmap = Base64.encode (pack bitmap)

unfoldable pub unpack : List ℕ → List Bool
unpack [] = []
unpack (b ∷ bytes) =
    test_bit b 0
    ∷ test_bit b 1
    ∷ test_bit b 2
    ∷ test_bit b 3
    ∷ test_bit b 4
    ∷ test_bit b 5
    ∷ test_bit b 6
    ∷ test_bit b 7
    ∷ unpack bytes

-- A bitmap that is too short is copied into a longer one.
unfoldable pub expand : ℕ → List Bool → List Bool
expand zero bitmap = bitmap
expand (suc n) [] = false ∷ expand n []
expand (suc n) (v ∷ vs) = v ∷ expand n vs

unfoldable pub decode_bytes : ℕ → Option (List ℕ) → Option (List Bool)
unfolding unpack expand
decode_bytes min_size none = none
decode_bytes min_size (some bytes) =
    some (
      if ltb (length (unpack bytes)) min_size then expand min_size (unpack bytes) else unpack bytes)

-- `none` is the error of the base64 decoder.
unfoldable pub decode_bitmap : List ℕ → ℕ → Option (List Bool)
unfolding decode_bytes
decode_bitmap [] min_size = some (replicate min_size false)
decode_bitmap (c ∷ text) min_size = decode_bytes min_size (Base64.decode (c ∷ text))
