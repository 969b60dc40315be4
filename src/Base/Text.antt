-- ===== src/Base/Text.antt =====
-- Go's strings as the lists of their bytes, and what the code uses of the packages strings and strconv.
-- Upper case and white space are those of ASCII.
use Prim.Native.Nat.{ℕ, ◌+◌, ◌-◌, ◌*◌}
use Prim.Native.Char.{code}
use Prim.Native.String.{String, [] as []ˢ, ◌∷◌ as ◌∷ˢ◌}
use mathlib.Core.Path.{◌≡◌, refl}
use mathlib.Core.Logic.{inl, inr}
use mathlib.Core.Bool.{Bool, true, false, ◌&&◌, ◌||◌}
use mathlib.Core.Option.{Option, none, some}
use mathlib.Core.List.{List, [], ◌∷◌, reverse}
use native.Mathlib.Omega.{arith}
use pget.Base.Tests.{ltb, leb, ◌==◌, if◌then◌else◌, Bool-cases}
use pget.Base.Int64.{modulus, half}

-- The bytes of an ASCII text.
unfoldable pub bytes : String → List ℕ
bytes []ˢ = []
bytes (c ∷ˢ s) = code c ∷ bytes s

unfoldable pub same_text : List ℕ → List ℕ → Bool
same_text [] [] = true
same_text [] (d ∷ t) = false
same_text (c ∷ s) [] = false
same_text (c ∷ s) (d ∷ t) = c == d && same_text s t

pub same_text_refl : (s : List ℕ) → same_text s s ≡ true
unfolding same_text
same_text_refl [] = refl
same_text_refl (c ∷ s) = ground (arith, same_text_refl s)

pub same_text_sound : (s t : List ℕ) → same_text s t ≡ true → s ≡ t
unfolding same_text
same_text_sound [] [] e = refl
same_text_sound [] (d ∷ t) e = cc
same_text_sound (c ∷ s) [] e = cc
same_text_sound (c ∷ s) (d ∷ t) e = elim (Bool-cases (same_text s t)) [
  | inl same ↦ let tail = same_text_sound s t same in let head : c ≡ d = ground arith in cc
  | inr other ↦ ground arith
]

-- What follows a prefix.
unfoldable pub strip_prefix : List ℕ → List ℕ → Option (List ℕ)
strip_prefix [] s = some s
strip_prefix (c ∷ p) [] = none
strip_prefix (c ∷ p) (d ∷ s) = elim (c == d) [ true ↦ strip_prefix p s | false ↦ none ]

unfoldable pub has_prefix : List ℕ → List ℕ → Bool
unfolding strip_prefix
has_prefix s p = elim (strip_prefix p s) [ none ↦ false | some rest ↦ true ]

unfoldable pub has_suffix : List ℕ → List ℕ → Bool
unfolding has_prefix
has_suffix s p = has_prefix (reverse s) (reverse p)

-- The text before and behind the first separator.
unfoldable pub cut : ℕ → List ℕ → Option (List ℕ × List ℕ)
cut sep [] = none
cut sep (c ∷ s) =
    let rest = cut sep s in
    elim (c == sep) [
      | true ↦ some ([], s)
      | false ↦ elim rest [ none ↦ none | some (before, behind) ↦ some (c ∷ before, behind) ]
    ]

-- The text behind the last separator.
unfoldable pub behind_last : ℕ → List ℕ → Option (List ℕ)
behind_last sep [] = none
behind_last sep (c ∷ s) =
    let rest = behind_last sep s in
    elim rest [ some name ↦ some name | none ↦ elim (c == sep) [ true ↦ some s | false ↦ none ] ]

-- The text before and behind the first occurrence of a pattern.
unfoldable pub cut_text : List ℕ → List ℕ → Option (List ℕ × List ℕ)
unfolding strip_prefix
cut_text p [] = elim (strip_prefix p []) [ none ↦ none | some rest ↦ some ([], rest) ]
cut_text p (c ∷ s) =
    let later = cut_text p s in
    elim (strip_prefix p (c ∷ s)) [
      | some rest ↦ some ([], rest)
      | none ↦ elim later [ none ↦ none | some (before, behind) ↦ some (c ∷ before, behind) ]
    ]

unfoldable pub split : ℕ → List ℕ → List (List ℕ)
split sep [] = [] ∷ []
split sep (c ∷ s) =
    let rest = split sep s in
    elim (c == sep) [
      | true ↦ [] ∷ rest
      | false ↦ elim rest [ [] ↦ (c ∷ []) ∷ [] | part ∷ parts ↦ (c ∷ part) ∷ parts ]
    ]

unfoldable pub trim_left : (ℕ → Bool) → List ℕ → List ℕ
trim_left drops [] = []
trim_left drops (c ∷ s) = elim (drops c) [ true ↦ trim_left drops s | false ↦ c ∷ s ]

unfoldable pub trim : (ℕ → Bool) → List ℕ → List ℕ
unfolding trim_left
trim drops s = reverse (trim_left drops (reverse (trim_left drops s)))

unfoldable pub is_space : ℕ → Bool
is_space c = c == b' ' || leb 9 c && leb c 13

unfoldable pub trim_space : List ℕ → List ℕ
unfolding trim is_space
trim_space s = trim is_space s

unfoldable pub upper : ℕ → ℕ
upper c = if leb b'a' c && leb c b'z' then c - 32 else c

unfoldable pub is_digit : ℕ → Bool
is_digit c = leb b'0' c && leb c b'9'

-- The value of a text of digits, read from the left behind the value `n`.
unfoldable pub digits : ℕ → List ℕ → Option ℕ
unfolding is_digit
digits n [] = some n
digits n (c ∷ s) = elim (is_digit c) [ true ↦ digits (n * 10 + (c - b'0')) s | false ↦ none ]

unfoldable pub natural : List ℕ → Option ℕ
unfolding digits
natural [] = none
natural (c ∷ s) = digits 0 (c ∷ s)

-- strconv.ParseInt(s, 10, 64), which strconv.Atoi agrees with: an optional sign, digits, and the
-- value within the range of an int64, whose bit pattern is returned.
unfoldable pub parse_int : List ℕ → Option ℕ
unfolding natural
parse_int [] = none
parse_int (c ∷ s) =
    if c == b'-'
    then elim (natural s) [
      | none ↦ none
      | some n ↦
          if leb n half then some (elim (n == 0) [ true ↦ 0 | false ↦ modulus - n ]) else none
    ]
    else elim (natural (if c == b'+' then s else c ∷ s)) [
      | none ↦ none
      | some n ↦ if ltb n half then some n else none
    ]
