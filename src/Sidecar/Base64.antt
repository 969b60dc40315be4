-- ===== src/Sidecar/Base64.antt =====
-- The standard library's base64.RawURLEncoding, as the sidecar uses it: 64 letters, no padding. The
-- decoder skips line ends and refuses other bytes and a single left-over letter.
use pget.Base.{
  ℕ, ◌+◌, ◌-◌, ◌*◌, ◌/◌, ◌%◌, ◌<◌, ◌≡◌, refl, Bool, true, false, ◌||◌, ◌&&◌, List, [], ◌∷◌, Option,
  none, some, arith, ltb, leb, ◌==◌, if◌then◌else◌, holds_below, holds_below-apply, All, not,
  length, ◌≢◌, map, Option-cases, inl, inr,
}

-- The letter of a 6-bit value: A-Z a-z 0-9 - _.
unfoldable pub letter : ℕ → ℕ
letter n =
    if ltb n 26
    then b'A' + n
    else if ltb n 52
    then b'a' + (n - 26)
    else if ltb n 62
    then b'0' + (n - 52)
    else if n == 62
    then b'-'
    else b'_'

unfoldable pub sextet : ℕ → Option ℕ
sextet c =
    if leb b'A' c && leb c b'Z'
    then some (c - b'A')
    else if leb b'a' c && leb c b'z'
    then some (c - b'a' + 26)
    else if leb b'0' c && leb c b'9'
    then some (c - b'0' + 52)
    else if c == b'-'
    then some 62
    else if c == b'_'
    then some 63
    else none

-- Three bytes are four 6-bit values; a rest of one or two bytes is two or three.
unfoldable pub values : List ℕ → List ℕ
values [] = []
values (a ∷ []) = (a / 4) ∷ (a % 4 * 16) ∷ []
values (a ∷ b ∷ []) = (a / 4) ∷ (a % 4 * 16 + b / 16) ∷ (b % 16 * 4) ∷ []
values (a ∷ b ∷ c ∷ rest) =
    (a / 4) ∷ (a % 4 * 16 + b / 16) ∷ (b % 16 * 4 + c / 64) ∷ (c % 64) ∷ values rest

unfoldable pub encode : List ℕ → List ℕ
unfolding letter values
encode bytes = map letter (values bytes)

unfoldable pub sextets : List ℕ → Option (List ℕ)
sextets [] = some []
sextets (c ∷ cs) =
    let rest = sextets cs in
    if c == 10 || c == 13 then rest else elim (sextet c) [
      | none ↦ none
      | some v ↦ elim rest [ none ↦ none | some vs ↦ some (v ∷ vs) ]
    ]

unfoldable pub join : List ℕ → Option (List ℕ)
join [] = some []
join (a ∷ []) = none
join (a ∷ b ∷ []) = some ((a * 4 + b / 16) ∷ [])
join (a ∷ b ∷ c ∷ []) = some ((a * 4 + b / 16) ∷ (b % 16 * 16 + c / 4) ∷ [])
join (a ∷ b ∷ c ∷ d ∷ rest) = elim (join rest) [
  | none ↦ none
  | some bytes ↦ some ((a * 4 + b / 16) ∷ (b % 16 * 16 + c / 4) ∷ (c % 4 * 64 + d) ∷ bytes)
]

unfoldable pub decode : List ℕ → Option (List ℕ)
unfolding sextets join
decode text = elim (sextets text) [ none ↦ none | some vs ↦ join vs ]

letter_check : ℕ → Bool
unfolding letter sextet
letter_check n =
    not (letter n == 10 || letter n == 13)
    && elim (sextet (letter n)) [ none ↦ false | some m ↦ m == n ]

letter_table : holds_below letter_check 64 ≡ true
unfolding holds_below letter_check
letter_table = refl

sextet-letter :
    (n : ℕ) → n < 64 → ((letter n == 10 || letter n == 13) ≡ false) × (sextet (letter n) ≡ some n)
sextet-letter n h =
    let checked = holds_below-apply letter_check 64 letter_table n h in
    elim (Option-cases (sextet (letter n))) [
      | inl e ↦ absurd (unfold letter_check in ground (arith, e, checked))
      | inr (m, e) ↦ (
        unfold letter_check in ground (arith, e, checked),
        unfold letter_check in ground (arith, e, checked),
      )
    ]

sextets-letters : (vs : List ℕ) → All (λ v. v < 64) vs → sextets (map letter vs) ≡ some vs
unfolding sextets
sextets-letters [] h = refl
sextets-letters (v ∷ vs) (hv, hs) =
    let (plain, back) = sextet-letter v hv in ground (arith, plain, back, sextets-letters vs hs)

values-All : (bytes : List ℕ) → All (λ b. b < 256) bytes → All (λ v. v < 64) (values bytes)
unfolding values
values-All [] h = tt
values-All (a ∷ []) h = omega arith
values-All (a ∷ b ∷ []) h = omega arith
values-All (a ∷ b ∷ c ∷ rest) (ha, (hb, (hc, hr))) =
    (omega arith, (omega arith, (omega arith, (omega arith, values-All rest hr))))

join-values : (bytes : List ℕ) → All (λ b. b < 256) bytes → join (values bytes) ≡ some bytes
unfolding join values
join-values [] h = refl
join-values (a ∷ []) h = ground arith
join-values (a ∷ b ∷ []) h = ground arith
join-values (a ∷ b ∷ c ∷ rest) (ha, (hb, (hc, hr))) = ground (arith, join-values rest hr)

pub decode-encode : (bytes : List ℕ) → All (λ b. b < 256) bytes → decode (encode bytes) ≡ some bytes
unfolding decode encode
decode-encode bytes h =
    rw (sextets-letters (values bytes) (values-All bytes h), decode) (join-values bytes h)

pub encode-ne-nil : (bytes : List ℕ) → 0 < length bytes → encode bytes ≢ []
unfolding encode values
encode-ne-nil [] h e = absurd (omega arith)
encode-ne-nil (a ∷ []) h e = absurd (ground arith)
encode-ne-nil (a ∷ b ∷ []) h e = absurd (ground arith)
encode-ne-nil (a ∷ b ∷ c ∷ rest) h e = absurd (ground arith)
