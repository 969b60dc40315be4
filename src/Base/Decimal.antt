-- ===== src/Base/Decimal.antt =====
-- A number written in decimal digits, as the verb %d of fmt does it, and read back by strconv.
use Prim.Native.Nat.{ℕ, zero, suc, ◌+◌, ◌-◌, ◌*◌, ◌/◌, ◌%◌, ◌<◌}
use mathlib.Core.Path.{◌≡◌, refl, sym, ap, ◌∙◌}
use mathlib.Core.Logic.{◌≢◌, inl, inr}
use mathlib.Core.Bool.{true, false}
use mathlib.Core.Option.{none, some}
use mathlib.Core.List.{List, [], ◌∷◌, ◌++◌, reverse, reverse-reverse, reverse-cons}
use native.Mathlib.Omega.{arith}
use pget.Base.Tests.{ltb, ◌==◌, if◌then◌else◌, ==_iff, Bool-cases, ltb→lt, some-inj}
use pget.Base.Lists.{All}
use pget.Base.Text.{
  is_digit, digits, natural, parse_int, is_space, trim_left, trim, trim_space, cut, split,
}
use pget.Base.Int64.{half}

-- `fuel` is at least the number of digits.
unfoldable digits_of : ℕ → ℕ → List ℕ
digits_of zero n = []
digits_of (suc fuel) n =
    let front = digits_of fuel (n / 10) in
    if ltb n 10 then (b'0' + n) ∷ [] else front ++ (b'0' + n % 10) ∷ []

unfoldable pub decimal : ℕ → List ℕ
unfolding digits_of
decimal n = digits_of (suc n) n

abbrev pub AllDigits : List ℕ → Type 0
AllDigits s = All (λ c. is_digit c ≡ true) s

pub All-append {ℓ κ} :
    {A : Type ℓ} (P : A → Type κ) (xs ys : List A) → All P xs → All P ys → All P (xs ++ ys)
All-append P [] ys h k = k
All-append P (x ∷ xs) ys (p, h) k = (p, All-append P xs ys h k)

digit : (n : ℕ) → n < 10 → is_digit (b'0' + n) ≡ true
unfolding is_digit
digit n h = ground arith

digits_of-AllDigits : (fuel n : ℕ) → AllDigits (digits_of fuel n)
unfolding digits_of
digits_of-AllDigits zero n = tt
digits_of-AllDigits (suc fuel) n = elim (Bool-cases (ltb n 10)) [
  | inl e ↦ rw e (digit n (ltb→lt n 10 e), tt)
  | inr e ↦ rw e (
      All-append (λ c. is_digit c ≡ true) (digits_of fuel (n / 10)) _
        (digits_of-AllDigits fuel (n / 10)) (digit (n % 10) (omega arith), tt))
]

pub decimal-AllDigits : (n : ℕ) → AllDigits (decimal n)
unfolding decimal
decimal-AllDigits n = digits_of-AllDigits (suc n) n

digits-snoc :
    (v m d : ℕ) (s : List ℕ)
    → digits v s ≡ some m
    → d < 10
    → digits v (s ++ (b'0' + d) ∷ []) ≡ some (m * 10 + d)
unfolding digits
digits-snoc v m d [] e h =
    let same : v ≡ m = some-inj e in
    let value : v * 10 + (b'0' + d - b'0') ≡ m * 10 + d = omega (arith, same) in
    rw (digit d h, digits) (ap some value)
digits-snoc v m d (c ∷ s) e h = elim (Bool-cases (is_digit c)) [
  | inl is ↦ rw (is, digits) (digits-snoc (v * 10 + (c - b'0')) m d s (rw (is, digits) at e) h)
  | inr other ↦ absurd (let q : none ≡ some m = rw (other, digits) at e in cc)
]

digits-digits_of : (fuel n : ℕ) → n < fuel → digits 0 (digits_of fuel n) ≡ some n
unfolding digits_of digits
digits-digits_of zero n h = absurd (omega (arith, h))
digits-digits_of (suc fuel) n h = elim (Bool-cases (ltb n 10)) [
  | inl e ↦
      let same : 0 * 10 + n ≡ n = omega arith in
      rw e (digits-snoc 0 0 n [] refl (ltb→lt n 10 e) ∙ ap some same)
  | inr e ↦
      let whole : n / 10 * 10 + n % 10 ≡ n = omega arith in
      rw e (
        digits-snoc 0 (n / 10) (n % 10) (digits_of fuel (n / 10))
          (digits-digits_of fuel (n / 10) (ground (arith, e, h))) (omega arith)
        ∙ ap some whole)
]

natural-digits : (s : List ℕ) → s ≢ [] → natural s ≡ digits 0 s
unfolding natural
natural-digits [] h = absurd (h refl)
natural-digits (c ∷ s) h = refl

snoc-ne : (s : List ℕ) (c : ℕ) → s ++ c ∷ [] ≢ []
snoc-ne [] c e = cc
snoc-ne (x ∷ s) c e = cc

digits_of-ne : (fuel n : ℕ) → digits_of (suc fuel) n ≢ []
unfolding digits_of
digits_of-ne fuel n = elim (Bool-cases (ltb n 10)) [
  | inl e ↦ rw e (λ q. cc)
  | inr e ↦ rw e (snoc-ne (digits_of fuel (n / 10)) _)
]

pub natural-decimal : (n : ℕ) → natural (decimal n) ≡ some n
unfolding decimal
natural-decimal n =
    natural-digits (digits_of (suc n) n) (digits_of-ne n n)
    ∙ digits-digits_of (suc n) n (omega arith)

-- A text of at least one digit has no sign.
unsigned : (s : List ℕ) (n : ℕ) → AllDigits s → natural s ≡ some n → n < half → parse_int s ≡ some n
unfolding parse_int is_digit natural
unsigned [] n h e lt = e
unsigned (c ∷ s) n (d, h) e lt =
    let no_minus : (c == b'-') ≡ false = ground (arith, d) in
    let no_plus : (c == b'+') ≡ false = ground (arith, d) in
    let small : ltb n half ≡ true = ground arith in rw (no_minus, no_plus, e) (rw small refl)

pub parse_int-decimal : (n : ℕ) → n < half → parse_int (decimal n) ≡ some n
parse_int-decimal n h = unsigned (decimal n) n (decimal-AllDigits n) (natural-decimal n) h

trim_left-AllDigits : (s : List ℕ) → AllDigits s → trim_left is_space s ≡ s
unfolding trim_left is_digit is_space
trim_left-AllDigits [] h = refl
trim_left-AllDigits (c ∷ s) (d, h) = ground (arith, d)

All-reverse : (s : List ℕ) → AllDigits s → AllDigits (reverse s)
All-reverse [] h = tt
All-reverse (c ∷ s) (d, h) =
    rw (reverse-cons c s)
      (All-append (λ c. is_digit c ≡ true) (reverse s) _ (All-reverse s h) (d, tt))

pub trim_space-AllDigits : (s : List ℕ) → AllDigits s → trim_space s ≡ s
unfolding trim_space trim
trim_space-AllDigits s h =
    rw (trim_left-AllDigits s h, trim_left-AllDigits (reverse s) (All-reverse s h))
      (reverse-reverse s)

-- The separator is the first one of the text.
abbrev pub NoneOf : ℕ → List ℕ → Type 0
NoneOf sep s = All (λ c. (c == sep) ≡ false) s

pub cut-append : (sep : ℕ) (s t : List ℕ) → NoneOf sep s → cut sep (s ++ sep ∷ t) ≡ some (s, t)
unfolding cut
cut-append sep [] t h = let same : (sep == sep) ≡ true = ground arith in rw (same, cut) refl
cut-append sep (c ∷ s) t (d, h) = rw (d, cut) (rw (cut-append sep s t h) refl)

pub split-none : (sep : ℕ) (s : List ℕ) → NoneOf sep s → split sep s ≡ s ∷ []
unfolding split
split-none sep [] h = refl
split-none sep (c ∷ s) (d, h) = rw (d, split) (rw (split-none sep s h) refl)

pub split-append :
    (sep : ℕ) (s t : List ℕ) → NoneOf sep s → NoneOf sep t → split sep (s ++ sep ∷ t) ≡ s ∷ t ∷ []
unfolding split
split-append sep [] t h k =
    let same : (sep == sep) ≡ true = ground arith in rw (same, split) (rw (split-none sep t k) refl)
split-append sep (c ∷ s) t (d, h) k = rw (d, split) (rw (split-append sep s t h k) refl)

pub AllDigits-NoneOf : (sep : ℕ) (s : List ℕ) → is_digit sep ≡ false → AllDigits s → NoneOf sep s
AllDigits-NoneOf sep [] other h = tt
AllDigits-NoneOf sep (c ∷ s) other (d, h) = (
  (elim (Bool-cases (c == sep)) [
    | inl same ↦
        let digit_sep : is_digit sep ≡ true = ap is_digit (sym ((==_iff c sep).0 same)) ∙ d in
        absurd (let q : true ≡ false = sym digit_sep ∙ other in cc)
    | inr apart ↦ apart
  ]),
  AllDigits-NoneOf sep s other h,
)
