-- ===== src/Http/Range/Accepts.antt =====
-- A request for a range, and the answer of a server that honours it.
use pget.Base.{
  ℕ, ◌<◌, ◌≡◌, refl, true, false, List, ◌∷◌, ◌++◌, some, arith, ◌==◌, bytes, strip_prefix,
  trim_space, parse_int, is_digit,
}
use pget.Base.Decimal.{
  decimal, decimal-AllDigits, parse_int-decimal, trim_space-AllDigits, NoneOf, cut-append,
  split-append, AllDigits-NoneOf, All-append,
}
use pget.Base.Int64.{le64, half}
use pget.Http.Range.{
  second_part, parse_content_range_total, without_unit, range_bounds, validate_content_range,
}

-- FIRST-LAST/TOTAL behind the unit, as RFC 7233 has it for a range that is known.
abbrev pub span : ℕ → ℕ → List ℕ
span first last = decimal first ++ b'-' ∷ decimal last

unfoldable pub content_range : ℕ → ℕ → ℕ → List ℕ
unfolding bytes
content_range first last total = bytes "bytes " ++ span first last ++ b'/' ∷ decimal total

digits-NoneOf : (sep n : ℕ) → is_digit sep ≡ false → NoneOf sep (decimal n)
digits-NoneOf sep n other = AllDigits-NoneOf sep (decimal n) other (decimal-AllDigits n)

span-NoneOf : (first last : ℕ) → NoneOf b'/' (span first last)
unfolding is_digit
span-NoneOf first last =
    All-append (λ c. (c == b'/') ≡ false) (decimal first) (b'-' ∷ decimal last)
      (digits-NoneOf b'/' first refl) (refl, digits-NoneOf b'/' last refl)

parsed : (n : ℕ) → n < half → parse_int (trim_space (decimal n)) ≡ some n
parsed n h = rw (trim_space-AllDigits (decimal n) (decimal-AllDigits n)) (parse_int-decimal n h)

without_unit-content_range :
    (first last total : ℕ)
    → without_unit (content_range first last total) ≡ span first last ++ b'/' ∷ decimal total
unfolding without_unit content_range bytes strip_prefix
without_unit-content_range first last total = refl

range_bounds-content_range :
    (first last total : ℕ)
    → first < half
    → last < half
    → range_bounds (content_range first last total) ≡ some (first, last)
unfolding range_bounds is_digit
range_bounds-content_range first last total f l =
    rw (without_unit-content_range first last total, range_bounds)
      (rw (cut-append b'/' (span first last) (decimal total) (span-NoneOf first last)) (
        rw (cut-append b'-' (decimal first) (decimal last) (digits-NoneOf b'-' first refl))
          (rw (parsed first f) (rw (parsed last l) refl))))

pub validate_content_range-exact :
    (first last total : ℕ)
    → first < half
    → last < half
    → validate_content_range (content_range first last total) first last ≡ true
unfolding validate_content_range
validate_content_range-exact first last total f l =
    let same_first : (first == first) ≡ true = ground arith in
    let same_last : (last == last) ≡ true = ground arith in
    rw (range_bounds-content_range first last total f l, validate_content_range)
      (rw (same_first, same_last) refl)

pub total-content_range :
    (first last total : ℕ)
    → 0 < total
    → total < half
    → parse_content_range_total (content_range first last total) ≡ some total
unfolding parse_content_range_total content_range bytes is_digit second_part
total-content_range first last total pos t =
    let known : le64 total 0 ≡ false = ground arith in
    let parts =
      split-append b'/' (bytes "bytes " ++ span first last) (decimal total)
        (refl, (refl, (refl, (refl, (refl, (refl, span-NoneOf first last))))))
        (digits-NoneOf b'/' total refl) in
    rw (parts, parse_content_range_total) (rw (parsed total t) (rw known refl))
