-- ===== src/Http/Range.antt =====
-- internal/adapter/http/adapter.go: the checks on Content-Range, and OpenRange behind its request.
pub mod Accepts
use pget.Base.{
  ℕ, ◌≡◌, refl, inl, inr, Bool, true, false, ◌&&◌, List, [], ◌∷◌, Option, none, some, arith, ◌==◌,
  ==_iff, bytes, strip_prefix, cut, split, trim_space, parse_int, Option-cases,
}
use pget.Base.Int64.{add64, sub64, le64}

pub record Response : Type 0 where
  pub status : ℕ
  pub content_range : List ℕ
  pub content_length : ℕ
  pub etag : List ℕ
  pub last_modified : List ℕ
  pub content_disposition : List ℕ
  pub url_path : List ℕ
  pub final_url : List ℕ
  pub display_url : List ℕ
  pub scheme : List ℕ

-- The second of exactly two parts.
unfoldable pub second_part : List (List ℕ) → Option (List ℕ)
second_part (a ∷ b ∷ []) = some b
second_part _ = none

unfoldable pub parse_content_range_total : List ℕ → Option ℕ
unfolding split second_part trim_space parse_int
parse_content_range_total cr = elim (second_part (split b'/' cr)) [
  | none ↦ none
  | some part ↦ elim (parse_int (trim_space part)) [
    | none ↦ none
    | some total ↦ elim (le64 total 0) [ true ↦ none | false ↦ some total ]
  ]
]

unfoldable pub without_unit : List ℕ → List ℕ
unfolding strip_prefix bytes
without_unit cr = elim (strip_prefix (bytes "bytes ") cr) [ none ↦ cr | some rest ↦ rest ]

-- The two numbers of START-END/TOTAL.
unfoldable pub range_bounds : List ℕ → Option (ℕ × ℕ)
unfolding cut trim_space parse_int without_unit
range_bounds cr = elim (cut b'/' (without_unit cr)) [
  | none ↦ none
  | some (range, total) ↦ elim (cut b'-' range) [
    | none ↦ none
    | some (first, last) ↦ elim (parse_int (trim_space first)) [
      | none ↦ none
      | some a ↦ elim (parse_int (trim_space last)) [ none ↦ none | some b ↦ some (a, b) ]
    ]
  ]
]

unfoldable pub validate_content_range : List ℕ → ℕ → ℕ → Bool
unfolding range_bounds
validate_content_range cr start end = elim (range_bounds cr) [
  | none ↦ false
  | some (a, b) ↦ a == start && b == end
]

pub data RangeError : Type 0 where
  unexpected_status : ℕ → RangeError
  invalid_content_range : List ℕ → RangeError
  wrong_content_length : ℕ → ℕ → RangeError

-- A check, which returns an error early, and the checks behind it.
unfoldable pub require : Bool → RangeError → Option RangeError → Option RangeError
require true e rest = rest
require false e rest = some e

-- `none` is a reader of `length` bytes.
unfoldable pub check_range : Response → ℕ → ℕ → Option RangeError
unfolding require validate_content_range
check_range resp start length = require (resp.status == 206) (unexpected_status resp.status) (
    require (validate_content_range resp.content_range start (sub64 (add64 start length) 1))
      (invalid_content_range resp.content_range)
      (require (resp.content_length == length) (wrong_content_length resp.content_length length)
        none))

require-none :
    (b : Bool) (err : RangeError) (rest : Option RangeError)
    → require b err rest ≡ none
    → (b ≡ true) × (rest ≡ none)
unfolding require
require-none true err rest e = (refl, e)
require-none false err rest e = cc

range_bounds-exact :
    (cr : List ℕ) (start end : ℕ)
    → validate_content_range cr start end ≡ true
    → range_bounds cr ≡ some (start, end)
unfolding validate_content_range
range_bounds-exact cr start end e = elim (Option-cases (range_bounds cr)) [
  | inl bad ↦ ground (arith, bad, e)
  | inr ((a, b), good) ↦ ground (arith, good, e)
]

-- A response that OpenRange accepts has status 206, its Content-Range names exactly the first and the
-- last byte of the requested range, and it announces exactly the requested number of bytes.
pub check_range-exact :
    (resp : Response) (start length : ℕ)
    → check_range resp start length ≡ none
    → (resp.status ≡ 206)
      × (range_bounds resp.content_range ≡ some (start, sub64 (add64 start length) 1))
      × (resp.content_length ≡ length)
unfolding check_range
check_range-exact resp start length e =
    let last = sub64 (add64 start length) 1 in
    let (status, rest) = require-none _ _ _ e in
    let (range, rest') = require-none _ _ _ rest in
    let (same, _) = require-none _ _ _ rest' in
    (
      (==_iff resp.status 206).0 status,
      range_bounds-exact resp.content_range start last range,
      (==_iff resp.content_length length).0 same,
    )
