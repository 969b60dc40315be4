-- ===== src/Cli/Size.antt =====
-- internal/cli/parser.go: parseSize, for `--split-size` and `--buffer-size`.
use pget.Base.{
  ℕ, ◌^◌, true, false, ◌||◌, List, [], ◌∷◌, Option, none, some, if◌then◌else◌, map, bytes,
  has_suffix, trim_space, upper, is_digit, parse_int,
}
use pget.Base.Int64.{mul64}

unfoldable pub multiplier : List ℕ → ℕ
unfolding has_suffix bytes
multiplier s =
    if has_suffix s (bytes "K") || has_suffix s (bytes "KB")
    then 2 ^ 10
    else if has_suffix s (bytes "M") || has_suffix s (bytes "MB") || has_suffix s (bytes "MIB")
    then 2 ^ 20
    else if has_suffix s (bytes "G") || has_suffix s (bytes "GB") || has_suffix s (bytes "GIB")
    then 2 ^ 30
    else 1

-- The text up to the first byte that is no digit.
unfoldable pub strip_unit : List ℕ → List ℕ
unfolding is_digit
strip_unit [] = []
strip_unit (c ∷ s) = elim (is_digit c) [ true ↦ c ∷ strip_unit s | false ↦ [] ]

-- `none` is an error.
unfoldable pub parse_size : List ℕ → Option ℕ
unfolding multiplier strip_unit parse_int trim_space upper
parse_size text =
    let s = map upper (trim_space text) in
    elim (parse_int (strip_unit s)) [ none ↦ none | some n ↦ some (mul64 n (multiplier s)) ]
