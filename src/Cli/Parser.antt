-- ===== src/Cli/Parser.antt =====
-- internal/cli/parser.go: parseOptions, parseLongOption, parseShortOptions, validate and Parse. The
-- index that the handlers advance is a flag: whether the next argument was consumed.
use pget.Base.{
  ℕ, ◌+◌, ◌-◌, ◌*◌, Bool, true, false, not, ◌&&◌, List, [], ◌∷◌, Option, none, some, ◌==◌, ltb, leb,
  if◌then◌else◌, bytes, same_text, strip_prefix, cut, is_digit,
}
use pget.Cli.Options.{
  CliOption, opt_by_name, find_short, options, takes_arg, opt_no_clobber, opt_continue,
  opt_no_verbose,
}
use pget.Cli.Setting.{
  Outcome, and_then, Parser, set_option, ok, fails, exited, unrecognized_option, requires_argument,
  invalid_option, short_requires_argument,
}

-- utf8.DecodeRuneInString at the start of a text; `none` is utf8.RuneError. `continues lo hi b` says
-- that `b` is a continuation byte within the bounds.
unfoldable pub continues : ℕ → ℕ → ℕ → Bool
continues lo hi b = leb lo b && leb b hi

unfoldable pub decode_two : ℕ → List ℕ → Option ℕ
unfolding continues
decode_two b0 [] = none
decode_two b0 (b1 ∷ s) = if continues 128 191 b1 then some ((b0 - 192) * 64 + (b1 - 128)) else none

unfoldable pub decode_three : ℕ → List ℕ → Option ℕ
unfolding continues
decode_three b0 (b1 ∷ b2 ∷ s) =
    let lo = (if b0 == 224 then 160 else 128) in
    let hi = (if b0 == 237 then 159 else 191) in
    let r = (b0 - 224) * 4096 + (b1 - 128) * 64 + (b2 - 128) in
    if continues lo hi b1 && continues 128 191 b2 && not (r == 65533) then some r else none
decode_three b0 _ = none

unfoldable pub decode_four : ℕ → List ℕ → Option ℕ
unfolding continues
decode_four b0 (b1 ∷ b2 ∷ b3 ∷ s) =
    let lo = (if b0 == 240 then 144 else 128) in
    let hi = (if b0 == 244 then 143 else 191) in
    if continues lo hi b1 && continues 128 191 b2 && continues 128 191 b3
    then some ((b0 - 240) * 262144 + (b1 - 128) * 4096 + (b2 - 128) * 64 + (b3 - 128))
    else none
decode_four b0 _ = none

unfoldable pub decode_rune : ℕ → List ℕ → Option ℕ
unfolding decode_two decode_three decode_four
decode_rune b s =
    if ltb b 128
    then some b
    else if leb 194 b && leb b 223
    then decode_two b s
    else if leb 224 b && leb b 239
    then decode_three b s
    else if leb 240 b && leb b 244
    then decode_four b s
    else none

unfoldable pub all_digits : List ℕ → Bool
unfolding is_digit
all_digits [] = true
all_digits (c ∷ s) = is_digit c && all_digits s

-- A range over the runes of a text finds no digit in a byte of a longer rune.
unfoldable pub is_negative_number : List ℕ → Bool
unfolding all_digits
is_negative_number (c ∷ d ∷ s) = c == b'-' && all_digits (d ∷ s)
is_negative_number _ = false

-- What an argument is: the end of the options, a positional one, or options.
pub data Argument : Type 0 where
  ends_options positional : Argument
  long_form short_form : List ℕ → Argument

unfoldable pub classify : List ℕ → Argument
unfolding same_text strip_prefix bytes is_negative_number
classify arg =
    if same_text arg (bytes "--")
    then ends_options
    else if same_text arg (bytes "-")
    then positional
    else elim (strip_prefix (bytes "--") arg) [
      | some name ↦ long_form name
      | none ↦ elim (strip_prefix (bytes "-") arg) [
        | none ↦ positional
        | some flags ↦ if is_negative_number arg then positional else short_form flags
      ]
    ]

unfoldable pub keep : List ℕ → Outcome (Parser × List (List ℕ)) → Outcome (Parser × List (List ℕ))
keep arg (ok (p, args)) = ok (p, arg ∷ args)
keep arg (fails e) = fails e
keep arg exited = exited

unfoldable pub head? : List (List ℕ) → Option (List ℕ)
head? [] = none
head? (arg ∷ rest) = some arg

module _ (parse_seconds : List ℕ → Option ℕ) where
  -- The options of a known combined form, one after the other.
  unfoldable pub set_all : Parser → List CliOption → Outcome Parser
  set_all p [] = ok p
  set_all p (opt ∷ rest) = and_then (set_option parse_seconds p opt []) (λ p'. set_all p' rest)

  unfoldable pub flag_with_arg :
      Parser → CliOption → ℕ → List ℕ → Option (List ℕ) → Outcome (Parser × Bool)
  flag_with_arg p opt r [] none = fails (short_requires_argument r)
  flag_with_arg p opt r [] (some next) =
      and_then (set_option parse_seconds p opt next) (λ p'. ok (p', true))
  flag_with_arg p opt r (c ∷ rest) next =
      and_then (set_option parse_seconds p opt (c ∷ rest)) (λ p'. ok (p', false))

  -- The loop over a group of flags. A rune that is some option's is one byte long.
  unfoldable pub parse_flags : Parser → List ℕ → Option (List ℕ) → Outcome (Parser × Bool)
  unfolding decode_rune find_short options flag_with_arg
  parse_flags p [] next = ok (p, false)
  parse_flags p (b ∷ rest) next = elim (decode_rune b rest) [
    | none ↦ parse_flags p rest next
    | some r ↦ elim (find_short r options) [
      | none ↦ fails (invalid_option r)
      | some opt ↦ elim (takes_arg opt) [
        | true ↦ flag_with_arg p opt r rest next
        | false ↦ and_then (set_option parse_seconds p opt []) (λ p'. parse_flags p' rest next)
      ]
    ]
  ]

  unfoldable pub parse_short_options : Parser → List ℕ → Option (List ℕ) → Outcome (Parser × Bool)
  unfolding set_all parse_flags same_text bytes
  parse_short_options p flags next = elim (same_text flags (bytes "nc")) [
    | true ↦ and_then (set_all p (opt_no_clobber ∷ opt_continue ∷ [])) (λ p'. ok (p', false))
    | false ↦ elim (same_text flags (bytes "nv")) [
      | true ↦ and_then (set_all p (opt_no_verbose ∷ [])) (λ p'. ok (p', false))
      | false ↦ parse_flags p flags next
    ]
  ]

  -- `name` and `value` are the two sides of the first `=`.
  unfoldable pub long_option :
      Parser → List ℕ → List ℕ → Option (List ℕ) → Option CliOption → Outcome (Parser × Bool)
  long_option p name value next none = fails (unrecognized_option name)
  long_option p name [] next (some opt) = elim (takes_arg opt) [
    | true ↦ elim next [
      | none ↦ fails (requires_argument name)
      | some arg ↦ and_then (set_option parse_seconds p opt arg) (λ p'. ok (p', true))
    ]
    | false ↦ and_then (set_option parse_seconds p opt []) (λ p'. ok (p', false))
  ]
  long_option p name (c ∷ value) next (some opt) =
      and_then (set_option parse_seconds p opt (c ∷ value)) (λ p'. ok (p', false))

  -- The argument is given without its leading `--`.
  unfoldable pub parse_long_option : Parser → List ℕ → Option (List ℕ) → Outcome (Parser × Bool)
  unfolding cut long_option
  parse_long_option p text next = elim (cut b'=' text) [
    | none ↦ long_option p text [] next (opt_by_name text)
    | some (name, value) ↦ long_option p name value next (opt_by_name name)
  ]

  -- One argument; `go` is the rest of the loop, told whether the next argument was consumed.
  unfoldable pub handle :
      Argument
      → Parser
      → List ℕ
      → List (List ℕ)
      → (Parser → Bool → Outcome (Parser × List (List ℕ)))
      → Outcome (Parser × List (List ℕ))
  unfolding parse_long_option parse_short_options
  handle ends_options p arg rest go = ok (p, rest)
  handle positional p arg rest go = keep arg (go p false)
  handle (long_form text) p arg rest go =
      and_then (parse_long_option p text (head? rest)) (λ (p', skip). go p' skip)
  handle (short_form flags) p arg rest go =
      and_then (parse_short_options p flags (head? rest)) (λ (p', skip). go p' skip)

  -- The loop over the arguments; the flag says that the first one was consumed as a value. The
  -- positional arguments come back in order.
  unfoldable pub parse_options : Parser → Bool → List (List ℕ) → Outcome (Parser × List (List ℕ))
  unfolding classify handle
  parse_options p skip [] = ok (p, [])
  parse_options p true (arg ∷ rest) = parse_options p false rest
  parse_options p false (arg ∷ rest) =
      handle (classify arg) p arg rest (λ p' skip. parse_options p' skip rest)
