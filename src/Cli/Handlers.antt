-- ===== src/Cli/Handlers.antt =====
-- The loop over the arguments keeps the settings within their bounds.
use pget.Base.{
  ℕ, inl, inr, Bool, true, false, List, [], ◌∷◌, Option, none, some, bytes, same_text, Bool-cases,
  Option-cases, cut,
}
use pget.Cli.Options.{
  CliOption, find_short, options, takes_arg, opt_no_clobber, opt_continue, opt_no_verbose,
}
use pget.Cli.Setting.{Outcome, ok, fails, exited, and_then, Parser, set_option}
use pget.Cli.Parser.{
  set_all, flag_with_arg, parse_flags, parse_short_options, long_option, parse_long_option,
  classify, keep, head?, parse_options, decode_rune, handle, ends_options, positional, long_form,
  short_form, Argument,
}
use pget.Cli.Sound.{Ensures, and_then-Ensures, IsSound, set_option-Ensures}

module _ (parse_seconds : List ℕ → Option ℕ) where
  set_option-flagged :
      (p : Parser) (opt : CliOption) (value : List ℕ) (skip : Bool)
      → IsSound p.plan
      → Ensures {A = Parser × Bool}
          (λ q. IsSound q.0.plan)
          (and_then (set_option parse_seconds p opt value) (λ p'. ok (p', skip)))
  set_option-flagged p opt value skip h =
      and_then-Ensures _ _ _ (set_option-Ensures parse_seconds p opt value h) (λ p' h'. h')

  set_all-Ensures :
      (opts : List CliOption) (p : Parser)
      → IsSound p.plan
      → Ensures (λ q. IsSound q.plan) (set_all parse_seconds p opts)
  unfolding set_all
  set_all-Ensures [] p h = h
  set_all-Ensures (opt ∷ opts) p h =
      and_then-Ensures _ _ _ (set_option-Ensures parse_seconds p opt [] h)
        (λ p' h'. set_all-Ensures opts p' h')

  flag_with_arg-Ensures :
      (p : Parser) (opt : CliOption) (r : ℕ) (rest : List ℕ) (next : Option (List ℕ))
      → IsSound p.plan
      → Ensures (λ q. IsSound q.0.plan) (flag_with_arg parse_seconds p opt r rest next)
  unfolding flag_with_arg
  flag_with_arg-Ensures p opt r [] none h = tt
  flag_with_arg-Ensures p opt r [] (some next) h = set_option-flagged p opt next true h
  flag_with_arg-Ensures p opt r (c ∷ rest) next h = set_option-flagged p opt (c ∷ rest) false h

  parse_flags-Ensures :
      (flags : List ℕ) (p : Parser) (next : Option (List ℕ))
      → IsSound p.plan
      → Ensures (λ q. IsSound q.0.plan) (parse_flags parse_seconds p flags next)
  unfolding parse_flags
  parse_flags-Ensures [] p next h = h
  parse_flags-Ensures (b ∷ rest) p next h = elim (Option-cases (decode_rune b rest)) [
    | inl e ↦ rw (e, Ensures, parse_flags) (parse_flags-Ensures rest p next h)
    | inr (r, e) ↦
        rw (e, Ensures, parse_flags)
          (elim (Option-cases (find_short r options)) [
            | inl e' ↦ rw (e', Ensures, parse_flags) tt
            | inr (opt, e') ↦
                rw (e', Ensures, parse_flags)
                  (elim (Bool-cases (takes_arg opt)) [
                    | inl a ↦
                        rw (a, Ensures, parse_flags) (flag_with_arg-Ensures p opt r rest next h)
                    | inr a ↦
                        rw (a, Ensures, parse_flags)
                          (and_then-Ensures _ _ _ (set_option-Ensures parse_seconds p opt [] h)
                            (λ p' h'. parse_flags-Ensures rest p' next h'))
                  ])
          ])
  ]

  parse_short_options-Ensures :
      (flags : List ℕ) (p : Parser) (next : Option (List ℕ))
      → IsSound p.plan
      → Ensures (λ q. IsSound q.0.plan) (parse_short_options parse_seconds p flags next)
  unfolding parse_short_options
  parse_short_options-Ensures flags p next h = elim (Bool-cases (same_text flags (bytes "nc"))) [
    | inl e ↦
        rw (e, Ensures, parse_short_options)
          (and_then-Ensures _ _ _ (set_all-Ensures (opt_no_clobber ∷ opt_continue ∷ []) p h)
            (λ p' h'. h'))
    | inr e ↦
        rw (e, Ensures, parse_short_options)
          (elim (Bool-cases (same_text flags (bytes "nv"))) [
            | inl e' ↦
                rw (e', Ensures, parse_short_options)
                  (and_then-Ensures _ _ _ (set_all-Ensures (opt_no_verbose ∷ []) p h) (λ p' h'. h'))
            | inr e' ↦ rw (e', Ensures, parse_short_options) (parse_flags-Ensures flags p next h)
          ])
  ]

  long_option-Ensures :
      (p : Parser) (name value : List ℕ) (next : Option (List ℕ)) (found : Option CliOption)
      → IsSound p.plan
      → Ensures (λ q. IsSound q.0.plan) (long_option parse_seconds p name value next found)
  unfolding long_option
  long_option-Ensures p name value next none h = tt
  long_option-Ensures p name (c ∷ value) next (some opt) h =
      set_option-flagged p opt (c ∷ value) false h
  long_option-Ensures p name [] none (some opt) h = elim (Bool-cases (takes_arg opt)) [
    | inl e ↦ rw (e, Ensures, long_option) tt
    | inr e ↦ rw (e, Ensures, long_option) (set_option-flagged p opt [] false h)
  ]
  long_option-Ensures p name [] (some arg) (some opt) h = elim (Bool-cases (takes_arg opt)) [
    | inl e ↦ rw (e, Ensures, long_option) (set_option-flagged p opt arg true h)
    | inr e ↦ rw (e, Ensures, long_option) (set_option-flagged p opt [] false h)
  ]

  parse_long_option-Ensures :
      (p : Parser) (text : List ℕ) (next : Option (List ℕ))
      → IsSound p.plan
      → Ensures (λ q. IsSound q.0.plan) (parse_long_option parse_seconds p text next)
  unfolding parse_long_option
  parse_long_option-Ensures p text next h = elim (Option-cases (cut b'=' text)) [
    | inl e ↦ rw (e, Ensures, parse_long_option) (long_option-Ensures p text [] next _ h)
    | inr ((name, value), e) ↦
        rw (e, Ensures, parse_long_option) (long_option-Ensures p name value next _ h)
  ]

  keep-Ensures :
      (arg : List ℕ) (o : Outcome (Parser × List (List ℕ)))
      → Ensures (λ q. IsSound q.0.plan) o
      → Ensures (λ q. IsSound q.0.plan) (keep arg o)
  unfolding keep
  keep-Ensures arg (ok (p, args)) h = h
  keep-Ensures arg (fails e) h = tt
  keep-Ensures arg exited h = tt

  handle-Ensures :
      (form : Argument) (p : Parser) (arg : List ℕ) (rest : List (List ℕ))
      (go : Parser → Bool → Outcome (Parser × List (List ℕ)))
      → IsSound p.plan
      → ((p' : Parser) (skip : Bool)
          → IsSound p'.plan
          → Ensures (λ q. IsSound q.0.plan) (go p' skip))
      → Ensures (λ q. IsSound q.0.plan) (handle parse_seconds form p arg rest go)
  unfolding handle
  handle-Ensures ends_options p arg rest go h k = h
  handle-Ensures positional p arg rest go h k = keep-Ensures arg _ (k p false h)
  handle-Ensures (long_form text) p arg rest go h k =
      and_then-Ensures _ _ _ (parse_long_option-Ensures p text (head? rest) h)
        (λ (p', skip) h'. k p' skip h')
  handle-Ensures (short_form flags) p arg rest go h k =
      and_then-Ensures _ _ _ (parse_short_options-Ensures flags p (head? rest) h)
        (λ (p', skip) h'. k p' skip h')

  pub parse_options-Ensures :
      (args : List (List ℕ)) (p : Parser) (skip : Bool)
      → IsSound p.plan
      → Ensures (λ q. IsSound q.0.plan) (parse_options parse_seconds p skip args)
  unfolding parse_options
  parse_options-Ensures [] p skip h = h
  parse_options-Ensures (arg ∷ rest) p true h = parse_options-Ensures rest p false h
  parse_options-Ensures (arg ∷ rest) p false h =
      handle-Ensures (classify arg) p arg rest _ h
        (λ p' skip h'. parse_options-Ensures rest p' skip h')
