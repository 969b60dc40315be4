-- ===== src/Http/Request/Answered.antt =====
-- What OpenRange asks for, and that a server that answers just that is accepted.
use pget.Base.{
  ℕ, ◌+◌, ◌-◌, ◌≤◌, ◌<◌, ◌≡◌, ◌∙◌, refl, ap, inl, inr, Bool, true, false, List, [], ◌∷◌, ◌++◌, none,
  some, arith, bytes, Bool-cases, same_text, same_text_refl, same_text_sound, ==_iff,
}
use pget.Base.Int64.{add64, sub64, half, is_negative}
use pget.Http.Range.{
  Response, RangeError, check_range, require, validate_content_range, parse_content_range_total,
}
use pget.Http.Range.Accepts.{span, content_range, validate_content_range-exact, total-content_range}
use pget.Http.Request.{
  Headers, RequestOptions, signed_decimal, remove_header, get_header, range_text, set_header,
  set_nonempty, set_all, set_headers, accept_identity, range_headers,
}

get_header-remove_header :
    (k name : List ℕ) (headers : Headers)
    → same_text name k ≡ false
    → get_header k (remove_header name headers) ≡ get_header k headers
unfolding get_header remove_header
get_header-remove_header k name [] apart = refl
get_header-remove_header k name ((n, v) ∷ headers) apart =
    let rest = get_header-remove_header k name headers apart in
    elim (Bool-cases (same_text n name)) [
      | inl e ↦
          let other : same_text n k ≡ false =
            ap (λ m. same_text m k) (same_text_sound n name e) ∙ apart in
          rw e (rw other rest)
      | inr e ↦ rw e (rw rest refl)
    ]

require-all :
    {a b c : Bool} (e f g : RangeError)
    → a ≡ true
    → b ≡ true
    → c ≡ true
    → require a e (require b f (require c g none)) ≡ none
unfolding require
require-all e f g first second third = rw (first, second, third) refl

range_text-span :
    (first last : ℕ)
    → first < half
    → last < half
    → range_text first last ≡ bytes "bytes=" ++ span first last
unfolding range_text signed_decimal
range_text-span first last f l =
    let plus_first : is_negative first ≡ false = ground arith in
    let plus_last : is_negative last ≡ false = ground arith in rw (plus_first, plus_last) refl

module _ (canonical : List ℕ → List ℕ) where
  -- The names that the adapter itself sets are in the canonical spelling.
  pub record IsStandard : Type 0 where
    pub range : canonical (bytes "Range") ≡ bytes "Range"
    pub accept_encoding : canonical (bytes "Accept-Encoding") ≡ bytes "Accept-Encoding"
    pub if_range : canonical (bytes "If-Range") ≡ bytes "If-Range"
    pub user_agent : canonical (bytes "User-Agent") ≡ bytes "User-Agent"
    pub referer : canonical (bytes "Referer") ≡ bytes "Referer"

  -- No extra header of the user is a Range header.
  abbrev pub NoRange : Headers → Type 0
  NoRange [] = Unit
  NoRange ((name, value) ∷ extra) =
      (same_text (canonical name) (bytes "Range") ≡ false) × NoRange extra

  get_header-set_header :
      (k name value : List ℕ) (headers : Headers)
      → same_text (canonical name) k ≡ false
      → get_header k (set_header canonical name value headers) ≡ get_header k headers
  unfolding get_header set_header
  get_header-set_header k name value headers apart =
      rw apart (get_header-remove_header k (canonical name) headers apart)

  get_header-set_nonempty :
      (k name value : List ℕ) (headers : Headers)
      → same_text (canonical name) k ≡ false
      → get_header k (set_nonempty canonical name value headers) ≡ get_header k headers
  unfolding set_nonempty
  get_header-set_nonempty k name value headers apart = elim (Bool-cases (same_text value [])) [
    | inl e ↦ rw e refl
    | inr e ↦ rw e (get_header-set_header k name value headers apart)
  ]

  get_header-set_all :
      (extra headers : Headers)
      → NoRange extra
      → get_header (bytes "Range") (set_all canonical extra headers)
        ≡ get_header (bytes "Range") headers
  unfolding set_all
  get_header-set_all [] headers h = refl
  get_header-set_all ((name, value) ∷ extra) headers (apart, h) =
      get_header-set_all extra _ h ∙ get_header-set_header (bytes "Range") name value headers apart

  is_other :
      (name : List ℕ)
      → canonical name ≡ name
      → same_text name (bytes "Range") ≡ false
      → same_text (canonical name) (bytes "Range") ≡ false
  is_other name fixed other = ap (λ n. same_text n (bytes "Range")) fixed ∙ other

  get_header-set_range :
      (value : List ℕ)
      → canonical (bytes "Range") ≡ bytes "Range"
      → get_header (bytes "Range") (set_header canonical (bytes "Range") value []) ≡ value
  unfolding get_header set_header
  get_header-set_range value fixed = rw fixed (rw (same_text_refl (bytes "Range")) refl)

  module _ (std : IsStandard) where
    range_headers-Range :
        (start length : ℕ) (validator : List ℕ) (opts : RequestOptions)
        → NoRange opts.headers
        → get_header (bytes "Range") (range_headers canonical start length validator opts)
          ≡ range_text start (sub64 (add64 start length) 1)
    unfolding range_headers set_headers accept_identity same_text bytes
    range_headers-Range start length validator opts none_given =
        get_header-set_all opts.headers _ none_given
        ∙ get_header-set_nonempty (bytes "Range") (bytes "Referer") opts.referer _
            (is_other (bytes "Referer") std.referer refl)
        ∙ get_header-set_nonempty (bytes "Range") (bytes "User-Agent") opts.user_agent _
            (is_other (bytes "User-Agent") std.user_agent refl)
        ∙ get_header-set_nonempty (bytes "Range") (bytes "If-Range") validator _
            (is_other (bytes "If-Range") std.if_range refl)
        ∙ get_header-set_header (bytes "Range") (bytes "Accept-Encoding") (bytes "identity") _
            (is_other (bytes "Accept-Encoding") std.accept_encoding refl)
        ∙ get_header-set_range _ std.range

    -- OpenRange asks for exactly the bytes from `start` on, as many as it has to read, and accepts
    -- the answer of a server that honours this: status 206, the Content-Range that names these bytes
    -- and the total, and their number as the length; the total is what Probe reads from this header.
    -- The conditions are that the range is not empty and ends in the int64 range, that the total is
    -- positive and in that range, that no extra header of the user is a Range header, and that net/http
    -- leaves the names that the adapter sets as they are.
    pub range_request-answered :
        (start length total : ℕ) (validator : List ℕ) (opts : RequestOptions) (resp : Response)
        → NoRange opts.headers
        → 0 < length
        → start + length ≤ half
        → 0 < total
        → total < half
        → resp.status ≡ 206
        → resp.content_range ≡ content_range start (start + length - 1) total
        → resp.content_length ≡ length
        → (get_header (bytes "Range") (range_headers canonical start length validator opts)
            ≡ bytes "bytes=" ++ span start (start + length - 1))
          × (check_range resp start length ≡ none)
          × (parse_content_range_total resp.content_range ≡ some total)
    unfolding check_range
    range_request-answered start length total validator opts resp none_given pos fits known bounded
          status range announced =
        let last : sub64 (add64 start length) 1 ≡ start + length - 1 = omega (arith, pos, fits) in
        let exact =
          validate_content_range-exact start (start + length - 1) total (omega arith)
            (omega arith) in
        (
          range_headers-Range start length validator opts none_given
              ∙ ap (range_text start) last
              ∙ range_text-span start (start + length - 1) (omega arith) (omega arith),
          require-all _ _ _ ((==_iff resp.status 206).1 status)
              (ap (λ cr. validate_content_range cr start (sub64 (add64 start length) 1)) range
                ∙ ap
                    (λ n.
                      validate_content_range (content_range start (start + length - 1) total) start
                        n)
                    last
                ∙ exact)
              ((==_iff resp.content_length length).1 announced),
          ap parse_content_range_total range
              ∙ total-content_range start (start + length - 1) total known bounded,
        )
