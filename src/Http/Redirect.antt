-- ===== src/Http/Redirect.antt =====
-- internal/adapter/http/adapter.go: CheckRedirect of the client, and parseHTTPTime. `parse` stands for
-- time.Parse with one of the five layouts, by its position.
use pget.Base.{
  ℕ, zero, suc, ◌≡◌, ◌∙◌, refl, inl, inr, Bool, false, ◌&&◌, List, [], Option, none, some, leb,
  if◌then◌else◌, bytes, same_text, some-inj, sym, ap, Bool-cases,
}
use pget.Http.Request.{Headers, get_header, set_header}

-- A request of the chain: the host, the headers, and whether the URL has credentials.
pub record Hop : Type 0 where
  pub host : List ℕ
  pub headers : Headers
  pub has_user : Bool

module _ (canonical : List ℕ → List ℕ) where
  unfoldable pub keep_header : List ℕ → Headers → Headers → Headers
  unfolding set_header get_header same_text
  keep_header name old headers =
      if same_text (get_header name old) []
      then headers
      else set_header canonical name (get_header name old) headers

  -- `hops` is the number of requests so far and `prev` the last of them; `none` is too many redirects.
  unfoldable pub check_redirect : ℕ → Hop → Hop → Option Hop
  unfolding keep_header same_text bytes
  check_redirect hops prev req =
      let headers =
        keep_header (bytes "Accept-Encoding") prev.headers
          (keep_header (bytes "Range") prev.headers req.headers) in
      if leb 20 hops
      then none
      else some (record req {
        headers = headers;
        has_user = req.has_user && same_text prev.host req.host;
      })

unfoldable pub first_parsed : (ℕ → List ℕ → Option ℕ) → ℕ → ℕ → List ℕ → Option ℕ
first_parsed parse layout zero s = none
first_parsed parse layout (suc n) s =
    let later = first_parsed parse (suc layout) n s in
    elim (parse layout s) [ some t ↦ some t | none ↦ later ]

unfoldable pub parse_http_time : (ℕ → List ℕ → Option ℕ) → List ℕ → Option ℕ
unfolding first_parsed
parse_http_time parse s = first_parsed parse 0 5 s

-- A redirect to another host never carries the credentials of a URL.
pub check_redirect-user :
    (canonical : List ℕ → List ℕ) (hops : ℕ) (prev req next : Hop)
    → check_redirect canonical hops prev req ≡ some next
    → same_text prev.host req.host ≡ false
    → next.has_user ≡ false
unfolding check_redirect
check_redirect-user canonical hops prev req next e other = elim (Bool-cases (leb 20 hops)) [
  | inl many ↦ absurd (let q : none ≡ some next = rw many at e in cc)
  | inr few ↦
      let kept = some-inj (rw few at e) in
      ap (λ h. h.has_user) (sym kept)
      ∙ (elim (Bool-cases req.has_user) [ inl u ↦ simp (u, other) refl | inr u ↦ simp u refl ])
]
