-- ===== src/Job/Naming.antt =====
-- internal/job/runner.go: resolveFilename, progressLabel and sanitizeDisplayURL.
use pget.Base.{
  ℕ, ◌||◌, List, [], ◌∷◌, ◌++◌, Option, none, some, bytes, same_text, cut, cut_text, behind_last,
  if◌then◌else◌,
}

-- The text before the first separator, all of it where there is none.
unfoldable pub up_to : ℕ → List ℕ → List ℕ
unfolding cut
up_to sep text = elim (cut sep text) [ none ↦ text | some (before, behind) ↦ before ]

unfoldable pub url_name : List ℕ → List ℕ
unfolding behind_last up_to same_text bytes
url_name url = elim (behind_last b'/' url) [
  | none ↦ bytes "index.html"
  | some tail ↦
      let name = up_to b'?' tail in
      if same_text name [] || same_text name (bytes "/") then bytes "index.html" else name
]

-- `none` stands for a nil result; otherwise the name that the probe found.
unfoldable pub resolve_filename : Option (List ℕ) → List ℕ → List ℕ
unfolding url_name same_text bytes
resolve_filename none url = url_name url
resolve_filename (some name) url =
    if same_text name [] || same_text name (bytes "index.html") then url_name url else name

unfoldable pub progress_label : List ℕ → List ℕ
unfolding up_to behind_last
progress_label url =
    let u = up_to b'#' (up_to b'?' url) in
    elim (behind_last b'/' u) [ none ↦ u | some [] ↦ u | some (c ∷ name) ↦ c ∷ name ]

unfoldable pub sanitize_display_url : List ℕ → List ℕ
unfolding cut_text cut bytes
sanitize_display_url url = elim (cut_text (bytes "://") url) [
  | none ↦ url
  | some (scheme, rest) ↦ elim (cut b'@' rest) [
    | none ↦ url
    | some (user, host) ↦ scheme ++ bytes "://" ++ host
  ]
]
