-- ===== src/Http/Filename.antt =====
-- internal/adapter/http/adapter.go: extractFilename and sanitizeFilename.
use pget.Base.{
  ℕ, ◌≡◌, ◌≢◌, refl, inl, inr, Bool, false, ◌||◌, List, [], ◌∷◌, none, some, arith, ◌==◌,
  if◌then◌else◌, bytes, same_text, cut_text, trim, behind_last, All, Bool-cases, Option-cases,
}

unfoldable pub replace : ℕ → ℕ → List ℕ → List ℕ
replace old new [] = []
replace old new (c ∷ s) = (if c == old then new else c) ∷ replace old new s

unfoldable pub remove_all : ℕ → List ℕ → List ℕ
remove_all old [] = []
remove_all old (c ∷ s) = let rest = remove_all old s in if c == old then rest else c ∷ rest

unfoldable pub is_dangerous : List ℕ → Bool
unfolding same_text bytes
is_dangerous name = same_text name (bytes ".") || same_text name (bytes "..") || same_text name []

unfoldable pub sanitize_filename : List ℕ → List ℕ
unfolding replace remove_all is_dangerous bytes
sanitize_filename name =
    let clean = remove_all 0 (replace b'\\' b'_' (replace b'/' b'_' name)) in
    if is_dangerous clean then bytes "index.html" else clean

unfoldable pub is_quote : ℕ → Bool
is_quote c = c == b'"' || c == 39

-- The header's `filename=`, without quotes.
unfoldable pub disposition_name : List ℕ → List ℕ
unfolding cut_text trim is_quote bytes
disposition_name disposition = elim (cut_text (bytes "filename=") disposition) [
  | none ↦ []
  | some (before, name) ↦ trim is_quote name
]

unfoldable pub sanitize_nonempty : List ℕ → List ℕ
unfolding sanitize_filename bytes
sanitize_nonempty [] = bytes "index.html"
sanitize_nonempty (c ∷ name) = sanitize_filename (c ∷ name)

unfoldable pub path_name : List ℕ → List ℕ
unfolding behind_last sanitize_nonempty bytes
path_name path = elim (behind_last b'/' path) [
  | none ↦ bytes "index.html"
  | some name ↦ sanitize_nonempty name
]

-- The first argument is the disposition's name, if any.
unfoldable pub choose_name : List ℕ → List ℕ → List ℕ
unfolding path_name sanitize_filename
choose_name [] path = path_name path
choose_name (c ∷ name) path = sanitize_filename (c ∷ name)

unfoldable pub extract_filename : List ℕ → List ℕ → List ℕ
unfolding choose_name disposition_name
extract_filename disposition path = choose_name (disposition_name disposition) path

-- A byte that may stand in a name: neither a separator nor zero.
abbrev pub IsSafeByte : ℕ → Type 0
IsSafeByte c = (c ≢ b'/') × (c ≢ b'\\') × (c ≢ 0)

-- A name of one path segment that is neither empty nor a dot directory.
abbrev pub IsSafeName : List ℕ → Type 0
IsSafeName name = All IsSafeByte name × (name ≢ []) × (name ≢ b'.' ∷ []) × (name ≢ b'.' ∷ b'.' ∷ [])

underscore : IsSafeByte b'_'
underscore = (λ e. omega arith, λ e. omega arith, λ e. omega arith)

clean-All :
    (name : List ℕ) → All IsSafeByte (remove_all 0 (replace b'\\' b'_' (replace b'/' b'_' name)))
unfolding remove_all replace
clean-All [] = tt
clean-All (c ∷ s) = elim (Bool-cases (c == b'/')) [
  | inl slash ↦ rw slash (underscore, clean-All s)
  | inr no_slash ↦ rw no_slash (elim (Bool-cases (c == b'\\')) [
    | inl backslash ↦ rw backslash (underscore, clean-All s)
    | inr no_backslash ↦ rw no_backslash (elim (Bool-cases (c == 0)) [
      | inl nul ↦ rw nul (clean-All s)
      | inr no_nul ↦ rw no_nul ((ground arith, ground arith, ground arith), clean-All s)
    ])
  ])
]

is_dangerous_sound :
    (name : List ℕ)
    → is_dangerous name ≡ false
    → (name ≢ []) × (name ≢ b'.' ∷ []) × (name ≢ b'.' ∷ b'.' ∷ [])
unfolding is_dangerous same_text bytes
is_dangerous_sound [] e = ground (arith, e)
is_dangerous_sound (c ∷ []) e =
    (λ p. ground (arith, p), λ p. ground (arith, p, e), λ p. ground (arith, p))
is_dangerous_sound (c ∷ d ∷ []) e =
    (λ p. ground (arith, p), λ p. ground (arith, p), λ p. ground (arith, p, e))
is_dangerous_sound (c ∷ d ∷ x ∷ s) e =
    (λ p. ground (arith, p), λ p. ground (arith, p), λ p. ground (arith, p))

index-IsSafeName : IsSafeName (bytes "index.html")
unfolding bytes remove_all replace is_dangerous same_text
index-IsSafeName =
    let (a, b, c) = is_dangerous_sound (bytes "index.html") refl in
    (clean-All (bytes "index.html"), a, b, c)

sanitize_filename-IsSafeName : (name : List ℕ) → IsSafeName (sanitize_filename name)
unfolding sanitize_filename
sanitize_filename-IsSafeName name =
    let clean = remove_all 0 (replace b'\\' b'_' (replace b'/' b'_' name)) in
    elim (Bool-cases (is_dangerous clean)) [
      | inl e ↦ rw e index-IsSafeName
      | inr e ↦ let (a, b, c) = is_dangerous_sound clean e in rw e (clean-All name, a, b, c)
    ]

sanitize_nonempty-IsSafeName : (name : List ℕ) → IsSafeName (sanitize_nonempty name)
unfolding sanitize_nonempty
sanitize_nonempty-IsSafeName [] = index-IsSafeName
sanitize_nonempty-IsSafeName (c ∷ name) = sanitize_filename-IsSafeName (c ∷ name)

path_name-IsSafeName : (path : List ℕ) → IsSafeName (path_name path)
unfolding path_name
path_name-IsSafeName path = elim (Option-cases (behind_last b'/' path)) [
  | inl e ↦ rw (e, path_name) index-IsSafeName
  | inr (name, e) ↦ rw (e, path_name) (sanitize_nonempty-IsSafeName name)
]

choose_name-IsSafeName : (name path : List ℕ) → IsSafeName (choose_name name path)
unfolding choose_name
choose_name-IsSafeName [] path = path_name-IsSafeName path
choose_name-IsSafeName (c ∷ name) path = sanitize_filename-IsSafeName (c ∷ name)

-- Whatever a server sends as Content-Disposition and whatever the path of the URL is, the file name
-- taken from them has no slash, no backslash and no zero byte in it, and is neither empty nor one of
-- the two dot directories.
pub extract_filename-IsSafeName :
    (disposition path : List ℕ) → IsSafeName (extract_filename disposition path)
unfolding extract_filename
extract_filename-IsSafeName disposition path =
    choose_name-IsSafeName (disposition_name disposition) path
