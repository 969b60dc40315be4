-- ===== src/Sidecar/Hash.antt =====
-- internal/sidecar/sidecar.go: HashURL and HashURLList. `sha256` stands for the sum of crypto/sha256.
use pget.Base.{ℕ, ◌≡◌, ◌≢◌, ◌∙◌, sym, refl, ap, List, [], ◌∷◌, ◌++◌, bytes, All}
use pget.Sidecar.Base64

unfoldable pub hash_url : (List ℕ → List ℕ) → List ℕ → List ℕ
unfolding bytes
hash_url sha256 url = bytes "sha256:" ++ Base64.encode (sha256 url)

-- What is written to the hash: every URL and a zero byte.
unfoldable pub hashed : List (List ℕ) → List ℕ
hashed [] = []
hashed (url ∷ urls) = url ++ 0 ∷ hashed urls

unfoldable pub hash_url_list : (List ℕ → List ℕ) → List (List ℕ) → List ℕ
unfolding hashed bytes
hash_url_list sha256 urls = bytes "sha256:" ++ Base64.encode (sha256 (hashed urls))

abbrev pub NoZero : List ℕ → Type 0
NoZero url = All (λ b. b ≢ 0) url

-- The end of the first URL can be found.
split-inj : (u v s t : List ℕ) → NoZero u → NoZero v → u ++ 0 ∷ s ≡ v ++ 0 ∷ t → (u ≡ v) × (s ≡ t)
split-inj [] [] s t h k e = (refl, cc)
split-inj [] (b ∷ v) s t h k e = absurd (k.0 (sym (let q : 0 ≡ b = cc in q)))
split-inj (a ∷ u) [] s t h k e = absurd (h.0 (let q : a ≡ 0 = cc in q))
split-inj (a ∷ u) (b ∷ v) s t h k e =
    let tails : u ++ 0 ∷ s ≡ v ++ 0 ∷ t = cc in
    let (same, rest) = split-inj u v s t h.1 k.1 tails in
    let head : a ≡ b = cc in (ap (a ∷◌) same ∙ ap (λ x. x ∷ v) head, rest)

-- Two lists of URLs without zero bytes that are hashed as the same bytes are the same list: no two
-- lists share an identity unless SHA-256 itself collides.
pub hashed-inj :
    (us vs : List (List ℕ)) → All NoZero us → All NoZero vs → hashed us ≡ hashed vs → us ≡ vs
unfolding hashed
hashed-inj [] [] h k e = refl
hashed-inj [] ([] ∷ vs) h k e = cc
hashed-inj [] ((b ∷ v) ∷ vs) h k e = cc
hashed-inj ([] ∷ us) [] h k e = cc
hashed-inj ((a ∷ u) ∷ us) [] h k e = cc
hashed-inj (u ∷ us) (v ∷ vs) (hu, h) (kv, k) e =
    let (same, rest) = split-inj u v (hashed us) (hashed vs) hu kv e in
    ap (λ x. x ∷ us) same ∙ ap (v ∷◌) (hashed-inj us vs h k rest)
