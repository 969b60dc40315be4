-- ===== src/Sink/File/AnyOrder.antt =====
-- The chunks may be written in any order, and more than once.
use pget.Base.{
  ℕ, zero, suc, ◌+◌, ◌-◌, ◌≤◌, ◌<◌, ◌≡◌, ◌⊎◌, ◌∙◌, sym, refl, inl, inr, Bool, true, false, List, [],
  ◌∷◌, none, arith, ◌==◌, ltb, length, take, drop, Bool-cases, All, ap, subst, ltb→lt,
}
use pget.Base.Int64.{add64, half}
use pget.Chunk.{Chunk}
use pget.Sink.File.{write_at, FileSink, write_chunk, mark_chunk}
use pget.Sink.File.Placement.{byte_at, write_at-inside, write_at-outside}

-- The payload is the piece of the source that the chunk names.
abbrev pub IsPiece : List ℕ → ℕ → Chunk × List ℕ → Type 0
IsPiece source base (c, payload) =
    (payload ≡ take (length payload) (drop c.start source)) × (base + c.start < half)

-- Successful calls of WriteChunk, one after the other.
unfoldable pub write_all : FileSink → List (Chunk × List ℕ) → FileSink
unfolding write_chunk
write_all s [] = s
write_all s ((c, payload) ∷ writes) = write_all (write_chunk s c payload none false).0 writes

-- Some of the writes reaches position `i` of the source.
abbrev pub Covers : List (Chunk × List ℕ) → ℕ → Type 0
Covers [] i = ⊥
Covers ((c, payload) ∷ writes) i =
    ((c.start ≤ i) × (i < c.start + length payload)) ⊎ Covers writes i

-- The first bytes of a piece are a piece.
prefix :
    (n : ℕ) (payload source : List ℕ)
    → payload ≡ take (length payload) source
    → take n payload ≡ take (length (take n payload)) source
prefix zero payload source h = refl
prefix (suc n) [] source h = refl
prefix (suc n) (b ∷ payload) [] h = absurd (let q : b ∷ payload ≡ [] = h in cc)
prefix (suc n) (b ∷ payload) (d ∷ source) h =
    let same : b ≡ d = cc in
    let rest : payload ≡ take (length payload) source = cc in
    rw same (ap (d ∷◌) (prefix n payload source rest))

pub take-IsPiece :
    (n : ℕ) (source : List ℕ) (base : ℕ) (c : Chunk) (payload : List ℕ)
    → IsPiece source base (c, payload)
    → IsPiece source base (c, take n payload)
take-IsPiece n source base c payload (piece, bound) =
    (prefix n payload (drop c.start source) piece, bound)

byte_at-take :
    (n : ℕ) (source : List ℕ) (i : ℕ) → i < n → byte_at (take n source) i ≡ byte_at source i
byte_at-take zero source i h = absurd (omega arith)
byte_at-take (suc n) [] i h = refl
byte_at-take (suc n) (b ∷ source) zero h = refl
byte_at-take (suc n) (b ∷ source) (suc i) h = byte_at-take n source i (omega arith)

byte_at-drop :
    (k : ℕ) (source : List ℕ) (i : ℕ) → k ≤ i → byte_at (drop k source) (i - k) ≡ byte_at source i
byte_at-drop zero source i h = let same : i - 0 ≡ i = omega arith in ap (byte_at source) same
byte_at-drop (suc k) [] i h = refl
byte_at-drop (suc k) (b ∷ source) zero h = absurd (omega arith)
byte_at-drop (suc k) (b ∷ source) (suc i) h =
    let same : suc i - suc k ≡ i - k = omega arith in
    rw same (byte_at-drop k source i (omega arith))

piece-byte :
    (source : List ℕ) (base : ℕ) (c : Chunk) (payload : List ℕ) (i : ℕ)
    → IsPiece source base (c, payload)
    → c.start ≤ i
    → i < c.start + length payload
    → byte_at payload (i - c.start) ≡ byte_at source i
piece-byte source base c payload i (piece, _) l h =
    ap (λ p. byte_at p (i - c.start)) piece
    ∙ byte_at-take (length payload) (drop c.start source) (i - c.start) (omega arith)
    ∙ byte_at-drop c.start source i l

mark_chunk-file :
    (s : FileSink) (i : ℕ) (sidecar : Bool)
    → ((mark_chunk s i sidecar false).0.file ≡ s.file)
      × ((mark_chunk s i sidecar false).0.base_off ≡ s.base_off)
unfolding mark_chunk
mark_chunk-file s i true = (refl, refl)
mark_chunk-file s i false = (refl, refl)

write_chunk-file :
    (s : FileSink) (c : Chunk) (payload : List ℕ)
    → ((write_chunk s c payload none false).0.file
        ≡ write_at s.file (add64 s.base_off c.start) payload)
      × ((write_chunk s c payload none false).0.base_off ≡ s.base_off)
unfolding write_chunk
write_chunk-file s c payload = elim (Bool-cases (length payload == c.length)) [
  | inl e ↦ rw e (mark_chunk-file _ c.index s.has_sidecar)
  | inr e ↦ rw e (refl, refl)
]

-- The byte at position `i` of the source stands in the file.
abbrev IsRight : List ℕ → ℕ → ℕ → FileSink → Type 0
IsRight source base i s = (s.base_off ≡ base) × (byte_at s.file (base + i) ≡ byte_at source i)

-- A write of a piece puts the bytes that it reaches in their place.
pub written-byte :
    (source : List ℕ) (base i : ℕ) (file : List ℕ) (c : Chunk) (payload : List ℕ)
    → IsPiece source base (c, payload)
    → c.start ≤ i
    → i < c.start + length payload
    → byte_at (write_at file (add64 base c.start) payload) (base + i) ≡ byte_at source i
written-byte source base i file c payload piece l h =
    let place : add64 base c.start ≡ base + c.start = omega (arith, piece.1) in
    let offset : base + i - (base + c.start) ≡ i - c.start = omega arith in
    rw place (
      write_at-inside file (base + c.start) payload (base + i) (omega arith) (omega arith)
      ∙ ap (byte_at payload) offset
      ∙ piece-byte source base c payload i piece l h)

reached : (a i b : ℕ) → ((a ≤ i) × (i < b)) ⊎ ((i < a) ⊎ (b ≤ i))
reached a i b = elim (Bool-cases (ltb i a)) [
  | inl below ↦ inr (inl (ltb→lt i a below))
  | inr above ↦ elim (Bool-cases (ltb i b)) [
    | inl inside ↦ inl (ground arith, ltb→lt i b inside)
    | inr beyond ↦ inr (inr (ground arith))
  ]
]

-- A byte that is right stays right under the write of any piece.
pub kept-byte :
    (source : List ℕ) (base i : ℕ) (file : List ℕ) (c : Chunk) (payload : List ℕ)
    → IsPiece source base (c, payload)
    → byte_at file (base + i) ≡ byte_at source i
    → byte_at (write_at file (add64 base c.start) payload) (base + i) ≡ byte_at source i
kept-byte source base i file c payload piece right =
    elim (reached c.start i (c.start + length payload)) [
      | inl (l, h) ↦ written-byte source base i file c payload piece l h
      | inr away ↦
          let place : add64 base c.start ≡ base + c.start = omega (arith, piece.1) in
          rw place
            (write_at-outside file (base + c.start) payload (base + i) (ground arith) ∙ right)
    ]

stays-IsRight :
    (source : List ℕ) (base i : ℕ) (s : FileSink) (c : Chunk) (payload : List ℕ)
    → IsRight source base i s
    → IsPiece source base (c, payload)
    → IsRight source base i (write_chunk s c payload none false).0
stays-IsRight source base i s c payload (at, right) piece =
    let (file, base_off) = write_chunk-file s c payload in
    (base_off ∙ at, rw (file, at) (kept-byte source base i s.file c payload piece right))

write_all-IsRight :
    (source : List ℕ) (base i : ℕ) (writes : List (Chunk × List ℕ)) (s : FileSink)
    → All (IsPiece source base) writes
    → IsRight source base i s
    → IsRight source base i (write_all s writes)
unfolding write_all
write_all-IsRight source base i [] s pieces right = right
write_all-IsRight source base i ((c, payload) ∷ writes) s (piece, pieces) right =
    write_all-IsRight source base i writes _ pieces
      (stays-IsRight source base i s c payload right piece)

-- Chunks of one source that are written with WriteChunk in any order, some perhaps more than once and
-- on top of any earlier content, leave every byte of the source that one of them reaches at its place
-- behind the sink's base offset, provided that no chunk's offset exceeds the int64 range.
pub write_all-source :
    (source : List ℕ) (i : ℕ) (writes : List (Chunk × List ℕ)) (s : FileSink)
    → All (IsPiece source s.base_off) writes
    → Covers writes i
    → byte_at (write_all s writes).file (s.base_off + i) ≡ byte_at source i
unfolding write_all
write_all-source source i [] s pieces covered = absurd covered
write_all-source source i ((c, payload) ∷ writes) s (piece, pieces) (inl (l, h)) =
    let (file, base_off) = write_chunk-file s c payload in
    (write_all-IsRight source s.base_off i writes _ pieces
      (base_off, rw file (written-byte source s.base_off i s.file c payload piece l h))).1
write_all-source source i ((c, payload) ∷ writes) s (piece, pieces) (inr covered) =
    let (_, same) = write_chunk-file s c payload in
    subst
      (λ base.
        byte_at (write_all (write_chunk s c payload none false).0 writes).file (base + i)
        ≡ byte_at source i)
      same
      (write_all-source source i writes _
        (subst (λ base. All (IsPiece source base) writes) (sym same) pieces) covered)
