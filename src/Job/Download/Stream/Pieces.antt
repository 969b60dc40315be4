-- ===== src/Job/Download/Stream/Pieces.antt =====
-- The planned chunks, one behind the other, are the source.
use pget.Base.{
  ℕ, zero, suc, ◌+◌, ◌≤◌, ◌≡◌, ◌∙◌, sym, refl, ap, ap₂, inl, inr, List, [], ◌∷◌, ◌++◌, Option, none,
  some, arith, length, take, drop, get_elem?, Option-cases,
}
use mathlib.Core.List.{append-nil}
use pget.Chunk.{Chunk}
use pget.Chunk.Tiling.{Tiles}
use pget.Schedule.Counts.{PendingFrom}
use pget.Sink.Stream.Order.{first_chunks}
use pget.Job.Run.Delivered.{piece}

-- The bytes of a chunk that the table may have.
abbrev pub piece_of : List ℕ → Option Chunk → List ℕ
piece_of source none = []
piece_of source (some c) = piece source c

abbrev pub pieces : List ℕ → List Chunk → ℕ → List ℕ
pieces source cs k = piece_of source (get_elem? cs k)

-- How many bytes the first chunks have.
abbrev edge : List Chunk → ℕ → ℕ
edge [] k = 0
edge (c ∷ cs) zero = 0
edge (c ∷ cs) (suc k) = c.length + edge cs k

take-nil : (n : ℕ) → take {A = ℕ} n [] ≡ []
take-nil zero = refl
take-nil (suc n) = refl

take-drop-append : (n k : ℕ) (xs : List ℕ) → take (n + k) xs ≡ take n xs ++ take k (drop n xs)
take-drop-append zero k xs = ground arith
take-drop-append (suc n) k [] = take-nil (suc n + k) ∙ sym (take-nil k)
take-drop-append (suc n) k (x ∷ xs) =
    let sum : suc n + k ≡ suc (n + k) = omega arith in rw sum (ap (x ∷◌) (take-drop-append n k xs))

edge-get :
    (split size n off : ℕ) (cs : List Chunk) (k : ℕ) (c : Chunk)
    → Tiles split size n off cs
    → get_elem? cs k ≡ some c
    → (c.start ≡ off + edge cs k) × (edge cs (suc k) ≡ edge cs k + c.length)
edge-get split size n off [] k c t e = cc
edge-get split size n off (x ∷ []) zero c (ix, at, _, _, _, t) e = ground arith
edge-get split size n off (x ∷ y ∷ cs) zero c (ix, at, _, _, _, t) e = ground arith
edge-get split size n off (x ∷ cs) (suc k) c (_, _, _, _, _, t) e =
    let (at, len) = edge-get split size (suc n) (off + x.length) cs k c t e in
    (omega arith, omega arith)

edge-none : (cs : List Chunk) (k : ℕ) → get_elem? cs k ≡ none → edge cs (suc k) ≡ edge cs k
edge-none [] k e = refl
edge-none (x ∷ cs) zero e = cc
edge-none (x ∷ cs) (suc k) e = omega (arith, edge-none cs k e)

edge-end :
    (split size n off : ℕ) (cs : List Chunk) (k : ℕ)
    → Tiles split size n off cs
    → length cs ≤ k
    → off + edge cs k ≡ size
edge-end split size n off [] k t le = omega arith
edge-end split size n off (x ∷ cs) zero t le = absurd (omega arith)
edge-end split size n off (x ∷ cs) (suc k) (_, _, _, _, _, t) le =
    omega (arith, edge-end split size (suc n) (off + x.length) cs k t (omega arith))

first_chunks-edge :
    (split size : ℕ) (source : List ℕ) (cs : List Chunk) (k : ℕ)
    → Tiles split size 0 0 cs
    → first_chunks (pieces source cs) k ≡ take (edge cs k) source
first_chunks-edge split size source [] zero t = refl
first_chunks-edge split size source (x ∷ cs) zero t = refl
first_chunks-edge split size source cs (suc k) t = elim (Option-cases (get_elem? cs k)) [
  | inl e ↦ rw (e, edge-none cs k e) (append-nil _ ∙ first_chunks-edge split size source cs k t)
  | inr (c, e) ↦
      let (at, len) = edge-get split size 0 0 cs k c t e in
      let from : c.start ≡ edge cs k = omega (arith, at) in
      rw (len, e)
        (ap₂ ◌++◌ (first_chunks-edge split size source cs k t)
            (ap (λ j. take c.length (drop j source)) from)
          ∙ sym (take-drop-append (edge cs k) c.length source))
]

-- Chunks past the last one have no bytes, so any bound that is enough gives the source.
pub first_chunks-whole :
    (split size : ℕ) (source : List ℕ) (cs : List Chunk) (k : ℕ)
    → Tiles split size 0 0 cs
    → length cs ≤ k
    → first_chunks (pieces source cs) k ≡ take size source
first_chunks-whole split size source cs k t le =
    let all : edge cs k ≡ size = omega (arith, edge-end split size 0 0 cs k t le) in
    first_chunks-edge split size source cs k t ∙ ap (λ j. take j source) all

pub Tiles-pending :
    (split size n off : ℕ) (cs : List Chunk) → Tiles split size n off cs → PendingFrom zero cs
Tiles-pending split size n off [] t = tt
Tiles-pending split size n off (c ∷ cs) (_, _, _, _, st, t) =
    (st, Tiles-pending split size (suc n) (off + c.length) cs t)
