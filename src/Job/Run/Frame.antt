-- ===== src/Job/Run/Frame.antt =====
-- What the workers of a file leave alone: every byte of the file outside the ranges of the table.
use pget.Base.{
  ℕ, zero, suc, take, [], ◌∷◌, ◌+◌, ◌≤◌, ◌<◌, ◌≡◌, ◌⊎◌, ◌∙◌, sym, refl, subst, inl, inr, Bool, List,
  Option, none, some, arith, length, get_elem?,
}
use pget.Base.Int64.{half, add64}
use pget.Chunk.{Chunk}
use pget.Sink.Stream.{StreamSink, SinkError, reserve}
use pget.Sink.File.{FileSink, FileError, write_chunk}
use pget.Sink.File.Placement.{byte_at, write_at-outside}
use pget.Job.Worker.{
  Env, Dest, to_file, to_stream, Shared, delivering, stored, submitted, deliver, reserved,
  reserve_for, move,
}
use pget.Job.Run.{Workers, Step, works, cancels, Reach, here, next}
use pget.Job.Run.Delivered.{Claim, IsBased, SameRanges-get}
use pget.Job.Run.Sinks.{write_chunk-cases}
use pget.Job.Run.Kind.{move-keeps}
use pget.Job.Run.Safety.{Inv, Reach-Inv}

length-take_within : (n : ℕ) (xs : List ℕ) → length (take n xs) ≤ length xs
length-take_within zero xs = omega arith
length-take_within (suc n) [] = omega arith
length-take_within (suc n) (x ∷ xs) = omega (arith, length-take_within n xs)

-- The byte of the file at a position.
abbrev pub byte_in : ℕ → Dest → ℕ
byte_in y (to_file s) = byte_at s.file y
byte_in y (to_stream s) = 0

module _ (y : ℕ) (sh : Shared) where
  stored-byte_in :
      (slot i : ℕ) (hedge : Bool) (n : ℕ) (r : FileSink × Option FileError)
      → byte_in y (stored sh slot i hedge n r).0.dest ≡ byte_at r.0.file y
  unfolding stored
  stored-byte_in slot i hedge n (s, none) = refl
  stored-byte_in slot i hedge n (s, some e) = refl

  submitted-byte_in :
      (slot i : ℕ) (hedge : Bool) (n : ℕ) (r : StreamSink × Option SinkError)
      → byte_in y (submitted sh slot i hedge n r).0.dest ≡ 0
  unfolding submitted
  submitted-byte_in slot i hedge n (s, none) = refl
  submitted-byte_in slot i hedge n (s, some e) = refl

  reserved-byte_in :
      (slot i : ℕ) (r : StreamSink × Option SinkError) → byte_in y (reserved sh slot i r).0.dest ≡ 0
  unfolding reserved
  reserved-byte_in slot i (s, none) = refl
  reserved-byte_in slot i (s, some e) = refl

  reserve_for-byte_in :
      (slot i : ℕ) (c : Chunk) (dest : Dest)
      → sh.dest ≡ dest
      → byte_in y (reserve_for sh slot i c dest).0.dest ≡ byte_in y sh.dest
  unfolding reserve_for
  reserve_for-byte_in slot i c (to_file s) e = refl
  reserve_for-byte_in slot i c (to_stream s) e =
      reserved-byte_in slot i (reserve s c.length) ∙ rw e refl

  -- A delivery does not touch a byte that is outside the chunk's range.
  module _ (base : ℕ) (c : Chunk) (payload : List ℕ) (full : length payload ≡ c.length)
      (bound : base + c.start < half)
      (outside : (y < base + c.start) ⊎ (base + c.start + c.length ≤ y)) where
    written-byte_in :
        (s : FileSink) (write_fails : Option ℕ) (mark_fails : Bool)
        → s.base_off ≡ base
        → byte_at (write_chunk s c payload write_fails mark_fails).0.file y ≡ byte_at s.file y
    written-byte_in s write_fails mark_fails at =
        elim (write_chunk-cases s c payload write_fails mark_fails).1 [
          | inl file ↦
              let place : add64 s.base_off c.start ≡ base + c.start = omega (arith, at, bound) in
              rw (file, place)
                (write_at-outside s.file (base + c.start) payload y (ground (arith, outside, full)))
          | inr (n, _, file) ↦
              let place : add64 s.base_off c.start ≡ base + c.start = omega (arith, at, bound) in
              let part = length-take_within n payload in
              rw (file, place)
                (write_at-outside s.file (base + c.start) (take n payload) y
                  (ground (arith, outside, full, part)))
        ]

    deliver-byte_in :
        (env : Env) (slot : ℕ) (hedge : Bool) (i : ℕ) (dest : Dest) (planned : List Chunk)
        (source : List ℕ)
        → IsBased planned source base dest
        → byte_in y (deliver env sh slot hedge c payload i dest).0.dest ≡ byte_in y dest
    unfolding deliver
    deliver-byte_in env slot hedge i (to_file s) planned source at =
        stored-byte_in slot i hedge _ _ ∙ written-byte_in s env.write_error env.mark_error at
    deliver-byte_in env slot hedge i (to_stream s) planned source at =
        submitted-byte_in slot i hedge _ _

module _ (planned : List Chunk) (source : List ℕ) (base y : ℕ)
    (laid : (i : ℕ) (c : Chunk)
      → get_elem? planned i ≡ some c
      → (base + c.start < half) × (c.index ≡ i))
    (outside : (i : ℕ) (c : Chunk)
      → get_elem? planned i ≡ some c
      → (y < base + c.start) ⊎ (base + c.start + c.length ≤ y)) where
  works-byte_in :
      (w : Workers) (i : ℕ) (env : Env)
      → Inv planned source base w
      → byte_in y (move env w.shared (w.pcs i)).0.dest ≡ byte_in y w.shared.dest
  works-byte_in w i env v =
      move-keeps w.shared (byte_in y) env (w.pcs i)
        (λ slot k c. reserve_for-byte_in y w.shared slot k c w.shared.dest refl)
        (λ slot k hedge payload c e at.
          let (d, at_planned, _, starts, lengths) =
            SameRanges-get planned w.shared.sched.chunks k c v.shared.ranges at in
          let claim : Claim planned source base w.shared.dest (delivering slot k hedge payload) =
            subst (Claim planned source base w.shared.dest) e (v.claims i) in
          let (_, full) = claim d at_planned in
          deliver-byte_in y w.shared base c payload (full ∙ sym lengths)
            (omega (arith, starts, (laid k d at_planned).0))
            (ground (arith, starts, lengths, outside k d at_planned)) env slot hedge k w.shared.dest
            planned source v.shared.based)

  Step-byte_in :
      {n : ℕ} {w u : Workers}
      → Inv planned source base w
      → Step n source w u
      → byte_in y u.shared.dest ≡ byte_in y w.shared.dest
  Step-byte_in {w = w} v (works i env lt serves) = works-byte_in w i env v
  Step-byte_in v cancels = refl

  pub Reach-byte_in :
      {n : ℕ} {w u : Workers}
      → Inv planned source base w
      → Reach n source w u
      → byte_in y u.shared.dest ≡ byte_in y w.shared.dest
  Reach-byte_in v here = refl
  Reach-byte_in v (next r st) =
      Step-byte_in (Reach-Inv planned source base laid r v) st ∙ Reach-byte_in v r
