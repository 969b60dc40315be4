-- ===== src/Job/Run/Sinks.antt =====
-- What the two sinks do with a chunk's bytes: nothing that was delivered is lost, and what they accept
-- has been delivered.
use pget.Base.{
  ℕ, ◌+◌, ◌<◌, ◌≡◌, ◌≢◌, ◌∙◌, sym, refl, subst, ◌⊎◌, inl, inr, Bool, true, false, List, Option,
  none, some, arith, length, take, get_elem?, ◌==◌, Bool-cases, some-inj,
}
use pget.Base.Int64.{half, add64}
use pget.Chunk.{Chunk}
use pget.Sink.Stream.{StreamSink, SinkError, submit}
use pget.Sink.Stream.Delivery.{IsKept, submit-Keeps, submit-accepted}
use pget.Sink.File.{FileSink, FileError, write_chunk, write_at, mark_chunk}
use pget.Sink.File.AnyOrder.{take-IsPiece, written-byte, kept-byte}
use pget.Job.Worker.{
  Dest, to_file, to_stream, Pc, Shared, Env, deliver, stored, submitted, accepted,
}
use pget.Job.Run.Delivered.{IsDelivered, IsDeliveredAt, IsBased, Claim, piece}

mark_chunk-same :
    (s : FileSink) (i : ℕ) (sidecar fails : Bool)
    → ((mark_chunk s i sidecar fails).0.file ≡ s.file)
      × ((mark_chunk s i sidecar fails).0.base_off ≡ s.base_off)
unfolding mark_chunk
mark_chunk-same s i false fails = (refl, refl)
mark_chunk-same s i true true = (refl, refl)
mark_chunk-same s i true false = (refl, refl)

-- The bytes are in the file, whatever else goes wrong, or the first ones of them if the write fails.
pub write_chunk-cases :
    (s : FileSink) (c : Chunk) (payload : List ℕ) (write_fails : Option ℕ) (mark_fails : Bool)
    → ((write_chunk s c payload write_fails mark_fails).0.base_off ≡ s.base_off)
      × (((write_chunk s c payload write_fails mark_fails).0.file
            ≡ write_at s.file (add64 s.base_off c.start) payload)
          ⊎ ((n : ℕ) × (write_fails ≡ some n)
              × ((write_chunk s c payload write_fails mark_fails).0.file
                  ≡ write_at s.file (add64 s.base_off c.start) (take n payload))))
write_chunk-cases s c payload (some n) mark_fails =
    unfold write_chunk in (refl, inr (n, refl, refl))
write_chunk-cases s c payload none mark_fails = elim (Bool-cases (length payload == c.length)) [
  | inl e ↦
      let s' = record s { file = write_at s.file (add64 s.base_off c.start) payload } in
      let (file, base) = mark_chunk-same s' c.index s.has_sidecar mark_fails in
      unfold write_chunk in rw e (base, inl file)
  | inr e ↦ unfold write_chunk in rw e (refl, inl refl)
]

write_chunk-fails :
    (s : FileSink) (c : Chunk) (payload : List ℕ) (n : ℕ) (mark_fails : Bool)
    → (write_chunk s c payload (some n) mark_fails).1 ≢ none
unfolding write_chunk
write_chunk-fails s c payload n mark_fails e = ground (arith, e)

module _ (planned : List Chunk) (source : List ℕ) (base : ℕ) where
  -- Nothing that was delivered is lost.
  abbrev pub Preserves : Dest → Dest → Type 0
  Preserves dest dest' =
      (c : Chunk) → IsDelivered source base dest c → IsDelivered source base dest' c

  pub Preserves-at :
      (dest dest' : Dest) (i : ℕ)
      → Preserves dest dest'
      → IsDeliveredAt planned source base dest i
      → IsDeliveredAt planned source base dest' i
  Preserves-at dest dest' i k h c at = k c (h c at)

  module _ (c : Chunk) (payload : List ℕ) (right : payload ≡ piece source c)
      (full : length payload ≡ c.length) where
    file-Preserves :
        (s : FileSink) (write_fails : Option ℕ) (mark_fails : Bool)
        → s.base_off ≡ base
        → base + c.start < half
        → Preserves (to_file s) (to_file (write_chunk s c payload write_fails mark_fails).0)
    file-Preserves s write_fails mark_fails at bound d h i l k =
        elim (write_chunk-cases s c payload write_fails mark_fails).1 [
          | inl file ↦
              rw (file, at)
                (kept-byte source base i s.file c payload (rw full right, bound) (h i l k))
          | inr (n, _, file) ↦
              rw (file, at)
                (kept-byte source base i s.file c (take n payload)
                  (take-IsPiece n source base c payload (rw full right, bound)) (h i l k))
        ]

    file-IsDelivered :
        (s : FileSink) (write_fails : Option ℕ) (mark_fails : Bool)
        → s.base_off ≡ base
        → base + c.start < half
        → (write_chunk s c payload write_fails mark_fails).1 ≡ none
        → IsDelivered source base (to_file (write_chunk s c payload write_fails mark_fails).0) c
    file-IsDelivered s write_fails mark_fails at bound ok i l k =
        elim (write_chunk-cases s c payload write_fails mark_fails).1 [
          | inl file ↦
              rw (file, at)
                (written-byte source base i s.file c payload (rw full right, bound) l (rw full k))
          | inr (n, failed, _) ↦
              absurd (write_chunk-fails s c payload n mark_fails (rw failed at ok))
        ]

  -- Delivery depends on the range only.
  pub IsDelivered-same :
      (dest : Dest) (c c' : Chunk)
      → c'.index ≡ c.index
      → c'.start ≡ c.start
      → c'.length ≡ c.length
      → IsDelivered source base dest c'
      → IsDelivered source base dest c
  IsDelivered-same (to_file s) c c' i st len h = λ k l lt. h k (omega arith) (omega arith)
  IsDelivered-same (to_stream s) c c' i st len h = subst (λ k. IsKept k s) i h

  at_position :
      (dest : Dest) (i : ℕ) (c c' : Chunk)
      → get_elem? planned i ≡ some c
      → c'.index ≡ c.index
      → c'.start ≡ c.start
      → c'.length ≡ c.length
      → IsDelivered source base dest c'
      → IsDeliveredAt planned source base dest i
  at_position dest i c c' at ix st len h x at' =
      subst (IsDelivered source base dest) (some-inj (sym at ∙ at'))
        (IsDelivered-same dest c c' ix st len h)

  -- What a delivery leaves behind: the scheduler as it was, every delivered chunk, and the claim of
  -- the worker that made it.
  pub record Delivers (sh : Shared) (dest : Dest) (r : Shared × Pc) : Type 0 where
    pub same_sched : r.0.sched ≡ sh.sched
    pub based : IsBased planned source base r.0.dest
    pub preserves : Preserves dest r.0.dest
    pub claim : Claim planned source base r.0.dest r.1

  accepted-Claim :
      (dest : Dest) (slot i : ℕ) (hedge : Bool) (n : ℕ)
      → IsDeliveredAt planned source base dest i
      → Claim planned source base dest (accepted slot i hedge n)
  unfolding accepted
  accepted-Claim dest slot i true n h = h
  accepted-Claim dest slot i false n h = h

  module _ (sh : Shared) (slot i : ℕ) (hedge : Bool) (n : ℕ) where
    stored-Delivers :
        (s : FileSink) (r : FileSink × Option FileError)
        → r.0.base_off ≡ base
        → Preserves (to_file s) (to_file r.0)
        → (r.1 ≡ none → IsDeliveredAt planned source base (to_file r.0) i)
        → Delivers sh (to_file s) (stored sh slot i hedge n r)
    unfolding stored
    stored-Delivers s (s', none) at k h = record {
      same_sched = refl;
      based = at;
      preserves = k;
      claim = accepted-Claim (to_file s') slot i hedge n (h refl);
    }
    stored-Delivers s (s', some e) at k h = record {
      same_sched = refl;
      based = at;
      preserves = k;
      claim = tt;
    }

    submitted-Delivers :
        (s : StreamSink) (r : StreamSink × Option SinkError)
        → Preserves (to_stream s) (to_stream r.0)
        → (r.1 ≡ none → IsDeliveredAt planned source base (to_stream r.0) i)
        → Delivers sh (to_stream s) (submitted sh slot i hedge n r)
    unfolding submitted
    submitted-Delivers s (s', none) k h = record {
      same_sched = refl;
      based = tt;
      preserves = k;
      claim = accepted-Claim (to_stream s') slot i hedge n (h refl);
    }
    submitted-Delivers s (s', some e) k h = record {
      same_sched = refl;
      based = tt;
      preserves = k;
      claim = tt;
    }

  -- `c'` is the chunk of the table at a position, `c` the planned one there.
  pub deliver-Delivers :
      (env : Env) (sh : Shared) (slot : ℕ) (hedge : Bool) (c c' : Chunk) (payload : List ℕ) (i : ℕ)
      (dest : Dest)
      → get_elem? planned i ≡ some c
      → c'.index ≡ c.index
      → c'.start ≡ c.start
      → c'.length ≡ c.length
      → payload ≡ piece source c
      → length payload ≡ c.length
      → base + c.start < half
      → IsBased planned source base dest
      → Delivers sh dest (deliver env sh slot hedge c' payload i dest)
  unfolding deliver
  deliver-Delivers env sh slot hedge c c' payload i (to_file s) at ix st len right full bound
        based =
      let right' : payload ≡ piece source c' = rw (st, len) right in
      let full' : length payload ≡ c'.length = rw len full in
      let bound' : base + c'.start < half = rw st bound in
      stored-Delivers sh slot i hedge (length payload) s
        (write_chunk s c' payload env.write_error env.mark_error)
        ((write_chunk-cases s c' payload env.write_error env.mark_error).0 ∙ based)
        (file-Preserves c' payload right' full' s env.write_error env.mark_error based bound')
        (λ ok.
          at_position (to_file (write_chunk s c' payload env.write_error env.mark_error).0) i c c'
            at ix st len
            (file-IsDelivered c' payload right' full' s env.write_error env.mark_error based bound'
              ok))
  deliver-Delivers env sh slot hedge c c' payload i (to_stream s) at ix st len right full bound
        based =
      submitted-Delivers sh slot i hedge (length payload) s (submit s c' payload)
        (λ x h. (submit-Keeps s c' payload x.index).0 h)
        (λ ok.
          at_position (to_stream (submit s c' payload).0) i c c' at ix st len
            (inr (submit-accepted s c' payload ok).0))
