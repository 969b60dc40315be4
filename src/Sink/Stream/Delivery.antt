-- ===== src/Sink/Stream/Delivery.antt =====
-- What becomes of a chunk that the sink has accepted.
use pget.Base.{
  ℕ, ◌<◌, ◌≡◌, ◌≢◌, refl, ◌⊎◌, inl, inr, List, [], ◌∷◌, Option, none, some, arith, ◌==◌,
  if◌then◌else◌, length, Option-cases, Bool-cases,
}
use pget.Base.Int64.{add64, lt64}
use pget.Chunk.{Chunk}
use pget.Sink.Stream.{
  ChunkData, StreamSink, SinkError, scanning, returned, lookup, delete, reserve, submit,
  submit_checked, close, scan, scan_frontier, finish, after_write,
}
use pget.Sink.Stream.Order.{
  Stream, Step, reserves, submits, closes, scans, writes, write_fails, stops, Reach, here, next,
  start, first_chunks, output-first_chunks,
}

lookup-delete :
    (k j : ℕ) (m : List (ℕ × ChunkData))
    → lookup k (delete j m) ≡ (if j == k then none else lookup k m)
unfolding lookup delete
lookup-delete k j [] = ground arith
lookup-delete k j ((i, d) ∷ m) = ground (arith, lookup-delete k j m)

abbrev pub IsKey : ℕ → List (ℕ × ChunkData) → Type 0
IsKey k m = (d : ChunkData) × (lookup k m ≡ some d)

IsKey-delete : (k j : ℕ) (m : List (ℕ × ChunkData)) → k ≢ j → IsKey k m → IsKey k (delete j m)
IsKey-delete k j m ne (d, e) = (d, ground (arith, e, lookup-delete k j m))

IsKey-put :
    (k j : ℕ) (x : ChunkData) (m : List (ℕ × ChunkData)) → IsKey k m → IsKey k ((j, x) ∷ delete j m)
IsKey-put k j x m (d, e) = elim (Bool-cases (j == k)) [
  | inl p ↦ (x, unfold lookup in rw p refl)
  | inr p ↦ (d, unfold lookup in rw p (ground (arith, e, lookup-delete k j m)))
]

submit-IsKey :
    (s : StreamSink) (c : Chunk) (bytes : List ℕ) (k : ℕ)
    → IsKey k s.completed
    → IsKey k (submit s c bytes).0.completed
submit-IsKey s c bytes k h = elim (Option-cases s.fatal_err) [
  | inl e ↦
      unfold submit in
      rw e (elim (Bool-cases (length bytes == c.length)) [
        | inl p ↦ rw p (IsKey-put k c.index _ s.completed h)
        | inr p ↦ rw p h
      ])
  | inr (x, e) ↦ unfold submit in rw e h
]

pub submit-accepted :
    (s : StreamSink) (c : Chunk) (bytes : List ℕ)
    → (submit s c bytes).1 ≡ none
    → IsKey c.index (submit s c bytes).0.completed
      × ((submit s c bytes).0.next_index ≡ s.next_index)
submit-accepted s c bytes h = elim (Option-cases s.fatal_err) [
  | inl e ↦ elim (Bool-cases (length bytes == c.length)) [
    | inl p ↦
        unfold submit in
        rw (e, p) ((record { chunk = c; bytes = bytes }, unfold lookup in ground arith), refl)
    | inr p ↦ absurd (unfold submit in ground (arith, e, p, h))
  ]
  | inr (x, e) ↦ absurd (unfold submit in ground (arith, e, h))
]

-- The chunk was written or will still be found.
abbrev pub IsKept : ℕ → StreamSink → Type 0
IsKept k s = (k < s.next_index) ⊎ IsKey k s.completed

-- The chunk's entry lies behind the frontier.
abbrev pub IsStale : ℕ → StreamSink → Type 0
IsStale k s = (k < s.next_index) × IsKey k s.completed

finish-keeps :
    (s : StreamSink) (k : ℕ) (m : List (ℕ × ChunkData))
    → (IsKept k s → IsKept k (finish s m).0) × (IsStale k s → IsStale k (finish s m).0)
unfolding finish
finish-keeps s k [] = ((λ h. h), (λ h. h))
finish-keeps s k ((i, d) ∷ m) = ((λ h. h), (λ h. h))

scan_frontier-keeps :
    (s : StreamSink) (k : ℕ) (o : Option ChunkData)
    → lookup s.next_index s.completed ≡ o
    → (IsKept k s → IsKept k (scan_frontier s o).0)
      × (IsStale k s → IsStale k (scan_frontier s o).0)
scan_frontier-keeps s k (some cd) e = (
  elim [
    | inl lt ↦ unfold scan_frontier in inl (omega arith)
    | inr key ↦ elim (Bool-cases (k == s.next_index)) [
      | inl p ↦ unfold scan_frontier in inl (ground arith)
      | inr p ↦
          unfold scan_frontier in
          inr (IsKey-delete k s.next_index s.completed (λ q. ground arith) key)
    ]
  ],
  λ (lt, key).
      unfold scan_frontier in
      (omega arith, IsKey-delete k s.next_index s.completed (λ q. omega arith) key),
)
scan_frontier-keeps s k none e = elim (Bool-cases s.closed) [
  | inl p ↦ unfold scan_frontier in simp p (finish-keeps s k s.completed)
  | inr p ↦ unfold scan_frontier in simp p ((λ h. h), (λ h. h))
]

abbrev pub Keeps : ℕ → StreamSink → StreamSink → Type 0
Keeps k s t = (IsKept k s → IsKept k t) × (IsStale k s → IsStale k t)

pub scan-Keeps : (s : StreamSink) (k : ℕ) → Keeps k s (scan s).0
scan-Keeps s k = elim (Option-cases s.fatal_err) [
  | inl e ↦ unfold scan in simp e (scan_frontier-keeps s k _ refl)
  | inr (x, e) ↦ unfold scan in simp e ((λ h. h), (λ h. h))
]

submit_checked-frontier :
    (s : StreamSink) (c : Chunk) (bytes : List ℕ) (e : Option SinkError)
    → (submit_checked s c bytes e).0.next_index ≡ s.next_index
unfolding submit_checked
submit_checked-frontier s c bytes (some e) = refl
submit_checked-frontier s c bytes none = ground arith

pub submit-Keeps :
    (s : StreamSink) (c : Chunk) (bytes : List ℕ) (k : ℕ) → Keeps k s (submit s c bytes).0
submit-Keeps s c bytes k =
    let frontier : (submit s c bytes).0.next_index ≡ s.next_index =
      unfold submit in submit_checked-frontier s c bytes s.fatal_err in
    (
      elim [ inl lt ↦ inl (omega arith) | inr key ↦ inr (submit-IsKey s c bytes k key) ],
      λ (lt, key). (omega arith, submit-IsKey s c bytes k key),
    )

pub reserve-Keeps : (s : StreamSink) (n k : ℕ) → Keeps k s (reserve s n).0
reserve-Keeps s n k = elim (Bool-cases (lt64 s.buffer_size (add64 s.reserved n))) [
  | inl e ↦ unfold reserve in rw e ((λ h. h), (λ h. h))
  | inr e ↦ unfold reserve in rw e ((λ h. h), (λ h. h))
]

pub Step-Keeps :
    {source : ℕ → List ℕ} {s t : Stream} → Step source s t → (k : ℕ) → Keeps k s.sink t.sink
Step-Keeps {source} {s} (reserves n) k = reserve-Keeps s.sink n k
Step-Keeps {source} {s} (submits c) k = submit-Keeps s.sink c (source c.index) k
Step-Keeps {source} {s} closes k = unfold close in ((λ h. h), (λ h. h))
Step-Keeps {source} {s} (scans e) k = scan-Keeps s.sink k
Step-Keeps {source} {s} (writes cd e) k = unfold after_write in ((λ h. h), (λ h. h))
Step-Keeps {source} {s} (write_fails cd part e) k = unfold after_write in ((λ h. h), (λ h. h))
Step-Keeps {source} {s} (stops e) k = ((λ h. h), (λ h. h))

pub Reach-Keeps :
    {source : ℕ → List ℕ} {s t : Stream} → Reach source s t → (k : ℕ) → Keeps k s.sink t.sink
Reach-Keeps here k = ((λ h. h), (λ h. h))
Reach-Keeps (next r st) k =
    let before = Reach-Keeps r k in
    let after = Step-Keeps st k in ((λ h. after.0 (before.0 h)), (λ h. after.1 (before.1 h)))

finish-empty : (s : StreamSink) (m : List (ℕ × ChunkData)) → (finish s m).1 ≡ returned none → m ≡ []
unfolding finish
finish-empty s [] h = refl
finish-empty s (x ∷ m) h = absurd (ground arith)

-- The writer returns without an error only when the map is empty.
pub scan-empty : (s : StreamSink) → (scan s).1 ≡ returned none → s.completed ≡ []
scan-empty s h = elim (Option-cases s.fatal_err) [
  | inl e ↦ elim (Option-cases (lookup s.next_index s.completed)) [
    | inl l ↦ elim (Bool-cases s.closed) [
      | inl p ↦ finish-empty s s.completed (unfold scan in (simp (e, l, p) at h))
      | inr p ↦ absurd (unfold scan in ground (arith, e, l, p, h))
    ]
    | inr (cd, l) ↦ absurd (unfold scan in ground (arith, e, l, h))
  ]
  | inr (x, e) ↦ absurd (unfold scan in ground (arith, e, h))
]

pub not-IsKey-nil : (k : ℕ) (m : List (ℕ × ChunkData)) → m ≡ [] → IsKey k m → ⊥
not-IsKey-nil k [] e (d, l) = absurd (unfold lookup in ground (arith, l))
not-IsKey-nil k (x ∷ m) e key = absurd (ground (arith, e))

append-Reach :
    {source : ℕ → List ℕ} {s t u : Stream} → Reach source s t → Reach source t u → Reach source s u
append-Reach r here = r
append-Reach r (next q st) = next (append-Reach r q) st

-- If a submission of chunk `c` was accepted and the writer later returns without an error, then the
-- chunk has been written: it is one of the first `next_index` chunks, and the output is exactly
-- these in order.
pub accepted_is_written :
    (source : ℕ → List ℕ) (buffer_size : ℕ) (s t : Stream) (c : Chunk)
    → Reach source (start buffer_size) s
    → (submit s.sink c (source c.index)).1 ≡ none
    → Reach source (record s { sink = (submit s.sink c (source c.index)).0 }) t
    → t.writer ≡ scanning
    → (scan t.sink).1 ≡ returned none
    → (c.index < t.sink.next_index) × (t.output ≡ first_chunks source t.sink.next_index)
accepted_is_written source buffer_size s t c r ok q w h =
    let kept = submit-accepted s.sink c (source c.index) ok in
    (
      elim ((Reach-Keeps q c.index).0 (inr kept.0)) [
        | inl lt ↦ lt
        | inr key ↦ absurd (not-IsKey-nil c.index t.sink.completed (scan-empty t.sink h) key)
      ],
      rw w at (output-first_chunks source buffer_size t (append-Reach (next r (submits c)) q)),
    )

-- If a submission is accepted for a chunk behind the frontier, as when the original and its
-- duplicate both deliver, then whatever happens later the writer never returns without an error.
pub late_submission_fails :
    (source : ℕ → List ℕ) (s t : Stream) (c : Chunk)
    → c.index < s.sink.next_index
    → (submit s.sink c (source c.index)).1 ≡ none
    → Reach source (record s { sink = (submit s.sink c (source c.index)).0 }) t
    → (scan t.sink).1 ≢ returned none
late_submission_fails source s t c lt ok q h =
    let kept = submit-accepted s.sink c (source c.index) ok in
    let stale = (Reach-Keeps q c.index).1 (omega (arith, kept.1), kept.0) in
    not-IsKey-nil c.index t.sink.completed (scan-empty t.sink h) stale.1
