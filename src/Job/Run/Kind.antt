-- ===== src/Job/Run/Kind.antt =====
-- What a move leaves alone in the sink: only a reservation and a delivery touch it, and a worker never
-- turns one sink into the other.
use pget.Base.{ℕ, ◌≡◌, ◌∙◌, refl, ap, Bool, true, false, List, Option, none, some, get_elem?}
use pget.Chunk.{Chunk}
use pget.Schedule.State.{Scheduler}
use pget.Schedule.Assign.{Round, stopped, fails, finished, assigned, waits, next_assignment}
use pget.Schedule.Hedge.{start_hedge}
use pget.Sink.Stream.{StreamSink, SinkError, reserve}
use pget.Sink.File.{FileSink, FileError}
use pget.Job.Worker.{
  Env, Dest, to_file, to_stream, Shared, Pc, top, asking, hedging, reserving, denied, failing,
  unhedging, fetching, delivering, rejected, settling, crediting, completing, ended, crashed,
  hedge_started, answered, reserved, reserve_for, with_chunk, stored, submitted, deliver, move,
}
use pget.Job.Run.{Workers, Step, works, cancels, Reach, here, next}

abbrev pub is_file : Dest → Bool
is_file (to_file s) = true
is_file (to_stream s) = false

module _ (sh : Shared) where
  answered-dest : (slot : ℕ) (r : Scheduler × Round) → (answered sh slot r).0.dest ≡ sh.dest
  unfolding answered
  answered-dest slot (s, stopped) = refl
  answered-dest slot (s, fails x) = refl
  answered-dest slot (s, finished) = refl
  answered-dest slot (s, assigned i) = refl
  answered-dest slot (s, waits) = refl

  hedge_started-dest :
      (slot i : ℕ) (o : Option (Scheduler × Option ℕ))
      → (hedge_started sh slot i o).0.dest ≡ sh.dest
  unfolding hedge_started
  hedge_started-dest slot i none = refl
  hedge_started-dest slot i (some (s, none)) = refl
  hedge_started-dest slot i (some (s, some k)) = refl

  reserved-is_file :
      (slot i : ℕ) (r : StreamSink × Option SinkError)
      → is_file (reserved sh slot i r).0.dest ≡ false
  unfolding reserved
  reserved-is_file slot i (s, none) = refl
  reserved-is_file slot i (s, some e) = refl

  reserve_for-is_file :
      (slot i : ℕ) (c : Chunk) (dest : Dest)
      → sh.dest ≡ dest
      → is_file (reserve_for sh slot i c dest).0.dest ≡ is_file sh.dest
  unfolding reserve_for
  reserve_for-is_file slot i c (to_file s) e = refl
  reserve_for-is_file slot i c (to_stream s) e =
      reserved-is_file slot i (reserve s c.length) ∙ rw e refl

  stored-is_file :
      (slot i : ℕ) (hedge : Bool) (n : ℕ) (r : FileSink × Option FileError)
      → is_file (stored sh slot i hedge n r).0.dest ≡ true
  unfolding stored
  stored-is_file slot i hedge n (s, none) = refl
  stored-is_file slot i hedge n (s, some e) = refl

  submitted-is_file :
      (slot i : ℕ) (hedge : Bool) (n : ℕ) (r : StreamSink × Option SinkError)
      → is_file (submitted sh slot i hedge n r).0.dest ≡ false
  unfolding submitted
  submitted-is_file slot i hedge n (s, none) = refl
  submitted-is_file slot i hedge n (s, some e) = refl

  deliver-is_file :
      (env : Env) (slot : ℕ) (hedge : Bool) (c : Chunk) (payload : List ℕ) (i : ℕ) (dest : Dest)
      → is_file (deliver env sh slot hedge c payload i dest).0.dest ≡ is_file dest
  unfolding deliver
  deliver-is_file env slot hedge c payload i (to_file s) = stored-is_file slot i hedge _ _
  deliver-is_file env slot hedge c payload i (to_stream s) = submitted-is_file slot i hedge _ _

  -- A property of the sink that a reservation and the delivery in question keep is kept by the move.
  module _ {ℓ} {A : Type ℓ} (f : Dest → A) where
    with_chunk-keeps :
        (o : Option Chunk) (g : Chunk → Shared × Pc)
        → ((c : Chunk) → o ≡ some c → f (g c).0.dest ≡ f sh.dest)
        → f (with_chunk sh o g).0.dest ≡ f sh.dest
    unfolding with_chunk
    with_chunk-keeps none g h = refl
    with_chunk-keeps (some c) g h = h c refl

    pub move-keeps :
        (env : Env) (pc : Pc)
        → ((slot i : ℕ) (c : Chunk) → f (reserve_for sh slot i c sh.dest).0.dest ≡ f sh.dest)
        → ((slot i : ℕ) (hedge : Bool) (payload : List ℕ) (c : Chunk)
            → pc ≡ delivering slot i hedge payload
            → get_elem? sh.sched.chunks i ≡ some c
            → f (deliver env sh slot hedge c payload i sh.dest).0.dest ≡ f sh.dest)
        → f (move env sh pc).0.dest ≡ f sh.dest
    unfolding move
    move-keeps env (top slot) k d = refl
    move-keeps env (asking slot) k d =
        ap f (answered-dest slot (next_assignment sh.sched env.now slot))
    move-keeps env (hedging slot i) k d =
        ap f (hedge_started-dest slot i (start_hedge sh.sched env.now i))
    move-keeps env (reserving slot i) k d =
        with_chunk-keeps (get_elem? sh.sched.chunks i) _ (λ c at. k slot i c)
    move-keeps env (denied slot i) k d = refl
    move-keeps env (failing slot i) k d =
        with_chunk-keeps (get_elem? sh.sched.chunks i) _ (λ c at. refl)
    move-keeps env (unhedging slot i) k d =
        with_chunk-keeps (get_elem? sh.sched.chunks i) _ (λ c at. refl)
    move-keeps env (fetching slot i hedge) k d =
        with_chunk-keeps (get_elem? sh.sched.chunks i) _ (λ c at. refl)
    move-keeps env (delivering slot i hedge payload) k d =
        with_chunk-keeps (get_elem? sh.sched.chunks i) _ (λ c. d slot i hedge payload c refl)
    move-keeps env (rejected i e) k d =
        with_chunk-keeps (get_elem? sh.sched.chunks i) _ (λ c at. refl)
    move-keeps env (settling slot i n) k d =
        with_chunk-keeps (get_elem? sh.sched.chunks i) _ (λ c at. refl)
    move-keeps env (crediting slot i n) k d =
        with_chunk-keeps (get_elem? sh.sched.chunks i) _ (λ c at. refl)
    move-keeps env (completing slot i) k d =
        with_chunk-keeps (get_elem? sh.sched.chunks i) _ (λ c at. refl)
    move-keeps env (ended o) k d = refl
    move-keeps env crashed k d = refl

pub Step-is_file :
    {n : ℕ} {source : List ℕ} {w u : Workers}
    → Step n source w u
    → is_file u.shared.dest ≡ is_file w.shared.dest
Step-is_file {w = w} (works i env lt serves) =
    move-keeps w.shared is_file env (w.pcs i)
      (λ slot k c. reserve_for-is_file w.shared slot k c w.shared.dest refl)
      (λ slot k hedge payload c e at.
        deliver-is_file w.shared env slot hedge c payload k w.shared.dest)
Step-is_file cancels = refl

pub Reach-is_file :
    {n : ℕ} {source : List ℕ} {w u : Workers}
    → Reach n source w u
    → is_file u.shared.dest ≡ is_file w.shared.dest
Reach-is_file here = refl
Reach-is_file (next r st) = Step-is_file st ∙ Reach-is_file r
