-- ===== src/Job/Download/NewSidecar.antt =====
-- internal/job/runner.go: the sidecar with which downloadParallelFile begins. `sha256` stands for
-- the sum of crypto/sha256.
use pget.Base.{
  ℕ, zero, suc, ◌+◌, ◌≡◌, ◌∙◌, refl, Bool, false, ◌&&◌, ◌||◌, List, [], ◌∷◌, some, arith, ltb,
}
use pget.Chunk.{quotient_up}
use pget.Http.Probe.{ProbeResult}
use pget.Sidecar.Bitmap.{encode_bitmap}
use pget.Sidecar.Bitmap.Bits.{bit_of}
use pget.Sidecar.Bitmap.RoundTrip.{decode_bitmap-encode_bitmap}
use pget.Sidecar.Hash.{hash_url}
use pget.Sidecar.Manager.{Item}
use pget.Job.Route.{is_marked, or_marks, item_marks, completed_chunks}

-- The bits of the chunks from `i` on.
unfoldable pub start_bitmap : (ℕ → Bool) → ℕ → ℕ → List Bool
start_bitmap done i zero = []
start_bitmap done i (suc n) = done i ∷ start_bitmap done (suc i) n

unfoldable pub new_item :
    (List ℕ → List ℕ) → List ℕ → List ℕ → ℕ → ProbeResult → ℕ → (ℕ → Bool) → ℕ → Item
unfolding start_bitmap hash_url
new_item sha256 url display base_off r split_size done count = record {
  source_url_hash = hash_url sha256 url;
  final_url_hash = hash_url sha256 r.final_url;
  display_url = display;
  output_offset = base_off;
  length = r.size;
  split_size = split_size;
  etag = r.etag;
  last_modified = r.last_modified;
  remote_mtime_unix = 0;
  completed_bitmap = encode_bitmap (start_bitmap done 0 count);
  complete = false;
}

start_bitmap-bit :
    (done : ℕ → Bool) (i n j : ℕ) → bit_of (start_bitmap done i n) j ≡ (ltb j n && done (i + j))
unfolding start_bitmap
start_bitmap-bit done i zero j = ground arith
start_bitmap-bit done i (suc n) zero = let here : i + 0 ≡ i = omega arith in rw here (ground arith)
start_bitmap-bit done i (suc n) (suc j) =
    let there : i + suc j ≡ suc i + j = omega arith in
    let inside : ltb (suc j) (suc n) ≡ ltb j n = ground arith in
    start_bitmap-bit done (suc i) n j ∙ rw (there, inside) refl

is_marked-bit_of : (bits : List Bool) (j : ℕ) → is_marked (some bits) j ≡ bit_of bits j
unfolding is_marked
is_marked-bit_of [] j = refl
is_marked-bit_of (v ∷ bits) zero = refl
is_marked-bit_of (v ∷ bits) (suc j) = is_marked-bit_of bits j

-- A process that reads the sidecar of a download which was broken off before its first chunk finds the
-- marks that this download had itself resumed from: of the chunks up to the planned count, exactly
-- those. The sidecar's split size must divide without a panic, that is be positive.
pub new_item-marks :
    (sha256 : List ℕ → List ℕ) (url display : List ℕ) (base_off split_size : ℕ) (r : ProbeResult)
    (done : ℕ → Bool) (count asked j : ℕ)
    → quotient_up split_size r.size ≡ some asked
    → (found : ℕ → Bool) × (completed_chunks
          (new_item sha256 url display base_off r split_size done count ∷ [])
        ≡ some found)
      × (found j ≡ (ltb j count && done j))
new_item-marks sha256 url display base_off split_size r done count asked j e =
    let item = new_item sha256 url display base_off r split_size done count in
    let (bits, read, same, _) = decode_bitmap-encode_bitmap (start_bitmap done 0 count) asked in
    let value : (is_marked (some bits) j || false) ≡ (ltb j count && done j) =
      ground (arith, is_marked-bit_of bits j, same j, start_bitmap-bit done 0 count j) in
    (
      (λ k. is_marked (some bits) k || false),
      unfold new_item completed_chunks item_marks in rw (e, read) (unfold or_marks in refl),
      value,
    )
