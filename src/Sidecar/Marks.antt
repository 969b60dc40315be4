-- ===== src/Sidecar/Marks.antt =====
-- What the marks of the completed chunks leave in memory and on disk.
use pget.Base.{
  ℕ, zero, suc, ◌+◌, ◌*◌, ◌/◌, ◌≤◌, ◌<◌, ◌≡◌, refl, ◌∙◌, inl, inr, Bool, true, false, ◌||◌, List,
  [], ◌∷◌, Option, none, some, arith, ◌==◌, ltb, leb, if◌then◌else◌, length, get_elem?, set, modify,
  Bool-cases, get_elem?-modify_self, length-set,
}
use pget.Chunk.{quotient_up}
use pget.Sidecar.Bitmap.{encode_bitmap, decode_bitmap}
use pget.Sidecar.Bitmap.Bits.{bit_of}
use pget.Sidecar.Bitmap.RoundTrip.{decode_bitmap-encode_bitmap}
use pget.Sidecar.Manager.{
  Item, State, Stored, stored, Manager, World, renamed, SidecarError, current_version, load,
  all_done, mark_item, mark_complete,
}

-- Item `i`, of `n` chunks, has the bits `bitmap`, in memory and on disk alike.
pub record Holds (w : World) (i n : ℕ) (bitmap : List Bool) : Type 0 where
  pub s : State
  pub item : Item
  pub in_memory : w.manager.state ≡ some s
  pub on_disk : w.disk ≡ stored s
  pub versioned : s.version ≡ current_version
  pub at : get_elem? s.items i ≡ some item
  pub chunk_count : quotient_up item.split_size item.length ≡ some n
  pub written : item.completed_bitmap ≡ encode_bitmap bitmap

-- A mark was made: the new world, the new bitmap, and whether the item says that it is complete.
pub record Marked (w : World) (now i n idx : ℕ) (bitmap : List Bool) : Type 0 where
  pub world : World
  pub bits : List Bool
  pub returns : mark_complete w now i idx renamed ≡ some (world, none)
  pub holds : Holds world i n bits
  pub set_one : (j : ℕ) → bit_of bits j ≡ (if j == idx then true else bit_of bitmap j)
  pub size :
      length bits ≡ (let whole = (length bitmap + 7) / 8 * 8 in if ltb whole n then n else whole)
  pub flag : holds.item.complete ≡ all_done bits

bit_of-set :
    (bits : List Bool) (i j : ℕ)
    → i < length bits
    → bit_of (set bits i true) j ≡ (if j == i then true else bit_of bits j)
bit_of-set [] i j h = absurd (omega arith)
bit_of-set (v ∷ vs) zero zero h = refl
bit_of-set (v ∷ vs) zero (suc j) h = ground arith
bit_of-set (v ∷ vs) (suc i) zero h = ground arith
bit_of-set (v ∷ vs) (suc i) (suc j) h = ground (arith, bit_of-set vs i j (omega arith))

mark_complete-Marked :
    (w : World) (now i n idx : ℕ) (bitmap : List Bool)
    → Holds w i n bitmap
    → idx < n
    → Marked w now i n idx bitmap
mark_complete-Marked w now i n idx bitmap h lt =
    let (bits, read, same, size) = decode_bitmap-encode_bitmap bitmap n in
    let long : n ≤ length bits = ground (arith, size) in
    let item' = mark_item bits idx h.item in
    let s' : State = record h.s {
      items = modify h.s.items i (mark_item bits idx);
      updated_at = now;
    } in
    let in_range : leb (length bits) idx ≡ false = ground arith in
    record {
      world = record {
        manager = record { path = w.manager.path; state = some s' };
        disk = stored s';
      };
      bits = set bits idx true;
      returns =
          unfold mark_complete in
          simp (h.in_memory, h.at, h.chunk_count, h.written, read, in_range);
      holds = record {
        s = s';
        item = item';
        in_memory = refl;
        on_disk = refl;
        versioned = h.versioned;
        at = get_elem?-modify_self h.s.items i (mark_item bits idx) h.at;
        chunk_count = unfold mark_item in h.chunk_count;
        written = unfold mark_item in refl;
      };
      set_one = λ j. ground (arith, bit_of-set bits idx j (omega arith), same j);
      size = length-set bits idx true ∙ size;
      flag = unfold mark_item in refl;
    }

-- Chunks are marked one after the other, each at its time.
abbrev pub mark_all : World → ℕ → List (ℕ × ℕ) → Option (World × Option SidecarError)
mark_all w i [] = some (w, none)
mark_all w i ((now, idx) ∷ marks) = elim (mark_complete w now i idx renamed) [
  | none ↦ none
  | some (w', some e) ↦ some (w', some e)
  | some (w', none) ↦ mark_all w' i marks
]

abbrev pub is_marked : List (ℕ × ℕ) → ℕ → Bool
is_marked [] j = false
is_marked ((now, idx) ∷ marks) j = j == idx || is_marked marks j

abbrev pub AllBelow : ℕ → List (ℕ × ℕ) → Type 0
AllBelow n [] = Unit {0}
AllBelow n ((now, idx) ∷ marks) = (idx < n) × AllBelow n marks

mark_all-Holds :
    (w : World) (i n : ℕ) (bitmap : List Bool) (marks : List (ℕ × ℕ))
    → Holds w i n bitmap
    → AllBelow n marks
    → (w' : World) × (bits : List Bool) × (mark_all w i marks ≡ some (w', none))
      × Holds w' i n bits
      × ((j : ℕ) → bit_of bits j ≡ (is_marked marks j || bit_of bitmap j))
mark_all-Holds w i n bitmap [] h lt = (w, bitmap, refl, h, λ j. refl)
mark_all-Holds w i n bitmap ((now, idx) ∷ marks) h (lt, below) =
    let m = mark_complete-Marked w now i n idx bitmap h lt in
    let (w', bits, returns, holds, set_all) =
      mark_all-Holds m.world i n m.bits marks m.holds below in
    (w', bits, rw (m.returns, mark_all) returns, holds, λ j. ground (arith, set_all j, m.set_one j))

load-stored :
    (later : Manager) (disk : Stored) (s : State)
    → disk ≡ stored s
    → s.version ≡ current_version
    → load (record { manager = later; disk = disk })
      ≡ (record { manager = record { path = later.path; state = some s }; disk = disk }, none)
unfolding load
load-stored later disk s e v = rw e (ground (arith, v))

-- A sidecar whose item `i` holds some bits, in memory and on disk, is marked for chunks within the
-- item's count, every write succeeding. Then each mark succeeds, a later process loads the file
-- without an error, and the bits that it decodes are the old ones and the marked ones, no others.
pub resume_reads_marks :
    (w : World) (i n : ℕ) (bitmap : List Bool) (marks : List (ℕ × ℕ)) (later : Manager)
    → Holds w i n bitmap
    → AllBelow n marks
    → (w' : World) × (s : State) × (item : Item) × (bits : List Bool) × (mark_all w i marks
        ≡ some (w', none))
      × (load (record { manager = later; disk = w'.disk }) ≡ (
        record { manager = record { path = later.path; state = some s }; disk = w'.disk },
        none,
      ))
      × (get_elem? s.items i ≡ some item)
      × (decode_bitmap item.completed_bitmap n ≡ some bits)
      × ((j : ℕ) → bit_of bits j ≡ (is_marked marks j || bit_of bitmap j))
resume_reads_marks w i n bitmap marks later h below =
    let (w', kept, returns, holds, set_all) = mark_all-Holds w i n bitmap marks h below in
    let (bits, read, same, _) = decode_bitmap-encode_bitmap kept n in
    (
      w',
      holds.s,
      holds.item,
      bits,
      returns,
      load-stored later w'.disk holds.s holds.on_disk holds.versioned,
      holds.at,
      rw holds.written read,
      λ j. same j ∙ set_all j,
    )

all_done-bit_of :
    (bits : List Bool) (j : ℕ) → all_done bits ≡ true → j < length bits → bit_of bits j ≡ true
unfolding all_done
all_done-bit_of [] j h lt = absurd (omega arith)
all_done-bit_of (v ∷ vs) zero h lt = ground arith
all_done-bit_of (v ∷ vs) (suc j) h lt = all_done-bit_of vs j (ground arith) (omega arith)

-- If the packed bytes have room for more bits than the item has chunks, and those bits are not set,
-- then a mark leaves the item's flag `complete` false, also the mark of the last missing chunk.
pub complete_stays_false :
    (w : World) (now i n idx : ℕ) (bitmap : List Bool)
    → Holds w i n bitmap
    → idx < n
    → ((j : ℕ) → n ≤ j → bit_of bitmap j ≡ false)
    → n < (length bitmap + 7) / 8 * 8
    → (w' : World) × (s : State) × (item : Item) × (mark_complete w now i idx renamed
        ≡ some (w', none))
      × (w'.disk ≡ stored s)
      × (get_elem? s.items i ≡ some item)
      × (item.complete ≡ false)
complete_stays_false w now i n idx bitmap h lt unset room =
    let m = mark_complete-Marked w now i n idx bitmap h lt in
    let long : n < length m.bits = ground (arith, m.size) in
    let spare : bit_of m.bits n ≡ false = ground (arith, m.set_one n, unset n) in
    let flag : all_done m.bits ≡ false = elim (Bool-cases (all_done m.bits)) [
      | inl done ↦ ground (arith, all_done-bit_of m.bits n done long, spare)
      | inr open_yet ↦ open_yet
    ] in
    (m.world, m.holds.s, m.holds.item, m.returns, m.holds.on_disk, m.holds.at, m.flag ∙ flag)
