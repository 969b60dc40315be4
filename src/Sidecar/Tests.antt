-- ===== src/Sidecar/Tests.antt =====
-- The sidecar at concrete bitmaps, and its theorems at inputs that meet their hypotheses.
use mathlib.Core.Bool.{xor}
use pget.Sidecar.Hash.{NoZero, hashed-inj}
use pget.Base.{
  ℕ, zero, suc, ◌+◌, ◌*◌, ◌/◌, ◌≤◌, ◌≡◌, refl, Bool, true, false, ◌||◌, List, [], ◌∷◌, none, some,
  arith, length, get_elem?, ltb, if◌then◌else◌, All,
}
use pget.Base.Int64.{div64}
use pget.Chunk.{quotient_up}
use pget.Sidecar.Base64
use pget.Sidecar.Bitmap.{encode_bitmap, decode_bitmap, test_bit}
use pget.Sidecar.Bitmap.Bits.{bit_of}
use pget.Sidecar.Bitmap.RoundTrip.{decode_bitmap-encode_bitmap}
use pget.Sidecar.Manager.{Item, State, stored, Manager, World, renamed, load, mark_complete}
use pget.Sidecar.Marks.{Holds, mark_all, is_marked, resume_reads_marks, complete_stays_false}

abbrev every_other : List Bool
every_other = true ∷ false ∷ true ∷ false ∷ true ∷ false ∷ true ∷ []

every_other_written : encode_bitmap every_other ≡ b'V' ∷ b'Q' ∷ []
unfolding encode_bitmap Base64.encode
every_other_written = refl

every_other_read :
    decode_bitmap (encode_bitmap every_other) 7
    ≡ some (true ∷ false ∷ true ∷ false ∷ true ∷ false ∷ true ∷ false ∷ [])
unfolding encode_bitmap Base64.encode decode_bitmap Base64.decode Base64.sextet test_bit
every_other_read = refl

-- Three chunks of four bytes, two of them marked.
abbrev two_of_three : List Bool
two_of_three = true ∷ true ∷ false ∷ []

abbrev an_item : Item
an_item = record {
  source_url_hash = [];
  final_url_hash = [];
  display_url = [];
  output_offset = 0;
  length = 10;
  split_size = 4;
  etag = [];
  last_modified = [];
  remote_mtime_unix = 0;
  completed_bitmap = encode_bitmap two_of_three;
  complete = false;
}

abbrev a_state : State
a_state = record {
  version = 1;
  destination = [];
  url_list_hash = [];
  created_at = 5;
  updated_at = 5;
  items = an_item ∷ [];
}

abbrev a_manager : Manager
a_manager = record { path = []; state = some a_state }

abbrev a_world : World
a_world = record { manager = a_manager; disk = stored a_state }

a_world-Holds : Holds a_world 0 3 two_of_three
unfolding quotient_up div64 xor
a_world-Holds = record {
  s = a_state;
  item = an_item;
  in_memory = refl;
  on_disk = refl;
  versioned = refl;
  at = refl;
  chunk_count = refl;
  written = refl;
}

two_of_three_ends : (j : ℕ) → 3 ≤ j → bit_of two_of_three j ≡ false
two_of_three_ends zero h = absurd (omega arith)
two_of_three_ends (suc zero) h = absurd (omega arith)
two_of_three_ends (suc (suc zero)) h = refl
two_of_three_ends (suc (suc (suc j))) h = refl

resume_reads_marks_example :
    (w' : World) × (s : State) × (item : Item) × (bits : List Bool) × (mark_all a_world 0
        ((7, 2) ∷ [])
      ≡ some (w', none))
    × (load (record { manager = a_manager; disk = w'.disk })
        ≡ (record { manager = record { path = []; state = some s }; disk = w'.disk }, none))
    × (get_elem? s.items 0 ≡ some item)
    × (decode_bitmap item.completed_bitmap 3 ≡ some bits)
    × ((j : ℕ) → bit_of bits j ≡ (is_marked ((7, 2) ∷ []) j || bit_of two_of_three j))
resume_reads_marks_example =
    resume_reads_marks a_world 0 3 two_of_three ((7, 2) ∷ []) a_manager a_world-Holds
      (omega arith, tt)

complete_stays_false_example :
    (w' : World) × (s : State) × (item : Item) × (mark_complete a_world 7 0 2 renamed
      ≡ some (w', none))
    × (w'.disk ≡ stored s)
    × (get_elem? s.items 0 ≡ some item)
    × (item.complete ≡ false)
complete_stays_false_example =
    complete_stays_false a_world 7 0 3 2 two_of_three a_world-Holds (omega arith) two_of_three_ends
      (omega arith)

decode_bitmap-encode_bitmap_example :
    (bits : List Bool) × (decode_bitmap (encode_bitmap every_other) 7 ≡ some bits)
    × ((j : ℕ) → bit_of bits j ≡ bit_of every_other j)
    × (length bits
        ≡ (let whole = (length every_other + 7) / 8 * 8 in if ltb whole 7 then 7 else whole))
decode_bitmap-encode_bitmap_example = decode_bitmap-encode_bitmap every_other 7

abbrev two_urls : List (List ℕ)
two_urls = (97 ∷ []) ∷ (98 ∷ []) ∷ []

two_urls-NoZero : All NoZero two_urls
two_urls-NoZero = (((λ e. ground (arith, e)), tt), (((λ e. ground (arith, e)), tt), tt))

hashed-inj_example : two_urls ≡ two_urls
hashed-inj_example = hashed-inj two_urls two_urls two_urls-NoZero two_urls-NoZero refl
