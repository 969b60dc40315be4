-- ===== src/Sidecar/Manager.antt =====
-- internal/sidecar/sidecar.go: the manager of one `.pget` file. A text is the list of its bytes. The
-- JSON encoding is taken as a faithful copy of the state, and what stands at the file's path is an
-- argument and a result. The outcome of each write to the temporary file and of the rename is an
-- argument too; a rename that succeeds replaces the file whole.
use pget.Base.{
  ℕ, Bool, true, false, ◌&&◌, List, [], ◌∷◌, ◌++◌, Option, none, some, ◌==◌, leb, if◌then◌else◌,
  length, get_elem?, set, modify,
}
use pget.Chunk.{quotient_up}
use pget.Sidecar.Bitmap.{encode_bitmap, decode_bitmap}

pub record Item : Type 0 where
  pub source_url_hash : List ℕ
  pub final_url_hash : List ℕ
  pub display_url : List ℕ
  pub output_offset : ℕ
  pub length : ℕ
  pub split_size : ℕ
  pub etag : List ℕ
  pub last_modified : List ℕ
  pub remote_mtime_unix : ℕ
  pub completed_bitmap : List ℕ
  pub complete : Bool

pub record State : Type 0 where
  pub version : ℕ
  pub destination : List ℕ
  pub url_list_hash : List ℕ
  pub created_at : ℕ
  pub updated_at : ℕ
  pub items : List Item

-- What is found at the sidecar's path.
pub data Stored : Type 0 where
  absent unreadable garbage : Stored
  stored : State → Stored

pub record Manager : Type 0 where
  pub path : List ℕ
  pub state : Option State

pub data WriteOutcome : Type 0 where
  renamed write_fails rename_fails : WriteOutcome

pub data SidecarError : Type 0 where
  read_error parse_error bitmap_error write_error rename_error remove_error : SidecarError
  version_error item_range chunk_range : ℕ → SidecarError

abbrev pub current_version : ℕ
current_version = 1

abbrev pub suffix : List ℕ
suffix = b'.' ∷ b'p' ∷ b'g' ∷ b'e' ∷ b't' ∷ []

unfoldable pub new_manager : List ℕ → Manager
new_manager dest_path = record { path = dest_path ++ suffix; state = none }

unfoldable pub exists : Stored → Bool
exists absent = false
exists _ = true

-- The file afterwards, and the error.
unfoldable pub write_locked : Stored → State → WriteOutcome → Stored × Option SidecarError
write_locked disk s renamed = (stored s, none)
write_locked disk s write_fails = (disk, some write_error)
write_locked disk s rename_fails = (disk, some rename_error)

pub record World : Type 0 where
  pub manager : Manager
  pub disk : Stored

unfoldable pub created : World → State → Stored × Option SidecarError → World × Option SidecarError
created w s (disk, none) =
    (record { manager = record { path = w.manager.path; state = some s }; disk = disk }, none)
created w s (disk, some e) = (record { manager = w.manager; disk = disk }, some e)

unfoldable pub create :
    World → ℕ → List ℕ → List ℕ → List Item → WriteOutcome → World × Option SidecarError
unfolding created write_locked
create w now dest_path url_list_hash items outcome =
    let s : State = record {
      version = current_version;
      destination = dest_path;
      url_list_hash = url_list_hash;
      created_at = now;
      updated_at = now;
      items = items;
    } in
    created w s (write_locked w.disk s outcome)

unfoldable pub loaded : Manager → Stored → Manager × Option SidecarError
loaded m absent = (m, some read_error)
loaded m unreadable = (m, some read_error)
loaded m garbage = (m, some parse_error)
loaded m (stored s) =
    if s.version == current_version
    then (record { path = m.path; state = some s }, none)
    else (m, some (version_error s.version))

unfoldable pub load : World → World × Option SidecarError
unfolding loaded
load w = let (m, e) = loaded w.manager w.disk in (record { manager = m; disk = w.disk }, e)

unfoldable pub all_done : List Bool → Bool
all_done [] = true
all_done (v ∷ vs) = v && all_done vs

unfoldable pub mark_item : List Bool → ℕ → Item → Item
unfolding all_done
mark_item bitmap chunk_index item = record item {
  completed_bitmap = encode_bitmap (set bitmap chunk_index true);
  complete = all_done (set bitmap chunk_index true);
}

-- The state in memory is changed before the write, also when the write fails.
unfoldable pub checkpoint : World → State → WriteOutcome → World × Option SidecarError
unfolding write_locked
checkpoint w s outcome =
    let (disk, e) = write_locked w.disk s outcome in
    (record { manager = record { path = w.manager.path; state = some s }; disk = disk }, e)

unfoldable pub mark_bitmap :
    World → State → ℕ → ℕ → ℕ → WriteOutcome → Option (List Bool) → World × Option SidecarError
unfolding mark_item checkpoint
mark_bitmap w s now item_index chunk_index outcome none = (w, some bitmap_error)
mark_bitmap w s now item_index chunk_index outcome (some bitmap) =
    if leb (length bitmap) chunk_index
    then (w, some (chunk_range chunk_index))
    else checkpoint w
        (record s {
          items = modify s.items item_index (mark_item bitmap chunk_index);
          updated_at = now;
        })
        outcome

unfoldable pub mark_counted :
    World
    → State
    → ℕ
    → ℕ
    → ℕ
    → WriteOutcome
    → Item
    → Option ℕ
    → Option (World × Option SidecarError)
unfolding mark_bitmap
mark_counted w s now item_index chunk_index outcome item none = none
mark_counted w s now item_index chunk_index outcome item (some chunk_count) = some (
    mark_bitmap w s now item_index chunk_index outcome
      (decode_bitmap item.completed_bitmap chunk_count))

unfoldable pub mark_in :
    World → State → ℕ → ℕ → ℕ → WriteOutcome → Option Item → Option (World × Option SidecarError)
unfolding mark_counted
mark_in w s now item_index chunk_index outcome none = some (w, some (item_range item_index))
mark_in w s now item_index chunk_index outcome (some item) =
    mark_counted w s now item_index chunk_index outcome item
      (quotient_up item.split_size item.length)

unfoldable pub mark_loaded :
    World → Option State → ℕ → ℕ → ℕ → WriteOutcome → Option (World × Option SidecarError)
unfolding mark_in
mark_loaded w none now item_index chunk_index outcome = some (w, none)
mark_loaded w (some s) now item_index chunk_index outcome =
    mark_in w s now item_index chunk_index outcome (get_elem? s.items item_index)

-- `none` is the panic of a division by a zero split size.
unfoldable pub mark_complete :
    World → ℕ → ℕ → ℕ → WriteOutcome → Option (World × Option SidecarError)
unfolding mark_loaded
mark_complete w now item_index chunk_index outcome =
    mark_loaded w w.manager.state now item_index chunk_index outcome

unfoldable pub remove : World → Bool → World × Option SidecarError
remove w true = (record w { disk = absent }, none)
remove w false = (w, some remove_error)
