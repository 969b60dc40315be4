-- ===== src/Ftp/Range.antt =====
-- internal/adapter/ftp/adapter.go: ftpRangeReader, and io.ReadFull on it. The data connection is a
-- parameter: `receive` is the Read of the client library's Response, and `Conn` its state.
pub mod Filled
pub mod Full
use pget.Base.{
  ℕ, zero, suc, ◌+◌, ◌-◌, ◌≤◌, ◌<◌, ◌≡◌, ◌≢◌, Bool, true, false, not, ◌||◌, List, [], ◌∷◌, ◌++◌,
  Option, none, some, leb, if◌then◌else◌, length,
}
use pget.Base.Int64.{add64, sub64, lt64, le64}

pub data ReadError : Type 0 where
  eof unexpected_eof failed : ReadError

-- What a read has filled the buffer with, its error, and what it leaves behind.
abbrev pub Result : Type 0 → Type 0
Result A = List ℕ × Option ReadError × A

-- What io.Reader promises, for a connection that carries `content` before it ends or fails: a read fills
-- at most the buffer, with the next bytes; an error follows the last byte; and only finitely many
-- reads, at most `effort`, come before it.
pub record IsReader {Conn : Type 0} (receive : Conn → ℕ → Result Conn) (content : Conn → List ℕ)
    (effort : Conn → ℕ) : Type 0 where
  pub fits : (c : Conn) (limit : ℕ) → length (receive c limit).0 ≤ limit
  pub carries :
      (c : Conn) (limit : ℕ) → content c ≡ (receive c limit).0 ++ content (receive c limit).2
  pub goes_on :
      (c : Conn) (limit : ℕ)
      → 0 < limit
      → (receive c limit).1 ≡ none
      → effort (receive c limit).2 < effort c
  pub ends : (c : Conn) (limit : ℕ) → (receive c limit).1 ≢ none → content (receive c limit).2 ≡ []

pub record RangeReader (Conn : Type 0) : Type 0 where
  pub conn : Conn
  pub length : ℕ
  pub read : ℕ
  pub closed : Bool

-- The reader that OpenRange returns behind RetrFrom.
unfoldable pub open_range : {Conn : Type 0} → Option Conn → ℕ → Option (RangeReader Conn)
open_range none length = none
open_range (some conn) length =
    some (record { conn = conn; length = length; read = 0; closed = false })

-- The number of bytes that a buffer of `room` bytes may be filled with.
unfoldable pub clamp : ℕ → ℕ → ℕ → ℕ
clamp room read length = if lt64 length (add64 read room) then sub64 length read else room

-- At the end of the range the connection is closed, and EOF is the error unless there is another.
unfoldable pub at_end : Option ReadError → Option ReadError
at_end (some failed) = some failed
at_end (some unexpected_eof) = some unexpected_eof
at_end (some eof) = some eof
at_end none = some eof

unfoldable pub received :
    {Conn : Type 0} → RangeReader Conn → Result Conn → Result (RangeReader Conn)
unfolding at_end
received r (filled, error, conn) =
    let count = add64 r.read (length filled) in
    let ends = le64 r.length count in
    (
      filled,
      (if ends then at_end error else error),
      record r { conn = conn; read = count; closed = if ends then true else r.closed },
    )

-- A short read that some bytes precede has the error ErrUnexpectedEOF.
unfoldable pub short_read : Bool → ReadError → ReadError
short_read true eof = unexpected_eof
short_read true unexpected_eof = unexpected_eof
short_read true failed = failed
short_read false e = e

abbrev pub is_empty : List ℕ → Bool
is_empty [] = true
is_empty (b ∷ bs) = false

unfoldable pub prepend : {A : Type 0} → List ℕ → Option (Result A) → Option (Result A)
prepend filled none = none
prepend filled (some (rest, error, r)) = some (filled ++ rest, error, r)

-- What follows a read into `room` bytes; `any` is whether bytes have been read before.
unfoldable pub follow :
    {A : Type 0} → ℕ → Bool → (List ℕ → A → Option (Result A)) → Result A → Option (Result A)
unfolding short_read prepend
follow room any more (filled, none, r) = prepend filled (more filled r)
follow room any more (filled, some e, r) = some (
  filled,
  (if leb room (length filled) then none else some (short_read (any || not (is_empty filled)) e)),
  r,
)

module _ {Conn : Type 0} (receive : Conn → ℕ → Result Conn) where
  unfoldable pub read : RangeReader Conn → ℕ → Result (RangeReader Conn)
  unfolding received clamp
  read r room =
      if le64 r.length r.read
      then ([], some eof, r)
      else received r (receive r.conn (clamp room r.read r.length))

  -- The end of the fuel is `none`.
  unfoldable pub read_full : ℕ → RangeReader Conn → ℕ → Bool → Option (Result (RangeReader Conn))
  unfolding read follow
  read_full fuel r zero any = some ([], none, r)
  read_full zero r (suc room) any = none
  read_full (suc fuel) r (suc room) any =
      follow (suc room) any
        (λ filled r'. read_full fuel r' (suc room - length filled) (any || not (is_empty filled)))
        (read r (suc room))
