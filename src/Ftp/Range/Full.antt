-- ===== src/Ftp/Range/Full.antt =====
-- What io.ReadFull gets of a range, however the bytes arrive.
use pget.Base.{
  ℕ, zero, suc, ◌+◌, ◌-◌, ◌≤◌, ◌<◌, ◌≡◌, ◌≢◌, ◌∙◌, refl, ap, subst, inl, inr, Bool, true, false,
  not, ◌||◌, List, [], ◌++◌, Option, none, some, arith, ltb, some-inj, length, take, Bool-cases,
  ltb→lt,
}
use pget.Base.Int64.{add64, le64, half}
use pget.Ftp.Range.{
  ReadError, eof, Result, IsReader, RangeReader, open_range, received, clamp, at_end, read,
  read_full, follow, is_empty,
}
use pget.Ftp.Range.Filled.{
  IsFilled, take-append-less, take-nil, prepend-IsFilled, at_end-some, short-IsFilled,
  stopped-IsFilled,
}

reached : (n m len : ℕ) → n + m ≡ len → len < half → le64 len (add64 n m) ≡ true
reached n m len h k = ground arith

before_end : (n m len : ℕ) → n + m < len → len < half → le64 len (add64 n m) ≡ false
before_end n m len h k = ground arith

-- A range reader fills at most the buffer and at most the rest of the range.
clamp-bounds :
    (room n left len : ℕ)
    → n + suc left ≡ len
    → len + suc room < half
    → (0 < clamp (suc room) n len)
      × (clamp (suc room) n len ≤ suc room)
      × (clamp (suc room) n len ≤ suc left)
unfolding clamp
clamp-bounds room n left len at fits = ground arith

-- An open reader, of which `n` of `len` bytes are read.
abbrev reader : {Conn : Type 0} → Conn → ℕ → ℕ → Bool → RangeReader Conn
reader conn len n closed = record { conn = conn; length = len; read = n; closed = closed }

module _ {Conn : Type 0} (receive : Conn → ℕ → Result Conn) where
  read-open :
      (conn : Conn) (len n left room : ℕ) (closed : Bool)
      → len < half
      → n + suc left ≡ len
      → read receive (reader conn len n closed) room
        ≡ received (reader conn len n closed) (receive conn (clamp room n len))
  unfolding read
  read-open conn len n left room closed fits at =
      let open_still : le64 len n ≡ false = ground arith in rw open_still refl

  read-over :
      (conn : Conn) (len n room : ℕ) (closed : Bool)
      → n + 0 ≡ len
      → read receive (reader conn len n closed) room ≡ ([], some eof, reader conn len n closed)
  unfolding read
  read-over conn len n room closed at = let over : le64 len n ≡ true = ground arith in rw over refl

  module _ (content : Conn → List ℕ) (effort : Conn → ℕ) (law : IsReader receive content effort)
      (len : ℕ) where
    received-more :
        (conn conn' : Conn) (n : ℕ) (closed : Bool) (filled : List ℕ) (error : Option ReadError)
        → len < half
        → n + length filled < len
        → received (reader conn len n closed) (filled, error, conn')
          ≡ (filled, error, reader conn' len (add64 n (length filled)) closed)
    unfolding received
    received-more conn conn' n closed filled error fits h =
        rw (before_end n (length filled) len h fits) refl

    received-end :
        (conn conn' : Conn) (n : ℕ) (closed : Bool) (filled : List ℕ) (error : Option ReadError)
        → len < half
        → n + length filled ≡ len
        → received (reader conn len n closed) (filled, error, conn')
          ≡ (filled, at_end error, reader conn' len (add64 n (length filled)) true)
    unfolding received
    received-end conn conn' n closed filled error fits h =
        rw (reached n (length filled) len h fits) refl

    -- What follows a read that has not come to the end of the range.
    partial-IsFilled :
        (n left room : ℕ) (conn conn' : Conn) (closed any : Bool) (filled : List ℕ)
        (error : Option ReadError)
        (more : List ℕ → RangeReader Conn → Option (Result (RangeReader Conn)))
        → len < half
        → n + left ≡ len
        → length filled < left
        → length filled ≤ room
        → (error ≡ none
            → IsFilled
                (more filled (reader conn' len (add64 n (length filled)) closed))
                (room - length filled)
                (take (left - length filled) (content conn')))
        → (error ≢ none → content conn' ≡ [])
        → IsFilled
            (follow room any more (received (reader conn len n closed) (filled, error, conn')))
            room
            (filled ++ take (left - length filled) (content conn'))
    partial-IsFilled n left room conn conn' closed any filled none more fits at less within go
          ends =
        rw (received-more conn conn' n closed filled none fits (omega (arith, at, less))) (
          unfold follow in
          prepend-IsFilled filled room (take (left - length filled) (content conn')) _ within
            (go refl))
    partial-IsFilled n left room conn conn' closed any filled (some e) more fits at less within go
          ends =
        rw (received-more conn conn' n closed filled (some e) fits (omega (arith, at, less))) (
          stopped-IsFilled room any more filled e _ (take (left - length filled) (content conn'))
            within
            (λ part.
              ap (take (left - length filled)) (ends (λ q. cc)) ∙ take-nil (left - length filled)))

    -- What follows a read that has come to it.
    end-IsFilled :
        (n left room : ℕ) (conn conn' : Conn) (closed any : Bool) (filled : List ℕ)
        (error : Option ReadError)
        (more : List ℕ → RangeReader Conn → Option (Result (RangeReader Conn)))
        → len < half
        → n + left ≡ len
        → length filled ≡ left
        → length filled ≤ room
        → IsFilled
            (follow room any more (received (reader conn len n closed) (filled, error, conn')))
            room
            (filled ++ take (left - length filled) (content conn'))
    end-IsFilled n left room conn conn' closed any filled error more fits at all within =
        let (e, is) = at_end-some error in
        let used : left - length filled ≡ 0 = omega (arith, all) in
        rw (received-end conn conn' n closed filled error fits (omega (arith, at, all)), is)
          (stopped-IsFilled room any more filled e _ (take (left - length filled) (content conn'))
            within (λ part. ap (λ k. take k (content conn')) used))

    read_full-IsFilled :
        (fuel n left room : ℕ) (conn : Conn) (closed any : Bool)
        → n + left ≡ len
        → len + room < half
        → effort conn < fuel
        → IsFilled
            (read_full receive fuel (reader conn len n closed) room any)
            room
            (take left (content conn))
    unfolding read_full received
    read_full-IsFilled fuel n left zero conn closed any at fits enough =
        (refl, (λ e. omega arith, λ h. refl))
    read_full-IsFilled zero n left (suc room) conn closed any at fits enough =
        absurd (omega (arith, enough))
    read_full-IsFilled (suc fuel) n zero (suc room) conn closed any at fits enough =
        rw (read-over conn len n (suc room) closed at) (
          short-IsFilled {A = RangeReader Conn} (suc room) any
            (λ filled r'.
              read_full receive fuel r' (suc room - length filled) (any || not (is_empty filled)))
            [] eof (reader conn len n closed) (omega arith))
    read_full-IsFilled (suc fuel) n (suc left) (suc room) conn closed any at fits enough =
        let limit = clamp (suc room) n len in
        let (some_room, in_buffer, in_range) = clamp-bounds room n left len at fits in
        let result = receive conn limit in
        let few = law.fits conn limit in
        let more : List ℕ → RangeReader Conn → Option (Result (RangeReader Conn)) = λ filled r'.
          read_full receive fuel r' (suc room - length filled) (any || not (is_empty filled)) in
        rw
          (
            read-open conn len n left (suc room) closed (omega (arith, fits)) at,
            law.carries conn limit,
            take-append-less result.0 (content result.2) (suc left) (omega (arith, few, in_range)),
          )
          (elim (Bool-cases (ltb (length result.0) (suc left))) [
            | inl less ↦
                let less' = ltb→lt (length result.0) (suc left) less in
                partial-IsFilled n (suc left) (suc room) conn result.2 closed any result.0 result.1
                  more (omega (arith, fits)) at less' (omega (arith, few, in_buffer))
                  (λ goes.
                    read_full-IsFilled fuel (add64 n (length result.0)) (suc left - length result.0)
                      (suc room - length result.0) result.2 closed _
                      (omega (arith, at, less', fits)) (omega (arith, fits))
                      (omega (arith, law.goes_on conn limit some_room goes, enough)))
                  (law.ends conn limit)
            | inr whole ↦
                end-IsFilled n (suc left) (suc room) conn result.2 closed any result.0 result.1 more
                  (omega (arith, fits)) at (ground (arith, whole, few, in_range))
                  (omega (arith, few, in_buffer))
          ])

    -- For the reader of a range of `len` bytes that OpenRange returns, io.ReadFull into a buffer of any
    -- size comes to an end, after at most one read more than the connection has reads before its end,
    -- however the bytes arrive. It gets the first bytes that the connection carries, at most `len` and
    -- at most what the buffer holds, and no byte behind the range, although the connection may carry
    -- more; it returns an error exactly if they do not fill the buffer. The length and the buffer's
    -- size are together below 2^63, and the connection keeps to the rules of io.Reader.
    pub read_full-take :
        (conn : Conn) (fuel room : ℕ) (r : RangeReader Conn)
        → open_range (some conn) len ≡ some r
        → len + room < half
        → effort conn < fuel
        → IsFilled (read_full receive fuel r room false) room (take len (content conn))
    unfolding open_range
    read_full-take conn fuel room r opened fits enough =
        subst (λ s. IsFilled (read_full receive fuel s room false) room (take len (content conn)))
          (some-inj opened)
          (read_full-IsFilled fuel 0 len room conn false false (omega arith) fits enough)
