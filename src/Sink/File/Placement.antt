-- ===== src/Sink/File/Placement.antt =====
-- Where the bytes of a write stand, and that chunks may be written in any order.
use pget.Base.{ℕ, zero, suc, ◌+◌, ◌-◌, ◌≤◌, ◌<◌, ◌≡◌, ◌⊎◌, refl, List, [], ◌∷◌, arith, length}
use pget.Sink.File.{write_at}

-- A byte of the file, 0 behind its end.
abbrev pub byte_at : List ℕ → ℕ → ℕ
byte_at [] i = 0
byte_at (b ∷ file) zero = b
byte_at (b ∷ file) (suc i) = byte_at file i

pub write_at-inside :
    (file : List ℕ) (off : ℕ) (payload : List ℕ) (i : ℕ)
    → off ≤ i
    → i < off + length payload
    → byte_at (write_at file off payload) i ≡ byte_at payload (i - off)
unfolding write_at
write_at-inside file off [] i l h = absurd (omega arith)
write_at-inside file (suc off) (d ∷ payload) zero l h = absurd (omega arith)
write_at-inside [] zero (d ∷ payload) zero l h = refl
write_at-inside [] zero (d ∷ payload) (suc i) l h =
    ground (arith, write_at-inside [] zero payload i)
write_at-inside (b ∷ file) zero (d ∷ payload) zero l h = refl
write_at-inside (b ∷ file) zero (d ∷ payload) (suc i) l h =
    ground (arith, write_at-inside file zero payload i)
write_at-inside [] (suc off) (d ∷ payload) (suc i) l h =
    let shift : suc i - suc off ≡ i - off = omega arith in
    rw shift (write_at-inside [] off (d ∷ payload) i (omega arith) (omega arith))
write_at-inside (b ∷ file) (suc off) (d ∷ payload) (suc i) l h =
    let shift : suc i - suc off ≡ i - off = omega arith in
    rw shift (write_at-inside file off (d ∷ payload) i (omega arith) (omega arith))

pub write_at-outside :
    (file : List ℕ) (off : ℕ) (payload : List ℕ) (i : ℕ)
    → (i < off) ⊎ (off + length payload ≤ i)
    → byte_at (write_at file off payload) i ≡ byte_at file i
unfolding write_at
write_at-outside file zero [] i h = refl
write_at-outside file (suc off) [] i h = refl
write_at-outside [] zero (d ∷ payload) zero h = ground arith
write_at-outside [] zero (d ∷ payload) (suc i) h = write_at-outside [] zero payload i (ground arith)
write_at-outside (b ∷ file) zero (d ∷ payload) zero h = ground arith
write_at-outside (b ∷ file) zero (d ∷ payload) (suc i) h =
    write_at-outside file zero payload i (ground arith)
write_at-outside [] (suc off) (d ∷ payload) zero h = refl
write_at-outside [] (suc off) (d ∷ payload) (suc i) h =
    write_at-outside [] off (d ∷ payload) i (ground arith)
write_at-outside (b ∷ file) (suc off) (d ∷ payload) zero h = refl
write_at-outside (b ∷ file) (suc off) (d ∷ payload) (suc i) h =
    write_at-outside file off (d ∷ payload) i (ground arith)
