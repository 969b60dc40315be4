-- ===== src/Ftp/Range/Filled.antt =====
-- When io.ReadFull's buffer is filled with the first bytes of what remains.
use pget.Base.{
  ℕ, zero, suc, ◌-◌, ◌≤◌, ◌<◌, ◌≡◌, ◌↔◌, ◌∙◌, sym, refl, ap, inl, inr, Bool, true, false, List, [],
  ◌∷◌, ◌++◌, Option, none, some, arith, ltb, leb, length, length-append, take, Bool-cases, ltb→lt,
}
use mathlib.Core.List.{append-nil}
use pget.Ftp.Range.{ReadError, eof, unexpected_eof, failed, Result, at_end, follow, prepend}

pub take-append-less :
    (xs ys : List ℕ) (room : ℕ)
    → length xs ≤ room
    → take room (xs ++ ys) ≡ xs ++ take (room - length xs) ys
take-append-less [] ys room h = let same : room - 0 ≡ room = omega arith in rw same refl
take-append-less (x ∷ xs) ys zero h = absurd (omega arith)
take-append-less (x ∷ xs) ys (suc room) h =
    let less : suc room - suc (length xs) ≡ room - length xs = omega arith in
    rw less (ap (x ∷◌) (take-append-less xs ys room (omega arith)))

take-all : (xs : List ℕ) (room : ℕ) → length xs ≤ room → take room xs ≡ xs
take-all [] zero h = refl
take-all [] (suc room) h = refl
take-all (x ∷ xs) zero h = absurd (omega arith)
take-all (x ∷ xs) (suc room) h = ap (x ∷◌) (take-all xs room (omega arith))

-- The bytes are the first ones of the rest, with an error exactly if there are too few.
abbrev pub IsFilled : {A : Type 0} → Option (Result A) → ℕ → List ℕ → Type 0
IsFilled none room rest = ⊥
IsFilled (some (bytes, error, r)) room rest =
    (bytes ≡ take room rest) × ((error ≡ none) ↔ (room ≤ length rest))

-- Bytes that fit are followed by the rest.
pub prepend-IsFilled :
    {A : Type 0} (filled : List ℕ) (room : ℕ) (later : List ℕ) (result : Option (Result A))
    → length filled ≤ room
    → IsFilled result (room - length filled) later
    → IsFilled (prepend filled result) room (filled ++ later)
unfolding prepend
prepend-IsFilled filled room later none h k = absurd k
prepend-IsFilled filled room later (some (rest, error, r)) h (bytes, (only, if_enough)) =
    let sum = length-append filled later in
    (
      (rw bytes (sym (take-append-less filled later room h))),
      (λ e. omega (arith, only e, sum, h), λ enough. if_enough (omega (arith, enough, sum, h))),
    )

pub take-nil : (n : ℕ) → take {A = ℕ} n [] ≡ []
take-nil zero = refl
take-nil (suc n) = refl

pub at_end-some : (error : Option ReadError) → (e : ReadError) × (at_end error ≡ some e)
unfolding at_end
at_end-some none = (eof, refl)
at_end-some (some eof) = (eof, refl)
at_end-some (some unexpected_eof) = (unexpected_eof, refl)
at_end-some (some failed) = (failed, refl)

-- The buffer is full.
full-IsFilled :
    {A : Type 0} (room : ℕ) (any : Bool) (more : List ℕ → A → Option (Result A)) (filled : List ℕ)
    (e : ReadError) (r : A) (later : List ℕ)
    → length filled ≡ room
    → IsFilled (follow room any more (filled, some e, r)) room (filled ++ later)
full-IsFilled room any more filled e r later h =
    let whole : leb room (length filled) ≡ true = ground arith in
    let used : room - length filled ≡ 0 = omega arith in
    let first : take room (filled ++ later) ≡ filled =
      take-append-less filled later room (omega (arith, h))
      ∙ ap (λ n. filled ++ take n later) used
      ∙ append-nil filled in
    unfold follow in
    rw whole (sym first, (λ q. omega (arith, h, length-append filled later), λ enough. refl))

-- The connection has ended.
pub short-IsFilled :
    {A : Type 0} (room : ℕ) (any : Bool) (more : List ℕ → A → Option (Result A)) (filled : List ℕ)
    (e : ReadError) (r : A)
    → length filled < room
    → IsFilled (follow room any more (filled, some e, r)) room filled
unfolding follow
short-IsFilled room any more filled e r h =
    let less : leb room (length filled) ≡ false = ground arith in
    rw less (
      sym (take-all filled room (omega (arith, h))),
      (λ q. absurd (let q' : some _ ≡ none = q in cc), λ enough. absurd (omega (arith, h, enough))),
    )

-- A read that ends with an error is the last one; it leaves a part of the buffer only at the end.
pub stopped-IsFilled :
    {A : Type 0} (room : ℕ) (any : Bool) (more : List ℕ → A → Option (Result A)) (filled : List ℕ)
    (e : ReadError) (r : A) (later : List ℕ)
    → length filled ≤ room
    → (length filled < room → later ≡ [])
    → IsFilled (follow room any more (filled, some e, r)) room (filled ++ later)
stopped-IsFilled room any more filled e r later h ends =
    elim (Bool-cases (ltb (length filled) room)) [
      | inl part ↦
          let less = ltb→lt (length filled) room part in
          rw (ends less, append-nil filled) (short-IsFilled room any more filled e r less)
      | inr whole ↦ full-IsFilled room any more filled e r later (ground (arith, whole, h))
    ]
