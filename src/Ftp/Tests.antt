-- ===== src/Ftp/Tests.antt =====
-- Addresses, names, and a range that arrives in two segments.
use pget.Base.{
  ℕ, zero, suc, ◌≤◌, ◌<◌, ◌≢◌, ◌++◌, length, ◌≡◌, refl, false, List, [], ◌∷◌, none, some, arith,
  bytes,
}
use pget.Ftp.Address.{Url, resolve_addr, address, missing_path, extract_filename, dial}
use pget.Ftp.Range.{Result, IsReader, RangeReader, failed, open_range, read_full}
use pget.Ftp.Range.Filled.{IsFilled}
use pget.Ftp.Range.Full.{read_full-take}

abbrev url : Url
url = record {
  text = bytes "ftps://me@h/d/a.iso";
  scheme = bytes "ftps";
  host = bytes "h";
  port = [];
  path = bytes "/d/a.iso";
  raw_query = bytes "implicit=1";
  user = some (bytes "me", none);
  display = bytes "ftps://h/d/a.iso";
}

implicit_test : resolve_addr url ≡ address (bytes "h") (bytes "990") (bytes "/d/a.iso")
unfolding resolve_addr bytes
implicit_test = refl

root_test : resolve_addr (record url { path = bytes "/" }) ≡ missing_path
unfolding resolve_addr bytes
root_test = refl

login_test : (dial url (bytes "h") (bytes "990")).pass ≡ bytes "pget@"
unfolding dial bytes
login_test = refl

-- The name of the parent directory is not replaced.
parent_test : extract_filename (bytes "/d/..") ≡ bytes ".."
unfolding extract_filename bytes
parent_test = refl

-- A connection that hands out its bytes in segments of two, and then fails.
abbrev two_bytes : List ℕ → ℕ → Result (List ℕ)
two_bytes [] limit = ([], some failed, [])
two_bytes (b ∷ bs) zero = ([], none, b ∷ bs)
two_bytes (b ∷ bs) (suc zero) = (b ∷ [], none, bs)
two_bytes (b ∷ []) (suc (suc n)) = (b ∷ [], none, [])
two_bytes (b ∷ c ∷ bs) (suc (suc n)) = (b ∷ c ∷ [], none, bs)

abbrev itself : List ℕ → List ℕ
itself bs = bs

two_bytes-IsReader : IsReader two_bytes itself length
two_bytes-IsReader = record { fits = fits; carries = carries; goes_on = goes_on; ends = ends }
  where
    fits : (c : List ℕ) (limit : ℕ) → length (two_bytes c limit).0 ≤ limit
    fits [] limit = omega arith
    fits (b ∷ bs) zero = omega arith
    fits (b ∷ bs) (suc zero) = omega arith
    fits (b ∷ []) (suc (suc n)) = omega arith
    fits (b ∷ c ∷ bs) (suc (suc n)) = omega arith

    carries : (c : List ℕ) (limit : ℕ) → c ≡ (two_bytes c limit).0 ++ (two_bytes c limit).2
    carries [] limit = refl
    carries (b ∷ bs) zero = refl
    carries (b ∷ bs) (suc zero) = refl
    carries (b ∷ []) (suc (suc n)) = refl
    carries (b ∷ c ∷ bs) (suc (suc n)) = refl

    goes_on :
        (c : List ℕ) (limit : ℕ)
        → 0 < limit
        → (two_bytes c limit).1 ≡ none
        → length (two_bytes c limit).2 < length c
    goes_on [] limit h e = cc
    goes_on (b ∷ bs) zero h e = absurd (omega (arith, h))
    goes_on (b ∷ bs) (suc zero) h e = omega arith
    goes_on (b ∷ []) (suc (suc n)) h e = omega arith
    goes_on (b ∷ c ∷ bs) (suc (suc n)) h e = omega arith

    ends : (c : List ℕ) (limit : ℕ) → (two_bytes c limit).1 ≢ none → (two_bytes c limit).2 ≡ []
    ends [] limit h = refl
    ends (b ∷ bs) zero h = absurd (h refl)
    ends (b ∷ bs) (suc zero) h = absurd (h refl)
    ends (b ∷ []) (suc (suc n)) h = absurd (h refl)
    ends (b ∷ c ∷ bs) (suc (suc n)) h = absurd (h refl)

abbrev five : List ℕ
five = 1 ∷ 2 ∷ 3 ∷ 4 ∷ 5 ∷ []

abbrev three : RangeReader (List ℕ)
three = record { conn = five; length = 3; read = 0; closed = false }

-- The buffer has four bytes, the range three, and the connection five.
read_full-take_example : IsFilled (read_full two_bytes 6 three 4 false) 4 (1 ∷ 2 ∷ 3 ∷ [])
read_full-take_example =
    read_full-take two_bytes itself length two_bytes-IsReader 3 five 6 4 three
      (unfold open_range in refl) (omega arith) (omega arith)
