-- ===== src/Schedule/Counts.antt =====
-- How a change of one chunk moves the counts, and which chunks are still untouched.
use pget.Base.{
  ℕ, zero, suc, ◌+◌, ◌≤◌, ◌<◌, ◌≡◌, refl, ◌∙◌, Bool, true, List, [], ◌∷◌, some, arith,
  if◌then◌else◌, length, get_elem?, modify,
}
use pget.Chunk.{Chunk, State, pending, completed}
use pget.Schedule.State.{count_state, is_completed}

abbrev pub bit : Bool → ℕ
bit b = if b then 1 else 0

pub count_state-modify :
    (p : State → Bool) (cs : List Chunk) (i : ℕ) (f : Chunk → Chunk) (c : Chunk)
    → get_elem? cs i ≡ some c
    → count_state p (modify cs i f) + bit (p c.state) ≡ count_state p cs + bit (p (f c).state)
count_state-modify p [] i f c h = cc
count_state-modify p (x ∷ cs) zero f c h = ground arith
count_state-modify p (x ∷ cs) (suc i) f c h = ground (arith, count_state-modify p cs i f c h)

pub count_state-le : (p : State → Bool) (cs : List Chunk) → count_state p cs ≤ length cs
count_state-le p [] = omega arith
count_state-le p (c ∷ cs) = ground (arith, count_state-le p cs)

-- Every chunk from position `n` on is pending.
abbrev pub PendingFrom : ℕ → List Chunk → Type 0
PendingFrom n [] = Unit {0}
PendingFrom zero (c ∷ cs) = (c.state ≡ pending) × PendingFrom zero cs
PendingFrom (suc n) (c ∷ cs) = PendingFrom n cs

pub PendingFrom-suc : (n : ℕ) (cs : List Chunk) → PendingFrom n cs → PendingFrom (suc n) cs
PendingFrom-suc n [] h = tt
PendingFrom-suc zero (c ∷ cs) h = h.1
PendingFrom-suc (suc n) (c ∷ cs) h = PendingFrom-suc n cs h

-- A chunk at or behind the mark is pending.
pub PendingFrom-get :
    (n : ℕ) (cs : List Chunk) (i : ℕ) (c : Chunk)
    → PendingFrom n cs
    → n ≤ i
    → get_elem? cs i ≡ some c
    → c.state ≡ pending
PendingFrom-get n [] i c h k e = cc
PendingFrom-get zero (x ∷ cs) zero c h k e = ground arith
PendingFrom-get zero (x ∷ cs) (suc i) c h k e = PendingFrom-get zero cs i c h.1 (omega arith) e
PendingFrom-get (suc n) (x ∷ cs) zero c h k e = absurd (omega arith)
PendingFrom-get (suc n) (x ∷ cs) (suc i) c h k e = PendingFrom-get n cs i c h (omega arith) e

-- A change before the mark, or one that leaves the state, keeps it.
pub PendingFrom-modify :
    (n : ℕ) (cs : List Chunk) (i : ℕ) (f : Chunk → Chunk)
    → PendingFrom n cs
    → i < n
    → PendingFrom n (modify cs i f)
PendingFrom-modify n [] i f h k = tt
PendingFrom-modify zero (x ∷ cs) i f h k = absurd (omega arith)
PendingFrom-modify (suc n) (x ∷ cs) zero f h k = h
PendingFrom-modify (suc n) (x ∷ cs) (suc i) f h k = PendingFrom-modify n cs i f h (omega arith)

-- All chunks completed.
abbrev pub AllCompleted : List Chunk → Type 0
AllCompleted [] = Unit {0}
AllCompleted (c ∷ cs) = (c.state ≡ completed) × AllCompleted cs

is_completed-eq : (s : State) → is_completed s ≡ true → s ≡ completed
is_completed-eq s h = ground arith

pub AllCompleted-of_count :
    (cs : List Chunk) → length cs ≤ count_state is_completed cs → AllCompleted cs
AllCompleted-of_count [] h = tt
AllCompleted-of_count (c ∷ cs) h = (
  ground (arith, count_state-le is_completed cs, is_completed-eq c.state),
  AllCompleted-of_count cs (ground (arith, count_state-le is_completed cs)),
)

-- A change that leaves the state alone moves neither.
pub PendingFrom-modify_same :
    (n : ℕ) (cs : List Chunk) (i : ℕ) (f : Chunk → Chunk)
    → ((c : Chunk) → (f c).state ≡ c.state)
    → PendingFrom n cs
    → PendingFrom n (modify cs i f)
PendingFrom-modify_same n [] i f same h = tt
PendingFrom-modify_same zero (x ∷ cs) zero f same h = (same x ∙ h.0, h.1)
PendingFrom-modify_same zero (x ∷ cs) (suc i) f same h =
    (h.0, PendingFrom-modify_same zero cs i f same h.1)
PendingFrom-modify_same (suc n) (x ∷ cs) zero f same h = h
PendingFrom-modify_same (suc n) (x ∷ cs) (suc i) f same h = PendingFrom-modify_same n cs i f same h

pub count_state-modify_same :
    (p : State → Bool) (cs : List Chunk) (i : ℕ) (f : Chunk → Chunk)
    → ((c : Chunk) → (f c).state ≡ c.state)
    → count_state p (modify cs i f) ≡ count_state p cs
count_state-modify_same p [] i f same = refl
count_state-modify_same p (x ∷ cs) zero f same = rw (same x)
count_state-modify_same p (x ∷ cs) (suc i) f same = rw (count_state-modify_same p cs i f same)
