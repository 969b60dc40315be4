-- ===== src/Sink/File/Finalize.antt =====
-- internal/sink/file.go: NewFileSink and Finalize. A call of the operating system that changes something
-- is a `Call`; the calls of an operation are listed in their order, and their answers are arguments.
use pget.Base.{
  ℕ, zero, suc, ◌≡◌, ◌≢◌, ◌⊎◌, refl, inl, inr, Bool, true, false, List, [], ◌∷◌, ◌++◌, Option, none,
  some, if◌then◌else◌, take, Bool-cases,
}
use pget.Sink.File.{FileSink}

-- `opened` is what the file holds already, nothing if it is created; `none` is an error.
unfoldable pub new_file_sink : Option (List ℕ) → ℕ → Bool → Option FileSink
new_file_sink none base_off has_sidecar = none
new_file_sink (some file) base_off has_sidecar =
    some (record { file = file; base_off = base_off; has_sidecar = has_sidecar; marked = [] })

-- The calls that succeed.
pub data Call : Type 0 where
  syncs closes removes_sidecar : Call
  sets_times : ℕ → Call

pub data FinalizeError : Type 0 where
  sync_failed close_failed remove_failed : FinalizeError

-- What os.Remove answers: os.IsNotExist tells the second from the third.
pub data Removal : Type 0 where
  removed not_exist denied : Removal

pub record Answers : Type 0 where
  pub sync : Bool
  pub chtimes : Bool
  pub close : Bool
  pub removal : Removal

unfoldable pub remove_sidecar : Bool → Removal → List Call × Option FinalizeError
remove_sidecar false answer = ([], none)
remove_sidecar true removed = (removes_sidecar ∷ [], none)
remove_sidecar true not_exist = ([], none)
remove_sidecar true denied = ([], some remove_failed)

unfoldable pub close_file : FileSink → Answers → List Call × Option FinalizeError
unfolding remove_sidecar
close_file s answers =
    let (calls, error) = remove_sidecar s.has_sidecar answers.removal in
    if answers.close then (closes ∷ calls, error) else ([], some close_failed)

-- A modification time of zero is `none`; the error of os.Chtimes is dropped.
unfoldable pub times : Option ℕ → Bool → List Call
times none ok = []
times (some mod_time) false = []
times (some mod_time) true = sets_times mod_time ∷ []

unfoldable pub finalize : FileSink → Option ℕ → Answers → List Call × Option FinalizeError
unfolding close_file times
finalize s mod_time answers =
    let (calls, error) = close_file s answers in
    if answers.sync
    then (syncs ∷ times mod_time answers.chtimes ++ calls, error)
    else ([], some sync_failed)

-- What a crash of the system would leave: whether all data is on the disk, and the sidecar is there.
pub record Disk : Type 0 where
  pub durable : Bool
  pub sidecar : Bool

unfoldable pub after_call : Disk → Call → Disk
after_call d syncs = record d { durable = true }
after_call d closes = d
after_call d removes_sidecar = record d { sidecar = false }
after_call d (sets_times mod_time) = d

unfoldable pub after_calls : Disk → List Call → Disk
unfolding after_call
after_calls d [] = d
after_calls d (call ∷ calls) = after_calls (after_call d call) calls

-- Calls that do not take back that the data is on the disk.
stays-durable :
    (calls : List Call) (d : Disk) → d.durable ≡ true → (after_calls d calls).durable ≡ true
unfolding after_calls
stays-durable [] d h = h
stays-durable (syncs ∷ calls) d h = stays-durable calls _ refl
stays-durable (closes ∷ calls) d h = stays-durable calls d h
stays-durable (removes_sidecar ∷ calls) d h = stays-durable calls _ h
stays-durable (sets_times mod_time ∷ calls) d h = stays-durable calls d h

crash-durable :
    (calls : List Call) (d : Disk) (n : ℕ)
    → ((after_calls d (take n (syncs ∷ calls))).sidecar ≡ d.sidecar)
      ⊎ ((after_calls d (take n (syncs ∷ calls))).durable ≡ true)
unfolding after_calls
crash-durable calls d zero = inl refl
crash-durable calls d (suc n) =
    inr (stays-durable (take n calls) (record d { durable = true }) refl)

take-nil : (n : ℕ) → take {A = Call} n [] ≡ []
take-nil zero = refl
take-nil (suc n) = refl

-- If the system crashes after any number of Finalize's calls, then the sidecar is there exactly as it was
-- before them, or the destination's data has been synced.
pub finalize-durable :
    (s : FileSink) (mod_time : Option ℕ) (answers : Answers) (d : Disk) (n : ℕ)
    → ((after_calls d (take n (finalize s mod_time answers).0)).sidecar ≡ d.sidecar)
      ⊎ ((after_calls d (take n (finalize s mod_time answers).0)).durable ≡ true)
unfolding finalize
finalize-durable s mod_time answers d n = elim (Bool-cases answers.sync) [
  | inl e ↦ simp e (crash-durable _ d n)
  | inr e ↦ simp (e, take-nil n) (inl (unfold after_calls in refl))
]

-- An error without a removal of the sidecar, in what one call leads to.
abbrev KeepsOnError : Disk → List Call × Option FinalizeError → Type 0
KeepsOnError d (calls, error) = error ≢ none → (after_calls d calls).sidecar ≡ d.sidecar

after_close :
    (ok : Bool) (d : Disk) (calls : List Call) (error : Option FinalizeError)
    → KeepsOnError d (calls, error)
    → KeepsOnError d (if ok then (closes ∷ calls, error) else ([], some close_failed))
unfolding after_calls
after_close true d calls error keeps = keeps
after_close false d calls error keeps = λ h. refl

after_sync :
    (ok : Bool) (d : Disk) (before calls : List Call) (error : Option FinalizeError)
    → after_calls (record d { durable = true }) (before ++ calls)
      ≡ after_calls (record d { durable = true }) calls
    → KeepsOnError (record d { durable = true }) (calls, error)
    → KeepsOnError d (if ok then (syncs ∷ before ++ calls, error) else ([], some sync_failed))
unfolding after_calls
after_sync true d before calls error same keeps = λ h. rw same (keeps h)
after_sync false d before calls error same keeps = λ h. refl

remove_sidecar-error :
    (s : Bool) (answer : Removal) (d : Disk)
    → (remove_sidecar s answer).1 ≢ none
    → (after_calls d (remove_sidecar s answer).0).sidecar ≡ d.sidecar
unfolding remove_sidecar after_calls
remove_sidecar-error false answer d h = refl
remove_sidecar-error true removed d h = absurd (h refl)
remove_sidecar-error true not_exist d h = refl
remove_sidecar-error true denied d h = refl

close_file-error :
    (s : FileSink) (answers : Answers) (d : Disk) → KeepsOnError d (close_file s answers)
unfolding close_file
close_file-error s answers d =
    after_close answers.close d _ _ (remove_sidecar-error s.has_sidecar answers.removal d)

times-sidecar :
    (mod_time : Option ℕ) (ok : Bool) (calls : List Call) (d : Disk)
    → after_calls d (times mod_time ok ++ calls) ≡ after_calls d calls
unfolding times after_calls
times-sidecar none ok calls d = refl
times-sidecar (some mod_time) false calls d = refl
times-sidecar (some mod_time) true calls d = refl

-- When Finalize returns an error, be it of the sync, of the close or of the removal, it has not removed
-- the sidecar.
pub finalize-error :
    (s : FileSink) (mod_time : Option ℕ) (answers : Answers) (d : Disk)
    → (finalize s mod_time answers).1 ≢ none
    → (after_calls d (finalize s mod_time answers).0).sidecar ≡ d.sidecar
unfolding finalize
finalize-error s mod_time answers d =
    after_sync answers.sync d (times mod_time answers.chtimes) _ _
      (times-sidecar mod_time answers.chtimes _ _) (close_file-error s answers _)
