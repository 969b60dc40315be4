-- ===== src/Http/Sequential.antt =====
-- internal/adapter/http/adapter.go: OpenSequential around its request.
use pget.Base.{ℕ, Bool, ◌||◌, List, Option, none, some, ◌==◌, ltb, if◌then◌else◌}

-- No response at all; or a status, the bytes of the body that can be read, and whether that is all of it.
pub data Reply : Type 0 where
  no_reply : Reply
  reply : ℕ → List ℕ → Bool → Reply

unfoldable pub is_accepted : ℕ → Bool
is_accepted status = status == 200 || status == 206

-- The first byte that the Range header names, if there is one.
unfoldable pub range_from : ℕ → Option ℕ
range_from offset = if ltb 0 offset then some offset else none

unfoldable pub accepted : Reply → Option (List ℕ × Bool)
unfolding is_accepted
accepted no_reply = none
accepted (reply status body whole) = if is_accepted status then some (body, whole) else none

unfoldable pub open_sequential : (Option ℕ → Reply) → ℕ → Option (List ℕ × Bool)
unfolding accepted range_from
open_sequential server offset = accepted (server (range_from offset))
