-- ===== src/Schedule/Backoff.antt =====
-- The delay before a retry.
use pget.Base.{
  ℕ, zero, suc, ◌+◌, ◌-◌, ◌*◌, ◌%◌, ◌^◌, ◌≤◌, ◌≡◌, refl, ◌∙◌, ap, subst, true, arith, ltb, ◌==◌,
  ==_iff, if◌then◌else◌, holds_below, holds_below-apply,
}
use native.Mathlib.Nat.{pow-suc}
use pget.Base.Int64.{modulus}
use pget.Schedule.Stats.{second}
use pget.Schedule.Report.{retry_backoff}

-- 1s, 2s, 4s, 8s, 16s, and then 30s.
abbrev pub promised : ℕ → ℕ
promised attempts = (if ltb 30 (2 ^ (attempts - 1)) then 30 else 2 ^ (attempts - 1)) * second

promised_table : holds_below (λ k. retry_backoff (suc k) == promised (suc k)) 34 ≡ true
unfolding holds_below retry_backoff
promised_table = refl

-- Up to the 34th attempt the delay doubles from one second and is capped at 30 seconds.
pub retry_backoff-promised :
    (attempts : ℕ) → 1 ≤ attempts → attempts ≤ 34 → retry_backoff attempts ≡ promised attempts
retry_backoff-promised zero h k = absurd (omega arith)
retry_backoff-promised (suc n) h k =
    (==_iff _ (promised (suc n))).0 (holds_below-apply _ 34 promised_table n (omega arith))

-- 2^55 seconds and more, in nanoseconds, are multiples of 2^64.
shifted_out : (k : ℕ) → 2 ^ (55 + k) * second % modulus ≡ 0
shifted_out zero = refl
shifted_out (suc k) =
    let again : 2 ^ (55 + suc k) ≡ 2 ^ (55 + k) * 2 =
      ap (λ (e : ℕ). 2 ^ e) (let e : 55 + suc k ≡ suc (55 + k) = omega arith in e)
      ∙ pow-suc 2 (55 + k) in
    omega (arith, again, shifted_out k)

-- From the 56th attempt on the product has wrapped around to 0, so there is no delay at all: the cap
-- of 30 seconds is not kept.
pub retry_backoff-vanishes : (attempts : ℕ) → 56 ≤ attempts → retry_backoff attempts ≡ 0
unfolding retry_backoff
retry_backoff-vanishes attempts h =
    let exponent : 55 + (attempts - 56) ≡ attempts - 1 = omega arith in
    let gone : 2 ^ (attempts - 1) * second % modulus ≡ 0 =
      subst (λ e. 2 ^ e * second % modulus ≡ 0) exponent (shifted_out (attempts - 56)) in
    let wrapped : 2 ^ (attempts - 1) % modulus * second % modulus ≡ 0 = omega (arith, gone) in
    ground (arith, wrapped)
