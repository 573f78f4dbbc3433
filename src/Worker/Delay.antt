-- ===== src/Worker/Delay.antt =====
-- `DelayCalculator` of backend/internal/worker/worker.go: how long a message waits before it is
-- delivered again.
use logarithm.Prelude.{
  ℕ, zero, suc, ◌+◌, ◌-◌, ◌^◌, ◌<◌, min, ◌≡◌, refl, Option, none, some, List, [], ◌∷◌, arith, ◌==◌,
  if◌then◌else◌, length, get_elem?,
}
use logarithm.Prelude.Int.{ℤ, pos, negsuc, leb_ℤ, max_ℤ}
use logarithm.Core.Time.{Duration, to_int64}

-- `n - 1` on an `int`, which wraps at the least value.
unfoldable pub int_pred : ℤ → ℤ
int_pred (pos zero) = negsuc 0
int_pred (pos (suc n)) = pos n
int_pred (negsuc n) = if n == 2 ^ 63 - 1 then pos (2 ^ 63 - 1) else negsuc (n + 1)

-- `backoff[i]`; `none` is the panic of an index out of range.
unfoldable pub index_at : List Duration → ℤ → Option Duration
index_at backoff (pos i) = get_elem? backoff i
index_at backoff (negsuc i) = none

unfoldable pub delay_calculator : List Duration → ℕ → Option Duration
unfolding index_at int_pred to_int64
delay_calculator backoff delivered_count =
    if length backoff == 0
    then some (pos 0)
    else if leb_ℤ (pos (length backoff)) (to_int64 delivered_count)
    then get_elem? backoff (length backoff - 1)
    else index_at backoff (max_ℤ (int_pred (to_int64 delivered_count)) (pos 0))

get_elem?-some {ℓ} :
    {A : Type ℓ} (xs : List A) (i : ℕ) → i < length xs → (a : A) × (get_elem? xs i ≡ some a)
get_elem?-some [] i h = absurd (omega arith)
get_elem?-some (x ∷ xs) zero h = (x, refl)
get_elem?-some (x ∷ xs) (suc i) h = get_elem?-some xs i (omega arith)

-- With a backoff list that is not empty and a count below 2 ^ 63, the delay is the entry for the
-- delivery, counted from 1, and the last entry for all later ones.
pub delay_calculator_lem :
    (backoff : List Duration) (delivered : ℕ)
    → 0 < length backoff
    → delivered < 2 ^ 63
    → delay_calculator backoff delivered
      ≡ get_elem? backoff (min (delivered - 1) (length backoff - 1))
unfolding delay_calculator
delay_calculator_lem backoff zero h k = ground arith
delay_calculator_lem backoff (suc d) h k = ground arith
