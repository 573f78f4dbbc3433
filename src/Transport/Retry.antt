-- ===== src/Transport/Retry.antt =====
-- `GetJetstreamConsumer` and `calculateExponentialBackoff` of backend/internal/transport/nats.go.
pub mod Attempts
use logarithm.Prelude.{
  ℕ, zero, suc, ◌+◌, ◌*◌, ◌%◌, ◌^◌, Bool, not, Option, none, some, List, [], ◌∷◌, if◌then◌else◌,
}
use logarithm.Prelude.Int.{ℤ, pos, ltb_ℤ}
use logarithm.Core.Time.{Duration, to_int64}

-- An `int` shift and an `int64` product, which wrap; the base is not negative.
unfoldable pub calculate_exponential_backoff : ℕ → ℕ → ℕ → Duration
unfolding to_int64
calculate_exponential_backoff attempt base_delay max_delay =
    let delay = to_int64 (base_delay * (2 ^ attempt % 2 ^ 64) % 2 ^ 64) in
    if ltb_ℤ (pos max_delay) delay then pos max_delay else delay

abbrev pub retry_attempts : ℕ
retry_attempts = 5

-- 1 s and 15 s, in nanoseconds.
abbrev pub base_delay : ℕ
base_delay = 1_000_000_000

abbrev pub max_delay : ℕ
max_delay = 15_000_000_000

pub data Fetch (C : Type 0) : Type 0 where
  fetched : C → Fetch C
  cancelled exhausted : Fetch C

-- The rounds from `i` on, `k` of them: `fetch` is the broker's reply to each attempt, `ends` says
-- during which wait the context is cancelled. The waits that were begun are returned too.
unfoldable pub retry_loop :
    {C : Type 0} → ℕ → ℕ → (ℕ → Option C) → (ℕ → Bool) → Fetch C × List Duration
retry_loop zero i fetch ends = (exhausted, [])
retry_loop (suc k) i fetch ends =
    let rest = retry_loop k (i + 1) fetch ends in
    let delay = calculate_exponential_backoff i base_delay max_delay in
    elim (fetch i) [
      | some c ↦ (fetched c, [])
      | none ↦ if ends i then (cancelled, delay ∷ []) else (rest.0, delay ∷ rest.1)
    ]

unfoldable pub get_jetstream_consumer :
    {C : Type 0} → (ℕ → Option C) → (ℕ → Bool) → Fetch C × List Duration
unfolding retry_loop calculate_exponential_backoff
get_jetstream_consumer fetch ends = retry_loop retry_attempts 0 fetch ends
