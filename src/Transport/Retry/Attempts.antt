-- ===== src/Transport/Retry/Attempts.antt =====
-- The delays of the retries, and what the loop returns.
use logarithm.Prelude.{
  ℕ, zero, suc, ◌+◌, ◌*◌, ◌^◌, ◌<◌, min, ◌≡◌, refl, Bool, false, Option, none, some, List, [], ◌∷◌,
  arith, ◌%◌,
}
use logarithm.Prelude.Int.{pos}
use logarithm.Core.Time.{Duration}
use logarithm.Transport.Retry.{
  Fetch, calculate_exponential_backoff, retry_attempts, base_delay, max_delay, retry_loop,
  get_jetstream_consumer, fetched, exhausted,
}

factor_small : (base p : ℕ) → 0 < base → base * p < 2 ^ 63 → p < 2 ^ 63
factor_small zero p h fits = absurd (omega arith)
factor_small (suc b) p h fits = omega arith

no_wrap : (base p : ℕ) → 0 < base → base * p < 2 ^ 63 → base * (p % 2 ^ 64) % 2 ^ 64 ≡ base * p
no_wrap base p h fits = rw small (omega arith)
  where
    small : p % 2 ^ 64 ≡ p
    small = omega (arith, factor_small base p h fits)

-- Where the product fits in an `int64` and the base is positive, the delay is the base doubled once
-- for each attempt before this one, up to the maximum.
pub calculate_exponential_backoff_lem :
    (attempt base limit : ℕ)
    → 0 < base
    → base * 2 ^ attempt < 2 ^ 63
    → calculate_exponential_backoff attempt base limit ≡ pos (min (base * 2 ^ attempt) limit)
unfolding calculate_exponential_backoff
calculate_exponential_backoff_lem attempt base limit h fits =
    ground (arith, no_wrap base (2 ^ attempt) h fits)

-- The replies before the first success, or all of them: how many attempts of `k` fail from `i` on.
abbrev pub failures : {C : Type 0} → ℕ → ℕ → (ℕ → Option C) → ℕ
failures zero i fetch = 0
failures (suc k) i fetch =
    let rest = failures k (i + 1) fetch in elim (fetch i) [ some c ↦ 0 | none ↦ suc rest ]

-- The wait after each failed attempt, in nanoseconds.
abbrev pub waits : ℕ → ℕ → List Duration
waits zero i = []
waits (suc k) i = calculate_exponential_backoff i base_delay max_delay ∷ waits k (i + 1)

abbrev pub reply_at : {C : Type 0} → ℕ → ℕ → (ℕ → Option C) → Fetch C
reply_at zero i fetch = exhausted
reply_at (suc k) i fetch =
    let rest = reply_at k (i + 1) fetch in elim (fetch i) [ some c ↦ fetched c | none ↦ rest ]

retry_loop_lem :
    {C : Type 0} (k i : ℕ) (fetch : ℕ → Option C) (ends : ℕ → Bool)
    → ((j : ℕ) → ends j ≡ false)
    → retry_loop k i fetch ends ≡ (reply_at k i fetch, waits (failures k i fetch) i)
unfolding retry_loop
retry_loop_lem zero i fetch ends h = refl
retry_loop_lem (suc k) i fetch ends h = ground (arith, h i, retry_loop_lem k (i + 1) fetch ends h)

-- The five waits of a consumer that never comes: 1, 2, 4, 8 and 15 seconds.
five_waits :
    waits retry_attempts 0
    ≡ pos 1_000_000_000
      ∷ pos 2_000_000_000
      ∷ pos 4_000_000_000
      ∷ pos 8_000_000_000
      ∷ pos 15_000_000_000
      ∷ []
unfolding calculate_exponential_backoff
five_waits = refl

-- If the context is not cancelled, the call returns the first consumer that one of its five attempts
-- finds, and an error if none does; it has waited after each attempt that failed, the last included,
-- for the backoff delay of its number.
pub get_jetstream_consumer_lem :
    {C : Type 0} (fetch : ℕ → Option C) (ends : ℕ → Bool)
    → ((j : ℕ) → ends j ≡ false)
    → get_jetstream_consumer fetch ends
      ≡ (reply_at retry_attempts 0 fetch, waits (failures retry_attempts 0 fetch) 0)
unfolding get_jetstream_consumer
get_jetstream_consumer_lem fetch ends h = retry_loop_lem retry_attempts 0 fetch ends h
