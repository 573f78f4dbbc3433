-- ===== src/Tests/Transport.antt =====
-- The live tail and the retries at concrete inputs.
use logarithm.Prelude.{
  ℕ, String, ◌≡◌, refl, Option, none, some, [], ◌∷◌, arith, ◌==◌, if◌then◌else◌,
}
use logarithm.Transport.LiveTail.{Tail, subscribe, deliver_all}
use logarithm.Transport.LiveTail.Newest.{IsLive, deliver_all-newest}
use logarithm.Transport.LiveTail.{sent}

abbrev live : Tail
live = subscribe 2

live-IsLive : IsLive live
unfolding subscribe
live-IsLive = (refl, refl, omega arith, omega arith)

deliver_all-newest_example :
    deliver_all live ((1 ∷ []) ∷ (2 ∷ []) ∷ (3 ∷ []) ∷ [])
    ≡ sent (record live { channel = (2 ∷ []) ∷ (3 ∷ []) ∷ [] })
unfolding subscribe
deliver_all-newest_example =
    deliver_all-newest live ((1 ∷ []) ∷ (2 ∷ []) ∷ (3 ∷ []) ∷ []) live-IsLive

-- The broker has the consumer at the third attempt.
abbrev third : ℕ → Option String
third n = if n == 2 then some "workers" else none
