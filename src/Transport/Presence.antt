-- ===== src/Transport/Presence.antt =====
-- `StartPresencePublisher` and `StartPresenceListener` of backend/internal/transport/nats.go: the
-- dashboard's heartbeats, and how the worker follows them.
pub mod Tracked
pub mod Active
use logarithm.Prelude.{
  ℕ, ◌+◌, ◌≤◌, ◌≡◌, ◌⊎◌, Bool, true, false, not, List, [], ◌∷◌, ◌++◌, if◌then◌else◌, All,
}
use logarithm.Prelude.Int.{ℤ, pos, pos_part, leb_ℤ}
use logarithm.Transport.LiveTail.{heartbeat}

-- The ticker's period in nanoseconds: an interval that is not positive becomes a second.
unfoldable pub presence_interval : ℤ → ℕ
presence_interval interval = if leb_ℤ interval (pos 0) then 1_000_000_000 else pos_part interval

-- The clock, whether the publisher's context lives, when its ticker fires next, for each heartbeat on
-- its way the time by which it has arrived, the listener's variable, and as a history when the context
-- ended.
pub record Presence : Type 0 where
  pub now : ℕ
  pub watching : Bool
  pub next_tick : ℕ
  pub in_flight : List ℕ
  pub last_seen : ℕ
  pub stopped_at : ℕ

-- The publisher and the listener are started at a time.
unfoldable pub start_presence : ℕ → ℕ → Presence
start_presence interval now = record {
  now = now;
  watching = true;
  next_tick = now + interval;
  in_flight = [];
  last_seen = 0;
  stopped_at = 0;
}

-- The ticker's case of the `select` may be taken while the context lives; and where the tick and the
-- context's end fall together both cases are ready, so that it may be taken then too.
abbrev pub CanTick : Presence → Type 0
CanTick s = (s.watching ≡ true) ⊎ (s.stopped_at ≡ s.now)

-- A heartbeat takes at most `delay`, and the ticker fires on time: the clock does not go beyond either.
-- Where `loses` is true, a heartbeat may fail to be published, which is logged.
pub data PresenceStep (interval delay : ℕ) (loses : Bool) (s : Presence) : Presence → Type 0 where
  wait_until :
      (time : ℕ)
      → s.now ≤ time
      → (s.watching ≡ true → time ≤ s.next_tick)
      → All (λ d. time ≤ d) s.in_flight
      → PresenceStep interval delay loses s (record s { now = time })
  publish_ping :
      CanTick s
      → s.now ≡ s.next_tick
      → PresenceStep interval delay loses s (record s {
        next_tick = s.now + interval;
        in_flight = s.in_flight ++ (s.now + delay) ∷ [];
      })
  fail_ping :
      loses ≡ true
      → CanTick s
      → s.now ≡ s.next_tick
      → PresenceStep interval delay loses s (record s { next_tick = s.now + interval })
  receive_ping :
      (before after : List ℕ) (d : ℕ)
      → s.in_flight ≡ before ++ d ∷ after
      → PresenceStep interval delay loses s
          (record s { in_flight = before ++ after; last_seen = heartbeat s.last_seen s.now })
  stop_watching :
      s.watching ≡ true
      → PresenceStep interval delay loses s (record s { watching = false; stopped_at = s.now })

pub data Watching (interval delay : ℕ) (loses : Bool) (s : Presence) : Presence → Type 0 where
  just_started : Watching interval delay loses s s
  and_step :
      {t u : Presence}
      → Watching interval delay loses s t
      → PresenceStep interval delay loses t u
      → Watching interval delay loses s u
