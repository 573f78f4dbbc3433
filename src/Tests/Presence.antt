-- ===== src/Tests/Presence.antt =====
-- A dashboard that sends a heartbeat every ten units, each under way for three.
use logarithm.Prelude.{inl, ◌≡◌, refl, true, false, [], arith}
use logarithm.Transport.LiveTail.{heartbeat, is_active}
use logarithm.Transport.Presence.{
  Presence, start_presence, wait_until, publish_ping, receive_ping, stop_watching, Watching,
  just_started, and_step,
}
use logarithm.Transport.Presence.Tracked.{Watching-is_active_ends}
use logarithm.Transport.Presence.Active.{Watching-is_active}

abbrev seen : Presence
seen = record {
  now = 115;
  watching = true;
  next_tick = 120;
  in_flight = [];
  last_seen = 113;
  stopped_at = 0;
}

seen-Watching : Watching 10 3 false (start_presence 10 100) seen
unfolding start_presence heartbeat
seen-Watching =
    and_step
      (and_step
        (and_step
          (and_step (and_step just_started (wait_until 110 (omega arith) (λ w. omega arith) tt))
            (publish_ping (inl refl) refl))
          (wait_until 113 (omega arith) (λ w. omega arith) (omega arith, tt)))
        (receive_ping [] [] 113 refl))
      (wait_until 115 (omega arith) (λ w. omega arith) tt)

Watching-is_active_example : is_active 20 113 115 ≡ true
Watching-is_active_example =
    Watching-is_active 10 3 100 (omega arith) 20 seen (omega arith) seen-Watching refl (omega arith)

abbrev gone : Presence
gone = record {
  now = 140;
  watching = false;
  next_tick = 120;
  in_flight = [];
  last_seen = 113;
  stopped_at = 115;
}

gone-Watching : Watching 10 3 false (start_presence 10 100) gone
unfolding start_presence
gone-Watching =
    and_step (and_step seen-Watching (stop_watching refl))
      (wait_until 140 (omega arith) (λ w. absurd (ground arith)) tt)

Watching-is_active_ends_example : is_active 20 113 140 ≡ false
Watching-is_active_ends_example =
    Watching-is_active_ends 10 3 false 100 20 gone gone-Watching refl (omega arith)
