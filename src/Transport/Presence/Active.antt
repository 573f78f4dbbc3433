-- ===== src/Transport/Presence/Active.antt =====
-- The worker sees a subscriber for as long as there is one.
use logarithm.Prelude.{
  ℕ, ◌+◌, ◌≤◌, ◌<◌, ◌≡◌, refl, sym, ap, subst, ◌∙◌, ◌⊎◌, inl, inr, true, false, List, [], ◌∷◌, ◌++◌,
  arith, length, length-append, All,
}
use logarithm.Transport.LiveTail.{heartbeat, is_active}
use logarithm.Transport.Presence.{
  Presence, start_presence, PresenceStep, wait_until, publish_ping, fail_ping, receive_ping,
  stop_watching, Watching, just_started, and_step,
}
use logarithm.Transport.Presence.Tracked.{InTime, PresenceStep-InTime, Watching-InTime}

single : (before after : List ℕ) (d e : ℕ) → e ∷ [] ≡ before ++ d ∷ after → before ++ after ≡ []
single [] [] d e q = refl
single [] (x ∷ after) d e q = absurd (omega (arith, ap length q))
single (x ∷ before) after d e q =
    absurd (omega (arith, ap length q, length-append before (d ∷ after)))

not_empty : (before after : List ℕ) (d : ℕ) → [] ≡ before ++ d ∷ after → ⊥
not_empty before after d q = absurd (omega (arith, ap length q, length-append before (d ∷ after)))

-- No heartbeat is lost, and each one arrives before the next is sent.
module _ (interval delay t0 : ℕ) (quick : delay < interval) where
  -- The last heartbeat: there was none, it is on its way, or it has arrived.
  data Fresh (s : Presence) : Type 0 where
    none_yet : s.next_tick ≡ t0 + interval → s.in_flight ≡ [] → Fresh s
    on_its_way :
        (d : ℕ)
        → s.in_flight ≡ d ∷ []
        → d + interval ≡ s.next_tick + delay
        → (s.next_tick ≡ t0 + interval + interval)
          ⊎ ((s.next_tick ≤ s.last_seen + interval + interval) × (t0 + interval ≤ s.last_seen))
        → Fresh s
    arrived :
        s.in_flight ≡ []
        → s.next_tick ≤ s.last_seen + interval
        → t0 + interval ≤ s.last_seen
        → Fresh s

  record Tracked (s : Presence) : Type 0 where
    in_time : InTime interval delay false t0 s
    before_tick : s.watching ≡ true → s.now ≤ s.next_tick
    after_tick : s.watching ≡ true → s.next_tick ≤ s.now + interval
    fresh : s.watching ≡ true → Fresh s

  publish-Fresh :
      (s : Presence)
      → Tracked s
      → s.now ≡ s.next_tick
      → Fresh s
      → Fresh (record s {
        next_tick = s.now + interval;
        in_flight = s.in_flight ++ (s.now + delay) ∷ [];
      })
  publish-Fresh s v e (none_yet first empty) =
      on_its_way (s.now + delay) (ap (λ l. l ++ (s.now + delay) ∷ []) empty) (omega arith)
        (inl (omega arith))
  publish-Fresh s v e (on_its_way d one sent before) =
      let late = subst (All (λ d. s.now ≤ d)) one v.in_time.due in absurd (omega (arith, late.0))
  publish-Fresh s v e (arrived empty recent begun) =
      on_its_way (s.now + delay) (ap (λ l. l ++ (s.now + delay) ∷ []) empty) (omega arith)
        (inr (omega arith, begun))

  receive-Fresh :
      (s : Presence) (before after : List ℕ) (d : ℕ)
      → Tracked s
      → s.watching ≡ true
      → s.in_flight ≡ before ++ d ∷ after
      → Fresh s
      → Fresh (record s { in_flight = before ++ after; last_seen = heartbeat s.last_seen s.now })
  unfolding heartbeat
  receive-Fresh s before after d v w e (none_yet first empty) =
      absurd (not_empty before after d (sym empty ∙ e))
  receive-Fresh s before after d v w e (on_its_way d' one sent h) =
      arrived (single before after d d' (sym one ∙ e)) (v.after_tick w) (elim h [
        | inl first ↦ omega (arith, v.after_tick w)
        | inr later ↦ omega (arith, later.1, v.in_time.seen)
      ])
  receive-Fresh s before after d v w e (arrived empty recent begun) =
      absurd (not_empty before after d (sym empty ∙ e))

  PresenceStep-Tracked :
      (s t : Presence) → PresenceStep interval delay false s t → Tracked s → Tracked t
  PresenceStep-Tracked s _ (wait_until time later tick due) v = record {
    in_time =
        PresenceStep-InTime interval delay false t0 s _ (wait_until time later tick due) v.in_time;
    before_tick = tick;
    after_tick = λ w. omega (arith, v.after_tick w);
    fresh = λ w. moved (v.fresh w);
  }
    where
      moved : Fresh s → Fresh (record s { now = time })
      moved (none_yet first empty) = none_yet first empty
      moved (on_its_way d one sent h) = on_its_way d one sent h
      moved (arrived empty recent begun) = arrived empty recent begun
  PresenceStep-Tracked s _ (publish_ping w e) v = record {
    in_time = PresenceStep-InTime interval delay false t0 s _ (publish_ping w e) v.in_time;
    before_tick = λ x. omega arith;
    after_tick = λ x. omega arith;
    fresh = λ x. publish-Fresh s v e (v.fresh x);
  }
  PresenceStep-Tracked s _ (fail_ping loses w e) v = absurd (ground arith)
  PresenceStep-Tracked s _ (receive_ping before after d e) v = record {
    in_time =
        PresenceStep-InTime interval delay false t0 s _ (receive_ping before after d e) v.in_time;
    before_tick = v.before_tick;
    after_tick = v.after_tick;
    fresh = λ w. receive-Fresh s before after d v w e (v.fresh w);
  }
  PresenceStep-Tracked s _ (stop_watching w) v = record {
    in_time = PresenceStep-InTime interval delay false t0 s _ (stop_watching w) v.in_time;
    before_tick = λ x. absurd (ground arith);
    after_tick = λ x. absurd (ground arith);
    fresh = λ x. absurd (ground arith);
  }

  Watching-Tracked :
      (s : Presence) → Watching interval delay false (start_presence interval t0) s → Tracked s
  unfolding start_presence
  Watching-Tracked _ just_started = record {
    in_time = Watching-InTime interval delay false t0 _ just_started;
    before_tick = λ w. omega arith;
    after_tick = λ w. omega arith;
    fresh = λ w. none_yet refl refl;
  }
  Watching-Tracked s (and_step {t = t} more st) =
      PresenceStep-Tracked t s st (Watching-Tracked t more)

  -- If no heartbeat is lost, each takes less than the interval, and the timeout is longer than both
  -- together: from the time by which the first heartbeat has arrived the listener reports a subscriber,
  -- for as long as the publisher's context lives.
  pub Watching-is_active :
      (timeout : ℕ) (s : Presence)
      → interval + delay < timeout
      → Watching interval delay false (start_presence interval t0) s
      → s.watching ≡ true
      → t0 + interval + delay < s.now
      → is_active timeout s.last_seen s.now ≡ true
  unfolding is_active
  Watching-is_active timeout s long run w past = go (v.fresh w)
    where
      v : Tracked s
      v = Watching-Tracked s run

      go : Fresh s → is_active timeout s.last_seen s.now ≡ true
      go (none_yet first empty) = absurd (omega (arith, v.before_tick w))
      go (on_its_way d one sent h) =
          let due = subst (All (λ d. s.now ≤ d)) one v.in_time.due in
          elim h [
            | inl first ↦ absurd (omega (arith, due.0))
            | inr (recent, begun) ↦ ground (arith, due.0)
          ]
      go (arrived empty recent begun) = ground (arith, v.before_tick w)
