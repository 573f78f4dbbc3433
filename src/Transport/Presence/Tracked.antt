-- ===== src/Transport/Presence/Tracked.antt =====
-- The worker sees no subscriber any more when the timeout has passed.
use logarithm.Prelude.{
  ℕ, ◌+◌, ◌≤◌, ◌≡◌, inl, inr, subst, Bool, false, arith, All, All-snoc, All-map, All-remove,
}
use logarithm.Transport.LiveTail.{heartbeat, is_active}
use logarithm.Transport.Presence.{
  Presence, start_presence, PresenceStep, wait_until, publish_ping, fail_ping, receive_ping,
  stop_watching, Watching, just_started, and_step,
}

module _ (interval delay : ℕ) (loses : Bool) (t0 : ℕ) where
  -- Nothing is late: what is on its way was sent by now, and before the context ended.
  pub record InTime (s : Presence) : Type 0 where
    pub due : All (λ d. s.now ≤ d) s.in_flight
    pub sent : All (λ d. d ≤ s.now + delay) s.in_flight
    pub seen : s.last_seen ≤ s.now
    pub sent_before : s.watching ≡ false → All (λ d. d ≤ s.stopped_at + delay) s.in_flight
    pub seen_before : s.watching ≡ false → s.last_seen ≤ s.stopped_at + delay

  pub PresenceStep-InTime :
      (s t : Presence) → PresenceStep interval delay loses s t → InTime s → InTime t
  unfolding heartbeat
  PresenceStep-InTime s _ (wait_until time later tick due) v = record {
    due = due;
    sent = All-map _ _ (λ d h. omega arith) s.in_flight v.sent;
    seen = omega (arith, v.seen);
    sent_before = v.sent_before;
    seen_before = v.seen_before;
  }
  PresenceStep-InTime s _ (publish_ping able e) v = record {
    due = All-snoc _ (omega arith) s.in_flight v.due;
    sent = All-snoc _ (omega arith) s.in_flight v.sent;
    seen = v.seen;
    sent_before = λ f. elim able [
      | inl watching ↦ absurd (ground (arith, watching, f))
      | inr tie ↦ All-snoc _ (omega arith) s.in_flight (v.sent_before f)
    ];
    seen_before = v.seen_before;
  }
  PresenceStep-InTime s _ (fail_ping l able e) v = record {
    due = v.due;
    sent = v.sent;
    seen = v.seen;
    sent_before = v.sent_before;
    seen_before = v.seen_before;
  }
  PresenceStep-InTime s _ (receive_ping before after d e) v =
      let due = All-remove (λ d. s.now ≤ d) before after (subst (All _) e v.due) in
      let sent = All-remove (λ d. d ≤ s.now + delay) before after (subst (All _) e v.sent) in
      record {
        due = due.1;
        sent = sent.1;
        seen = omega arith;
        sent_before = λ f.
            (All-remove (λ d. d ≤ s.stopped_at + delay) before after
              (subst (All _) e (v.sent_before f))).1;
        seen_before = λ f. omega (
          arith,
          due.0,
          (All-remove (λ d. d ≤ s.stopped_at + delay) before after
              (subst (All _) e (v.sent_before f))).0,
        );
      }
  PresenceStep-InTime s _ (stop_watching watching) v = record {
    due = v.due;
    sent = v.sent;
    seen = v.seen;
    sent_before = λ f. v.sent;
    seen_before = λ f. omega (arith, v.seen);
  }

  pub Watching-InTime :
      (s : Presence) → Watching interval delay loses (start_presence interval t0) s → InTime s
  unfolding start_presence
  Watching-InTime _ just_started = record {
    due = tt;
    sent = tt;
    seen = omega arith;
    sent_before = λ f. tt;
    seen_before = λ f. omega arith;
  }
  Watching-InTime s (and_step {t = t} more st) = PresenceStep-InTime t s st (Watching-InTime t more)

  -- Whatever the interval and whether heartbeats are lost: when the heartbeats' delay and the timeout
  -- have passed since the publisher's context ended, the listener reports nobody.
  pub Watching-is_active_ends :
      (timeout : ℕ) (s : Presence)
      → Watching interval delay loses (start_presence interval t0) s
      → s.watching ≡ false
      → s.stopped_at + delay + timeout ≤ s.now
      → is_active timeout s.last_seen s.now ≡ false
  unfolding is_active
  Watching-is_active_ends timeout s run ended past =
      let v = Watching-InTime s run in let h = v.seen_before ended in ground arith
