-- ===== src/Transport/Consume/Settle.antt =====
-- What a flush tells the stream.
use logarithm.Prelude.{
  ℕ, ◌≡◌, refl, ap, ◌⊎◌, Bool, true, false, Option, none, some, List, [], ◌∷◌, map, arith, leb,
  if◌then◌else◌, All, String, Memᴰ, All-mem, inl, sym, ◌∙◌, subst,
}
use logarithm.Transport.Consume.{
  Msg, Answer, Settled, Handlers, ack, nak_with_delay, default_delay, settle_failed,
  settle_all_failed, flush, ack_all,
}
use logarithm.Core.Time.{Duration}
use logarithm.Transport.Message.{Message}

-- The answer to a message whose batch the handler refused.
abbrev pub failed_answer : (ℕ → Duration) → ℕ → Option ℕ → Answer
failed_answer delay max_deliver none = nak_with_delay default_delay
failed_answer delay max_deliver (some n) =
    if leb max_deliver n then ack else nak_with_delay (delay n)

abbrev pub failed_settled : (ℕ → Duration) → ℕ → List Msg → List Settled
failed_settled delay max_deliver =
    map λ m. record { msg = m; answer = failed_answer delay max_deliver m.num_delivered }

-- The messages that a refused batch moves to the DLQ, in order.
abbrev pub is_dead : ℕ → Option ℕ → Bool
is_dead max_deliver none = false
is_dead max_deliver (some n) = leb max_deliver n

-- The argument of the handler.
abbrev pub bodies : List Msg → List Message
bodies = map λ m. m.body

module _ {S : Type 0} (hs : Handlers S) (max_deliver : ℕ) where
  -- The DLQ callback, called on each message that has used up its deliveries, in order.
  abbrev pub bury : S → List Msg → S
  bury s [] = s
  bury s (m ∷ batch) =
      bury
        (if is_dead max_deliver m.num_delivered
          then (hs.dlq_handler s m.body.payload m.body.headers).0
          else s)
        batch

  settle_failed_lem :
      (s : S) (m : Msg)
      → settle_failed hs max_deliver s m ≡ (
        if is_dead max_deliver m.num_delivered
            then (hs.dlq_handler s m.body.payload m.body.headers).0
            else s,
        record { msg = m; answer = failed_answer hs.delay_handler max_deliver m.num_delivered },
      )
  unfolding settle_failed
  settle_failed_lem s m = ground arith

  settle_all_failed_lem :
      (s : S) (batch : List Msg)
      → settle_all_failed hs max_deliver s batch
        ≡ (bury s batch, failed_settled hs.delay_handler max_deliver batch)
  unfolding settle_all_failed
  settle_all_failed_lem s [] = refl
  settle_all_failed_lem s (m ∷ batch) =
      rw (settle_failed_lem s m, settle_all_failed_lem (after s m) batch)
    where
      after : S → Msg → S
      after s m =
          if is_dead max_deliver m.num_delivered
          then (hs.dlq_handler s m.body.payload m.body.headers).0
          else s

  -- A flush of a batch that is not empty: if the handler accepts it, every message is acknowledged;
  -- if not, each message that has used up its deliveries is handed to the DLQ callback and
  -- acknowledged, and every other one is refused with the delay for its number of deliveries, or
  -- with the default delay where that is not known.
  pub flush_lem :
      (s : S) (m : Msg) (batch : List Msg)
      → flush hs max_deliver s (m ∷ batch) ≡ (
          let (s', failure) = hs.log_handler s (bodies (m ∷ batch)) in
          elim failure [
            | none ↦ (s', ack_all (m ∷ batch))
            | some e ↦
                (bury s' (m ∷ batch), failed_settled hs.delay_handler max_deliver (m ∷ batch))
          ])
  unfolding flush
  flush_lem s m batch =
      ground (arith, settle_all_failed_lem (hs.log_handler s (bodies (m ∷ batch))).0 (m ∷ batch))

abbrev pub messages : List Settled → List Msg
messages = map λ d. d.msg

messages-ack_all : (batch : List Msg) → messages (ack_all batch) ≡ batch
messages-ack_all [] = refl
messages-ack_all (m ∷ batch) = ap (λ l. m ∷ l) (messages-ack_all batch)

messages-failed :
    (delay : ℕ → Duration) (n : ℕ) (batch : List Msg)
    → messages (failed_settled delay n batch) ≡ batch
messages-failed delay n [] = refl
messages-failed delay n (m ∷ batch) = ap (λ l. m ∷ l) (messages-failed delay n batch)

module _ {S : Type 0} (hs : Handlers S) (max_deliver : ℕ) where
  -- Whatever the callbacks return, a flush answers every message of the batch, once and in order.
  pub messages-flush :
      (s : S) (batch : List Msg) → messages (flush hs max_deliver s batch).1 ≡ batch
  unfolding flush
  messages-flush s [] = refl
  messages-flush s (m ∷ batch) = ground (
    arith,
    messages-failed hs.delay_handler max_deliver (m ∷ batch),
    messages-ack_all (m ∷ batch),
    settle_all_failed_lem hs max_deliver (hs.log_handler s (bodies (m ∷ batch))).0 (m ∷ batch),
  )

  -- The answer to a message of a batch on which the handler returned `failure`.
  abbrev answer_of : Option String → Option ℕ → Answer
  answer_of none n = ack
  answer_of (some e) n = failed_answer hs.delay_handler max_deliver n

  AnsweredBy : Option String → Settled → Type 0
  AnsweredBy failure d = d.answer ≡ answer_of failure d.msg.num_delivered

  ack_all-AnsweredBy : (batch : List Msg) → All (AnsweredBy none) (ack_all batch)
  unfolding AnsweredBy
  ack_all-AnsweredBy [] = tt
  ack_all-AnsweredBy (m ∷ batch) = (refl, ack_all-AnsweredBy batch)

  failed-AnsweredBy :
      (e : String) (batch : List Msg)
      → All (AnsweredBy (some e)) (failed_settled hs.delay_handler max_deliver batch)
  unfolding AnsweredBy
  failed-AnsweredBy e [] = tt
  failed-AnsweredBy e (m ∷ batch) = (refl, failed-AnsweredBy e batch)

  flush_refused :
      (s : S) (m : Msg) (batch : List Msg) (x : String)
      → (hs.log_handler s (bodies (m ∷ batch))).1 ≡ some x
      → (flush hs max_deliver s (m ∷ batch)).1
        ≡ failed_settled hs.delay_handler max_deliver (m ∷ batch)
  unfolding flush
  flush_refused s m batch x e =
      rw (e, flush)
        (ap (λ r. r.1)
          (settle_all_failed_lem hs max_deliver (hs.log_handler s (bodies (m ∷ batch))).0
            (m ∷ batch)))

  flush-AnsweredBy :
      (s : S) (m : Msg) (batch : List Msg) (failure : Option String)
      → (hs.log_handler s (bodies (m ∷ batch))).1 ≡ failure
      → All (AnsweredBy failure) (flush hs max_deliver s (m ∷ batch)).1
  flush-AnsweredBy s m batch none e = unfold flush in rw (e, flush) (ack_all-AnsweredBy (m ∷ batch))
  flush-AnsweredBy s m batch (some x) e =
      subst (All (AnsweredBy (some x))) (sym (flush_refused s m batch x e))
        (failed-AnsweredBy x (m ∷ batch))

  answer_of-ack :
      (failure : Option String) (n : Option ℕ)
      → answer_of failure n ≡ ack
      → (failure ≡ none) ⊎ (is_dead max_deliver n ≡ true)
  answer_of-ack none n e = inl refl
  answer_of-ack (some x) none e = cc
  answer_of-ack (some x) (some n) e = ground arith

  -- A message of a flushed batch is acknowledged only if the handler accepted the batch or the
  -- message has used up its deliveries.
  pub flush-ack_safe :
      (s : S) (batch : List Msg) (d : Settled)
      → Memᴰ d (flush hs max_deliver s batch).1
      → d.answer ≡ ack
      → ((hs.log_handler s (bodies batch)).1 ≡ none)
        ⊎ (is_dead max_deliver d.msg.num_delivered ≡ true)
  unfolding AnsweredBy flush
  flush-ack_safe s [] d h e = absurd (nothing s d h)
    where
      nothing : (s : S) (d : Settled) → Memᴰ d (flush hs max_deliver s []).1 → ⊥
      nothing s d h = elim h [ ]
  flush-ack_safe s (m ∷ batch) d h e =
      let failure = (hs.log_handler s (bodies (m ∷ batch))).1 in
      let rule = All-mem (AnsweredBy failure) _ (flush-AnsweredBy s m batch failure refl) h in
      answer_of-ack failure d.msg.num_delivered (sym rule ∙ e)
