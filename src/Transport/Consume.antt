-- ===== src/Transport/Consume.antt =====
-- `ConsumeLogs` of backend/internal/transport/nats.go: messages go from the stream through a
-- buffered channel into a batch, and a batch goes to the handler and is settled with the stream.
pub mod Settle
pub mod Conserve
pub mod Accepted
use logarithm.Prelude.{
  ℕ, ◌+◌, ◌*◌, ◌≤◌, ◌<◌, String, ◌≡◌, Bool, true, false, Option, none, some, List, [], ◌∷◌, ◌++◌,
  map, leb, if◌then◌else◌, length, Bytes,
}
use logarithm.Prelude.Int.{ℤ, pos}
use logarithm.Core.Time.{Duration}
use logarithm.Transport.Message.{Message, Headers}

-- A `jetstream.Msg`: `seq` tells the deliveries apart, and `num_delivered` is what `Metadata`
-- returns, or `none` where it fails.
pub record Msg : Type 0 where
  pub seq : ℕ
  pub body : Message
  pub num_delivered : Option ℕ

-- What the stream is told about a message.
pub data Answer : Type 0 where
  ack nak : Answer
  nak_with_delay : Duration → Answer

pub record Settled : Type 0 where
  pub msg : Msg
  pub answer : Answer

-- 30 * time.Second
abbrev pub default_delay : Duration
default_delay = pos 30_000_000_000

-- The callbacks. `S` is the state that they share: the store, the publisher, the DLQ stream.
pub record Handlers (S : Type 0) : Type 0 where
  pub log_handler : S → List Message → S × Option String
  pub dlq_handler : S → Bytes → Headers → S × Option String
  pub delay_handler : ℕ → Duration

abbrev pub ack_all : List Msg → List Settled
ack_all = map λ m. record { msg = m; answer = ack }

module _ {S : Type 0} (hs : Handlers S) (max_deliver : ℕ) where
  -- One round of the loop over a batch that the handler refused. A message that cannot be moved to
  -- the DLQ is acknowledged all the same.
  unfoldable pub settle_failed : S → Msg → S × Settled
  settle_failed s m = elim m.num_delivered [
    | none ↦ (s, record { msg = m; answer = nak_with_delay default_delay })
    | some n ↦
        if leb max_deliver n
        then ((hs.dlq_handler s m.body.payload m.body.headers).0, record { msg = m; answer = ack })
        else (s, record { msg = m; answer = nak_with_delay (hs.delay_handler n) })
  ]

  unfoldable pub settle_all_failed : S → List Msg → S × List Settled
  unfolding settle_failed
  settle_all_failed s [] = (s, [])
  settle_all_failed s (m ∷ batch) =
      let (s', done) = settle_failed s m in
      let (s'', rest) = settle_all_failed s' batch in (s'', done ∷ rest)

  -- `flush`, less its timer: what the callbacks and the stream see.
  unfoldable pub flush : S → List Msg → S × List Settled
  unfolding settle_all_failed
  flush s [] = (s, [])
  flush s (m ∷ batch) =
      let (s', failure) = hs.log_handler s (map (λ k. k.body) (m ∷ batch)) in
      elim failure [ none ↦ (s', ack_all (m ∷ batch)) | some e ↦ settle_all_failed s' (m ∷ batch) ]

-- The state between two rounds of the loop; `deadline` is when the timer fires next, and `settled`
-- is the history of answers, the latest first batch by batch.
pub record Loop (S : Type 0) : Type 0 where
  pub shared : S
  pub channel : List Msg
  pub batch : List Msg
  pub settled : List Settled
  pub deadline : ℕ
  pub cancelled : Bool
  pub running : Bool

module _ {S : Type 0} (hs : Handlers S) (max_deliver max_batch max_wait : ℕ) where
  unfoldable pub start : S → ℕ → Loop S
  start s now = record {
    shared = s;
    channel = [];
    batch = [];
    settled = [];
    deadline = now + max_wait;
    cancelled = false;
    running = true;
  }

  -- `flush()` at time `now`: it clears the batch and restarts the timer on every path.
  unfoldable pub flush_loop : ℕ → Loop S → Loop S
  unfolding flush
  flush_loop now l =
      let (s, answers) = flush hs max_deliver l.shared l.batch in
      record l { shared = s; batch = []; settled = answers ++ l.settled; deadline = now + max_wait }

  -- `case msg := <-msgCh`, with the message already taken from the channel.
  unfoldable pub receive : ℕ → Msg → Loop S → Loop S
  unfolding flush_loop
  receive now m l =
      let l' = record l { batch = l.batch ++ m ∷ [] } in
      if leb max_batch (length l'.batch) then flush_loop now l' else l'

  -- The subscription's callback and the three cases of the loop. Where several cases of a `select`
  -- are ready, Go takes any of them, and so may a derivation. The subscription is drained when the loop
  -- has returned, so that its callback may still run then.
  pub data Step : Loop S → List Msg → Loop S → Type 0 where
    buffers :
        (l : Loop S) (m : Msg)
        → length l.channel < 2 * max_batch
        → Step l (m ∷ []) (record l { channel = l.channel ++ m ∷ [] })
    refuses :
        (l : Loop S) (m : Msg)
        → l.cancelled ≡ true
        → Step l (m ∷ []) (record l { settled = record { msg = m; answer = nak } ∷ l.settled })
    cancels : (l : Loop S) → Step l [] (record l { cancelled = true })
    times_out :
        (l : Loop S) (now : ℕ) → l.running ≡ true → l.deadline ≤ now → Step l [] (flush_loop now l)
    receives :
        (l : Loop S) (now : ℕ) (m : Msg) (rest : List Msg)
        → l.running ≡ true
        → l.channel ≡ m ∷ rest
        → Step l [] (receive now m (record l { channel = rest }))
    stops :
        (l : Loop S) (now : ℕ)
        → l.running ≡ true
        → l.cancelled ≡ true
        → Step l [] (record (flush_loop now l) { running = false })

  -- The loop from its start, with the messages that the stream has delivered so far.
  pub data Reach (s : S) (now : ℕ) : List Msg → Loop S → Type 0 where
    here : Reach s now [] (start s now)
    next :
        {ms new : List Msg} {l l' : Loop S}
        → Reach s now ms l
        → Step l new l'
        → Reach s now (new ++ ms) l'
