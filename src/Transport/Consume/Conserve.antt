-- ===== src/Transport/Consume/Conserve.antt =====
-- No message is lost or answered twice by the loop, whatever the order of its events.
use logarithm.Prelude.{
  ℕ, ◌+◌, ◌*◌, ◌≤◌, ◌<◌, ◌≡◌, refl, ap, ◌⊎◌, inl, inr, true, List, [], ◌∷◌, ◌++◌, arith, leb, ◌==◌,
  if◌then◌else◌, Bool-cases, length, length-append,
}
use logarithm.Transport.Consume.{
  buffers, refuses, cancels, times_out, receives, stops, here, next, Msg, Settled, Handlers, Loop,
  Step, Reach, flush, flush_loop, receive, start,
}
use logarithm.Transport.Consume.Settle.{messages, messages-flush}

-- How often the delivery `k` stands in a list.
abbrev pub count : ℕ → List Msg → ℕ
count k [] = 0
count k (m ∷ ms) = (if m.seq == k then 1 else 0) + count k ms

count-append : (k : ℕ) (xs ys : List Msg) → count k (xs ++ ys) ≡ count k xs + count k ys
count-append k [] ys = omega arith
count-append k (x ∷ xs) ys = omega (arith, count-append k xs ys)

messages-append : (xs ys : List Settled) → messages (xs ++ ys) ≡ messages xs ++ messages ys
messages-append [] ys = refl
messages-append (x ∷ xs) ys = ap (λ l. x.msg ∷ l) (messages-append xs ys)

-- Where the messages that the stream delivered are: in the channel, in the batch, or answered.
pub record Inv {S : Type 0} (max_batch : ℕ) (ms : List Msg) (l : Loop S) : Type 0 where
  pub conserved :
      (k : ℕ) → count k l.channel + count k l.batch + count k (messages l.settled) ≡ count k ms
  pub batch_small : length l.batch < max_batch
  pub channel_small : length l.channel ≤ 2 * max_batch
  pub stopped_empty : (l.running ≡ true) ⊎ (l.batch ≡ [])

module _ {S : Type 0} (hs : Handlers S) (max_deliver max_batch max_wait : ℕ) where
  count-flush :
      (k : ℕ) (s : S) (batch : List Msg) (old : List Settled)
      → count k (messages ((flush hs max_deliver s batch).1 ++ old))
        ≡ count k batch + count k (messages old)
  count-flush k s batch old =
      rw
        (
          messages-append (flush hs max_deliver s batch).1 old,
          messages-flush hs max_deliver s batch,
        )
        (count-append k batch (messages old))

  -- The invariant but for the size of the batch, which `receive` may let grow to the limit.
  flush_loop-Inv :
      (now : ℕ) (ms : List Msg) (l : Loop S)
      → 0 < max_batch
      → ((k : ℕ) → count k l.channel + count k l.batch + count k (messages l.settled) ≡ count k ms)
      → length l.channel ≤ 2 * max_batch
      → Inv max_batch ms (flush_loop hs max_deliver max_batch max_wait now l)
  unfolding flush_loop
  flush_loop-Inv now ms l h c s = record {
    conserved = λ k. omega (arith, c k, count-flush k l.shared l.batch l.settled);
    batch_small = h;
    channel_small = s;
    stopped_empty = inr refl;
  }

  batch-flush_loop :
      (now : ℕ) (l : Loop S) → (flush_loop hs max_deliver max_batch max_wait now l).batch ≡ []
  unfolding flush_loop
  batch-flush_loop now l = refl

  receive-Inv :
      (now : ℕ) (m : Msg) (rest ms : List Msg) (l : Loop S)
      → 0 < max_batch
      → l.running ≡ true
      → l.channel ≡ m ∷ rest
      → Inv max_batch ms l
      → Inv max_batch ms
          (receive hs max_deliver max_batch max_wait now m (record l { channel = rest }))
  unfolding receive
  receive-Inv now m rest ms l h r e v =
      elim (Bool-cases (leb max_batch (length (l.batch ++ m ∷ [])))) [
        | inl full ↦ rw full (flush_loop-Inv now ms grown h moved small)
        | inr room ↦ rw room (record {
          conserved = moved;
          batch_small = ground arith;
          channel_small = small;
          stopped_empty = inl r;
        })
      ]
    where
      grown : Loop S
      grown = record l { channel = rest; batch = l.batch ++ m ∷ [] }

      moved :
          (k : ℕ)
          → count k rest + count k (l.batch ++ m ∷ []) + count k (messages l.settled) ≡ count k ms
      moved k = omega (arith, v.conserved k, ap (count k) e, count-append k l.batch (m ∷ []))

      small : length rest ≤ 2 * max_batch
      small = omega (arith, v.channel_small, ap length e)

  Step-Inv :
      {l l' : Loop S} {new : List Msg} (ms : List Msg)
      → 0 < max_batch
      → Step hs max_deliver max_batch max_wait l new l'
      → Inv max_batch ms l
      → Inv max_batch (new ++ ms) l'
  Step-Inv ms h (buffers l m room) v = record {
    conserved = λ k. omega (arith, v.conserved k, count-append k l.channel (m ∷ []));
    batch_small = v.batch_small;
    channel_small = omega (arith, length-append l.channel (m ∷ []));
    stopped_empty = v.stopped_empty;
  }
  Step-Inv ms h (refuses l m c) v = record {
    conserved = λ k. omega (arith, v.conserved k);
    batch_small = v.batch_small;
    channel_small = v.channel_small;
    stopped_empty = v.stopped_empty;
  }
  Step-Inv ms h (cancels l) v = record {
    conserved = v.conserved;
    batch_small = v.batch_small;
    channel_small = v.channel_small;
    stopped_empty = v.stopped_empty;
  }
  Step-Inv ms h (times_out l now r d) v = flush_loop-Inv now ms l h v.conserved v.channel_small
  Step-Inv ms h (receives l now m rest r e) v = receive-Inv now m rest ms l h r e v
  Step-Inv ms h (stops l now r c) v =
      let w = flush_loop-Inv now ms l h v.conserved v.channel_small in
      record {
        conserved = w.conserved;
        batch_small = w.batch_small;
        channel_small = w.channel_small;
        stopped_empty = inr (batch-flush_loop now l);
      }

  -- With a positive batch size, after any steps of the loop: each message that the stream delivered
  -- stands in the channel, in the batch or among the answered ones, as often in all as it was
  -- delivered; the batch is below its limit, the channel within its capacity, and a loop that has
  -- stopped holds no batch.
  pub Reach-Inv :
      {s : S} {now : ℕ} (ms : List Msg) {l : Loop S}
      → 0 < max_batch
      → Reach hs max_deliver max_batch max_wait s now ms l
      → Inv max_batch ms l
  unfolding start
  Reach-Inv ms h here = record {
    conserved = λ k. omega arith;
    batch_small = h;
    channel_small = omega arith;
    stopped_empty = inl refl;
  }
  Reach-Inv _ h (next {ms = ms} r st) = Step-Inv ms h st (Reach-Inv ms h r)
