-- ===== src/Tests/Consume.antt =====
-- The consumer loop at concrete inputs: the handler fails on its second call, and the DLQ takes all.
use logarithm.Prelude.{
  ℕ, ◌+◌, ◌*◌, ◌≡◌, refl, Option, none, some, List, [], ◌∷◌, arith, ◌==◌, if◌then◌else◌,
}
use logarithm.Transport.Consume.{
  Msg, Handlers, Loop, Reach, receive, ack, nak_with_delay, flush, start, buffers, receives, here,
  next,
}
use logarithm.Transport.Consume.Settle.{flush_lem}
use logarithm.Transport.Consume.Conserve.{Inv, Reach-Inv}
use logarithm.Prelude.Int.{pos}

-- How often the two callbacks were called.
abbrev Calls : Type 0
Calls = ℕ × ℕ

abbrev handlers : Handlers Calls
handlers = record {
  log_handler = λ s ms. ((s.0 + 1, s.1), if s.0 == 1 then some "no worker" else none);
  dlq_handler = λ s payload headers. ((s.0, s.1 + 1), none);
  delay_handler = λ n. pos (n * 100);
}

abbrev msg : ℕ → Option ℕ → Msg
msg k n = record { seq = k; body = record { payload = k ∷ []; headers = [] }; num_delivered = n }

abbrev pair : List Msg
pair = msg 1 (some 5) ∷ msg 2 (some 2) ∷ []

flush_lem_example : flush handlers 5 (1, 0) pair ≡ (
  (2, 1),
  record { msg = msg 1 (some 5); answer = ack }
      ∷ record { msg = msg 2 (some 2); answer = nak_with_delay (pos 200) }
      ∷ [],
)
flush_lem_example = flush_lem handlers 5 (1, 0) (msg 1 (some 5)) (msg 2 (some 2) ∷ [])

abbrev first : Loop Calls
first = start handlers 5 2 10 (0, 0) 0

abbrev second : Loop Calls
second = record first { channel = msg 1 (some 1) ∷ [] }

third :
    Reach handlers 5 2 10
      (0, 0)
      0
      (msg 1 (some 1) ∷ [])
      (receive handlers 5 2 10 3 (msg 1 (some 1)) (record second { channel = [] }))
unfolding start
third =
    next (next here (buffers first (msg 1 (some 1)) (omega arith)))
      (receives second 3 (msg 1 (some 1)) [] refl refl)

Reach-Inv_example :
    Inv 2
      (msg 1 (some 1) ∷ [])
      (receive handlers 5 2 10 3 (msg 1 (some 1)) (record second { channel = [] }))
Reach-Inv_example = Reach-Inv handlers 5 2 10 (msg 1 (some 1) ∷ []) (omega arith) third
