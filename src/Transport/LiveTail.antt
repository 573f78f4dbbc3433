-- ===== src/Transport/LiveTail.antt =====
-- `TailLiveLogs` and the presence check of backend/internal/transport/nats.go.
pub mod Newest
use logarithm.Prelude.{
  ℕ, ◌-◌, Bool, true, false, ◌||◌, Option, none, some, List, [], ◌∷◌, ◌++◌, ltb, ◌==◌,
  if◌then◌else◌, length, drop, Bytes,
}

-- The subscription and its channel of capacity `max_batch`, oldest message first.
pub record Tail : Type 0 where
  pub channel : List Bytes
  pub max_batch : ℕ
  pub subscribed : Bool
  pub closed : Bool
  pub done : Bool

-- A Go send may go through, wait for a receiver, or panic on a closed channel.
pub data Outcome : Type 0 where
  sent : Tail → Outcome
  blocked panicked : Outcome

unfoldable pub subscribe : ℕ → Tail
subscribe max_batch = record {
  channel = [];
  max_batch = max_batch;
  subscribed = true;
  closed = false;
  done = false;
}

-- `logCh <- data`
unfoldable pub send : Tail → Bytes → Outcome
send t item =
    if t.closed
    then panicked
    else if ltb (length t.channel) t.max_batch
    then sent (record t { channel = t.channel ++ item ∷ [] })
    else blocked

-- The subscription's callback. A full channel loses its oldest message to the new one; the case
-- `default` of the inner `select` is the empty channel, of which nothing is dropped.
unfoldable pub deliver : Tail → Bytes → Outcome
unfolding send
deliver t item =
    if t.done
    then sent t
    else if t.closed || ltb (length t.channel) t.max_batch
    then send t item
    else send (record t { channel = drop 1 t.channel }) item

-- The reader's side: `none` where it would wait.
unfoldable pub read : Tail → Option (Bytes × Tail)
read t = elim t.channel [ [] ↦ none | item ∷ rest ↦ some (item, record t { channel = rest }) ]

-- `once.Do`: the second call finds the channel closed and does nothing.
unfoldable pub cleanup : Tail → Tail
cleanup t = if t.closed then t else record t { subscribed = false; closed = true }

-- The context ends, and the goroutine that waits for it cleans up.
unfoldable pub cancel : Tail → Tail
unfolding cleanup
cancel t = let t' = record t { done = true } in if t'.subscribed then cleanup t' else t'

unfoldable pub deliver_all : Tail → List Bytes → Outcome
unfolding deliver
deliver_all t [] = sent t
deliver_all t (item ∷ items) = elim (deliver t item) [
  | sent t' ↦ deliver_all t' items
  | blocked ↦ blocked
  | panicked ↦ panicked
]

-- `StartPresenceListener`: the time of the last heartbeat, 0 before the first.
unfoldable pub heartbeat : ℕ → ℕ → ℕ
heartbeat last_seen now = now

unfoldable pub is_active : ℕ → ℕ → ℕ → Bool
is_active timeout last_seen now = if last_seen == 0 then false else ltb (now - last_seen) timeout
