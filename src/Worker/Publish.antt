-- ===== src/Worker/Publish.antt =====
-- backend/internal/worker/publish.go: the queue of the live tail. The workers are goroutines that take
-- jobs from the queue; the buffers of the `sync.Pool` are counted, and a job holds one.
pub mod Queue
pub mod Drain
use logarithm.Prelude.{
  ℕ, ◌+◌, ◌-◌, ◌<◌, ◌≤◌, ◌||◌, String, ◌≡◌, Bool, true, false, not, List, [], ◌∷◌, ◌++◌, ltb, ◌==◌,
  if◌then◌else◌, length, take, Result, ◌>>=◌, ok, err, Bytes,
}

pub record TailJob : Type 0 where
  pub subject : String
  pub payload : Bytes

-- `published` is the history of calls of `PublishLiveTail`, oldest first, whose errors are only logged;
-- `in_flight` are the jobs that a worker has taken and not yet published.
pub record LiveTailPublisher : Type 0 where
  pub jobs : List TailJob
  pub queue_size : ℕ
  pub workers : ℕ
  pub in_flight : List TailJob
  pub published : List TailJob
  pub buffers : ℕ
  pub created : ℕ
  pub closed : Bool

-- `WithWorkerCount` and `WithQueueSize`
unfoldable pub with_worker_count : ℕ → LiveTailPublisher → LiveTailPublisher
with_worker_count count p = record p { workers = count }

unfoldable pub with_queue_size : ℕ → LiveTailPublisher → LiveTailPublisher
with_queue_size size p = record p { jobs = []; queue_size = size }

abbrev pub apply_publisher_options :
    List (LiveTailPublisher → LiveTailPublisher) → LiveTailPublisher → LiveTailPublisher
apply_publisher_options [] p = p
apply_publisher_options (opt ∷ opts) p = apply_publisher_options opts (opt p)

unfoldable pub new_live_tail_publisher :
    List (LiveTailPublisher → LiveTailPublisher) → LiveTailPublisher
new_live_tail_publisher opts = apply_publisher_options opts (record {
  jobs = [];
  queue_size = 10_000;
  workers = 3;
  in_flight = [];
  published = [];
  buffers = 0;
  created = 0;
  closed = false;
})

-- `bufPool.Get`: a buffer of the pool, or a new one. A `sync.Pool` may make a new one though it has
-- some, which `fresh` tells.
unfoldable pub get_buf : Bool → LiveTailPublisher → LiveTailPublisher
get_buf fresh p =
    if fresh || p.buffers == 0
    then record p { created = p.created + 1 }
    else record p { buffers = p.buffers - 1 }

-- `bufPool.Put`. The pool may drop what it has at any time, which is a step of its own below.
unfoldable pub put_buf : LiveTailPublisher → LiveTailPublisher
put_buf p = record p { buffers = p.buffers + 1 }

-- `Enqueue` on a queue that is open, with what `MarshalMsg` returns.
unfoldable pub enqueue : Bool → String → Result Bytes → LiveTailPublisher → LiveTailPublisher × Bool
unfolding get_buf put_buf
enqueue fresh subject (err e) p = (put_buf (get_buf fresh p), false)
enqueue fresh subject (ok payload) p =
    let taken = get_buf fresh p in
    if ltb (length taken.jobs) taken.queue_size
    then (
      record taken { jobs = taken.jobs ++ record { subject = subject; payload = payload } ∷ [] },
      true,
    )
    else (put_buf taken, false)

-- What the callers, the workers and the pool of buffers do, in any order.
pub data PublishStep : LiveTailPublisher → List TailJob → LiveTailPublisher → Type 0 where
  accepts :
      (p : LiveTailPublisher) (fresh : Bool) (subject : String) (payload : Bytes)
      → p.closed ≡ false
      → (enqueue fresh subject (ok payload) p).1 ≡ true
      → PublishStep p
          (record { subject = subject; payload = payload } ∷ [])
          (enqueue fresh subject (ok payload) p).0
  refuses_job :
      (p : LiveTailPublisher) (fresh : Bool) (subject : String) (data_ : Result Bytes)
      → p.closed ≡ false
      → (enqueue fresh subject data_ p).1 ≡ false
      → PublishStep p [] (enqueue fresh subject data_ p).0
  takes :
      (p : LiveTailPublisher) (job : TailJob) (rest : List TailJob)
      → p.jobs ≡ job ∷ rest
      → length p.in_flight < p.workers
      → PublishStep p [] (record p { jobs = rest; in_flight = p.in_flight ++ job ∷ [] })
  publishes :
      (p : LiveTailPublisher) (before : List TailJob) (job : TailJob) (after : List TailJob)
      → p.in_flight ≡ before ++ job ∷ after
      → PublishStep p []
          (put_buf (record p { in_flight = before ++ after; published = p.published ++ job ∷ [] }))
  drops_buffers :
      (p : LiveTailPublisher) (kept : ℕ)
      → kept ≤ p.buffers
      → PublishStep p [] (record p { buffers = kept })
  closes :
      (p : LiveTailPublisher) → p.closed ≡ false → PublishStep p [] (record p { closed = true })

-- A publisher with so many workers and such a queue, from its start, with the jobs that `Enqueue` has
-- accepted, the latest first.
pub data Publishing (count size : ℕ) : List TailJob → LiveTailPublisher → Type 0 where
  opens :
      Publishing count size []
        (new_live_tail_publisher (with_worker_count count ∷ with_queue_size size ∷ []))
  then_step :
      {js new : List TailJob} {p q : LiveTailPublisher}
      → Publishing count size js p
      → PublishStep p new q
      → Publishing count size (new ++ js) q
