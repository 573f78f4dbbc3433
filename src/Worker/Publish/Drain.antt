-- ===== src/Worker/Publish/Drain.antt =====
-- The workers of the live tail come to publish every job that was accepted.
use logarithm.Prelude.{
  ℕ, ◌<◌, String, ◌≡◌, refl, ap, ◌∙◌, Bool, List, [], ◌∷◌, ◌++◌, arith, length, Result, ok, err,
  Bytes,
}
use logarithm.Worker.Publish.{
  enqueue, TailJob, LiveTailPublisher, new_live_tail_publisher, put_buf, get_buf, PublishStep,
  with_worker_count, with_queue_size, accepts, Publishing, refuses_job, then_step, takes, publishes,
  drops_buffers, closes, opens,
}
use logarithm.Worker.Publish.Queue.{count_if, Publishing-IsSound}

enqueue-workers :
    (fresh : Bool) (subject : String) (answer : Result Bytes) (p : LiveTailPublisher)
    → (enqueue fresh subject answer p).0.workers ≡ p.workers
unfolding enqueue get_buf put_buf
enqueue-workers fresh subject (err e) p = ground arith
enqueue-workers fresh subject (ok payload) p = ground arith

PublishStep-workers :
    {p q : LiveTailPublisher} {new : List TailJob} → PublishStep p new q → q.workers ≡ p.workers
unfolding put_buf
PublishStep-workers (accepts p fresh subject payload o h) =
    enqueue-workers fresh subject (ok payload) p
PublishStep-workers (refuses_job p fresh subject answer o h) =
    enqueue-workers fresh subject answer p
PublishStep-workers (takes p job rest e idle) = refl
PublishStep-workers (publishes p before job after e) = refl
PublishStep-workers (drops_buffers p kept h) = refl
PublishStep-workers (closes p o) = refl

Publishing-workers :
    {count size : ℕ} {js : List TailJob} {p : LiveTailPublisher}
    → Publishing count size js p
    → p.workers ≡ count
unfolding new_live_tail_publisher with_worker_count with_queue_size
Publishing-workers opens = refl
Publishing-workers (then_step r st) = PublishStep-workers st ∙ Publishing-workers r

-- The steps of the workers alone, from one state to another.
pub data Working (p : LiveTailPublisher) : LiveTailPublisher → Type 0 where
  waits : Working p p
  took :
      (q : LiveTailPublisher) (job : TailJob) (rest : List TailJob)
      → Working p q
      → q.jobs ≡ job ∷ rest
      → length q.in_flight < q.workers
      → Working p (record q { jobs = rest; in_flight = q.in_flight ++ job ∷ [] })
  sent_on :
      (q : LiveTailPublisher) (before : List TailJob) (job : TailJob) (after : List TailJob)
      → Working p q
      → q.in_flight ≡ before ++ job ∷ after
      → Working p
          (put_buf (record q { in_flight = before ++ after; published = q.published ++ job ∷ [] }))

Working-Publishing :
    {count size : ℕ} {js : List TailJob} {p q : LiveTailPublisher}
    → Publishing count size js p
    → Working p q
    → Publishing count size js q
Working-Publishing r waits = r
Working-Publishing r (took q job rest w e idle) =
    then_step (Working-Publishing r w) (takes q job rest e idle)
Working-Publishing r (sent_on q before job after w e) =
    then_step (Working-Publishing r w) (publishes q before job after e)

-- A state that the workers come to, in which so many jobs wait and none is taken.
record Emptied (p : LiveTailPublisher) (waiting : List TailJob) : Type 0 where
  later : LiveTailPublisher
  steps : Working p later
  idle : later.in_flight ≡ []
  left : later.jobs ≡ waiting

send_taken :
    {p : LiveTailPublisher} (taken : List TailJob) (q : LiveTailPublisher)
    → Working p q
    → q.in_flight ≡ taken
    → Emptied p q.jobs
unfolding put_buf
send_taken [] q w e = record { later = q; steps = w; idle = e; left = refl }
send_taken (job ∷ taken) q w e = send_taken taken _ (sent_on q [] job taken w e) refl

send_waiting :
    {count size : ℕ} {js : List TailJob} {p : LiveTailPublisher} (waiting : List TailJob)
    → 0 < count
    → Publishing count size js p
    → Emptied p waiting
    → Emptied p []
send_waiting [] h r a = a
send_waiting (job ∷ waiting) h r a =
    let busy = ap length a.idle in
    let workers = Publishing-workers (Working-Publishing r a.steps) in
    send_waiting waiting h r (
      send_taken (job ∷ []) _ (took a.later job waiting a.steps a.left (omega arith))
        (ap (λ l. l ++ job ∷ []) a.idle))

-- With a worker at least, wherever a publisher has come to, there are steps of its workers alone after
-- which nothing waits or is taken, and every job accepted so far is published, as often as it was
-- accepted.
pub Publishing-drains :
    (count size : ℕ) (js : List TailJob) (p : LiveTailPublisher)
    → 0 < count
    → Publishing count size js p
    → (q : LiveTailPublisher) × Working p q
      × (q.jobs ≡ [])
      × (q.in_flight ≡ [])
      × ((test : TailJob → Bool) → count_if test q.published ≡ count_if test js)
Publishing-drains count size js p h r =
    let a = send_waiting p.jobs h r (send_taken p.in_flight p waits refl) in
    let sound = Publishing-IsSound js (Working-Publishing r a.steps) in
    (
      a.later,
      a.steps,
      a.left,
      a.idle,
      λ test.
          omega (arith, sound.jobs_kept test, ap (count_if test) a.left, ap (count_if test) a.idle),
    )
