-- ===== src/Worker/Publish/Queue.antt =====
-- No accepted job is lost, whatever the callers, the workers and the pool of buffers do.
use logarithm.Prelude.{
  ℕ, ◌+◌, ◌≤◌, String, ◌≡◌, ap, inl, inr, Bool, true, false, List, [], ◌∷◌, ◌++◌, arith, ◌||◌, ltb,
  ◌==◌, if◌then◌else◌, ltb→lt, Bool-cases, length, length-append, Result, ok, err, Bytes,
}
use logarithm.Worker.Publish.{
  enqueue, TailJob, LiveTailPublisher, new_live_tail_publisher, put_buf, get_buf, PublishStep,
  with_worker_count, with_queue_size, accepts, Publishing, refuses_job, then_step, takes, publishes,
  drops_buffers, closes, opens,
}

-- How many jobs of a list pass a test.
abbrev pub count_if : (TailJob → Bool) → List TailJob → ℕ
count_if test [] = 0
count_if test (j ∷ js) = (if test j then 1 else 0) + count_if test js

count_if-append :
    (test : TailJob → Bool) (xs ys : List TailJob)
    → count_if test (xs ++ ys) ≡ count_if test xs + count_if test ys
count_if-append test [] ys = omega arith
count_if-append test (x ∷ xs) ys = omega (arith, count_if-append test xs ys)

-- Every accepted job is waiting, taken or published, once; the buffers of the pool and those with jobs
-- that are not published yet are among those that were made, each with one of these only.
pub record IsSound (js : List TailJob) (p : LiveTailPublisher) : Type 0 where
  pub jobs_kept :
      (test : TailJob → Bool)
      → count_if test p.jobs + count_if test p.in_flight + count_if test p.published
        ≡ count_if test js
  pub buffers_made : p.buffers + length p.jobs + length p.in_flight ≤ p.created
  pub queue_small : length p.jobs ≤ p.queue_size
  pub busy : length p.in_flight ≤ p.workers

-- A publisher from whose pool a buffer has been taken that nothing holds yet.
record Holding (js : List TailJob) (p : LiveTailPublisher) : Type 0 where
  jobs_kept :
      (test : TailJob → Bool)
      → count_if test p.jobs + count_if test p.in_flight + count_if test p.published
        ≡ count_if test js
  buffers_made : 1 + p.buffers + length p.jobs + length p.in_flight ≤ p.created
  queue_small : length p.jobs ≤ p.queue_size
  busy : length p.in_flight ≤ p.workers

get_buf-Holding :
    (js : List TailJob) (fresh : Bool) (p : LiveTailPublisher)
    → IsSound js p
    → Holding js (get_buf fresh p)
unfolding get_buf
get_buf-Holding js fresh p v = elim (Bool-cases (fresh || p.buffers == 0)) [
  | inl none_left ↦ rw none_left (record {
    jobs_kept = v.jobs_kept;
    buffers_made = omega (arith, v.buffers_made);
    queue_small = v.queue_small;
    busy = v.busy;
  })
  | inr some_left ↦ rw some_left (record {
    jobs_kept = v.jobs_kept;
    buffers_made = ground (arith, v.buffers_made);
    queue_small = v.queue_small;
    busy = v.busy;
  })
]

put_buf-IsSound :
    (js : List TailJob) (p : LiveTailPublisher) → Holding js p → IsSound js (put_buf p)
unfolding put_buf
put_buf-IsSound js p v = record {
  jobs_kept = v.jobs_kept;
  buffers_made = omega (arith, v.buffers_made);
  queue_small = v.queue_small;
  busy = v.busy;
}

refused-IsSound :
    (js : List TailJob) (fresh : Bool) (p : LiveTailPublisher) (subject : String)
    (answer : Result Bytes)
    → (enqueue fresh subject answer p).1 ≡ false
    → IsSound js p
    → IsSound js (enqueue fresh subject answer p).0
unfolding enqueue
refused-IsSound js fresh p subject (err e) h v =
    put_buf-IsSound js (get_buf fresh p) (get_buf-Holding js fresh p v)
refused-IsSound js fresh p subject (ok payload) h v =
    elim (Bool-cases (ltb (length (get_buf fresh p).jobs) (get_buf fresh p).queue_size)) [
      | inl room ↦ absurd (ground arith)
      | inr full ↦ rw full (put_buf-IsSound js (get_buf fresh p) (get_buf-Holding js fresh p v))
    ]

accepted-IsSound :
    (js : List TailJob) (fresh : Bool) (p : LiveTailPublisher) (subject : String) (payload : Bytes)
    → (enqueue fresh subject (ok payload) p).1 ≡ true
    → IsSound js p
    → IsSound
        (record { subject = subject; payload = payload } ∷ js)
        (enqueue fresh subject (ok payload) p).0
unfolding enqueue
accepted-IsSound js fresh p subject payload h v =
    elim (Bool-cases (ltb (length (get_buf fresh p).jobs) (get_buf fresh p).queue_size)) [
      | inr full ↦ absurd (ground arith)
      | inl room ↦ rw room (record {
        jobs_kept = λ test. omega (
          arith,
          w.jobs_kept test,
          count_if-append test (get_buf fresh p).jobs
              (record { subject = subject; payload = payload } ∷ []),
        );
        buffers_made = omega (arith, w.buffers_made, grown);
        queue_small = omega (
          arith,
          grown,
          ltb→lt (length (get_buf fresh p).jobs) (get_buf fresh p).queue_size room,
        );
        busy = w.busy;
      })
    ]
  where
    w : Holding js (get_buf fresh p)
    w = get_buf-Holding js fresh p v

    grown :
        length ((get_buf fresh p).jobs ++ record { subject = subject; payload = payload } ∷ [])
        ≡ length (get_buf fresh p).jobs + 1
    grown =
        length-append (get_buf fresh p).jobs (record { subject = subject; payload = payload } ∷ [])

PublishStep-IsSound :
    {p q : LiveTailPublisher} {new : List TailJob} (js : List TailJob)
    → PublishStep p new q
    → IsSound js p
    → IsSound (new ++ js) q
PublishStep-IsSound js (accepts p fresh subject payload o h) v =
    accepted-IsSound js fresh p subject payload h v
PublishStep-IsSound js (refuses_job p fresh subject answer o h) v =
    refused-IsSound js fresh p subject answer h v
PublishStep-IsSound js (takes p job rest e idle) v = record {
  jobs_kept = λ test.
      omega (
        arith,
        v.jobs_kept test,
        ap (count_if test) e,
        count_if-append test p.in_flight (job ∷ []),
      );
  buffers_made = omega (arith, v.buffers_made, ap length e, length-append p.in_flight (job ∷ []));
  queue_small = omega (arith, v.queue_small, ap length e);
  busy = omega (arith, length-append p.in_flight (job ∷ []));
}
PublishStep-IsSound js (publishes p before job after e) v = put_buf-IsSound js _ (record {
  jobs_kept = λ test. omega (
    arith,
    v.jobs_kept test,
    ap (count_if test) e,
    count_if-append test before (job ∷ after),
    count_if-append test before after,
    count_if-append test p.published (job ∷ []),
  );
  buffers_made = omega (
    arith,
    v.buffers_made,
    ap length e,
    length-append before (job ∷ after),
    length-append before after,
  );
  queue_small = v.queue_small;
  busy =
      omega (
        arith,
        v.busy,
        ap length e,
        length-append before (job ∷ after),
        length-append before after,
      );
})
PublishStep-IsSound js (drops_buffers p kept h) v = record {
  jobs_kept = v.jobs_kept;
  buffers_made = omega (arith, v.buffers_made);
  queue_small = v.queue_small;
  busy = v.busy;
}
PublishStep-IsSound js (closes p o) v = record {
  jobs_kept = v.jobs_kept;
  buffers_made = v.buffers_made;
  queue_small = v.queue_small;
  busy = v.busy;
}

-- After any steps of the callers, the workers and the pool of buffers, each accepted job is waiting, taken
-- or published, as often in all as it was accepted; the buffers in the pool and one for each job that is
-- not published are no more than were made, even if the pool drops some; the queue is within its size,
-- and no more jobs are taken than there are workers.
pub Publishing-IsSound :
    {count size : ℕ} (js : List TailJob) {p : LiveTailPublisher}
    → Publishing count size js p
    → IsSound js p
unfolding new_live_tail_publisher with_worker_count with_queue_size
Publishing-IsSound js opens = record {
  jobs_kept = λ test. omega arith;
  buffers_made = omega arith;
  queue_small = omega arith;
  busy = omega arith;
}
Publishing-IsSound _ (then_step {js = js} r st) =
    PublishStep-IsSound js st (Publishing-IsSound js r)
