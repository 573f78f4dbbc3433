-- ===== src/Tests/Publish.antt =====
-- A queue of one job: the second message is refused.
use logarithm.Prelude.{◌≡◌, refl, Bool, true, [], ◌∷◌, arith, ok}
use logarithm.Worker.Publish.Queue.{IsSound, Publishing-IsSound, count_if}
use logarithm.Worker.Publish.{
  opens, enqueue, LiveTailPublisher, TailJob, get_buf, new_live_tail_publisher, with_worker_count,
  put_buf, with_queue_size, Publishing, then_step, opens, accepts, refuses_job,
}
use logarithm.Worker.Publish.Drain.{Working, Publishing-drains}

abbrev fresh_publisher : LiveTailPublisher
fresh_publisher = new_live_tail_publisher (with_worker_count 1 ∷ with_queue_size 1 ∷ [])

abbrev tail_job : TailJob
tail_job = record { subject = "tail.billing"; payload = 1 ∷ [] }

abbrev after_one : LiveTailPublisher
after_one = (enqueue true "tail.billing" (ok (1 ∷ [])) fresh_publisher).0

abbrev after_two : LiveTailPublisher
after_two = (enqueue true "tail.search" (ok (2 ∷ [])) after_one).0

two_calls : Publishing 1 1 (tail_job ∷ []) after_two
unfolding enqueue get_buf put_buf new_live_tail_publisher with_worker_count with_queue_size
two_calls =
    then_step (then_step opens (accepts fresh_publisher true "tail.billing" (1 ∷ []) refl refl))
      (refuses_job after_one true "tail.search" (ok (2 ∷ [])) refl refl)

Publishing-IsSound_example : IsSound (tail_job ∷ []) after_two
Publishing-IsSound_example = Publishing-IsSound (tail_job ∷ []) two_calls

Publishing-drains_example :
    (q : LiveTailPublisher) × Working after_two q
    × (q.jobs ≡ [])
    × (q.in_flight ≡ [])
    × ((test : TailJob → Bool) → count_if test q.published ≡ count_if test (tail_job ∷ []))
Publishing-drains_example = Publishing-drains 1 1 (tail_job ∷ []) after_two (omega arith) two_calls
