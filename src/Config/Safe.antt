-- ===== src/Config/Safe.antt =====
-- Which settings the check accepts.
use logarithm.Prelude.{
  ◌+◌, String, ◌≡◌, refl, ◌↔◌, Bool, true, false, Option, none, List, arith, leb→le,
}
use logarithm.Config.{validate, check, Settings}
use logarithm.Prelude.Int.{ℤ, ◌≤ℤ◌, pos, ltb_ℤ, leb_ℤ, pos_part, neg_part}
use logarithm.Core.Time.{Duration}

-- What the other parts rely on.
pub record IsSafe (c : Settings) : Type 0 where
  pub presize : pos 0 ≤ℤ c.ingester_presize_buffer
  pub limit : c.ingester_presize_buffer ≤ℤ c.ingester_buffer_limit
  pub pending : c.worker_max_batch ≤ℤ c.nats_consumer_max_ack_pending
  pub workers : pos 1 ≤ℤ c.worker_count
  pub watchers : pos 1 ≤ℤ c.worker_live_tail_count
  pub queue : pos 1 ≤ℤ c.worker_live_tail_queue_size
  pub estimate : pos 1 ≤ℤ c.worker_rows_per_batch
  pub pool : pos 1 ≤ℤ c.db_batch_pool_size
  pub reuse : c.worker_rows_per_batch ≤ℤ c.db_batch_pool_max_rows
  pub interval : pos 1 ≤ℤ c.live_tail_presence_interval
  pub timeout : pos 1 ≤ℤ c.worker_live_tail_presence_timeout

at_most : (a b : ℤ) → leb_ℤ a b ≡ true → a ≤ℤ b
at_most a b h = leb→le (pos_part a + neg_part b) (pos_part b + neg_part a) h

at_most_test : (a b : ℤ) → a ≤ℤ b → leb_ℤ a b ≡ true
at_most_test a b h = ground arith

positive : (a : ℤ) → ltb_ℤ (pos 0) a ≡ true → pos 1 ≤ℤ a
positive a h = ground arith

positive_test : (a : ℤ) → pos 1 ≤ℤ a → ltb_ℤ (pos 0) a ≡ true
positive_test a h = ground arith

check-none :
    (passes : Bool) (text : List String) (rest : Option String)
    → check passes text rest ≡ none
    → (passes ≡ true) × (rest ≡ none)
unfolding check
check-none true text rest h = (refl, h)
check-none false text rest h = absurd (cc)

check_passed :
    (passes : Bool) (text : List String) (rest : Option String)
    → passes ≡ true
    → rest ≡ none
    → check passes text rest ≡ none
unfolding check
check_passed true text rest h r = r
check_passed false text rest h r = absurd (cc)

accepted-IsSafe :
    (duration_string : Duration → String) (c : Settings)
    → validate duration_string c ≡ none
    → IsSafe c
unfolding validate
accepted-IsSafe duration_string c h =
    let a = check-none _ _ _ h in
    let b = check-none _ _ _ a.1 in
    let d = check-none _ _ _ b.1 in
    let e = check-none _ _ _ d.1 in
    let f = check-none _ _ _ e.1 in
    let g = check-none _ _ _ f.1 in
    let i = check-none _ _ _ g.1 in
    let j = check-none _ _ _ i.1 in
    let k = check-none _ _ _ j.1 in
    let l = check-none _ _ _ k.1 in
    let m = check-none _ _ _ l.1 in
    record {
      presize = at_most (pos 0) c.ingester_presize_buffer a.0;
      limit = at_most c.ingester_presize_buffer c.ingester_buffer_limit b.0;
      pending = at_most c.worker_max_batch c.nats_consumer_max_ack_pending d.0;
      workers = positive c.worker_count e.0;
      watchers = positive c.worker_live_tail_count f.0;
      queue = positive c.worker_live_tail_queue_size g.0;
      estimate = positive c.worker_rows_per_batch i.0;
      pool = positive c.db_batch_pool_size j.0;
      reuse = at_most c.worker_rows_per_batch c.db_batch_pool_max_rows k.0;
      interval = positive c.live_tail_presence_interval l.0;
      timeout = positive c.worker_live_tail_presence_timeout m.0;
    }

IsSafe-accepted :
    (duration_string : Duration → String) (c : Settings)
    → IsSafe c
    → validate duration_string c ≡ none
unfolding validate
IsSafe-accepted duration_string c s =
    check_passed _ _ _ (at_most_test (pos 0) c.ingester_presize_buffer s.presize) (
      check_passed _ _ _ (at_most_test c.ingester_presize_buffer c.ingester_buffer_limit s.limit) (
        check_passed _ _ _
          (at_most_test c.worker_max_batch c.nats_consumer_max_ack_pending s.pending)
          (check_passed _ _ _ (positive_test c.worker_count s.workers) (
            check_passed _ _ _ (positive_test c.worker_live_tail_count s.watchers) (
              check_passed _ _ _ (positive_test c.worker_live_tail_queue_size s.queue) (
                check_passed _ _ _ (positive_test c.worker_rows_per_batch s.estimate) (
                  check_passed _ _ _ (positive_test c.db_batch_pool_size s.pool) (
                    check_passed _ _ _
                      (at_most_test c.worker_rows_per_batch c.db_batch_pool_max_rows s.reuse)
                      (check_passed _ _ _ (positive_test c.live_tail_presence_interval s.interval) (
                        check_passed _ _ _
                          (positive_test c.worker_live_tail_presence_timeout s.timeout)
                          refl))))))))))

-- The settings are accepted exactly if they are safe.
pub validate-IsSafe :
    (duration_string : Duration → String) (c : Settings)
    → (validate duration_string c ≡ none) ↔ IsSafe c
validate-IsSafe duration_string c =
    (accepted-IsSafe duration_string c, IsSafe-accepted duration_string c)
