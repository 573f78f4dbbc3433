-- ===== src/Config.antt =====
-- backend/internal/config/config.go: the check of the configuration after it has been read. The fields
-- are those that the check reads; an environment variable is an `int`, a `time.Duration` or a size.
pub mod Format
pub mod Safe
use logarithm.Prelude.{
  ◌+◌, ◌-◌, ◌*◌, ◌%◌, ◌^◌, String, Bool, Option, none, some, List, [], ◌∷◌, if◌then◌else◌,
}
use logarithm.Core.Time.{Duration, to_int64}
use logarithm.Prelude.Int.{ℤ, pos, ltb_ℤ, leb_ℤ, negsuc}
use logarithm.Prelude.Text.{concat, show_ℤ}

pub record Settings : Type 0 where
  pub ingester_presize_buffer : ℤ
  pub ingester_buffer_limit : ℤ
  pub live_tail_presence_interval : Duration
  pub db_batch_pool_size : ℤ
  pub db_batch_pool_max_rows : ℤ
  pub nats_consumer_max_ack_pending : ℤ
  pub worker_max_batch : ℤ
  pub worker_count : ℤ
  pub worker_live_tail_count : ℤ
  pub worker_live_tail_queue_size : ℤ
  pub worker_rows_per_batch : ℤ
  pub worker_live_tail_presence_timeout : Duration

-- `n * 2` on an `int`, which wraps.
unfoldable pub double : ℤ → ℤ
unfolding to_int64
double (pos n) = to_int64 (2 * n % 2 ^ 64)
double (negsuc n) = to_int64 ((2 ^ 64 - 2 * (n + 1)) % 2 ^ 64)

abbrev is_positive : ℤ → Bool
is_positive n = ltb_ℤ (pos 0) n

-- One check: the error, unless the test holds or an earlier check has failed.
unfoldable pub check : Bool → List String → Option String → Option String
check passes text rest = if passes then rest else some (concat text)

-- `validate`, with `Duration.String` of Go's library. The message on the worker count shows the number
-- of live tail workers, as the code has it.
unfoldable pub validate : (Duration → String) → Settings → Option String
unfolding double
validate duration_string c =
    check (leb_ℤ (pos 0) c.ingester_presize_buffer)
      ("INGESTER_PRESIZE_BUFFER ("
        ∷ show_ℤ c.ingester_presize_buffer
        ∷ ") must be non negative"
        ∷ [])
      (check (leb_ℤ c.ingester_presize_buffer c.ingester_buffer_limit)
        ("INGESTER_BUFFER_LIMIT ("
          ∷ show_ℤ c.ingester_buffer_limit
          ∷ ") must be >= INGESTER_PRESIZE_BUFFER ("
          ∷ show_ℤ c.ingester_presize_buffer
          ∷ ") for efficient buffer reuse"
          ∷ [])
        (check (leb_ℤ c.worker_max_batch c.nats_consumer_max_ack_pending)
          ("NATS_CONSUMER_MAX_ACK_PENDING ("
            ∷ show_ℤ c.nats_consumer_max_ack_pending
            ∷ ") is dangerously low. To prevent deadlocks between nats and worker, set it to at least ("
            ∷ show_ℤ (double c.worker_max_batch)
            ∷ ")"
            ∷ [])
          (check (is_positive c.worker_count)
            ("WORKER_COUNT ("
              ∷ show_ℤ c.worker_live_tail_count
              ∷ ") must be a positive number. Recommended (1)"
              ∷ [])
            (check (is_positive c.worker_live_tail_count)
              ("WORKER_LIVE_TAIL_COUNT ("
                ∷ show_ℤ c.worker_live_tail_count
                ∷ ") must be a positive number for the live tail feature to work. Recommended (3)"
                ∷ [])
              (check (is_positive c.worker_live_tail_queue_size)
                ("WORKER_LIVE_TAIL_QUEUE_SIZE ("
                  ∷ show_ℤ c.worker_live_tail_queue_size
                  ∷ ") must be a positive number for the live tail feature to work. Recommended (10000)"
                  ∷ [])
                (check (is_positive c.worker_rows_per_batch)
                  ("WORKER_ROWS_PER_BATCH ("
                    ∷ show_ℤ c.worker_rows_per_batch
                    ∷ ") must be a positive number for effective buffer presizing. Recommended(2000)"
                    ∷ [])
                  (check (is_positive c.db_batch_pool_size)
                    ("DB_BATCH_POOL_SIZE ("
                      ∷ show_ℤ c.db_batch_pool_size
                      ∷ ") must be a positive number"
                      ∷ [])
                    (check (leb_ℤ c.worker_rows_per_batch c.db_batch_pool_max_rows)
                      ("DB_BATCH_POOL_MAX_ROWS ("
                        ∷ show_ℤ c.db_batch_pool_max_rows
                        ∷ ") must be larger than WORKER_ROWS_PER_BATCH ("
                        ∷ show_ℤ c.worker_rows_per_batch
                        ∷ ") for effective buffer reuse. Recommended ("
                        ∷ show_ℤ (double c.worker_rows_per_batch)
                        ∷ ")"
                        ∷ [])
                      (check (is_positive c.live_tail_presence_interval)
                        ("LIVE_TAIL_PRESENCE_INTERVAL ("
                          ∷ duration_string c.live_tail_presence_interval
                          ∷ ") must be positive."
                          ∷ [])
                        (check (is_positive c.worker_live_tail_presence_timeout)
                          ("WORKER_LIVE_TAIL_PRESENCE_TIMEOUT ("
                            ∷ duration_string c.worker_live_tail_presence_timeout
                            ∷ ") must be positive."
                            ∷ [])
                          none))))))))))
