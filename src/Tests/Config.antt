-- ===== src/Tests/Config.antt =====
-- The default settings.
use logarithm.Prelude.{◌≡◌, refl, ◌↔◌, none, some}
use logarithm.Prelude.Text.{show_ℤ}
use logarithm.Config.{validate, Settings, check}
use logarithm.Prelude.Int.{pos}
use logarithm.Config.Safe.{IsSafe, validate-IsSafe}

abbrev defaults : Settings
defaults = record {
  ingester_presize_buffer = pos 4096;
  ingester_buffer_limit = pos 20_480;
  live_tail_presence_interval = pos 1_000_000_000;
  db_batch_pool_size = pos 5;
  db_batch_pool_max_rows = pos 2000;
  nats_consumer_max_ack_pending = pos 1000;
  worker_max_batch = pos 10;
  worker_count = pos 1;
  worker_live_tail_count = pos 3;
  worker_live_tail_queue_size = pos 10_000;
  worker_rows_per_batch = pos 1000;
  worker_live_tail_presence_timeout = pos 1_000_000_000;
}

validate-IsSafe_example : (validate (λ d. "1s") defaults ≡ none) ↔ IsSafe defaults
validate-IsSafe_example = validate-IsSafe (λ d. "1s") defaults

-- Without a worker, the message names the number of live tail workers.
no_worker :
    validate (λ d. "1s") (record defaults { worker_count = pos 0 })
    ≡ some "WORKER_COUNT (3) must be a positive number. Recommended (1)"
unfolding validate check show_ℤ
no_worker = refl
