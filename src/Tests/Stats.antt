-- ===== src/Tests/Stats.antt =====
-- Two rows of the queue's depth.
use logarithm.Prelude.{ℕ, ◌+◌, refl, none, List, [], ◌∷◌, Result, ok, err}
use logarithm.Prelude.Int.{ℤ, pos}
use logarithm.Core.Time.{Time, zero_time}
use logarithm.Tests.Stream.{numbers}
use logarithm.Storage.Tables.{Tables, table}
use logarithm.Storage.Stats.{Driver, DepthRow, get_nats_queue_depth_metrics}
use logarithm.Storage.Stats.Scans.{Scanned, get_nats_queue_depth_metrics-Scanned}

abbrev depth : ℕ → DepthRow
depth n = record {
  timestamp = zero_time;
  num_pending = n;
  num_ack_pending = n + 1;
  num_redelivered = 0;
}

abbrev depths : List (Result DepthRow)
depths = ok (depth 3) ∷ ok (depth 5) ∷ []

abbrev driver : Driver numbers
driver = record {
  query_services = λ text. ok ([], none);
  query_depths = λ text args. ok (depths, none);
  select_metrics = λ text args. ok [];
  select_top_errors = λ text args. ok [];
  select_storage = λ text. ok [];
  scan_error_rate = λ text args. err "down";
  scan_log_rate = λ text args. err "down";
  exec = λ text args. none;
}

abbrev tables : Tables
tables = ("jetstream_consumer_metrics", "app.jetstream_consumer_metrics") ∷ []

abbrev millis : Time → ℤ
millis t = pos 0

get_nats_queue_depth_metrics-Scanned_example :
    Scanned numbers driver tables millis
      (record { timestamps = []; num_pending = []; num_ack_pending = []; num_redelivered = [] })
      depths
      none
      (get_nats_queue_depth_metrics numbers driver tables millis (pos 15))
get_nats_queue_depth_metrics-Scanned_example =
    get_nats_queue_depth_metrics-Scanned numbers driver tables millis
      "app.jetstream_consumer_metrics" (pos 15) depths none (unfold table in refl) refl
