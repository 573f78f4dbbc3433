-- ===== src/Storage/Stats.antt =====
-- The statistics of backend/internal/storage/clickhouse.go: the texts of the queries and what is made of
-- their answers. The driver is an interface.
pub mod Scans
use logarithm.Prelude.{
  ℕ, ◌-◌, ◌*◌, ◌/◌, ◌%◌, ◌^◌, ◌<◌, String, Option, none, some, List, [], ◌∷◌, ◌++◌, leb,
  if◌then◌else◌, Result, ◌>>=◌, ok, err,
}
use logarithm.Prelude.Int.{ℤ, pos, negsuc}
use logarithm.Prelude.Text.{concat}
use logarithm.Core.Time.{Time, unix_nano}
use logarithm.Core.Metrics.{IngestionMetrics, IngestionGraphMetrics, new_ingestion_graph_metrics}
use logarithm.Core.Stats.{
  Floats, NatsQueueDepthGraphMetrics, NatsQueueDepthConsumerInfo, StorageStats,
  TopServiceErrorsStats, LogRateStatistics, ErrorRateMetrics,
}
use logarithm.Storage.Tables.{
  Tables, table, table_service_registry, table_metrics, table_metrics_1m,
  table_jetstream_consumer_metrics,
}

-- The rows of an answer, each with the outcome of its `Scan`, and the error of the iteration.
abbrev pub Rows : Type 0 → Type 0
Rows A = List (Result A) × Option String

pub record DepthRow : Type 0 where
  pub timestamp : Time
  pub num_pending : ℕ
  pub num_ack_pending : ℕ
  pub num_redelivered : ℕ

-- The arguments of a query: the named ones, and those of the marks.
pub data StatArg : Type 0 where
  named_time : String → Time → StatArg
  named_int : String → ℤ → StatArg
  mark_time : Time → StatArg
  mark_text : String → StatArg
  mark_count : ℕ → StatArg

-- What the connection answers to a text with its arguments, for each shape of row that is asked for.
pub record Driver (fl : Floats) : Type 0 where
  pub query_services : String → Result (Rows String)
  pub query_depths : String → List StatArg → Result (Rows DepthRow)
  pub select_metrics : String → List StatArg → Result (List IngestionMetrics)
  pub select_top_errors : String → List StatArg → Result (List (TopServiceErrorsStats fl))
  pub select_storage : String → Result (List (StorageStats fl))
  pub scan_error_rate : String → List StatArg → Result (ErrorRateMetrics fl)
  pub scan_log_rate : String → List StatArg → Result (LogRateStatistics fl)
  pub exec : String → List StatArg → Option String

-- An error with a text before it.
abbrev pub wrap {ℓ} : {A : Type ℓ} → String → Result A → Result A
wrap text (ok a) = ok a
wrap text (err e) = err (concat (text ∷ e ∷ []))

-- `for rows.Next() { ... }` and `rows.Err()`: the first row that cannot be scanned ends it.
abbrev pub scan_rows {ℓ} :
    {A : Type ℓ} → String → String → List (Result A) → Option String → Result (List A)
scan_rows scan_text rows_text [] none = ok []
scan_rows scan_text rows_text [] (some e) = err (concat (rows_text ∷ e ∷ []))
scan_rows scan_text rows_text (err e ∷ rows) failure = err (concat (scan_text ∷ e ∷ []))
scan_rows scan_text rows_text (ok a ∷ rows) failure =
    scan_rows scan_text rows_text rows failure >>= λ as_. ok (a ∷ as_)

-- The text of the query of `GetNatsQueueDepthMetrics`.
abbrev pub depths_query : String → String
depths_query tbl = concat (
    "\n\t\tSELECT Timestamp, NumPending, NumAckPending, NumRedelivered\n\t\tFROM " ∷ tbl
    ∷ "\n\t\tWHERE Timestamp >= now() - toIntervalMinute(@duration)\n\t\tORDER BY Timestamp ASC\n\t"
    ∷ [])

-- 60 * time.Second before a time in nanoseconds.
abbrev pub minute_before : ℕ → ℤ
minute_before n =
    if leb 60_000_000_000 n then pos (n - 60_000_000_000) else negsuc (60_000_000_000 - n - 1)

module _ (fl : Floats) (db : Driver fl) (tables : Tables) where
  unfoldable pub get_distinct_services : Result (List String)
  unfolding table
  get_distinct_services = do
    tbl ← wrap "failed to get table: " (table tables table_service_registry)
    (rows, failure) ←
        wrap "failed to execute query for distinct services: "
          (db.query_services (concat ("SELECT ServiceName FROM " ∷ tbl ∷ " FINAL" ∷ [])))
    scan_rows "failed to scan service name: " "error iterating over service rows: " rows failure

  -- At this time in nanoseconds since 1970; `none` is a panic of `NewIngestionGraphMetrics`.
  unfoldable pub get_ingestion_graph_metrics :
      (Time → ℤ) → ℕ → Result (Option IngestionGraphMetrics)
  unfolding table new_ingestion_graph_metrics
  get_ingestion_graph_metrics unix_milli now = do
    tbl ← wrap "failed to get table: " (table tables table_metrics)
    let end = now - now % 10 ^ 9
    let start = minute_before end
    rows ←
        db.select_metrics
          (concat (
            "SELECT Timestamp, ServiceName, sum(LogsCount) AS LogsCount FROM " ∷ tbl ∷ " "
            ∷ "WHERE Timestamp >= @start AND Timestamp < @end\n\t\t\t\t\tGROUP BY ServiceName, Timestamp\n\t\t\t\t\tORDER BY ServiceName, Timestamp ASC\n\t\t\t\t\tWITH FILL\n\t\t\t\t\t\tFROM @start\n    \t\t\t\t\tTO @end\n\t\t\t\t\t\tSTEP toIntervalSecond(1)"
            ∷ " " ∷ []))
          (named_time "start" (unix_nano start) ∷ named_time "end" (unix_nano (pos end)) ∷ [])
    ok (new_ingestion_graph_metrics unix_milli rows 60)

  unfoldable pub get_error_rate_metrics : Result (ErrorRateMetrics fl)
  unfolding table
  get_error_rate_metrics = do
    tbl ← wrap "failed to get table: " (table tables table_metrics)
    result ←
        db.scan_error_rate
          (concat (
            "\n\t\tSELECT\n\t\t\tsum(ErrorsCount) / nullIf(sum(LogsCount), 0) AS CurrentRate\n\t\tFROM "
            ∷ tbl ∷ "\n\t\tWHERE Timestamp >= now() - toIntervalMinute(@minute)\n\t" ∷ []))
          (named_int "minute" (pos 5) ∷ [])
    ok (record { current_rate = fl.times result.current_rate (fl.of_uint64 100) })

  unfoldable pub get_top_service_errors_stats : Result (List (TopServiceErrorsStats fl))
  unfolding table
  get_top_service_errors_stats = do
    tbl ← wrap "failed to get table: " (table tables table_metrics_1m)
    db.select_top_errors
        (concat (
          "\n        SELECT\n            ServiceName,\n            sum(ErrorsCount) AS TotalErrors,\n            round(sum(ErrorsCount) / sum(LogsCount) * 100, 2) AS ErrorRate\n        FROM "
          ∷ tbl
          ∷ "\n        WHERE Timestamp >= now() - toIntervalHour(@hour)\n        GROUP BY ServiceName\n        ORDER BY ErrorRate DESC\n        LIMIT 5\n    "
          ∷ []))
        (named_int "hour" (pos 1) ∷ [])

  unfoldable pub get_log_rate_statistics : ℕ → Result (LogRateStatistics fl)
  unfolding table
  get_log_rate_statistics now = do
    tbl ← wrap "failed to get table: " (table tables table_metrics)
    db.scan_log_rate
        (concat (
          "\n\t\tWITH\n\t\t\tcurrent AS (\n\t\t\t\tSELECT sum(LogsCount) / 5 AS rate\n\t\t\t\tFROM "
          ∷ tbl
          ∷ "\n\t\t\t\tWHERE Timestamp >= @now - INTERVAL 5 SECOND\n\t\t\t),\n\t\t\tbaseline AS (\n\t\t\t\tSELECT sum(LogsCount) / 60 AS rate\n\t\t\t\tFROM "
          ∷ tbl
          ∷ "\n\t\t\t\tWHERE Timestamp >= @now - INTERVAL 60 SECOND\n\t\t\t)\n\t\tSELECT\n\t\t\tcurrent.rate AS CurrentRate,\n\t\t\tbaseline.rate AS AvgRate,\n\t\t\tcurrent.rate / nullIf(baseline.rate, 0) AS Ratio\n\t\tFROM current, baseline\n\t"
          ∷ []))
        (named_time "now" (unix_nano (pos (now - now % 10 ^ 9))) ∷ [])

  unfoldable pub get_storage_stats : Result (List (StorageStats fl))
  get_storage_stats = wrap "failed to get storage stats: " (
      db.select_storage
        "\n        SELECT\n            name AS DiskName,\n            free_space AS FreeBytes,\n            total_space AS TotalBytes,\n            round((total_space - free_space) / total_space * 100, 2) AS UsedPercent\n        FROM system.disks\n    ")

  -- The loop appends to the four lists of the response.
  abbrev pub append_depth :
      (Time → ℤ) → DepthRow → NatsQueueDepthGraphMetrics → NatsQueueDepthGraphMetrics
  append_depth unix_milli r response = record {
    timestamps = response.timestamps ++ unix_milli r.timestamp ∷ [];
    num_pending = response.num_pending ++ r.num_pending ∷ [];
    num_ack_pending = response.num_ack_pending ++ r.num_ack_pending ∷ [];
    num_redelivered = response.num_redelivered ++ r.num_redelivered ∷ [];
  }

  unfoldable pub scan_depths :
      (Time → ℤ)
      → NatsQueueDepthGraphMetrics
      → List (Result DepthRow)
      → Option String
      → Result NatsQueueDepthGraphMetrics
  scan_depths unix_milli response [] none = ok response
  scan_depths unix_milli response [] (some e) = err (concat ("row iteration error: " ∷ e ∷ []))
  scan_depths unix_milli response (err e ∷ rows) failure =
      err (concat ("failed to scan row: " ∷ e ∷ []))
  scan_depths unix_milli response (ok r ∷ rows) failure =
      scan_depths unix_milli (append_depth unix_milli r response) rows failure

  unfoldable pub get_nats_queue_depth_metrics : (Time → ℤ) → ℤ → Result NatsQueueDepthGraphMetrics
  unfolding table scan_depths
  get_nats_queue_depth_metrics unix_milli minutes = do
    tbl ← wrap "failed to get table: " (table tables table_jetstream_consumer_metrics)
    (rows, failure) ←
        wrap "failed to query consumer info: "
          (db.query_depths (depths_query tbl) (named_int "duration" minutes ∷ []))
    scan_depths unix_milli
        (record { timestamps = []; num_pending = []; num_ack_pending = []; num_redelivered = [] })
        rows failure

  unfoldable pub save_consumer_info : ℕ → NatsQueueDepthConsumerInfo → Option String
  unfolding table
  save_consumer_info now info = elim (table tables table_jetstream_consumer_metrics) [
    | err e ↦ some (concat ("failed to get table: " ∷ e ∷ []))
    | ok tbl ↦
        db.exec
          (concat (
            "\n\t\tINSERT INTO " ∷ tbl
            ∷ " (\n\t\t\tTimestamp, ConsumerName, StreamName, \n\t\t\tNumAckPending, NumRedelivered, NumPending\n\t\t) VALUES (\n\t\t\t?, ?, ?, ?, ?, ?\n\t\t)\n\t"
            ∷ []))
          (mark_time (unix_nano (pos now))
            ∷ mark_text info.name
            ∷ mark_text info.stream
            ∷ mark_count info.num_ack_pending
            ∷ mark_count info.num_redelivered
            ∷ mark_count info.num_pending
            ∷ [])
  ]
