-- ===== src/Dashboard/Routes.antt =====
-- The routes of backend/internal/dashboard/routes.go that show statistics. What the store and the broker
-- answer at the time of a request is an interface, and so is `json.Marshal`.
use logarithm.Prelude.{
  ℕ, ◌+◌, ◌-◌, ◌%◌, ◌^◌, String, List, [], ◌∷◌, ◌++◌, leb, if◌then◌else◌, Result, ok, err, Bytes,
}
use logarithm.Prelude.Int.{ℤ, pos}
use logarithm.Prelude.Text.{string_bytes, concat}
use logarithm.Core.Stats.{
  Floats, StorageStats, Value, depth_value, dlq_value, card_value, health_value, error_rate_value,
  rates_value, graph_value, top_response, services_value, LogRateStatistics, ErrorRateMetrics,
  NatsQueueDepthGraphMetrics, TopServiceErrorsStats, NatsDlqMetrics,
}
use logarithm.Storage.Outlook.{StorageOutlook}
use logarithm.Core.Metrics.{IngestionGraphMetrics}

pub record Stats (fl : Floats) : Type 0 where
  pub get_distinct_services : Result (List String)
  pub get_ingestion_graph_metrics : Result IngestionGraphMetrics
  pub get_log_rate_statistics : Result (LogRateStatistics fl)
  pub get_error_rate_metrics : Result (ErrorRateMetrics fl)
  pub get_nats_queue_depth_metrics : ℤ → Result NatsQueueDepthGraphMetrics
  pub get_top_service_errors_stats : Result (List (TopServiceErrorsStats fl))
  pub get_storage_stats : Result (List (StorageStats fl))
  pub get_logs_storage_outlook : Result StorageOutlook
  pub get_dlq_stream_info : String → Result NatsDlqMetrics

pub record Response : Type 0 where
  pub status : ℕ
  pub content_type : String
  pub body : Bytes

-- `http.Error`
abbrev pub http_error : String → ℕ → Response
http_error message status = record {
  status = status;
  content_type = "text/plain; charset=utf-8";
  body = string_bytes message ++ 10 ∷ [];
}

abbrev pub dlq_stream_name : String
dlq_stream_name = "LOGS_DLQ"

module _ (fl : Floats) (marshal : Value fl → Result Bytes) where
  unfoldable pub write_json : ℕ → Value fl → Response
  write_json status v = elim (marshal v) [
    | err e ↦ http_error "Internal Server Error" 500
    | ok body ↦ record { status = status; content_type = "application/json"; body = body }
  ]

  -- A query's value, or the error 500.
  unfoldable pub show_result {ℓ} : {A : Type ℓ} → Result A → (A → Value fl) → Response
  show_result (err e) show = http_error "Internal Server Error" 500
  show_result (ok a) show = write_json 200 (show a)

  unfoldable pub handle_health : Response
  handle_health = write_json 200 (health_value "ok")

  unfoldable pub handle_distinct_services : Stats fl → Response
  unfolding show_result
  handle_distinct_services q = show_result q.get_distinct_services services_value

  unfoldable pub handle_log_rate_stats : Stats fl → Response
  unfolding show_result
  handle_log_rate_stats q = show_result q.get_log_rate_statistics rates_value

  unfoldable pub handle_error_rate_metrics : Stats fl → Response
  unfolding show_result
  handle_error_rate_metrics q = show_result q.get_error_rate_metrics error_rate_value

  unfoldable pub handle_ingestion_graph_metrics : Stats fl → Response
  unfolding show_result
  handle_ingestion_graph_metrics q = show_result q.get_ingestion_graph_metrics graph_value

  unfoldable pub handle_top_service_errors : Stats fl → Response
  unfolding show_result
  handle_top_service_errors q = show_result q.get_top_service_errors_stats top_response

  unfoldable pub handle_nats_dlq_info : Stats fl → Response
  unfolding show_result
  handle_nats_dlq_info q = show_result (q.get_dlq_stream_info dlq_stream_name) dlq_value

  unfoldable pub handle_nats_queue_depth_metrics : Stats fl → Response
  unfolding show_result
  handle_nats_queue_depth_metrics q =
      show_result (q.get_nats_queue_depth_metrics (pos 15)) depth_value

  -- The card from a disk and the outlook; subtraction on `uint64` wraps.
  unfoldable pub runway : ℕ → ℕ → ℕ → String × String
  runway free used projected =
      if leb projected used
      then ("Stable", "text.secondary")
      else (let growth_per_day = fl.over (fl.of_uint64 (projected - used)) (fl.of_uint64 30) in
          let days_remaining = fl.over (fl.of_uint64 free) growth_per_day in
          if fl.more_than days_remaining (fl.of_uint64 30)
          then (
            concat ("~" ∷ fl.print_whole days_remaining ∷ " days at current rate" ∷ []),
            "warning.main",
          )
          else (
            concat ("~" ∷ fl.print_whole days_remaining ∷ " days — action needed" ∷ []),
            "error.main",
          ))

  unfoldable pub handle_storage_info : Stats fl → Response
  unfolding runway
  handle_storage_info q = elim q.get_storage_stats [
    | err e ↦ http_error "Internal Server Error" 500
    | ok [] ↦ http_error "Internal Server Error" 500
    | ok (disk ∷ disks) ↦
        let used_bytes = (disk.total_bytes + 2 ^ 64 - disk.free_bytes) % 2 ^ 64 in
        let used_percent =
          fl.times (fl.over (fl.of_uint64 used_bytes) (fl.of_uint64 disk.total_bytes))
            (fl.of_uint64 100) in
        elim q.get_logs_storage_outlook [
          | err e ↦ http_error "Internal Server Error" 500
          | ok outlook ↦
              let (delta, colour) =
                runway disk.free_bytes used_bytes outlook.projected_steady_state_bytes in
              write_json 200 (
                card_value (record {
                  value = fl.print_whole used_percent;
                  unit = "%";
                  delta = delta;
                  delta_colour = colour;
                }))
        ]
  ]
