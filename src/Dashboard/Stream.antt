-- ===== src/Dashboard/Stream.antt =====
-- backend/internal/dashboard/sse.go: the event stream of the dashboard. At the ticks of five tickers it
-- writes what the store and the broker then answer; an error ends it.
pub mod Reader
pub mod Framing
pub mod Same
use logarithm.Prelude.{
  ℕ, ◌+◌, ◌-◌, ◌%◌, ◌^◌, String, Bool, true, false, not, Option, none, some, List, [], ◌∷◌, ◌++◌,
  if◌then◌else◌, leb, take, length, Result, ok, err, Bytes,
}
use logarithm.Prelude.Int.{pos}
use logarithm.Prelude.Text.{string_bytes, concat}
use logarithm.Core.Stats.{
  Floats, StorageCardData, Value, card_value, top_value, graph_value, error_rate_value, dlq_value,
  rates_value, depth_value, StorageStats,
}
use logarithm.Dashboard.Routes.{Stats, dlq_stream_name}

-- What has been written to the client, and as a history the events whose bytes were all written, with
-- their payloads, in that order.
pub record Written : Type 0 where
  pub wire : Bytes
  pub sent : List (Bytes × Bytes)

abbrev pub nothing_written : Written
nothing_written = record { wire = []; sent = [] }

-- "event: <name>\ndata: <payload>\n\n"
abbrev pub event_frame : String → Bytes → Bytes
event_frame event payload =
    string_bytes "event: "
    ++ (string_bytes event ++ (10 ∷ (string_bytes "data: " ++ (payload ++ (10 ∷ 10 ∷ [])))))

-- The next write, unless there was an error.
abbrev pub and_then :
    Written × Option String → (Written → Written × Option String) → Written × Option String
and_then (s, none) next = next s
and_then (s, some e) next = (s, some e)

-- How a write fails: after so many bytes, with this error.
abbrev pub WriteFailure : Type 0
WriteFailure = ℕ × String

-- `fmt.Fprintf` and `Flush`. The first argument is how the write fails, if it does: some of the frame has
-- then been written, or none, or all.
abbrev pub send_frame : Option WriteFailure → String → Bytes → Written → Written × Option String
send_frame (some (n, e)) event payload s = (
  record {
    wire = s.wire ++ take n (event_frame event payload);
    sent =
        if leb (length (event_frame event payload)) n
        then s.sent ++ (string_bytes event, payload) ∷ []
        else s.sent;
  },
  some (concat ("failed to format \"" ∷ event ∷ "\": " ∷ e ∷ [])),
)
send_frame none event payload s = (
  record {
    wire = s.wire ++ event_frame event payload;
    sent = s.sent ++ (string_bytes event, payload) ∷ [];
  },
  none,
)

abbrev pub is_none {ℓ} : {A : Type ℓ} → Option A → Bool
is_none none = true
is_none (some a) = false

module _ (fl : Floats) (marshal : Value fl → Result Bytes) where
  unfoldable pub write_sse_event :
      Option WriteFailure → String → Value fl → Written → Written × Option String
  write_sse_event failure event v s = elim (marshal v) [
    | err e ↦ (s, some (concat ("failed to marshal \"" ∷ event ∷ "\": " ∷ e ∷ [])))
    | ok payload ↦ send_frame failure event payload s
  ]

  -- A query's error is returned.
  unfoldable pub one_result {ℓ} :
      {A : Type ℓ}
      → Result A
      → (A → Written → Written × Option String)
      → Written
      → Written × Option String
  one_result (err e) write s = (s, some e)
  one_result (ok a) write s = write a s

  -- Both queries run at the same time. If both fail, the error that came first is returned: that of the
  -- first query where `first` is true.
  unfoldable pub both_results {ℓ κ} :
      {A : Type ℓ} {B : Type κ}
      → (first : Bool) → Result A
      → Result B
      → (A → B → Written → Written × Option String)
      → Written
      → Written × Option String
  both_results first (err e) (err e') write s = (s, some (if first then e else e'))
  both_results first (err e) (ok b) write s = (s, some e)
  both_results first (ok a) (err e) write s = (s, some e)
  both_results first (ok a) (ok b) write s = write a b s

  unfoldable pub write_ingestion_graph_and_log_rates_event :
      Stats fl
      → Bool
      → Option WriteFailure
      → Option WriteFailure
      → Written
      → Written × Option String
  unfolding both_results write_sse_event
  write_ingestion_graph_and_log_rates_event q first f g =
      both_results first q.get_ingestion_graph_metrics q.get_log_rate_statistics (λ graph rates s.
        and_then (write_sse_event f "ingestion-graph-metrics" (graph_value graph) s)
          (write_sse_event g "log-rate-stats" (rates_value rates)))

  unfoldable pub write_error_rate_and_nats_queue_depth_metrics_event :
      Stats fl
      → Bool
      → Option WriteFailure
      → Option WriteFailure
      → Written
      → Written × Option String
  unfolding both_results write_sse_event
  write_error_rate_and_nats_queue_depth_metrics_event q first f g =
      both_results first q.get_error_rate_metrics (q.get_nats_queue_depth_metrics (pos 15))
        (λ rate depth s.
          and_then (write_sse_event f "error-rate" (error_rate_value rate) s)
            (write_sse_event g "nats-queue-depth" (depth_value depth)))

  unfoldable pub write_top_service_errors_stats_event :
      Stats fl → Option WriteFailure → Written → Written × Option String
  unfolding one_result write_sse_event
  write_top_service_errors_stats_event q f =
      one_result q.get_top_service_errors_stats
        (λ stats. write_sse_event f "top-service-errors" (top_value stats))

  -- The delta of the card and its colour: this file's own copy of the computation.
  unfoldable pub stream_runway : ℕ → ℕ → ℕ → String × String
  stream_runway free used projected_total =
      if leb projected_total used
      then ("Stable", "text.secondary")
      else (let growth_per_day =
            fl.over (fl.of_uint64 (projected_total - used)) (fl.of_uint64 30) in
          let days_remaining = fl.over (fl.of_uint64 free) growth_per_day in
          if fl.more_than days_remaining (fl.of_uint64 30)
          then (
            concat ("~" ∷ fl.print_whole days_remaining ∷ " days at current rate" ∷ []),
            "warning.main",
          )
          else (
            concat ("~" ∷ fl.print_whole days_remaining ∷ " days — action needed" ∷ []),
            "error.main",
          ))

  -- The card for the first of these disks.
  unfoldable pub write_storage_card :
      Stats fl → Option WriteFailure → List (StorageStats fl) → Written → Written × Option String
  unfolding one_result write_sse_event stream_runway
  write_storage_card q f [] s = (s, some "no disk stats found")
  write_storage_card q f (disk ∷ disks) s =
      let used_bytes = (disk.total_bytes + 2 ^ 64 - disk.free_bytes) % 2 ^ 64 in
      let used_percent =
        fl.times (fl.over (fl.of_uint64 used_bytes) (fl.of_uint64 disk.total_bytes))
          (fl.of_uint64 100) in
      one_result q.get_logs_storage_outlook
        (λ outlook.
          let (delta, colour) =
            stream_runway disk.free_bytes used_bytes outlook.projected_steady_state_bytes in
          write_sse_event f "storage-info" (
            card_value (record {
              value = fl.print_whole used_percent;
              unit = "%";
              delta = delta;
              delta_colour = colour;
            })))
        s

  unfoldable pub write_storage_info_event :
      Stats fl → Option WriteFailure → Written → Written × Option String
  unfolding one_result write_storage_card
  write_storage_info_event q f = one_result q.get_storage_stats (write_storage_card q f)

  unfoldable pub write_nats_dlq_info_event :
      Stats fl → Option WriteFailure → Written → Written × Option String
  unfolding one_result write_sse_event
  write_nats_dlq_info_event q f =
      one_result (q.get_dlq_stream_info dlq_stream_name)
        (λ info. write_sse_event f "nats-dlq-info" (dlq_value info))

  -- The states that the loop comes to, and whether it goes on: its `select` takes any case that is
  -- ready.
  pub data Streaming : Written → Bool → Type 0 where
    connected : Streaming nothing_written true
    tick_5s :
        {s : Written} (q : Stats fl) (first : Bool) (f g : Option WriteFailure)
        → Streaming s true
        → Streaming
            (write_ingestion_graph_and_log_rates_event q first f g s).0
            (is_none (write_ingestion_graph_and_log_rates_event q first f g s).1)
    tick_15s :
        {s : Written} (q : Stats fl) (first : Bool) (f g : Option WriteFailure)
        → Streaming s true
        → Streaming
            (write_error_rate_and_nats_queue_depth_metrics_event q first f g s).0
            (is_none (write_error_rate_and_nats_queue_depth_metrics_event q first f g s).1)
    tick_30s :
        {s : Written} (q : Stats fl) (f : Option WriteFailure)
        → Streaming s true
        → Streaming
            (write_top_service_errors_stats_event q f s).0
            (is_none (write_top_service_errors_stats_event q f s).1)
    tick_1m :
        {s : Written} (q : Stats fl) (f : Option WriteFailure)
        → Streaming s true
        → Streaming
            (write_nats_dlq_info_event q f s).0
            (is_none (write_nats_dlq_info_event q f s).1)
    tick_15m :
        {s : Written} (q : Stats fl) (f : Option WriteFailure)
        → Streaming s true
        → Streaming (write_storage_info_event q f s).0 (is_none (write_storage_info_event q f s).1)
    -- The client is gone, or the server shuts down.
    disconnected : {s : Written} → Streaming s true → Streaming s false
