-- ===== src/Tests/Stream.antt =====
-- The event stream with one value printed, and numbers for the floats.
use logarithm.Prelude.{
  ℕ, ◌*◌, ◌/◌, ◌<◌, ◌≡◌, refl, ap, subst, true, false, none, [], ◌∷◌, arith, ltb, length, Result,
  ok, err, Bytes,
}
use logarithm.Core.Stats.{Floats, Value}
use logarithm.Dashboard.Routes.{Stats, handle_storage_info, handle_nats_dlq_info}
use logarithm.Dashboard.Stream.{
  nothing_written, Streaming, connected, tick_1m, write_nats_dlq_info_event,
  write_storage_info_event, is_none,
}
use logarithm.Dashboard.Stream.Framing.{ReadsSent, IsJson, Streaming-ReadsSent}
use logarithm.Dashboard.Stream.Same.{Agrees, write_storage_info_event-handle_storage_info}
use logarithm.Dashboard.Stream.Reader.{one_line}

abbrev pub numbers : Floats
numbers = record {
  Float = ℕ;
  of_uint64 = λ n. n;
  times = λ a b. a * b;
  over = λ a b. a / b;
  more_than = λ a b. ltb b a;
  print_whole = λ a. "";
}

abbrev print_json : Value numbers → Result Bytes
print_json v = ok (123 ∷ 125 ∷ [])

abbrev printed : Result Bytes → Bytes
printed (ok bs) = bs
printed (err e) = []

print_json-IsJson : IsJson numbers print_json
print_json-IsJson v payload e =
    subst (λ l. (one_line l ≡ true) × (0 < length l)) (ap printed e) (refl, omega arith)

abbrev answers : Stats numbers
answers = record {
  get_distinct_services = ok [];
  get_ingestion_graph_metrics = err "down";
  get_log_rate_statistics = err "down";
  get_error_rate_metrics = err "down";
  get_nats_queue_depth_metrics = λ n. err "down";
  get_top_service_errors_stats = ok [];
  get_storage_stats =
      ok (record { disk_name = "a"; free_bytes = 10; total_bytes = 100; used_percent = 90 } ∷ []);
  get_logs_storage_outlook = ok (record {
    current_total_bytes = 5;
    projected_steady_state_bytes = 95;
    is_steady_state = false;
    days_of_history = 3;
  });
  get_dlq_stream_info = λ name. ok (record { num_messages = 4 });
}

one_event :
    Streaming numbers print_json
      (write_nats_dlq_info_event numbers print_json answers none nothing_written).0
      (is_none (write_nats_dlq_info_event numbers print_json answers none nothing_written).1)
one_event = tick_1m answers none connected

Streaming-ReadsSent_example :
    ReadsSent numbers print_json print_json-IsJson
      (write_nats_dlq_info_event numbers print_json answers none nothing_written).0
      (is_none (write_nats_dlq_info_event numbers print_json answers none nothing_written).1)
Streaming-ReadsSent_example = Streaming-ReadsSent numbers print_json print_json-IsJson _ _ one_event

write_storage_info_event-handle_storage_info_example :
    Agrees
      (handle_storage_info numbers print_json answers)
      "storage-info"
      nothing_written
      (write_storage_info_event numbers print_json answers none nothing_written)
    × Agrees
        (handle_nats_dlq_info numbers print_json answers)
        "nats-dlq-info"
        nothing_written
        (write_nats_dlq_info_event numbers print_json answers none nothing_written)
write_storage_info_event-handle_storage_info_example =
    write_storage_info_event-handle_storage_info numbers print_json answers nothing_written
