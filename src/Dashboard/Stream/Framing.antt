-- ===== src/Dashboard/Stream/Framing.antt =====
-- What a client reads from the event stream.
use logarithm.Prelude.{
  leb, leb→le, Bool-cases, take, take_enough, ◌<◌, String, ◌≡◌, refl, sym, ap, ◌∙◌, inl, inr, Bool,
  true, Option, none, some, List, [], ◌∷◌, ◌++◌, false, arith, length, Result, Result-cases, ok,
  err, Bytes,
}
use mathlib.Core.List.{append-nil}
use logarithm.Prelude.Text.{string_bytes}
use logarithm.Core.Stats.{
  Floats, Value, graph_value, rates_value, StorageStats, error_rate_value, depth_value, top_value,
  dlq_value,
}
use logarithm.Dashboard.Stream.{
  Written, Streaming, connected, tick_5s, tick_15s, tick_30s, tick_1m, tick_15m, disconnected,
  event_frame, and_then, write_sse_event, write_ingestion_graph_and_log_rates_event, send_frame,
  both_results, write_error_rate_and_nats_queue_depth_metrics_event,
  write_top_service_errors_stats_event, write_nats_dlq_info_event, write_storage_info_event,
  one_result, write_storage_card, WriteFailure, is_none,
}
use logarithm.Dashboard.Routes.{Stats, dlq_stream_name}
use logarithm.Prelude.Int.{pos}
use logarithm.Dashboard.Stream.Reader.{
  one_line, read_all, read_all-append, new_reader, read_all-event_frame, read_all-event_frame_part,
}

-- The law of `json.Marshal`: what it returns is not empty and has no line break.
abbrev pub IsJson : (fl : Floats) → (Value fl → Result Bytes) → Type 0
IsJson fl marshal =
    (v : Value fl) (payload : Bytes)
    → marshal v ≡ ok payload
    → (one_line payload ≡ true) × (0 < length payload)

module _ (fl : Floats) (marshal : Value fl → Result Bytes) (law : IsJson fl marshal) where
  -- What is read is the events that were sent, and while the stream goes on there is nothing else.
  pub record ReadsSent (s : Written) (open_ : Bool) : Type 0 where
    pub events : (read_all (new_reader []) s.wire).events ≡ s.sent
    pub whole : open_ ≡ true → read_all (new_reader []) s.wire ≡ new_reader s.sent

  whole-ReadsSent :
      (s : Written) (open_ : Bool)
      → read_all (new_reader []) s.wire ≡ new_reader s.sent
      → ReadsSent s open_
  whole-ReadsSent s open_ h = record { events = ap (λ r. r.events) h; whole = λ o. h }

  ended : (s : Written) → ReadsSent s true → ReadsSent s false
  ended s h = whole-ReadsSent s false (h.whole refl)

  send_frame-read :
      (event : String) (payload : Bytes) (s : Written)
      → one_line (string_bytes event) ≡ true
      → (one_line payload ≡ true) × (0 < length payload)
      → ReadsSent s true
      → read_all (new_reader []) (s.wire ++ event_frame event payload)
        ≡ new_reader (s.sent ++ (string_bytes event, payload) ∷ [])
  send_frame-read event payload s one (p, l) h =
      read_all-append s.wire (new_reader []) (event_frame event payload)
      ∙ ap (λ r. read_all r (event_frame event payload)) (h.whole refl)
      ∙ ap (read_all (new_reader s.sent)) (sym (append-nil (event_frame event payload)))
      ∙ read_all-event_frame event payload [] s.sent one p l

  send_frame-ReadsSent :
      (failure : Option WriteFailure) (event : String) (payload : Bytes) (s : Written)
      → one_line (string_bytes event) ≡ true
      → (one_line payload ≡ true) × (0 < length payload)
      → ReadsSent s true
      → ReadsSent
          (send_frame failure event payload s).0
          (is_none (send_frame failure event payload s).1)
  send_frame-ReadsSent none event payload s one p h =
      whole-ReadsSent _ true (send_frame-read event payload s one p h)
  send_frame-ReadsSent (some (n, e)) event payload s one p h =
      elim (Bool-cases (leb (length (event_frame event payload)) n)) [
        | inl all ↦
            rw (all, take_enough n (event_frame event payload) (leb→le _ n all))
              (whole-ReadsSent _ false (send_frame-read event payload s one p h))
        | inr less ↦ rw less (record {
          events =
              ap (λ r. r.events)
                (read_all-append s.wire (new_reader []) (take n (event_frame event payload)))
              ∙ ap (λ r. (read_all r (take n (event_frame event payload))).events) (h.whole refl)
              ∙ read_all-event_frame_part event payload n s.sent one p.0 (ground arith);
          whole = λ o. absurd (ground arith);
        })
      ]

  write_sse_event-ReadsSent :
      (failure : Option WriteFailure) (event : String) (v : Value fl) (s : Written)
      → one_line (string_bytes event) ≡ true
      → ReadsSent s true
      → ReadsSent
          (write_sse_event fl marshal failure event v s).0
          (is_none (write_sse_event fl marshal failure event v s).1)
  unfolding write_sse_event
  write_sse_event-ReadsSent failure event v s one h = elim (Result-cases (marshal v)) [
    | inr (e, refused) ↦ rw (refused, write_sse_event) (ended s h)
    | inl (payload, printed) ↦
        rw (printed, write_sse_event)
          (send_frame-ReadsSent failure event payload s one (law v payload printed) h)
  ]

  -- The state and whether the stream goes on.
  abbrev Sound : Written × Option String → Type 0
  Sound r = ReadsSent r.0 (is_none r.1)

  and_then-ReadsSent :
      (r : Written × Option String) (next : Written → Written × Option String)
      → Sound r
      → ((s : Written) → ReadsSent s true → Sound (next s))
      → Sound (and_then r next)
  and_then-ReadsSent (s, none) next h k = k s h
  and_then-ReadsSent (s, some e) next h k = h

  both_results-ReadsSent {ℓ κ} :
      {A : Type ℓ} {B : Type κ} (first : Bool) (a : Result A) (b : Result B)
      (write : A → B → Written → Written × Option String) (s : Written)
      → ReadsSent s true
      → ((a : A) → (b : B) → Sound (write a b s))
      → Sound (both_results fl marshal first a b write s)
  unfolding both_results
  both_results-ReadsSent first (err e) (err e') write s h k = ended s h
  both_results-ReadsSent first (err e) (ok b) write s h k = ended s h
  both_results-ReadsSent first (ok a) (err e) write s h k = ended s h
  both_results-ReadsSent first (ok a) (ok b) write s h k = k a b

  one_result-ReadsSent {ℓ} :
      {A : Type ℓ} (a : Result A) (write : A → Written → Written × Option String) (s : Written)
      → ReadsSent s true
      → ((a : A) → Sound (write a s))
      → Sound (one_result fl marshal a write s)
  unfolding one_result
  one_result-ReadsSent (err e) write s h k = ended s h
  one_result-ReadsSent (ok a) write s h k = k a

  write_storage_card-ReadsSent :
      (q : Stats fl) (f : Option WriteFailure) (disks : List (StorageStats fl)) (s : Written)
      → ReadsSent s true
      → Sound (write_storage_card fl marshal q f disks s)
  unfolding write_storage_card string_bytes
  write_storage_card-ReadsSent q f [] s h = ended s h
  write_storage_card-ReadsSent q f (disk ∷ disks) s h =
      one_result-ReadsSent q.get_logs_storage_outlook _ s h
        (λ outlook. write_sse_event-ReadsSent f "storage-info" _ s refl h)

  -- Two events, each of whose names is one line.
  two_events-ReadsSent :
      (f g : Option WriteFailure) (event event' : String) (v v' : Value fl) (s : Written)
      → one_line (string_bytes event) ≡ true
      → one_line (string_bytes event') ≡ true
      → ReadsSent s true
      → Sound (
          and_then
            (write_sse_event fl marshal f event v s)
            (write_sse_event fl marshal g event' v'))
  two_events-ReadsSent f g event event' v v' s one one' h =
      and_then-ReadsSent (write_sse_event fl marshal f event v s)
        (write_sse_event fl marshal g event' v') (write_sse_event-ReadsSent f event v s one h)
        (λ s h. write_sse_event-ReadsSent g event' v' s one' h)

  -- At every moment of the stream, whatever the queries answer, whichever writes fail and after however
  -- many bytes, a client that reads all that was written gets exactly the events whose bytes were all
  -- written, each with its name and payload, in their order; and while the stream goes on, nothing of a
  -- further one is left over.
  pub Streaming-ReadsSent :
      (s : Written) (open_ : Bool) → Streaming fl marshal s open_ → ReadsSent s open_
  unfolding write_ingestion_graph_and_log_rates_event
      write_error_rate_and_nats_queue_depth_metrics_event write_top_service_errors_stats_event
      write_nats_dlq_info_event write_storage_info_event string_bytes
  Streaming-ReadsSent s open_ connected = whole-ReadsSent _ true refl
  Streaming-ReadsSent _ _ (tick_5s {s = s} q first f g t) =
      let h = Streaming-ReadsSent s true t in
      both_results-ReadsSent first q.get_ingestion_graph_metrics q.get_log_rate_statistics _ s h
        (λ a b.
          two_events-ReadsSent f g "ingestion-graph-metrics" "log-rate-stats" (graph_value a)
            (rates_value b) s refl refl h)
  Streaming-ReadsSent _ _ (tick_15s {s = s} q first f g t) =
      let h = Streaming-ReadsSent s true t in
      both_results-ReadsSent first q.get_error_rate_metrics
        (q.get_nats_queue_depth_metrics (pos 15)) _ s h
        (λ a b.
          two_events-ReadsSent f g "error-rate" "nats-queue-depth" (error_rate_value a)
            (depth_value b) s refl refl h)
  Streaming-ReadsSent _ _ (tick_30s {s = s} q f t) =
      let h = Streaming-ReadsSent s true t in
      one_result-ReadsSent q.get_top_service_errors_stats _ s h
        (λ a. write_sse_event-ReadsSent f "top-service-errors" (top_value a) s refl h)
  Streaming-ReadsSent _ _ (tick_1m {s = s} q f t) =
      let h = Streaming-ReadsSent s true t in
      one_result-ReadsSent (q.get_dlq_stream_info dlq_stream_name) _ s h
        (λ a. write_sse_event-ReadsSent f "nats-dlq-info" (dlq_value a) s refl h)
  Streaming-ReadsSent _ _ (tick_15m {s = s} q f t) =
      let h = Streaming-ReadsSent s true t in
      one_result-ReadsSent q.get_storage_stats _ s h
        (λ disks. write_storage_card-ReadsSent q f disks s h)
  Streaming-ReadsSent s _ (disconnected t) = ended s (Streaming-ReadsSent s true t)
