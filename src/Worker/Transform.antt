-- ===== src/Worker/Transform.antt =====
-- backend/internal/worker/transform.go: the logs of one resource become appends to the batch and, if
-- somebody watches, records of the live tail. A record is marshalled and a row copied within its call,
-- so that the slices they share with the buffer are values here.
pub mod Rows
use Prim.Native.String.{◌++◌ as join}
use logarithm.Prelude.{
  ℕ, zero, ◌-◌, ◌%◌, String, Bool, not, ◌&&◌, ◌||◌, List, [], ◌∷◌, ◌++◌, str_eq, ltb, ◌==◌,
  if◌then◌else◌, length, Bytes,
}
use logarithm.Prelude.Int.{ℤ, pos, negsuc}
use logarithm.Core.Logs.{FlatLogRecord}
use logarithm.Core.Time.{Time, unix_nano, zero_time, to_int64}
use logarithm.Transport.Message.{live_tail_subject_prefix}
use logarithm.Storage.Columns.{ColumnApi}
use logarithm.Storage.Batch.{ColumnBatch, append_row}

-- What the code reads of the OTLP library's types; attribute values and bodies are read by `AsString`.
pub record LogData : Type 0 where
  pub attributes : List (String × String)
  pub timestamp : ℕ
  pub observed_timestamp : ℕ
  pub trace_id : Bytes
  pub span_id : Bytes
  pub severity_text : String
  pub severity_number : ℤ
  pub body : String

pub record ScopeLogs : Type 0 where
  pub scope_name : String
  pub scope_version : String
  pub log_records : List LogData

pub record ResourceLogs : Type 0 where
  pub attributes : List (String × String)
  pub scope_logs : List ScopeLogs

-- `TraceID.String` and `SpanID.String`, and the capacity of a slice of the first capacity that has
-- been filled with so many texts: the OTLP library's and the runtime's.
pub record Runtime : Type 0 where
  pub trace_id_string : Bytes → String
  pub span_id_string : Bytes → String
  pub grow : ℕ → ℕ → ℕ

-- The interface of publish.go, over the state behind it.
pub record Publisher : Type 1 where
  pub State : Type 0
  pub has_subscribers : State → State × Bool
  pub enqueue : State → String → FlatLogRecord → State × Bool

pub record TransformBuffer : Type 0 where
  pub flat_log_record : FlatLogRecord
  pub res_attr_keys : List String
  pub res_attr_values : List String
  pub log_attr_keys : List String
  pub log_attr_values : List String
  pub res_attr_cap : ℕ
  pub log_attr_cap : ℕ

-- The zero value of the struct.
abbrev pub no_record : FlatLogRecord
no_record = record {
  timestamp = zero_time;
  observed_timestamp = zero_time;
  inserted_at = zero_time;
  trace_id = "";
  span_id = "";
  severity_text = "";
  severity_number = 0;
  service_name = "";
  body = "";
  body_type = "";
  scope_name = "";
  scope_version = "";
  log_attr_keys = [];
  log_attr_values = [];
  res_attr_keys = [];
  res_attr_values = [];
}

abbrev pub new_transform_buffer : TransformBuffer
new_transform_buffer = record {
  flat_log_record = no_record;
  res_attr_keys = [];
  res_attr_values = [];
  log_attr_keys = [];
  log_attr_values = [];
  res_attr_cap = 10;
  log_attr_cap = 10;
}

-- `Reset`
unfoldable pub reset_buffer : TransformBuffer → TransformBuffer
reset_buffer b = record b {
  flat_log_record = no_record;
  res_attr_keys = [];
  res_attr_values = [];
  log_attr_keys = [];
  log_attr_values = [];
}

-- The callback on the resource's attributes: the last service name that is not empty counts.
unfoldable pub range_resource :
    List (String × String) → String → TransformBuffer → String × TransformBuffer
range_resource [] service_name b = (service_name, b)
range_resource ((k, v) ∷ attrs) service_name b =
    range_resource attrs (if str_eq k "service.name" && not (str_eq v "") then v else service_name)
      (record b {
        res_attr_keys = b.res_attr_keys ++ k ∷ [];
        res_attr_values = b.res_attr_values ++ v ∷ [];
      })

-- The callback on a log's attributes.
unfoldable pub range_log : List (String × String) → TransformBuffer → TransformBuffer
range_log [] b = b
range_log ((k, v) ∷ attrs) b = range_log attrs (record b {
  log_attr_keys = b.log_attr_keys ++ k ∷ [];
  log_attr_values = b.log_attr_values ++ v ∷ [];
})

-- `uint8(n)` of an `int32`, which keeps the low byte.
unfoldable pub to_uint8 : ℤ → ℕ
to_uint8 (pos n) = n % 256
to_uint8 (negsuc n) = 255 - n % 256

-- A time of 0 stands for now.
abbrev pub or_now : ℕ → ℕ → ℕ
or_now now t = if t == 0 then now else t

-- `time.Unix(0, int64(t))`
abbrev pub time_at : ℕ → Time
time_at t = unix_nano (to_int64 t)

module _ (api : ColumnApi) (publisher : Publisher) (rt : Runtime) where
  -- The buffer, what is behind the publisher, and the appender's batch.
  pub record Flattening : Type 0 where
    pub buffer : TransformBuffer
    pub watch : publisher.State
    pub batch : ColumnBatch api

  -- The body of the inner loop.
  unfoldable pub flatten_record : ℕ → String → String → String → LogData → Flattening → Flattening
  unfolding range_log to_uint8 to_int64 append_row
  flatten_record now service_name scope_name scope_version log f =
      let cleared = record f.buffer { log_attr_keys = []; log_attr_values = [] } in
      let b = record (range_log log.attributes cleared) {
        log_attr_cap = rt.grow f.buffer.log_attr_cap (length log.attributes);
      } in
      let observed = time_at (or_now now log.observed_timestamp) in
      let event = time_at (or_now now log.timestamp) in
      let flat = record b.flat_log_record {
        timestamp = event;
        observed_timestamp = observed;
        trace_id = rt.trace_id_string log.trace_id;
        span_id = rt.span_id_string log.span_id;
        severity_text = log.severity_text;
        severity_number = to_uint8 log.severity_number;
        body = log.body;
        body_type = "string";
        service_name = service_name;
        scope_name = scope_name;
        scope_version = scope_version;
        res_attr_keys = b.res_attr_keys;
        res_attr_values = b.res_attr_values;
        log_attr_keys = b.log_attr_keys;
        log_attr_values = b.log_attr_values;
      } in
      let (watch, active) = publisher.has_subscribers f.watch in
      let batch =
        append_row api event observed (to_uint8 log.severity_number) log.trace_id log.span_id
          b.log_attr_keys b.log_attr_values b.res_attr_keys b.res_attr_values
          (record {
            scope_name = scope_name;
            scope_version = scope_version;
            severity_text = log.severity_text;
            service_name = service_name;
            body = log.body;
            body_type = "string";
          })
          f.batch in
      if active
      then record {
        buffer = record b { flat_log_record = flat };
        watch = (publisher.enqueue watch (join live_tail_subject_prefix service_name) flat).0;
        batch = batch;
      }
      else record { buffer = b; watch = watch; batch = batch }

  unfoldable pub flatten_records :
      ℕ → String → String → String → List LogData → Flattening → Flattening
  unfolding flatten_record
  flatten_records now service_name scope_name scope_version [] f = f
  flatten_records now service_name scope_name scope_version (log ∷ logs) f =
      flatten_records now service_name scope_name scope_version logs
        (flatten_record now service_name scope_name scope_version log f)

  unfoldable pub flatten_scopes : ℕ → String → List ScopeLogs → Flattening → Flattening
  unfolding flatten_records
  flatten_scopes now service_name [] f = f
  flatten_scopes now service_name (scope ∷ scopes) f =
      flatten_scopes now service_name scopes
        (flatten_records now service_name scope.scope_name scope.scope_version scope.log_records f)

  -- `Flatten`: from the pool's buffers and the two states to the same. A buffer that has grown beyond
  -- 200 keys is not put back.
  unfoldable pub flatten :
      ℕ
      → ResourceLogs
      → List TransformBuffer × publisher.State × ColumnBatch api
      → List TransformBuffer × publisher.State × ColumnBatch api
  unfolding flatten_scopes range_resource reset_buffer
  flatten now logs (pool, watch, batch) =
      let taken : TransformBuffer × List TransformBuffer = elim pool [
        | [] ↦ (new_transform_buffer, [])
        | b ∷ rest ↦ (b, rest)
      ] in
      let (service_name, b) = range_resource logs.attributes "unknown" (reset_buffer taken.0) in
      let b' = record b { res_attr_cap = rt.grow b.res_attr_cap (length logs.attributes) } in
      let f =
        flatten_scopes now service_name logs.scope_logs
          (record { buffer = b'; watch = watch; batch = batch }) in
      (
        if ltb 200 f.buffer.log_attr_cap || ltb 200 f.buffer.res_attr_cap
            then taken.1
            else f.buffer ∷ taken.1,
        f.watch,
        f.batch,
      )
