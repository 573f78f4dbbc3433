-- ===== src/Tests/Process.antt =====
-- Two messages, one of them broken, through one worker.
use logarithm.Prelude.{
  ℕ, ◌+◌, max, refl, true, none, some, List, [], ◌∷◌, ◌==◌, Result, ok, err, Bytes,
}
use logarithm.Worker.Transform.{LogData, ResourceLogs, Publisher, Runtime, flatten}
use logarithm.Transport.Message.{Message}
use logarithm.Storage.Batch.{new_column_batch, ColumnBatch}
use logarithm.Worker.Process.{Job, process_messages}
use logarithm.Worker.Decompress.{Codecs, decode, decompress, decompress_gzip}
use logarithm.Storage.Batch.Rows.{Holds}
use logarithm.Storage.Columns.{list_columns}
use logarithm.Prelude.Int.{pos}
use logarithm.Worker.Transform.Rows.{resource_rows, flatten-Holds}
use logarithm.Worker.Process.Dropped.{process_messages-Holds}

abbrev pub silent : Publisher
silent = record {
  State = ℕ;
  has_subscribers = λ s. (s + 1, s == 0);
  enqueue = λ s subject flat. (s, true);
}

abbrev pub runtime : Runtime
runtime = record { trace_id_string = λ b. ""; span_id_string = λ b. ""; grow = λ cap n. max cap n }

abbrev log : LogData
log = record {
  attributes = ("user", "ann") ∷ [];
  timestamp = 0;
  observed_timestamp = 5;
  trace_id = 1 ∷ [];
  span_id = 2 ∷ [];
  severity_text = "INFO";
  severity_number = pos 9;
  body = "paid";
}

abbrev billing : ResourceLogs
billing = record {
  attributes = ("service.name", "billing") ∷ ("host", "a1") ∷ [];
  scope_logs =
      record { scope_name = "app"; scope_version = "1"; log_records = log ∷ log ∷ [] } ∷ [];
}

abbrev empty_columns : ColumnBatch list_columns
empty_columns = new_column_batch list_columns

empty_columns-Holds : Holds list_columns empty_columns []
unfolding new_column_batch
empty_columns-Holds = record {
  timestamps = refl;
  scope_names = refl;
  scope_versions = refl;
  trace_ids = refl;
  span_ids = refl;
  observed_timestamps = refl;
  severity_texts = refl;
  severity_numbers = refl;
  service_names = refl;
  bodies = refl;
  body_types = refl;
  log_attr_keys = refl;
  log_attr_values = refl;
  res_attr_keys = refl;
  res_attr_values = refl;
}

flatten-Holds_example :
    Holds list_columns
      (flatten list_columns silent runtime 7 billing ([], 0, empty_columns)).2
      (resource_rows list_columns 7 billing.attributes billing.scope_logs)
flatten-Holds_example =
    flatten-Holds list_columns silent runtime 7 billing [] 0 empty_columns [] empty_columns-Holds

abbrev pub plain : Codecs
plain = record {
  zstd_decode_all = λ b. ok b;
  gzip_reset = λ b. some "no header";
  gzip_copy = λ b. ok b;
  gzip_close = λ b. none;
}

abbrev pub unmarshal : Bytes → Result (List ResourceLogs)
unmarshal [] = err "empty"
unmarshal (b ∷ bs) = ok (billing ∷ [])

abbrev pub broken : Message
broken = record {
  payload = 1 ∷ [];
  headers = ("Content-Type", "application/json" ∷ []) ∷ ("Content-Encoding", "gzip" ∷ []) ∷ [];
}

abbrev pub sound : Message
sound = record { payload = 1 ∷ []; headers = ("Content-Type", "application/json" ∷ []) ∷ [] }

abbrev job : Job list_columns silent
job = record {
  decompressor = record { buf_pool = []; gzip_pool = [] };
  buffers = [];
  watch = 0;
  batch = empty_columns;
  readings = 0;
}

process_messages-Holds_example :
    Holds list_columns
      (process_messages list_columns silent runtime plain unmarshal unmarshal
        (λ k. k + 100)
        (broken ∷ sound ∷ [])
        job).batch
      (resource_rows list_columns 100 billing.attributes billing.scope_logs)
unfolding decode decompress decompress_gzip
process_messages-Holds_example =
    process_messages-Holds list_columns silent runtime plain unmarshal unmarshal (λ k. k + 100)
      (broken ∷ sound ∷ []) job [] empty_columns-Holds
