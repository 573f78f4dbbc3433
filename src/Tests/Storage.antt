-- ===== src/Tests/Storage.antt =====
-- The store at concrete inputs, over columns as lists and a database that notes its queries.
use logarithm.Prelude.{
  String, ◌≡◌, refl, Bool, true, false, none, some, List, [], ◌∷◌, map, arith, leb, ◌==◌,
  if◌then◌else◌, length,
}
use logarithm.Prelude.Text.{string_bytes}
use logarithm.Storage.Batch.{new_column_batch, ColumnBatch, LogFields, capacity}
use logarithm.Storage.Tables.{Tables, table}
use logarithm.Storage.Store.{Connection, batch_insert, Store, Query}
use logarithm.Storage.Batch.Rows.{Holds}
use logarithm.Storage.Outlook.{get_logs_storage_outlook}
use logarithm.Core.Logs.{LogQueryFilter, FlatLogRecord}
use logarithm.Storage.Query.Placeholders.{SameShape}
use logarithm.Pool.Bounds.{IsValid}
use logarithm.Storage.Outlook.Projection.{get_logs_storage_outlook_lem}
use logarithm.Core.Time.{unix_nano, zero_time}
use logarithm.Storage.Columns.{list_columns}
use logarithm.Storage.Store.Inserts.{sent, record_row, batch_insert_refused, batch_insert-sent}
use logarithm.Prelude.Int.{pos}

abbrev one_table : Tables
one_table = ("logs", "app.logs") ∷ []

abbrev log_database : Connection list_columns
log_database = record {
  Database = List (Query list_columns);
  execute = λ db q. (q ∷ db, if length db == 2 then some "full" else none);
}

abbrev roomy : ColumnBatch list_columns → Bool
roomy c = leb (capacity list_columns c) 100

abbrev store : Store list_columns log_database
store = record {
  database = [];
  tables = one_table;
  batch_pool = record {
    items = [];
    size = 1;
    new_func = λ _. new_column_batch list_columns;
    reuse_func = some roomy;
  };
}

store-IsValid : IsValid store.batch_pool
store-IsValid = record { bounded = omega arith; reusable = tt }

abbrev digits : String
digits = "0123456789abcdef"

abbrev flat : FlatLogRecord
flat = record {
  timestamp = unix_nano (pos 17);
  observed_timestamp = zero_time;
  inserted_at = zero_time;
  trace_id = "0123456789abcdef0123456789abcdef";
  span_id = digits;
  severity_text = "INFO";
  severity_number = 9;
  service_name = "billing";
  body = "paid";
  body_type = "string";
  scope_name = "";
  scope_version = "";
  log_attr_keys = [];
  log_attr_values = [];
  res_attr_keys = [];
  res_attr_values = [];
}

abbrev bad_span : FlatLogRecord
bad_span = record flat { span_id = "12" }

batch_insert_refused_example :
    (e : String) × ((batch_insert list_columns log_database store (flat ∷ bad_span ∷ [])).1
      ≡ some e)
    × ((batch_insert list_columns log_database store (flat ∷ bad_span ∷ [])).0.database ≡ [])
unfolding string_bytes
batch_insert_refused_example =
    batch_insert_refused list_columns log_database store (flat ∷ bad_span ∷ []) refl

batch_insert-sent_example :
    (batch : ColumnBatch list_columns) × Holds list_columns batch
      (map record_row (flat ∷ flat ∷ []))
    × ((batch_insert list_columns log_database store (flat ∷ flat ∷ [])).0.database
        ≡ (sent list_columns log_database store "app.logs" batch).0.database)
    × ((batch_insert list_columns log_database store (flat ∷ flat ∷ [])).1
        ≡ (sent list_columns log_database store "app.logs" batch).1)
unfolding string_bytes table
batch_insert-sent_example =
    batch_insert-sent list_columns log_database store flat (flat ∷ []) "app.logs" refl refl

abbrev empty_batch : ColumnBatch list_columns
empty_batch = new_column_batch list_columns

empty_batch-Holds : Holds list_columns empty_batch []
unfolding new_column_batch
empty_batch-Holds = record {
  timestamps = refl;
  scope_names = refl;
  scope_versions = refl;
  trace_ids = refl;
  span_ids = refl;
  observed_timestamps = refl;
  severity_texts = refl;
  severity_numbers = refl;
  service_names = refl;
  bodies = refl;
  body_types = refl;
  log_attr_keys = refl;
  log_attr_values = refl;
  res_attr_keys = refl;
  res_attr_values = refl;
}

abbrev fields : LogFields
fields = record {
  scope_name = "s";
  scope_version = "1";
  severity_text = "WARN";
  service_name = "billing";
  body = "late";
  body_type = "string";
}

abbrev filter : LogQueryFilter
filter = record {
  start_time = unix_nano (pos 5);
  end_time = zero_time;
  service_name = "bill";
  severity_number = pos 0;
  severity_text = "";
  trace_id = "";
  span_id = "";
  body = "it's ?";
  limit = pos 0;
  offset = pos 0;
  order_by = "";
  descending = true;
}

abbrev other_filter : LogQueryFilter
other_filter = record filter { service_name = "'; DROP"; body = "x" }

filter-SameShape : SameShape filter other_filter
filter-SameShape = record {
  start_time = refl;
  end_time = refl;
  service_name = refl;
  severity_text = refl;
  trace_id = refl;
  span_id = refl;
  severity_number = refl;
  body = refl;
}

get_logs_storage_outlook_lem_example : get_logs_storage_outlook (10 ∷ 20 ∷ 31 ∷ []) ≡ record {
  current_total_bytes = 61;
  projected_steady_state_bytes = 450;
  is_steady_state = false;
  days_of_history = 3;
}
get_logs_storage_outlook_lem_example = get_logs_storage_outlook_lem (10 ∷ 20 ∷ []) 31 (omega arith)
