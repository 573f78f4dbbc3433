-- ===== src/Storage/Store.antt =====
-- The store of backend/internal/storage: its batch pool, the fast inserts, the batch inserts and the
-- connection that both send their batches through.
pub mod Inserts
use logarithm.Prelude.{
  ℕ, String, not, Option, none, some, List, [], ◌∷◌, leb, ◌==◌, if◌then◌else◌, length, Result, ok,
  err, Bytes,
}
use logarithm.Prelude.Text.{concat, string_bytes}
use logarithm.Pool.{Pool}
use logarithm.Pool
use logarithm.Core.Time.{Time}
use logarithm.Core.Logs.{FlatLogRecord}
use logarithm.Storage.Columns.{ColumnApi}
use logarithm.Storage.Tables.{Tables, table, table_logs}
use logarithm.Storage.Batch.{ColumnBatch, reset_batch, ensure_size, new_column_batch, capacity}

-- A column of `proto.Input`, by the type of its values.
pub data InputColumn (api : ColumnApi) : Type 0 where
  times : api.Col Time → InputColumn api
  texts : api.Col String → InputColumn api
  fixed : api.Col Bytes → InputColumn api
  numbers : api.Col ℕ → InputColumn api
  lists : api.Col (List String) → InputColumn api

pub record Query (api : ColumnApi) : Type 0 where
  pub body : String
  pub input : List (String × InputColumn api)

-- The database behind the connection: `execute` is `ingestConn.Do`, which may fail and may have
-- changed the database when it does.
pub record Connection (api : ColumnApi) : Type 1 where
  pub Database : Type 0
  pub execute : Database → Query api → Database × Option String

-- `IngestConn` and `Conn` reach the same database; the pool holds `*columnBatch`.
pub record Store (api : ColumnApi) (conn : Connection api) : Type 0 where
  pub database : conn.Database
  pub tables : Tables
  pub batch_pool : Pool (ColumnBatch api)

module _ (api : ColumnApi) where
  -- The pool that `NewClickHouseStore` makes.
  unfoldable pub new_batch_pool : ℕ → ℕ → Pool (ColumnBatch api)
  new_batch_pool pool_size row_limit =
      Pool.new pool_size (λ _. new_column_batch api)
        (Pool.with_reuse_check (λ c. leb (capacity api c) row_limit) ∷ [])

  unfoldable pub insert_statement : String → String
  insert_statement tbl = concat (
      "INSERT INTO " ∷ tbl
      ∷ " (Timestamp, ScopeName, ScopeVersion, TraceId, SpanId, ObservedTimestamp, SeverityText, SeverityNumber,\n         ServiceName, Body, BodyType, LogAttrKeys, LogAttrValues, ResAttrKeys, ResAttrValues) VALUES"
      ∷ [])

  unfoldable pub batch_input : ColumnBatch api → List (String × InputColumn api)
  batch_input c =
      ("Timestamp", times c.timestamps)
      ∷ ("ScopeName", texts c.scope_names)
      ∷ ("ScopeVersion", texts c.scope_versions)
      ∷ ("TraceId", fixed c.trace_ids)
      ∷ ("SpanId", fixed c.span_ids)
      ∷ ("ObservedTimestamp", times c.observed_timestamps)
      ∷ ("SeverityText", texts c.severity_texts)
      ∷ ("SeverityNumber", numbers c.severity_numbers)
      ∷ ("ServiceName", texts c.service_names)
      ∷ ("Body", texts c.bodies)
      ∷ ("BodyType", texts c.body_types)
      ∷ ("LogAttrKeys", lists c.log_attr_keys)
      ∷ ("LogAttrValues", lists c.log_attr_values)
      ∷ ("ResAttrKeys", lists c.res_attr_keys)
      ∷ ("ResAttrValues", lists c.res_attr_values)
      ∷ []

  -- The id's bytes, if there are exactly so many.
  unfoldable pub id_to_bytes : ℕ → String → String → Result Bytes
  id_to_bytes size message s =
      let v = string_bytes s in if length v == size then ok v else err message

  unfoldable pub trace_id_to_bytes : String → Result Bytes
  unfolding id_to_bytes
  trace_id_to_bytes = id_to_bytes 32 "invalid traceId"

  unfoldable pub span_id_to_bytes : String → Result Bytes
  unfolding id_to_bytes
  span_id_to_bytes = id_to_bytes 16 "invalid spanId"

module _ (api : ColumnApi) (conn : Connection api) where
  unfoldable pub insert_records : Store api conn → ColumnBatch api → Store api conn × Option String
  unfolding insert_statement batch_input table
  insert_records s batch = elim (table s.tables table_logs) [
    | err e ↦ (s, some (concat ("failed to get table: " ∷ e ∷ [])))
    | ok tbl ↦
        let (database, failure) =
          conn.execute s.database
            (record { body = insert_statement api tbl; input = batch_input api batch }) in
        (record s { database = database }, failure)
  ]

  -- The appender holds a batch of the pool until its `Flush`.
  unfoldable pub fast_insert : Store api conn → ℕ → Store api conn × ColumnBatch api
  fast_insert s pre_size =
      let (batch, pool) = Pool.get s.batch_pool in
      (record s { batch_pool = pool }, ensure_size api (reset_batch api batch) pre_size)

  -- The deferred `Put` runs whether the insert fails or not.
  unfoldable pub flush : Store api conn → ColumnBatch api → Store api conn × Option String
  unfolding insert_records
  flush s batch =
      let (s', failure) = insert_records s batch in
      (record s' { batch_pool = (Pool.put s'.batch_pool batch).0 }, failure)

  -- One record of `BatchInsert`: the batch after what was appended, and the error that ended it.
  unfoldable pub append_record : FlatLogRecord → ColumnBatch api → ColumnBatch api × Option String
  unfolding trace_id_to_bytes span_id_to_bytes
  append_record r c = elim (trace_id_to_bytes api r.trace_id) [
    | err e ↦ (c, some e)
    | ok trace_id ↦
        let c' = record c { trace_ids = api.append Bytes c.trace_ids trace_id } in
        elim (span_id_to_bytes api r.span_id) [
          | err e ↦ (c', some e)
          | ok span_id ↦ (
            record {
              timestamps = api.append Time c'.timestamps r.timestamp;
              scope_names = api.append String c'.scope_names r.scope_name;
              scope_versions = api.append String c'.scope_versions r.scope_version;
              trace_ids = c'.trace_ids;
              span_ids = api.append Bytes c'.span_ids span_id;
              observed_timestamps = api.append Time c'.observed_timestamps r.observed_timestamp;
              severity_texts = api.append String c'.severity_texts r.severity_text;
              severity_numbers = api.append ℕ c'.severity_numbers r.severity_number;
              service_names = api.append String c'.service_names r.service_name;
              bodies = api.append String c'.bodies r.body;
              body_types = api.append String c'.body_types r.body_type;
              log_attr_keys = api.append (List String) c'.log_attr_keys r.log_attr_keys;
              log_attr_values = api.append (List String) c'.log_attr_values r.log_attr_values;
              res_attr_keys = api.append (List String) c'.res_attr_keys r.res_attr_keys;
              res_attr_values = api.append (List String) c'.res_attr_values r.res_attr_values;
            },
            none,
          )
        ]
  ]

  unfoldable pub append_records :
      List FlatLogRecord → ColumnBatch api → ColumnBatch api × Option String
  unfolding append_record
  append_records [] c = (c, none)
  append_records (r ∷ rs) c =
      let (c', failure) = append_record r c in
      elim failure [ none ↦ append_records rs c' | some e ↦ (c', some e) ]

  -- The rest of `BatchInsert` once its batch is filled.
  unfoldable pub send_records :
      Store api conn → ColumnBatch api × Option String → Store api conn × Option String
  unfolding insert_records
  send_records s (batch, some e) = (s, some e)
  send_records s (batch, none) = insert_records s batch

  unfoldable pub batch_insert : Store api conn → List FlatLogRecord → Store api conn × Option String
  unfolding append_records send_records
  batch_insert s [] = (s, none)
  batch_insert s (r ∷ rs) =
      let (batch, pool) = Pool.get s.batch_pool in
      let filled =
        append_records (r ∷ rs) (ensure_size api (reset_batch api batch) (length (r ∷ rs))) in
      let (s', failure) = send_records (record s { batch_pool = pool }) filled in
      (record s' { batch_pool = (Pool.put s'.batch_pool filled.0).0 }, failure)
