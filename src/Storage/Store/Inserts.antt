-- ===== src/Storage/Store/Inserts.antt =====
-- What reaches the database from the two ways to insert, and what goes back to the pool.
use mathlib.Core.List.{append-nil, append_assoc}
use logarithm.Prelude.{
  ℕ, ◌≤◌, String, ◌≡◌, refl, ap, ◌∙◌, inl, inr, Bool, true, false, ◌&&◌, Option, none, some, List,
  [], ◌∷◌, ◌++◌, map, arith, ◌==◌, if◌then◌else◌, Bool-cases, length, ok,
}
use logarithm.Prelude.Text.{string_bytes}
use logarithm.Pool
use logarithm.Pool.Bounds.{IsValid, put-IsValid}
use logarithm.Core.Logs.{FlatLogRecord}
use logarithm.Storage.Columns.{ColumnApi}
use logarithm.Storage.Batch.{ColumnBatch, capacity, reset_batch, ensure_size}
use logarithm.Storage.Batch.Rows.{Row, Holds, ensure_size-reset_batch, append_all, append_all-Holds}
use logarithm.Storage.Store.{
  Store, Connection, insert_statement, batch_input, insert_records, fast_insert, flush,
  append_record, append_records, send_records, batch_insert,
}
use logarithm.Storage.Tables.{table, table_logs}

-- A record whose ids have the lengths of their columns.
abbrev pub is_insertable : FlatLogRecord → Bool
is_insertable r = length (string_bytes r.trace_id) == 32 && length (string_bytes r.span_id) == 16

abbrev pub all_insertable : List FlatLogRecord → Bool
all_insertable [] = true
all_insertable (r ∷ rs) = is_insertable r && all_insertable rs

-- The row of a record; its ids are texts of hexadecimal digits already.
abbrev pub record_row : FlatLogRecord → Row
record_row r = record {
  timestamp = r.timestamp;
  scope_name = r.scope_name;
  scope_version = r.scope_version;
  trace_id = string_bytes r.trace_id;
  span_id = string_bytes r.span_id;
  observed_timestamp = r.observed_timestamp;
  severity_text = r.severity_text;
  severity_number = r.severity_number;
  service_name = r.service_name;
  body = r.body;
  body_type = r.body_type;
  log_attr_keys = r.log_attr_keys;
  log_attr_values = r.log_attr_values;
  res_attr_keys = r.res_attr_keys;
  res_attr_values = r.res_attr_values;
}

module _ (api : ColumnApi) (conn : Connection api) where
  -- Whatever the pool holds, a fast insert starts with a batch of no rows, with room for the rows
  -- asked for; the database is as before.
  pub fast_insert_lem :
      (s : Store api conn) (n : ℕ)
      → Holds api (fast_insert api conn s n).1 []
        × (n ≤ capacity api (fast_insert api conn s n).1)
        × ((fast_insert api conn s n).0.database ≡ s.database)
  unfolding fast_insert
  fast_insert_lem s n =
      let sized = ensure_size-reset_batch api (Pool.get s.batch_pool).0 n in
      (sized.0, sized.1, refl)

  append_record_accepted :
      (r : FlatLogRecord) (c : ColumnBatch api)
      → is_insertable r ≡ true
      → append_record api conn r c ≡ (append_all api (record_row r) c, none)
  unfolding append_record
  append_record_accepted r c h = ground arith

  -- The error of a record that is refused.
  abbrev refusal : FlatLogRecord → String
  refusal r = if length (string_bytes r.trace_id) == 32 then "invalid spanId" else "invalid traceId"

  append_record_refused :
      (r : FlatLogRecord) (c : ColumnBatch api)
      → is_insertable r ≡ false
      → (append_record api conn r c).1 ≡ some (refusal r)
  unfolding append_record
  append_record_refused r c h = ground arith

  append_records_step :
      (r : FlatLogRecord) (rs : List FlatLogRecord) (c : ColumnBatch api)
      → is_insertable r ≡ true
      → append_records api conn (r ∷ rs) c
        ≡ append_records api conn rs (append_all api (record_row r) c)
  unfolding append_records
  append_records_step r rs c h =
      rw (append_records, append_record_accepted r c h) (rw (append_record_accepted r c h))

  append_records-Holds :
      (rs : List FlatLogRecord) (c : ColumnBatch api) (rows : List Row)
      → all_insertable rs ≡ true
      → Holds api c rows
      → Holds api (append_records api conn rs c).0 (rows ++ map record_row rs)
        × ((append_records api conn rs c).1 ≡ none)
  append_records-Holds [] c rows h v = unfold append_records in (rw append-nil v, refl)
  append_records-Holds (r ∷ rs) c rows h v =
      rw (append_records_step r rs c (ground arith), ← append_assoc rows (record_row r ∷ []))
        (append_records-Holds rs (append_all api (record_row r) c) (rows ++ record_row r ∷ [])
          (ground arith) (append_all-Holds api (record_row r) c rows v))

  append_records_refused :
      (rs : List FlatLogRecord) (c : ColumnBatch api)
      → all_insertable rs ≡ false
      → (e : String) × ((append_records api conn rs c).1 ≡ some e)
  append_records_refused [] c h = absurd (cc)
  append_records_refused (r ∷ rs) c h = elim (Bool-cases (is_insertable r)) [
    | inl good ↦
        rw (append_records_step r rs c good)
          (append_records_refused rs (append_all api (record_row r) c) (ground arith))
    | inr bad ↦
        (refusal r, unfold append_records in rw (append_records, append_record_refused r c bad))
  ]

  -- The batch that a batch insert fills, with the error that ended it.
  abbrev filled : Store api conn → List FlatLogRecord → ColumnBatch api × Option String
  filled s rs =
      append_records api conn rs
        (ensure_size api (reset_batch api (Pool.get s.batch_pool).0) (length rs))

  database-send_records :
      (s : Store api conn) (f : ColumnBatch api × Option String) (e : String)
      → f.1 ≡ some e
      → send_records api conn s f ≡ (s, some e)
  unfolding send_records
  database-send_records s (c, failure) e h = rw (h, send_records)

  -- If one id of the records has not the length of its column, nothing is sent: the call fails and
  -- the database is as before.
  pub batch_insert_refused :
      (s : Store api conn) (rs : List FlatLogRecord)
      → all_insertable rs ≡ false
      → (e : String) × ((batch_insert api conn s rs).1 ≡ some e)
        × ((batch_insert api conn s rs).0.database ≡ s.database)
  unfolding batch_insert
  batch_insert_refused s [] h = absurd (cc)
  batch_insert_refused s (r ∷ rs) h =
      let (e, failed) =
        append_records_refused (r ∷ rs)
          (ensure_size api (reset_batch api (Pool.get s.batch_pool).0) (length (r ∷ rs))) h in
      let sent =
        database-send_records (record s { batch_pool = (Pool.get s.batch_pool).1 })
          (filled s (r ∷ rs)) e failed in
      (e, ap (λ x. x.1) sent, ap (λ x. x.0.database) sent)

  -- What the insert of a batch into a known table comes to.
  abbrev pub sent : Store api conn → String → ColumnBatch api → Store api conn × Option String
  sent s tbl batch =
      let (database, failure) =
        conn.execute s.database
          (record { body = insert_statement api tbl; input = batch_input api batch }) in
      (record s { database = database }, failure)

  insert_records-sent :
      (s : Store api conn) (tbl : String) (batch : ColumnBatch api)
      → table s.tables table_logs ≡ ok tbl
      → insert_records api conn s batch ≡ sent s tbl batch
  unfolding insert_records
  insert_records-sent s tbl batch known = rw (insert_records, known)

  send_records-sent :
      (s : Store api conn) (f : ColumnBatch api × Option String)
      → f.1 ≡ none
      → send_records api conn s f ≡ insert_records api conn s f.0
  unfolding send_records
  send_records-sent s (c, failure) e = rw (e, send_records)

  -- If all ids fit their columns and the table of the logs is known, exactly one query runs: it
  -- inserts into that table a batch of exactly the rows of the records, in their order, and the call
  -- returns what the query returns.
  pub batch_insert-sent :
      (s : Store api conn) (r : FlatLogRecord) (rs : List FlatLogRecord) (tbl : String)
      → all_insertable (r ∷ rs) ≡ true
      → table s.tables table_logs ≡ ok tbl
      → (batch : ColumnBatch api) × Holds api batch (map record_row (r ∷ rs))
        × ((batch_insert api conn s (r ∷ rs)).0.database ≡ (sent s tbl batch).0.database)
        × ((batch_insert api conn s (r ∷ rs)).1 ≡ (sent s tbl batch).1)
  unfolding batch_insert
  batch_insert-sent s r rs tbl h known =
      let sized = ensure_size-reset_batch api (Pool.get s.batch_pool).0 (length (r ∷ rs)) in
      let full = append_records-Holds (r ∷ rs) _ [] h sized.0 in
      let s' = record s { batch_pool = (Pool.get s.batch_pool).1 } in
      let done =
        send_records-sent s' (filled s (r ∷ rs)) full.1
        ∙ insert_records-sent s' tbl (filled s (r ∷ rs)).0 known in
      ((filled s (r ∷ rs)).0, full.0, ap (λ x. x.0.database) done, ap (λ x. x.1) done)

  insert_records-pool :
      (s : Store api conn) (batch : ColumnBatch api)
      → (insert_records api conn s batch).0.batch_pool ≡ s.batch_pool
  unfolding insert_records
  insert_records-pool s batch = ground arith

  -- A flush sends its batch to the table of the logs, if that is known, and puts the batch back into
  -- the pool; the pool keeps its bound and its reuse check. All this whether the query fails or not.
  pub flush-sent :
      (s : Store api conn) (tbl : String) (batch : ColumnBatch api)
      → table s.tables table_logs ≡ ok tbl
      → IsValid s.batch_pool
      → ((flush api conn s batch).0.database ≡ (sent s tbl batch).0.database)
        × ((flush api conn s batch).1 ≡ (sent s tbl batch).1)
        × ((flush api conn s batch).0.batch_pool ≡ (Pool.put s.batch_pool batch).0)
        × IsValid (flush api conn s batch).0.batch_pool
  unfolding flush
  flush-sent s tbl batch known v = (
    ap (λ x. x.0.database) (insert_records-sent s tbl batch known),
    ap (λ x. x.1) (insert_records-sent s tbl batch known),
    ap (λ p. (Pool.put p batch).0) (insert_records-pool s batch),
    rw insert_records-pool (put-IsValid s.batch_pool batch v),
  )
