-- ===== src/Storage/Batch/Rows.antt =====
-- The batch as a list of rows: what its columns hold after any appends.
use mathlib.Core.List.{map-append}
use logarithm.Prelude.{
  ℕ, ◌≤◌, String, ◌≡◌, inl, inr, List, [], ◌∷◌, ◌++◌, map, arith, leb, Bool-cases, Bytes,
}
use logarithm.Core.Time.{Time}
use logarithm.Storage.Columns.{ColumnApi}
use logarithm.Storage.Batch.{
  ColumnBatch, LogFields, append_row, reset_batch, hex_encode, ensure_size, capacity,
}

-- A row of the table, with its ids in hexadecimal digits.
pub record Row : Type 0 where
  pub timestamp : Time
  pub scope_name : String
  pub scope_version : String
  pub trace_id : Bytes
  pub span_id : Bytes
  pub observed_timestamp : Time
  pub severity_text : String
  pub severity_number : ℕ
  pub service_name : String
  pub body : String
  pub body_type : String
  pub log_attr_keys : List String
  pub log_attr_values : List String
  pub res_attr_keys : List String
  pub res_attr_values : List String

-- Each column holds its part of the rows, in their order; so all columns are of one length.
pub record Holds (api : ColumnApi) (c : ColumnBatch api) (rows : List Row) : Type 0 where
  pub timestamps : api.rows Time c.timestamps ≡ map (λ r. r.timestamp) rows
  pub scope_names : api.rows String c.scope_names ≡ map (λ r. r.scope_name) rows
  pub scope_versions : api.rows String c.scope_versions ≡ map (λ r. r.scope_version) rows
  pub trace_ids : api.rows Bytes c.trace_ids ≡ map (λ r. r.trace_id) rows
  pub span_ids : api.rows Bytes c.span_ids ≡ map (λ r. r.span_id) rows
  pub observed_timestamps :
      api.rows Time c.observed_timestamps ≡ map (λ r. r.observed_timestamp) rows
  pub severity_texts : api.rows String c.severity_texts ≡ map (λ r. r.severity_text) rows
  pub severity_numbers : api.rows ℕ c.severity_numbers ≡ map (λ r. r.severity_number) rows
  pub service_names : api.rows String c.service_names ≡ map (λ r. r.service_name) rows
  pub bodies : api.rows String c.bodies ≡ map (λ r. r.body) rows
  pub body_types : api.rows String c.body_types ≡ map (λ r. r.body_type) rows
  pub log_attr_keys : api.rows (List String) c.log_attr_keys ≡ map (λ r. r.log_attr_keys) rows
  pub log_attr_values : api.rows (List String) c.log_attr_values ≡ map (λ r. r.log_attr_values) rows
  pub res_attr_keys : api.rows (List String) c.res_attr_keys ≡ map (λ r. r.res_attr_keys) rows
  pub res_attr_values : api.rows (List String) c.res_attr_values ≡ map (λ r. r.res_attr_values) rows

module _ (api : ColumnApi) where
  -- One column: a value appended to what holds the parts of `rows`.
  append-column :
      (A : Type 0) (part : Row → A) (rows : List Row) (c : api.Col A) (r : Row)
      → api.rows A c ≡ map part rows
      → api.rows A (api.append A c (part r)) ≡ map part (rows ++ r ∷ [])
  append-column A part rows c r h = rw (api.rows-append A c (part r), h, map-append)

  -- A row appended column by column.
  abbrev pub append_all : Row → ColumnBatch api → ColumnBatch api
  append_all r c = record {
    timestamps = api.append Time c.timestamps r.timestamp;
    scope_names = api.append String c.scope_names r.scope_name;
    scope_versions = api.append String c.scope_versions r.scope_version;
    trace_ids = api.append Bytes c.trace_ids r.trace_id;
    span_ids = api.append Bytes c.span_ids r.span_id;
    observed_timestamps = api.append Time c.observed_timestamps r.observed_timestamp;
    severity_texts = api.append String c.severity_texts r.severity_text;
    severity_numbers = api.append ℕ c.severity_numbers r.severity_number;
    service_names = api.append String c.service_names r.service_name;
    bodies = api.append String c.bodies r.body;
    body_types = api.append String c.body_types r.body_type;
    log_attr_keys = api.append (List String) c.log_attr_keys r.log_attr_keys;
    log_attr_values = api.append (List String) c.log_attr_values r.log_attr_values;
    res_attr_keys = api.append (List String) c.res_attr_keys r.res_attr_keys;
    res_attr_values = api.append (List String) c.res_attr_values r.res_attr_values;
  }

  pub append_all-Holds :
      (r : Row) (c : ColumnBatch api) (rows : List Row)
      → Holds api c rows
      → Holds api (append_all r c) (rows ++ r ∷ [])
  append_all-Holds r c rows h = record {
    timestamps = append-column Time (λ r. r.timestamp) rows c.timestamps r h.timestamps;
    scope_names = append-column String (λ r. r.scope_name) rows c.scope_names r h.scope_names;
    scope_versions =
        append-column String (λ r. r.scope_version) rows c.scope_versions r h.scope_versions;
    trace_ids = append-column Bytes (λ r. r.trace_id) rows c.trace_ids r h.trace_ids;
    span_ids = append-column Bytes (λ r. r.span_id) rows c.span_ids r h.span_ids;
    observed_timestamps =
        append-column Time (λ r. r.observed_timestamp) rows c.observed_timestamps r
          h.observed_timestamps;
    severity_texts =
        append-column String (λ r. r.severity_text) rows c.severity_texts r h.severity_texts;
    severity_numbers =
        append-column ℕ (λ r. r.severity_number) rows c.severity_numbers r h.severity_numbers;
    service_names =
        append-column String (λ r. r.service_name) rows c.service_names r h.service_names;
    bodies = append-column String (λ r. r.body) rows c.bodies r h.bodies;
    body_types = append-column String (λ r. r.body_type) rows c.body_types r h.body_types;
    log_attr_keys =
        append-column (List String) (λ r. r.log_attr_keys) rows c.log_attr_keys r h.log_attr_keys;
    log_attr_values =
        append-column (List String) (λ r. r.log_attr_values) rows c.log_attr_values r
          h.log_attr_values;
    res_attr_keys =
        append-column (List String) (λ r. r.res_attr_keys) rows c.res_attr_keys r h.res_attr_keys;
    res_attr_values =
        append-column (List String) (λ r. r.res_attr_values) rows c.res_attr_values r
          h.res_attr_values;
  }

  -- The row of one `Append`.
  abbrev pub row_of :
      Time
      → Time
      → ℕ
      → Bytes
      → Bytes
      → List String
      → List String
      → List String
      → List String
      → LogFields
      → Row
  row_of timestamp observed severity trace_id span_id log_keys log_values res_keys res_values
        fields =
      record {
        timestamp = timestamp;
        scope_name = fields.scope_name;
        scope_version = fields.scope_version;
        trace_id = hex_encode trace_id;
        span_id = hex_encode span_id;
        observed_timestamp = observed;
        severity_text = fields.severity_text;
        severity_number = severity;
        service_name = fields.service_name;
        body = fields.body;
        body_type = fields.body_type;
        log_attr_keys = log_keys;
        log_attr_values = log_values;
        res_attr_keys = res_keys;
        res_attr_values = res_values;
      }

  -- On a batch that holds some rows, an append makes it hold one more row, the last, with the
  -- arguments in their columns and the two ids in hexadecimal.
  pub append_row-Holds :
      (t o : Time) (n : ℕ) (trace_id span_id : Bytes) (lk lv rk rv : List String) (f : LogFields)
      (c : ColumnBatch api) (rows : List Row)
      → Holds api c rows
      → Holds api
          (append_row api t o n trace_id span_id lk lv rk rv f c)
          (rows ++ row_of t o n trace_id span_id lk lv rk rv f ∷ [])
  unfolding append_row
  append_row-Holds t o n trace_id span_id lk lv rk rv f c rows h =
      append_all-Holds (row_of t o n trace_id span_id lk lv rk rv f) c rows h

  reset_batch-Holds : (c : ColumnBatch api) → Holds api (reset_batch api c) []
  unfolding reset_batch
  reset_batch-Holds c = record {
    timestamps = api.rows-reset Time c.timestamps;
    scope_names = api.rows-reset String c.scope_names;
    scope_versions = api.rows-reset String c.scope_versions;
    trace_ids = api.rows-reset Bytes c.trace_ids;
    span_ids = api.rows-reset Bytes c.span_ids;
    observed_timestamps = api.rows-reset Time c.observed_timestamps;
    severity_texts = api.rows-reset String c.severity_texts;
    severity_numbers = api.rows-reset ℕ c.severity_numbers;
    service_names = api.rows-reset String c.service_names;
    bodies = api.rows-reset String c.bodies;
    body_types = api.rows-reset String c.body_types;
    log_attr_keys = api.rows-reset (List String) c.log_attr_keys;
    log_attr_values = api.rows-reset (List String) c.log_attr_values;
    res_attr_keys = api.rows-reset (List String) c.res_attr_keys;
    res_attr_values = api.rows-reset (List String) c.res_attr_values;
  }

  ensure_size-Holds :
      (c : ColumnBatch api) (n : ℕ) → Holds api c [] → Holds api (ensure_size api c n) []
  unfolding ensure_size
  ensure_size-Holds c n h = elim (Bool-cases (leb n (api.cap Time c.timestamps))) [
    | inl enough ↦ rw enough h
    | inr grown ↦ rw grown (record {
      timestamps = api.rows-presize Time c.timestamps n h.timestamps;
      scope_names = api.rows-presize String c.scope_names n h.scope_names;
      scope_versions = api.rows-presize String c.scope_versions n h.scope_versions;
      trace_ids = api.rows-presize Bytes c.trace_ids n h.trace_ids;
      span_ids = api.rows-presize Bytes c.span_ids n h.span_ids;
      observed_timestamps = api.rows-presize Time c.observed_timestamps n h.observed_timestamps;
      severity_texts = api.rows-presize String c.severity_texts n h.severity_texts;
      severity_numbers = api.rows-presize ℕ c.severity_numbers n h.severity_numbers;
      service_names = api.rows-presize String c.service_names n h.service_names;
      bodies = api.rows-presize String c.bodies n h.bodies;
      body_types = api.rows-presize String c.body_types n h.body_types;
      log_attr_keys = api.rows-presize (List String) c.log_attr_keys n h.log_attr_keys;
      log_attr_values = api.rows-presize (List String) c.log_attr_values n h.log_attr_values;
      res_attr_keys = api.rows-presize (List String) c.res_attr_keys n h.res_attr_keys;
      res_attr_values = api.rows-presize (List String) c.res_attr_values n h.res_attr_values;
    })
  ]

  -- A batch that is reset and sized holds no row, whatever it held, and has the room asked for.
  pub ensure_size-reset_batch :
      (c : ColumnBatch api) (n : ℕ)
      → Holds api (ensure_size api (reset_batch api c) n) []
        × (n ≤ capacity api (ensure_size api (reset_batch api c) n))
  unfolding ensure_size
  ensure_size-reset_batch c n = (
    ensure_size-Holds (reset_batch api c) n (reset_batch-Holds c),
    ground (arith, api.cap-presize Time (reset_batch api c).timestamps n),
  )
