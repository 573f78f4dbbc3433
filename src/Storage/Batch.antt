-- ===== src/Storage/Batch.antt =====
-- The column batch and the appender of backend/internal/storage/insert.go.
pub mod Rows
use logarithm.Prelude.{ℕ, ◌+◌, ◌-◌, ◌/◌, ◌%◌, String, List, [], ◌∷◌, ltb, leb, if◌then◌else◌, Bytes}
use logarithm.Core.Time.{Time}
use logarithm.Storage.Columns.{ColumnApi}

pub record LogFields : Type 0 where
  pub scope_name : String
  pub scope_version : String
  pub severity_text : String
  pub service_name : String
  pub body : String
  pub body_type : String

-- encoding/hex: two lower case digits for each byte.
hex_digit : ℕ → ℕ
hex_digit n = if ltb n 10 then b'0' + n else b'a' + (n - 10)

unfoldable pub hex_encode : Bytes → Bytes
unfolding hex_digit
hex_encode [] = []
hex_encode (b ∷ bs) = hex_digit (b / 16) ∷ hex_digit (b % 16) ∷ hex_encode bs

module _ (api : ColumnApi) where
  open api use {Col, append, reset, presize, fresh, cap}

  pub record ColumnBatch : Type 0 where
    pub timestamps : Col Time
    pub scope_names : Col String
    pub scope_versions : Col String
    pub trace_ids : Col Bytes
    pub span_ids : Col Bytes
    pub observed_timestamps : Col Time
    pub severity_texts : Col String
    pub severity_numbers : Col ℕ
    pub service_names : Col String
    pub bodies : Col String
    pub body_types : Col String
    pub log_attr_keys : Col (List String)
    pub log_attr_values : Col (List String)
    pub res_attr_keys : Col (List String)
    pub res_attr_values : Col (List String)

  unfoldable pub new_column_batch : ColumnBatch
  new_column_batch = record {
    timestamps = fresh Time;
    scope_names = fresh String;
    scope_versions = fresh String;
    trace_ids = fresh Bytes;
    span_ids = fresh Bytes;
    observed_timestamps = fresh Time;
    severity_texts = fresh String;
    severity_numbers = fresh ℕ;
    service_names = fresh String;
    bodies = fresh String;
    body_types = fresh String;
    log_attr_keys = fresh (List String);
    log_attr_values = fresh (List String);
    res_attr_keys = fresh (List String);
    res_attr_values = fresh (List String);
  }

  -- `Reset`
  unfoldable pub reset_batch : ColumnBatch → ColumnBatch
  reset_batch c = record {
    timestamps = reset Time c.timestamps;
    scope_names = reset String c.scope_names;
    scope_versions = reset String c.scope_versions;
    trace_ids = reset Bytes c.trace_ids;
    span_ids = reset Bytes c.span_ids;
    observed_timestamps = reset Time c.observed_timestamps;
    severity_texts = reset String c.severity_texts;
    severity_numbers = reset ℕ c.severity_numbers;
    service_names = reset String c.service_names;
    bodies = reset String c.bodies;
    body_types = reset String c.body_types;
    log_attr_keys = reset (List String) c.log_attr_keys;
    log_attr_values = reset (List String) c.log_attr_values;
    res_attr_keys = reset (List String) c.res_attr_keys;
    res_attr_values = reset (List String) c.res_attr_values;
  }

  -- `Capacity`
  unfoldable pub capacity : ColumnBatch → ℕ
  capacity c = cap Time c.timestamps

  unfoldable pub ensure_size : ColumnBatch → ℕ → ColumnBatch
  unfolding capacity
  ensure_size c target_rows = if leb target_rows (capacity c) then c else record {
    timestamps = presize Time c.timestamps target_rows;
    scope_names = presize String c.scope_names target_rows;
    scope_versions = presize String c.scope_versions target_rows;
    trace_ids = presize Bytes c.trace_ids target_rows;
    span_ids = presize Bytes c.span_ids target_rows;
    observed_timestamps = presize Time c.observed_timestamps target_rows;
    severity_texts = presize String c.severity_texts target_rows;
    severity_numbers = presize ℕ c.severity_numbers target_rows;
    service_names = presize String c.service_names target_rows;
    bodies = presize String c.bodies target_rows;
    body_types = presize String c.body_types target_rows;
    log_attr_keys = presize (List String) c.log_attr_keys target_rows;
    log_attr_values = presize (List String) c.log_attr_values target_rows;
    res_attr_keys = presize (List String) c.res_attr_keys target_rows;
    res_attr_values = presize (List String) c.res_attr_values target_rows;
  }

  -- `Append` of the appender, under its lock.
  unfoldable pub append_row :
      Time
      → Time
      → ℕ
      → Bytes
      → Bytes
      → List String
      → List String
      → List String
      → List String
      → LogFields
      → ColumnBatch
      → ColumnBatch
  unfolding hex_encode
  append_row timestamp observed severity trace_id span_id log_keys log_values res_keys res_values
        fields c =
      record {
        timestamps = append Time c.timestamps timestamp;
        scope_names = append String c.scope_names fields.scope_name;
        scope_versions = append String c.scope_versions fields.scope_version;
        trace_ids = append Bytes c.trace_ids (hex_encode trace_id);
        span_ids = append Bytes c.span_ids (hex_encode span_id);
        observed_timestamps = append Time c.observed_timestamps observed;
        severity_texts = append String c.severity_texts fields.severity_text;
        severity_numbers = append ℕ c.severity_numbers severity;
        service_names = append String c.service_names fields.service_name;
        bodies = append String c.bodies fields.body;
        body_types = append String c.body_types fields.body_type;
        log_attr_keys = append (List String) c.log_attr_keys log_keys;
        log_attr_values = append (List String) c.log_attr_values log_values;
        res_attr_keys = append (List String) c.res_attr_keys res_keys;
        res_attr_values = append (List String) c.res_attr_values res_values;
      }
