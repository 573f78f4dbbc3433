-- ===== src/Core/Logs.antt =====
-- backend/internal/core/logs.go and flat_log.go: log records as rows and as the API shows them.
pub mod Attributes
use logarithm.Prelude.{
  ℕ, ◌+◌, String, Bool, ◌||◌, List, [], ◌∷◌, map, str_eq, ltb, if◌then◌else◌, length, get_or,
}
use logarithm.Prelude.Int.{ℤ}
use logarithm.Core.Time.{Time}

pub record KeyValue : Type 0 where
  pub key : String
  pub value : String

pub record LogRecord : Type 0 where
  pub timestamp : Time
  pub observed_timestamp : Time
  pub trace_id : String
  pub span_id : String
  pub severity_text : String
  pub severity_number : ℕ
  pub service_name : String
  pub body : String
  pub body_type : String
  pub scope_name : String
  pub scope_version : String
  pub log_attributes : List KeyValue
  pub resource_attributes : List KeyValue

pub record FlatLogRecord : Type 0 where
  pub timestamp : Time
  pub observed_timestamp : Time
  pub inserted_at : Time
  pub trace_id : String
  pub span_id : String
  pub severity_text : String
  pub severity_number : ℕ
  pub service_name : String
  pub body : String
  pub body_type : String
  pub scope_name : String
  pub scope_version : String
  pub log_attr_keys : List String
  pub log_attr_values : List String
  pub res_attr_keys : List String
  pub res_attr_values : List String

-- `OrderByField` is a string type in the source.
abbrev pub OrderByField : Type 0
OrderByField = String

abbrev pub order_by_timestamp : OrderByField
order_by_timestamp = "Timestamp"

abbrev pub order_by_service_name : OrderByField
order_by_service_name = "ServiceName"

pub record LogQueryFilter : Type 0 where
  pub start_time : Time
  pub end_time : Time
  pub service_name : String
  pub severity_number : ℤ
  pub severity_text : String
  pub trace_id : String
  pub span_id : String
  pub body : String
  pub limit : ℤ
  pub offset : ℤ
  pub order_by : OrderByField
  pub descending : Bool

unfoldable pub parse_order_by_field : String → OrderByField
parse_order_by_field s =
    if str_eq s order_by_timestamp || str_eq s order_by_service_name then s else ""

-- The loop over the keys, of which this is number `i`: a key past the end of the values gets "".
unfoldable pub pair_attributes : ℕ → List String → List String → List KeyValue
pair_attributes i [] values = []
pair_attributes i (key ∷ keys) values =
    let value = if ltb i (length values) then get_or values i "" else "" in
    record { key = key; value = value } ∷ pair_attributes (i + 1) keys values

unfoldable pub unflatten_log_record : FlatLogRecord → LogRecord
unfolding pair_attributes
unflatten_log_record flat = record {
  timestamp = flat.timestamp;
  observed_timestamp = flat.observed_timestamp;
  trace_id = flat.trace_id;
  span_id = flat.span_id;
  severity_text = flat.severity_text;
  severity_number = flat.severity_number;
  service_name = flat.service_name;
  body = flat.body;
  body_type = flat.body_type;
  scope_name = flat.scope_name;
  scope_version = flat.scope_version;
  log_attributes = pair_attributes 0 flat.log_attr_keys flat.log_attr_values;
  resource_attributes = pair_attributes 0 flat.res_attr_keys flat.res_attr_values;
}

unfoldable pub unflatten_log_records : List FlatLogRecord → List LogRecord
unfolding unflatten_log_record
unflatten_log_records flats = map unflatten_log_record flats
