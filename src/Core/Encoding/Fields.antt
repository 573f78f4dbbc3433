-- ===== src/Core/Encoding/Fields.antt =====
-- What each read of a row's field gives back, and on which rows.
use logarithm.Prelude.{
  ℕ, ◌+◌, ◌%◌, ◌^◌, ◌<◌, String, ◌≡◌, refl, List, [], ◌∷◌, ◌++◌, arith, length, All, ok, Bytes,
}
use mathlib.Core.List.{append_assoc}
use logarithm.Prelude.Text.{string_bytes}
use logarithm.Core.Msgp.{Msgp}
use logarithm.Core.Encoding.{read_strings, read_array, read_field}
use logarithm.Core.Logs.{FlatLogRecord}
use logarithm.Core.Encoding.Entries.{array_encoding, strings_encoding}
use logarithm.Core.Time.{Time}

-- A text, and a list of texts, whose lengths fit in 32 bits.
abbrev pub IsShort : String → Type 0
IsShort s = length (string_bytes s) < 2 ^ 32

pub record IsShortList (l : List String) : Type 0 where
  pub count : length l < 2 ^ 32
  pub each : All IsShort l

-- A row whose texts and lists have lengths below 2 ^ 32, and whose severity is a byte.
pub record IsEncodable (z : FlatLogRecord) : Type 0 where
  pub trace_id : IsShort z.trace_id
  pub span_id : IsShort z.span_id
  pub severity_text : IsShort z.severity_text
  pub severity_number : z.severity_number < 256
  pub service_name : IsShort z.service_name
  pub body : IsShort z.body
  pub body_type : IsShort z.body_type
  pub scope_name : IsShort z.scope_name
  pub scope_version : IsShort z.scope_version
  pub log_attr_keys : IsShortList z.log_attr_keys
  pub log_attr_values : IsShortList z.log_attr_values
  pub res_attr_keys : IsShortList z.res_attr_keys
  pub res_attr_values : IsShortList z.res_attr_values

module _ (m : Msgp) where
  pub read_strings_lem :
      (name : String) (i : ℕ) (l : List String) (rest : Bytes)
      → All IsShort l
      → read_strings m name i (length l) (strings_encoding m l ++ rest) ≡ ok (l, rest)
  unfolding read_strings
  read_strings_lem name i [] rest h = refl
  read_strings_lem name i (s ∷ ss) rest (h, hs) = rw (
    append_assoc (m.string_encoding s) (strings_encoding m ss) rest,
    m.read_string_lem s (strings_encoding m ss ++ rest) h,
    read_strings_lem name (i + 1) ss rest hs,
  )

  pub read_array_lem :
      (name : String) (l : List String) (rest : Bytes)
      → IsShortList l
      → read_array m name (array_encoding m l ++ rest) ≡ ok (l, rest)
  unfolding read_array
  read_array_lem name l rest h =
      let e : length l % 2 ^ 32 ≡ length l = omega (arith, h.count) in
      rw (
        e,
        append_assoc (m.array_header_encoding (length l)) (strings_encoding m l) rest,
        m.read_array_header_lem (length l) (strings_encoding m l ++ rest) h.count,
        read_strings_lem name 0 l rest h.each,
      )

  -- Each key of the row stores its value.
  pub read_field-timestamp :
      (z : FlatLogRecord) (v : Time) (rest : Bytes)
      → read_field m z (string_bytes "timestamp") (m.time_encoding v ++ rest)
        ≡ ok (record z { timestamp = v }, rest)
  unfolding read_field string_bytes
  read_field-timestamp z v rest = rw (m.read_time_lem v rest) refl

  pub read_field-observed_timestamp :
      (z : FlatLogRecord) (v : Time) (rest : Bytes)
      → read_field m z (string_bytes "observedTimestamp") (m.time_encoding v ++ rest)
        ≡ ok (record z { observed_timestamp = v }, rest)
  unfolding read_field string_bytes
  read_field-observed_timestamp z v rest = rw (m.read_time_lem v rest) refl

  pub read_field-inserted_at :
      (z : FlatLogRecord) (v : Time) (rest : Bytes)
      → read_field m z (string_bytes "insertedAt") (m.time_encoding v ++ rest)
        ≡ ok (record z { inserted_at = v }, rest)
  unfolding read_field string_bytes
  read_field-inserted_at z v rest = rw (m.read_time_lem v rest) refl

  pub read_field-trace_id :
      (z : FlatLogRecord) (v : String) (rest : Bytes)
      → IsShort v
      → read_field m z (string_bytes "traceId") (m.string_encoding v ++ rest)
        ≡ ok (record z { trace_id = v }, rest)
  unfolding read_field string_bytes
  read_field-trace_id z v rest h = rw (m.read_string_lem v rest h) refl

  pub read_field-span_id :
      (z : FlatLogRecord) (v : String) (rest : Bytes)
      → IsShort v
      → read_field m z (string_bytes "spanId") (m.string_encoding v ++ rest)
        ≡ ok (record z { span_id = v }, rest)
  unfolding read_field string_bytes
  read_field-span_id z v rest h = rw (m.read_string_lem v rest h) refl

  pub read_field-severity_text :
      (z : FlatLogRecord) (v : String) (rest : Bytes)
      → IsShort v
      → read_field m z (string_bytes "severityText") (m.string_encoding v ++ rest)
        ≡ ok (record z { severity_text = v }, rest)
  unfolding read_field string_bytes
  read_field-severity_text z v rest h = rw (m.read_string_lem v rest h) refl

  pub read_field-severity_number :
      (z : FlatLogRecord) (v : ℕ) (rest : Bytes)
      → v < 256
      → read_field m z (string_bytes "severityNumber") (m.uint8_encoding v ++ rest)
        ≡ ok (record z { severity_number = v }, rest)
  unfolding read_field string_bytes
  read_field-severity_number z v rest h = rw (m.read_uint8_lem v rest h) refl

  pub read_field-service_name :
      (z : FlatLogRecord) (v : String) (rest : Bytes)
      → IsShort v
      → read_field m z (string_bytes "serviceName") (m.string_encoding v ++ rest)
        ≡ ok (record z { service_name = v }, rest)
  unfolding read_field string_bytes
  read_field-service_name z v rest h = rw (m.read_string_lem v rest h) refl

  pub read_field-body :
      (z : FlatLogRecord) (v : String) (rest : Bytes)
      → IsShort v
      → read_field m z (string_bytes "body") (m.string_encoding v ++ rest)
        ≡ ok (record z { body = v }, rest)
  unfolding read_field string_bytes
  read_field-body z v rest h = rw (m.read_string_lem v rest h) refl

  pub read_field-body_type :
      (z : FlatLogRecord) (v : String) (rest : Bytes)
      → IsShort v
      → read_field m z (string_bytes "bodyType") (m.string_encoding v ++ rest)
        ≡ ok (record z { body_type = v }, rest)
  unfolding read_field string_bytes
  read_field-body_type z v rest h = rw (m.read_string_lem v rest h) refl

  pub read_field-scope_name :
      (z : FlatLogRecord) (v : String) (rest : Bytes)
      → IsShort v
      → read_field m z (string_bytes "scopeName") (m.string_encoding v ++ rest)
        ≡ ok (record z { scope_name = v }, rest)
  unfolding read_field string_bytes
  read_field-scope_name z v rest h = rw (m.read_string_lem v rest h) refl

  pub read_field-scope_version :
      (z : FlatLogRecord) (v : String) (rest : Bytes)
      → IsShort v
      → read_field m z (string_bytes "scopeVersion") (m.string_encoding v ++ rest)
        ≡ ok (record z { scope_version = v }, rest)
  unfolding read_field string_bytes
  read_field-scope_version z v rest h = rw (m.read_string_lem v rest h) refl

  pub read_field-log_attr_keys :
      (z : FlatLogRecord) (v : List String) (rest : Bytes)
      → IsShortList v
      → read_field m z (string_bytes "logAttrKeys") (array_encoding m v ++ rest)
        ≡ ok (record z { log_attr_keys = v }, rest)
  unfolding read_field string_bytes
  read_field-log_attr_keys z v rest h = rw (read_array_lem "LogAttrKeys" v rest h) refl

  pub read_field-log_attr_values :
      (z : FlatLogRecord) (v : List String) (rest : Bytes)
      → IsShortList v
      → read_field m z (string_bytes "logAttrValues") (array_encoding m v ++ rest)
        ≡ ok (record z { log_attr_values = v }, rest)
  unfolding read_field string_bytes
  read_field-log_attr_values z v rest h = rw (read_array_lem "LogAttrValues" v rest h) refl

  pub read_field-res_attr_keys :
      (z : FlatLogRecord) (v : List String) (rest : Bytes)
      → IsShortList v
      → read_field m z (string_bytes "resAttrkeys") (array_encoding m v ++ rest)
        ≡ ok (record z { res_attr_keys = v }, rest)
  unfolding read_field string_bytes
  read_field-res_attr_keys z v rest h = rw (read_array_lem "ResAttrKeys" v rest h) refl

  pub read_field-res_attr_values :
      (z : FlatLogRecord) (v : List String) (rest : Bytes)
      → IsShortList v
      → read_field m z (string_bytes "resAttrValues") (array_encoding m v ++ rest)
        ≡ ok (record z { res_attr_values = v }, rest)
  unfolding read_field string_bytes
  read_field-res_attr_values z v rest h = rw (read_array_lem "ResAttrValues" v rest h) refl
