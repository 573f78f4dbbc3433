-- ===== src/Core/Encoding/RoundTrip.antt =====
-- What is written of a row is read back from it.
use logarithm.Prelude.{ℕ, suc, ◌<◌, ◌≡◌, refl, ◌∙◌, [], ◌++◌, arith, length, ok, Bytes}
use logarithm.Prelude.Text.{string_bytes}
use logarithm.Core.Msgp.{Msgp}
use logarithm.Core.Logs.{FlatLogRecord}
use logarithm.Core.Encoding.{unmarshal_msg, read_fields, read_field, marshal_msg}
use logarithm.Core.Encoding.Fields.{
  IsEncodable, read_field-timestamp, read_field-observed_timestamp, read_field-inserted_at,
  read_field-trace_id, read_field-span_id, read_field-severity_text, read_field-severity_number,
  read_field-service_name, read_field-body, read_field-body_type, read_field-scope_name,
  read_field-scope_version, read_field-log_attr_keys, read_field-log_attr_values,
  read_field-res_attr_keys, read_field-res_attr_values,
}
use logarithm.Core.Encoding.Entries.{entries, entry, marshal_msg_lem, entries-append}

module _ (m : Msgp) where
  read_fields-entry :
      (n : ℕ) (z z' : FlatLogRecord) (key value rest : Bytes)
      → 0 < length key
      → length key < 32
      → read_field m z key (value ++ rest) ≡ ok (z', rest)
      → read_fields m (suc n) z (entry m key value rest) ≡ read_fields m n z' rest
  unfolding read_fields
  read_fields-entry n z z' key value rest h' h e =
      rw (m.read_map_key-fixstr key (value ++ rest) h' h, e)

  read_fields-zero : (z : FlatLogRecord) (bts : Bytes) → read_fields m 0 z bts ≡ ok (z, bts)
  unfolding read_fields
  read_fields-zero z bts = refl

  read_fields-entries :
      (z old : FlatLogRecord) (rest : Bytes)
      → IsEncodable z
      → read_fields m 16 old (entries m z rest) ≡ ok (z, rest)
  unfolding string_bytes
  read_fields-entries z old rest h =
      read_fields-entry 15 _ _ (string_bytes "timestamp") _ _ (omega arith) (omega arith)
        (read_field-timestamp m _ z.timestamp _)
      ∙ read_fields-entry 14 _ _ (string_bytes "observedTimestamp") _ _ (omega arith) (omega arith)
          (read_field-observed_timestamp m _ z.observed_timestamp _)
      ∙ read_fields-entry 13 _ _ (string_bytes "insertedAt") _ _ (omega arith) (omega arith)
          (read_field-inserted_at m _ z.inserted_at _)
      ∙ read_fields-entry 12 _ _ (string_bytes "traceId") _ _ (omega arith) (omega arith)
          (read_field-trace_id m _ z.trace_id _ h.trace_id)
      ∙ read_fields-entry 11 _ _ (string_bytes "spanId") _ _ (omega arith) (omega arith)
          (read_field-span_id m _ z.span_id _ h.span_id)
      ∙ read_fields-entry 10 _ _ (string_bytes "severityText") _ _ (omega arith) (omega arith)
          (read_field-severity_text m _ z.severity_text _ h.severity_text)
      ∙ read_fields-entry 9 _ _ (string_bytes "severityNumber") _ _ (omega arith) (omega arith)
          (read_field-severity_number m _ z.severity_number _ h.severity_number)
      ∙ read_fields-entry 8 _ _ (string_bytes "serviceName") _ _ (omega arith) (omega arith)
          (read_field-service_name m _ z.service_name _ h.service_name)
      ∙ read_fields-entry 7 _ _ (string_bytes "body") _ _ (omega arith) (omega arith)
          (read_field-body m _ z.body _ h.body)
      ∙ read_fields-entry 6 _ _ (string_bytes "bodyType") _ _ (omega arith) (omega arith)
          (read_field-body_type m _ z.body_type _ h.body_type)
      ∙ read_fields-entry 5 _ _ (string_bytes "scopeName") _ _ (omega arith) (omega arith)
          (read_field-scope_name m _ z.scope_name _ h.scope_name)
      ∙ read_fields-entry 4 _ _ (string_bytes "scopeVersion") _ _ (omega arith) (omega arith)
          (read_field-scope_version m _ z.scope_version _ h.scope_version)
      ∙ read_fields-entry 3 _ _ (string_bytes "logAttrKeys") _ _ (omega arith) (omega arith)
          (read_field-log_attr_keys m _ z.log_attr_keys _ h.log_attr_keys)
      ∙ read_fields-entry 2 _ _ (string_bytes "logAttrValues") _ _ (omega arith) (omega arith)
          (read_field-log_attr_values m _ z.log_attr_values _ h.log_attr_values)
      ∙ read_fields-entry 1 _ _ (string_bytes "resAttrkeys") _ _ (omega arith) (omega arith)
          (read_field-res_attr_keys m _ z.res_attr_keys _ h.res_attr_keys)
      ∙ read_fields-entry 0 _ _ (string_bytes "resAttrValues") _ _ (omega arith) (omega arith)
          (read_field-res_attr_values m _ z.res_attr_values _ h.res_attr_values)
      ∙ read_fields-zero z rest

  -- A row that is written and then read is the row again, whatever the record held that it is read into,
  -- and what follows it is left over, if its texts and lists have lengths below 2 ^ 32 and its severity
  -- number fits in a byte.
  pub unmarshal_msg-marshal_msg :
      (z old : FlatLogRecord) (rest : Bytes)
      → IsEncodable z
      → unmarshal_msg m old (marshal_msg m z [] ++ rest) ≡ ok (z, rest)
  unfolding unmarshal_msg
  unmarshal_msg-marshal_msg z old rest h =
      rw (marshal_msg_lem m z [], m.read_map_header-map16 0 16, entries-append m z rest)
        (read_fields-entries z old rest h)
