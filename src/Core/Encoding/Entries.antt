-- ===== src/Core/Encoding/Entries.antt =====
-- A written row is a header and one entry for each field.
use logarithm.Prelude.{
  ◌+◌, ◌%◌, ◌^◌, String, ◌≡◌, refl, sym, ◌∙◌, List, [], ◌∷◌, ◌++◌, length, Bytes,
}
use mathlib.Core.List.{append_assoc, append-nil}
use logarithm.Prelude.Text.{string_bytes}
use logarithm.Core.Msgp.{Msgp}
use logarithm.Core.Encoding.{append_array, marshal_msg, append_strings}
use logarithm.Core.Logs.{FlatLogRecord}

module _ (m : Msgp) where
  -- What the parts of a row are written as.
  abbrev pub strings_encoding : List String → Bytes
  strings_encoding [] = []
  strings_encoding (s ∷ ss) = m.string_encoding s ++ strings_encoding ss

  abbrev pub array_encoding : List String → Bytes
  array_encoding l = m.array_header_encoding (length l % 2 ^ 32) ++ strings_encoding l

  pub append_strings_lem :
      (o : Bytes) (l : List String) → append_strings m o l ≡ o ++ strings_encoding l
  append_strings_lem o [] = sym (append-nil o)
  append_strings_lem o (s ∷ ss) =
      append_strings_lem (m.append_string o s) ss
      ∙ rw (m.append_string_lem o s) (append_assoc o (m.string_encoding s) (strings_encoding ss))

  pub append_array_lem : (o : Bytes) (l : List String) → append_array m o l ≡ o ++ array_encoding l
  append_array_lem o l =
      append_strings_lem (m.append_array_header o (length l % 2 ^ 32)) l
      ∙ rw (m.append_array_header_lem o (length l % 2 ^ 32))
          (append_assoc o (m.array_header_encoding (length l % 2 ^ 32)) (strings_encoding l))

  -- A key and what stands for its value.
  abbrev pub entry : Bytes → Bytes → Bytes → Bytes
  entry key value rest = (0xA0 + length key) ∷ (key ++ (value ++ rest))

  abbrev pub entries : FlatLogRecord → Bytes → Bytes
  entries z rest = entry (string_bytes "timestamp") (m.time_encoding z.timestamp) (
      entry (string_bytes "observedTimestamp") (m.time_encoding z.observed_timestamp) (
        entry (string_bytes "insertedAt") (m.time_encoding z.inserted_at) (
          entry (string_bytes "traceId") (m.string_encoding z.trace_id) (
            entry (string_bytes "spanId") (m.string_encoding z.span_id) (
              entry (string_bytes "severityText") (m.string_encoding z.severity_text) (
                entry (string_bytes "severityNumber") (m.uint8_encoding z.severity_number) (
                  entry (string_bytes "serviceName") (m.string_encoding z.service_name) (
                    entry (string_bytes "body") (m.string_encoding z.body) (
                      entry (string_bytes "bodyType") (m.string_encoding z.body_type) (
                        entry (string_bytes "scopeName") (m.string_encoding z.scope_name) (
                          entry (string_bytes "scopeVersion") (m.string_encoding z.scope_version) (
                            entry (string_bytes "logAttrKeys") (array_encoding z.log_attr_keys) (
                              entry (string_bytes "logAttrValues")
                                (array_encoding z.log_attr_values)
                                (entry (string_bytes "resAttrkeys") (array_encoding z.res_attr_keys)
                                  (entry (string_bytes "resAttrValues")
                                    (array_encoding z.res_attr_values) (rest))))))))))))))))

  pub marshal_msg_lem :
      (z : FlatLogRecord) (o : Bytes) → marshal_msg m z o ≡ o ++ (0xDE ∷ 0x0 ∷ 0x10 ∷ entries z [])
  unfolding marshal_msg string_bytes
  marshal_msg_lem z o =
      simp
        (
          m.append_time_lem, m.append_string_lem, m.append_uint8_lem, append_array_lem,
          append_assoc, append-nil,
        )
        refl

  pub entries-append : (z : FlatLogRecord) (rest : Bytes) → entries z [] ++ rest ≡ entries z rest
  unfolding string_bytes
  entries-append z rest = simp append_assoc refl
