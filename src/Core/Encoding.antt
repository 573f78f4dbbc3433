-- ===== src/Core/Encoding.antt =====
-- backend/internal/core/flat_log_gen.go: a row in MessagePack, as the live tail sends it.
pub mod Entries
pub mod Fields
pub mod RoundTrip
pub mod Streamed
pub mod Size
use logarithm.Prelude.{
  ℕ, zero, suc, ◌+◌, ◌%◌, ◌^◌, String, Bool, true, false, ◌&&◌, List, [], ◌∷◌, ◌++◌, map, ◌==◌,
  if◌then◌else◌, length, Result, ◌>>=◌, ok, err, Bytes,
}
use logarithm.Prelude.Int.{pos}
use logarithm.Prelude.Text.{string_bytes, show_ℕ}
use logarithm.Core.Msgp.{Msgp}
use logarithm.Core.Logs.{FlatLogRecord}

abbrev pub bytes_eq : Bytes → Bytes → Bool
bytes_eq [] [] = true
bytes_eq [] (b ∷ bs) = false
bytes_eq (a ∷ as_) [] = false
bytes_eq (a ∷ as_) (b ∷ bs) = (a == b) && bytes_eq as_ bs

module _ (m : Msgp) where
  -- The loop over the texts of an array.
  abbrev pub append_strings : Bytes → List String → Bytes
  append_strings o [] = o
  append_strings o (s ∷ ss) = append_strings (m.append_string o s) ss

  -- `uint32(len(l))` and the loop.
  abbrev pub append_array : Bytes → List String → Bytes
  append_array o l = append_strings (m.append_array_header o (length l % 2 ^ 32)) l

  unfoldable pub marshal_msg : FlatLogRecord → Bytes → Bytes
  marshal_msg z o =
      let o =
        o
        ++ 0xDE ∷ 0x0 ∷ 0x10 ∷ 0xA9 ∷ 0x74 ∷ 0x69 ∷ 0x6D ∷ 0x65 ∷ 0x73 ∷ 0x74 ∷ 0x61 ∷ 0x6D ∷ 0x70
          ∷ [] in
      let o = m.append_time o z.timestamp in
      let o =
        o
        ++ 0xB1 ∷ 0x6F ∷ 0x62 ∷ 0x73 ∷ 0x65 ∷ 0x72 ∷ 0x76 ∷ 0x65 ∷ 0x64 ∷ 0x54 ∷ 0x69 ∷ 0x6D ∷ 0x65
          ∷ 0x73 ∷ 0x74 ∷ 0x61 ∷ 0x6D ∷ 0x70 ∷ [] in
      let o = m.append_time o z.observed_timestamp in
      let o =
        o ++ 0xAA ∷ 0x69 ∷ 0x6E ∷ 0x73 ∷ 0x65 ∷ 0x72 ∷ 0x74 ∷ 0x65 ∷ 0x64 ∷ 0x41 ∷ 0x74 ∷ [] in
      let o = m.append_time o z.inserted_at in
      let o = o ++ 0xA7 ∷ 0x74 ∷ 0x72 ∷ 0x61 ∷ 0x63 ∷ 0x65 ∷ 0x49 ∷ 0x64 ∷ [] in
      let o = m.append_string o z.trace_id in
      let o = o ++ 0xA6 ∷ 0x73 ∷ 0x70 ∷ 0x61 ∷ 0x6E ∷ 0x49 ∷ 0x64 ∷ [] in
      let o = m.append_string o z.span_id in
      let o =
        o
        ++ 0xAC ∷ 0x73 ∷ 0x65 ∷ 0x76 ∷ 0x65 ∷ 0x72 ∷ 0x69 ∷ 0x74 ∷ 0x79 ∷ 0x54 ∷ 0x65 ∷ 0x78 ∷ 0x74
          ∷ [] in
      let o = m.append_string o z.severity_text in
      let o =
        o
        ++ 0xAE ∷ 0x73 ∷ 0x65 ∷ 0x76 ∷ 0x65 ∷ 0x72 ∷ 0x69 ∷ 0x74 ∷ 0x79 ∷ 0x4E ∷ 0x75 ∷ 0x6D ∷ 0x62
          ∷ 0x65 ∷ 0x72 ∷ [] in
      let o = m.append_uint8 o z.severity_number in
      let o =
        o
        ++ 0xAB ∷ 0x73 ∷ 0x65 ∷ 0x72 ∷ 0x76 ∷ 0x69 ∷ 0x63 ∷ 0x65 ∷ 0x4E ∷ 0x61 ∷ 0x6D ∷ 0x65 ∷ [] in
      let o = m.append_string o z.service_name in
      let o = o ++ 0xA4 ∷ 0x62 ∷ 0x6F ∷ 0x64 ∷ 0x79 ∷ [] in
      let o = m.append_string o z.body in
      let o = o ++ 0xA8 ∷ 0x62 ∷ 0x6F ∷ 0x64 ∷ 0x79 ∷ 0x54 ∷ 0x79 ∷ 0x70 ∷ 0x65 ∷ [] in
      let o = m.append_string o z.body_type in
      let o = o ++ 0xA9 ∷ 0x73 ∷ 0x63 ∷ 0x6F ∷ 0x70 ∷ 0x65 ∷ 0x4E ∷ 0x61 ∷ 0x6D ∷ 0x65 ∷ [] in
      let o = m.append_string o z.scope_name in
      let o =
        o
        ++ 0xAC ∷ 0x73 ∷ 0x63 ∷ 0x6F ∷ 0x70 ∷ 0x65 ∷ 0x56 ∷ 0x65 ∷ 0x72 ∷ 0x73 ∷ 0x69 ∷ 0x6F ∷ 0x6E
          ∷ [] in
      let o = m.append_string o z.scope_version in
      let o =
        o
        ++ 0xAB ∷ 0x6C ∷ 0x6F ∷ 0x67 ∷ 0x41 ∷ 0x74 ∷ 0x74 ∷ 0x72 ∷ 0x4B ∷ 0x65 ∷ 0x79 ∷ 0x73 ∷ [] in
      let o = append_array o z.log_attr_keys in
      let o =
        o
        ++ 0xAD ∷ 0x6C ∷ 0x6F ∷ 0x67 ∷ 0x41 ∷ 0x74 ∷ 0x74 ∷ 0x72 ∷ 0x56 ∷ 0x61 ∷ 0x6C ∷ 0x75 ∷ 0x65
          ∷ 0x73 ∷ [] in
      let o = append_array o z.log_attr_values in
      let o =
        o
        ++ 0xAB ∷ 0x72 ∷ 0x65 ∷ 0x73 ∷ 0x41 ∷ 0x74 ∷ 0x74 ∷ 0x72 ∷ 0x6B ∷ 0x65 ∷ 0x79 ∷ 0x73 ∷ [] in
      let o = append_array o z.res_attr_keys in
      let o =
        o
        ++ 0xAD ∷ 0x72 ∷ 0x65 ∷ 0x73 ∷ 0x41 ∷ 0x74 ∷ 0x74 ∷ 0x72 ∷ 0x56 ∷ 0x61 ∷ 0x6C ∷ 0x75 ∷ 0x65
          ∷ 0x73 ∷ [] in
      append_array o z.res_attr_values

  -- A call whose error gets the path of the field.
  abbrev pub reading {ℓ} : {A : Type ℓ} → List String → Result A → Result A
  reading path (ok a) = ok a
  reading path (err e) = err (m.wrap_error e path)

  -- The loop that reads the texts of an array, of which this is number `i`.
  unfoldable pub read_strings : String → ℕ → ℕ → Bytes → Result (List String × Bytes)
  read_strings name i zero bts = ok ([], bts)
  read_strings name i (suc n) bts = do
    (s, bts) ← reading (name ∷ show_ℕ i ∷ []) (m.read_string bts)
    (ss, bts) ← read_strings name (i + 1) n bts
    ok (s ∷ ss, bts)

  unfoldable pub read_array : String → Bytes → Result (List String × Bytes)
  unfolding read_strings
  read_array name bts = do
    (n, bts) ← reading (name ∷ []) (m.read_array_header bts)
    read_strings name 0 n bts

  -- `z.Field, bts, err = read(bts)`
  abbrev pub set_field {ℓ} :
      {A : Type ℓ} → Result (A × Bytes) → (A → FlatLogRecord) → Result (FlatLogRecord × Bytes)
  set_field (ok (v, bts)) set = ok (set v, bts)
  set_field (err e) set = err e

  unfoldable skipped : Bytes → Result (Unit {0} × Bytes)
  skipped bts = m.skip bts >>= λ bts. ok (tt, bts)

  -- The `switch` over the key; a record that is partly read when an error comes up is given up.
  unfoldable pub read_field : FlatLogRecord → Bytes → Bytes → Result (FlatLogRecord × Bytes)
  unfolding skipped read_array
  read_field z field bts =
      if bytes_eq field (string_bytes "timestamp")
      then set_field (reading ("Timestamp" ∷ []) (m.read_time bts))
          (λ v. record z { timestamp = v })
      else if bytes_eq field (string_bytes "observedTimestamp")
      then set_field (reading ("ObservedTimestamp" ∷ []) (m.read_time bts))
          (λ v. record z { observed_timestamp = v })
      else if bytes_eq field (string_bytes "insertedAt")
      then set_field (reading ("InsertedAt" ∷ []) (m.read_time bts))
          (λ v. record z { inserted_at = v })
      else if bytes_eq field (string_bytes "traceId")
      then set_field (reading ("TraceId" ∷ []) (m.read_string bts)) (λ v. record z { trace_id = v })
      else if bytes_eq field (string_bytes "spanId")
      then set_field (reading ("SpanId" ∷ []) (m.read_string bts)) (λ v. record z { span_id = v })
      else if bytes_eq field (string_bytes "severityText")
      then set_field (reading ("SeverityText" ∷ []) (m.read_string bts))
          (λ v. record z { severity_text = v })
      else if bytes_eq field (string_bytes "severityNumber")
      then set_field (reading ("SeverityNumber" ∷ []) (m.read_uint8 bts))
          (λ v. record z { severity_number = v })
      else if bytes_eq field (string_bytes "serviceName")
      then set_field (reading ("ServiceName" ∷ []) (m.read_string bts))
          (λ v. record z { service_name = v })
      else if bytes_eq field (string_bytes "body")
      then set_field (reading ("Body" ∷ []) (m.read_string bts)) (λ v. record z { body = v })
      else if bytes_eq field (string_bytes "bodyType")
      then set_field (reading ("BodyType" ∷ []) (m.read_string bts))
          (λ v. record z { body_type = v })
      else if bytes_eq field (string_bytes "scopeName")
      then set_field (reading ("ScopeName" ∷ []) (m.read_string bts))
          (λ v. record z { scope_name = v })
      else if bytes_eq field (string_bytes "scopeVersion")
      then set_field (reading ("ScopeVersion" ∷ []) (m.read_string bts))
          (λ v. record z { scope_version = v })
      else if bytes_eq field (string_bytes "logAttrKeys")
      then set_field (read_array "LogAttrKeys" bts) (λ v. record z { log_attr_keys = v })
      else if bytes_eq field (string_bytes "logAttrValues")
      then set_field (read_array "LogAttrValues" bts) (λ v. record z { log_attr_values = v })
      else if bytes_eq field (string_bytes "resAttrkeys")
      then set_field (read_array "ResAttrKeys" bts) (λ v. record z { res_attr_keys = v })
      else if bytes_eq field (string_bytes "resAttrValues")
      then set_field (read_array "ResAttrValues" bts) (λ v. record z { res_attr_values = v })
      else set_field (reading [] (skipped bts)) (λ v. z)

  -- The loop over the entries of the map.
  unfoldable pub read_fields : ℕ → FlatLogRecord → Bytes → Result (FlatLogRecord × Bytes)
  unfolding read_field
  read_fields zero z bts = ok (z, bts)
  read_fields (suc n) z bts = do
    (field, bts) ← reading [] (m.read_map_key bts)
    (z, bts) ← read_field z field bts
    read_fields n z bts

  unfoldable pub unmarshal_msg : FlatLogRecord → Bytes → Result (FlatLogRecord × Bytes)
  unfolding read_fields
  unmarshal_msg z bts = do (n, bts) ← reading [] (m.read_map_header bts); read_fields n z bts
