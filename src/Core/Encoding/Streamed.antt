-- ===== src/Core/Encoding/Streamed.antt =====
-- `EncodeMsg` and `DecodeMsg` of backend/internal/core/flat_log_gen.go, which write to a stream and read
-- from one.
pub mod Decoded
pub mod Encoded
use logarithm.Prelude.{
  ℕ, zero, suc, ◌+◌, ◌%◌, ◌^◌, String, Option, none, some, List, [], ◌∷◌, map, if◌then◌else◌, Bytes,
  length, Result, ◌>>=◌, ok, err,
}
use logarithm.Prelude.Text.{string_bytes, show_ℕ}
use logarithm.Core.Msgp.{Msgp}
use logarithm.Core.Logs.{FlatLogRecord}
use logarithm.Core.Encoding.{bytes_eq, reading}
use logarithm.Core.Time.{Time}

-- The msgp package's reader, with what is left of its stream in its state.
pub record Reader : Type 1 where
  pub State : Type 0
  pub read_map_header : State → Result (ℕ × State)
  pub read_map_key_ptr : State → Result (Bytes × State)
  pub read_time : State → Result (Time × State)
  pub read_string : State → Result (String × State)
  pub read_uint8 : State → Result (ℕ × State)
  pub read_array_header : State → Result (ℕ × State)
  pub skip : State → Result State

-- Its writer: each call may fail, and leaves a state in any case.
pub record Writer : Type 1 where
  pub State : Type 0
  pub append : Bytes → State → State × Option String
  pub write_time : Time → State → State × Option String
  pub write_string : String → State → State × Option String
  pub write_uint8 : ℕ → State → State × Option String
  pub write_array_header : ℕ → State → State × Option String

module _ (m : Msgp) (r : Reader) where
  -- The loop that reads the texts of an array, of which this is number `i`.
  unfoldable pub decode_strings : String → ℕ → ℕ → r.State → Result (List String × r.State)
  decode_strings name i zero s = ok ([], s)
  decode_strings name i (suc n) s = do
    (text, s) ← reading m (name ∷ show_ℕ i ∷ []) (r.read_string s)
    (texts, s) ← decode_strings name (i + 1) n s
    ok (text ∷ texts, s)

  unfoldable pub decode_array : String → r.State → Result (List String × r.State)
  decode_array name s = do
    (n, s) ← reading m (name ∷ []) (r.read_array_header s)
    decode_strings name 0 n s

  -- `z.Field, err = dc.Read()`
  abbrev pub set_decoded {ℓ} :
      {A : Type ℓ} → Result (A × r.State) → (A → FlatLogRecord) → Result (FlatLogRecord × r.State)
  set_decoded (ok (v, s)) set = ok (set v, s)
  set_decoded (err e) set = err e

  unfoldable pub decode_skipped : r.State → Result (Unit {0} × r.State)
  decode_skipped s = r.skip s >>= λ s. ok (tt, s)

  -- The `switch` over the key; a record that is partly read when an error comes up is given up.
  unfoldable pub decode_field : FlatLogRecord → Bytes → r.State → Result (FlatLogRecord × r.State)
  unfolding decode_skipped decode_array
  decode_field z field s =
      if bytes_eq field (string_bytes "timestamp")
      then set_decoded ((reading m) ("Timestamp" ∷ []) (r.read_time s))
          (λ v. record z { timestamp = v })
      else if bytes_eq field (string_bytes "observedTimestamp")
      then set_decoded ((reading m) ("ObservedTimestamp" ∷ []) (r.read_time s))
          (λ v. record z { observed_timestamp = v })
      else if bytes_eq field (string_bytes "insertedAt")
      then set_decoded ((reading m) ("InsertedAt" ∷ []) (r.read_time s))
          (λ v. record z { inserted_at = v })
      else if bytes_eq field (string_bytes "traceId")
      then set_decoded ((reading m) ("TraceId" ∷ []) (r.read_string s))
          (λ v. record z { trace_id = v })
      else if bytes_eq field (string_bytes "spanId")
      then set_decoded ((reading m) ("SpanId" ∷ []) (r.read_string s))
          (λ v. record z { span_id = v })
      else if bytes_eq field (string_bytes "severityText")
      then set_decoded ((reading m) ("SeverityText" ∷ []) (r.read_string s))
          (λ v. record z { severity_text = v })
      else if bytes_eq field (string_bytes "severityNumber")
      then set_decoded ((reading m) ("SeverityNumber" ∷ []) (r.read_uint8 s))
          (λ v. record z { severity_number = v })
      else if bytes_eq field (string_bytes "serviceName")
      then set_decoded ((reading m) ("ServiceName" ∷ []) (r.read_string s))
          (λ v. record z { service_name = v })
      else if bytes_eq field (string_bytes "body")
      then set_decoded ((reading m) ("Body" ∷ []) (r.read_string s)) (λ v. record z { body = v })
      else if bytes_eq field (string_bytes "bodyType")
      then set_decoded ((reading m) ("BodyType" ∷ []) (r.read_string s))
          (λ v. record z { body_type = v })
      else if bytes_eq field (string_bytes "scopeName")
      then set_decoded ((reading m) ("ScopeName" ∷ []) (r.read_string s))
          (λ v. record z { scope_name = v })
      else if bytes_eq field (string_bytes "scopeVersion")
      then set_decoded ((reading m) ("ScopeVersion" ∷ []) (r.read_string s))
          (λ v. record z { scope_version = v })
      else if bytes_eq field (string_bytes "logAttrKeys")
      then set_decoded (decode_array "LogAttrKeys" s) (λ v. record z { log_attr_keys = v })
      else if bytes_eq field (string_bytes "logAttrValues")
      then set_decoded (decode_array "LogAttrValues" s) (λ v. record z { log_attr_values = v })
      else if bytes_eq field (string_bytes "resAttrkeys")
      then set_decoded (decode_array "ResAttrKeys" s) (λ v. record z { res_attr_keys = v })
      else if bytes_eq field (string_bytes "resAttrValues")
      then set_decoded (decode_array "ResAttrValues" s) (λ v. record z { res_attr_values = v })
      else set_decoded ((reading m) [] (decode_skipped s)) (λ v. z)

  -- The loop over the entries of the map.
  unfoldable pub decode_fields : ℕ → FlatLogRecord → r.State → Result (FlatLogRecord × r.State)
  decode_fields zero z s = ok (z, s)
  decode_fields (suc n) z s = do
    (field, s) ← reading m [] (r.read_map_key_ptr s)
    (z, s) ← decode_field z field s
    decode_fields n z s

  unfoldable pub decode_msg : FlatLogRecord → r.State → Result (FlatLogRecord × r.State)
  decode_msg z s = do (n, s) ← reading m [] (r.read_map_header s); decode_fields n z s

infixl 4 ◌▷◌
-- The next call, unless there was an error.
abbrev pub ◌▷◌ : {S : Type 0} → S × Option String → (S → S × Option String) → S × Option String
(s, none) ▷ next = next s
(s, some e) ▷ next = (s, some e)

module _ (m : Msgp) (w : Writer) where
  abbrev pub wrapped : List String → w.State × Option String → w.State × Option String
  wrapped path (s, none) = (s, none)
  wrapped path (s, some e) = (s, some (m.wrap_error e path))

  -- The loop over the texts of an array, of which this is number `i`.
  unfoldable pub write_strings : String → ℕ → List String → w.State → w.State × Option String
  write_strings name i [] s = (s, none)
  write_strings name i (text ∷ texts) s =
      wrapped (name ∷ show_ℕ i ∷ []) (w.write_string text s) ▷ write_strings name (i + 1) texts

  unfoldable pub write_array : String → List String → w.State → w.State × Option String
  write_array name texts s =
      wrapped (name ∷ []) (w.write_array_header (length texts % 2 ^ 32) s)
      ▷ write_strings name 0 texts

  unfoldable pub encode_scalars : FlatLogRecord → w.State → w.State × Option String
  encode_scalars z s =
      (w.append (
          0xDE ∷ 0x0 ∷ 0x10 ∷ 0xA9 ∷ 0x74 ∷ 0x69 ∷ 0x6D ∷ 0x65 ∷ 0x73 ∷ 0x74 ∷ 0x61 ∷ 0x6D ∷ 0x70
          ∷ []))
        s
      ▷ (λ s. wrapped ("Timestamp" ∷ []) (w.write_time z.timestamp s))
      ▷ (w.append (
          0xB1 ∷ 0x6F ∷ 0x62 ∷ 0x73 ∷ 0x65 ∷ 0x72 ∷ 0x76 ∷ 0x65 ∷ 0x64 ∷ 0x54 ∷ 0x69 ∷ 0x6D ∷ 0x65
          ∷ 0x73 ∷ 0x74 ∷ 0x61 ∷ 0x6D ∷ 0x70 ∷ []))
      ▷ (λ s. wrapped ("ObservedTimestamp" ∷ []) (w.write_time z.observed_timestamp s))
      ▷ (w.append (0xAA ∷ 0x69 ∷ 0x6E ∷ 0x73 ∷ 0x65 ∷ 0x72 ∷ 0x74 ∷ 0x65 ∷ 0x64 ∷ 0x41 ∷ 0x74 ∷ []))
      ▷ (λ s. wrapped ("InsertedAt" ∷ []) (w.write_time z.inserted_at s))
      ▷ (w.append (0xA7 ∷ 0x74 ∷ 0x72 ∷ 0x61 ∷ 0x63 ∷ 0x65 ∷ 0x49 ∷ 0x64 ∷ []))
      ▷ (λ s. wrapped ("TraceId" ∷ []) (w.write_string z.trace_id s))
      ▷ (w.append (0xA6 ∷ 0x73 ∷ 0x70 ∷ 0x61 ∷ 0x6E ∷ 0x49 ∷ 0x64 ∷ []))
      ▷ (λ s. wrapped ("SpanId" ∷ []) (w.write_string z.span_id s))
      ▷ (w.append (
          0xAC ∷ 0x73 ∷ 0x65 ∷ 0x76 ∷ 0x65 ∷ 0x72 ∷ 0x69 ∷ 0x74 ∷ 0x79 ∷ 0x54 ∷ 0x65 ∷ 0x78 ∷ 0x74
          ∷ []))
      ▷ (λ s. wrapped ("SeverityText" ∷ []) (w.write_string z.severity_text s))
      ▷ (w.append (
          0xAE ∷ 0x73 ∷ 0x65 ∷ 0x76 ∷ 0x65 ∷ 0x72 ∷ 0x69 ∷ 0x74 ∷ 0x79 ∷ 0x4E ∷ 0x75 ∷ 0x6D ∷ 0x62
          ∷ 0x65 ∷ 0x72 ∷ []))
      ▷ (λ s. wrapped ("SeverityNumber" ∷ []) (w.write_uint8 z.severity_number s))
      ▷ (w.append
          (0xAB ∷ 0x73 ∷ 0x65 ∷ 0x72 ∷ 0x76 ∷ 0x69 ∷ 0x63 ∷ 0x65 ∷ 0x4E ∷ 0x61 ∷ 0x6D ∷ 0x65 ∷ []))
      ▷ (λ s. wrapped ("ServiceName" ∷ []) (w.write_string z.service_name s))
      ▷ (w.append (0xA4 ∷ 0x62 ∷ 0x6F ∷ 0x64 ∷ 0x79 ∷ []))
      ▷ (λ s. wrapped ("Body" ∷ []) (w.write_string z.body s))
      ▷ (w.append (0xA8 ∷ 0x62 ∷ 0x6F ∷ 0x64 ∷ 0x79 ∷ 0x54 ∷ 0x79 ∷ 0x70 ∷ 0x65 ∷ []))
      ▷ (λ s. wrapped ("BodyType" ∷ []) (w.write_string z.body_type s))
      ▷ (w.append (0xA9 ∷ 0x73 ∷ 0x63 ∷ 0x6F ∷ 0x70 ∷ 0x65 ∷ 0x4E ∷ 0x61 ∷ 0x6D ∷ 0x65 ∷ []))
      ▷ (λ s. wrapped ("ScopeName" ∷ []) (w.write_string z.scope_name s))
      ▷ (w.append (
          0xAC ∷ 0x73 ∷ 0x63 ∷ 0x6F ∷ 0x70 ∷ 0x65 ∷ 0x56 ∷ 0x65 ∷ 0x72 ∷ 0x73 ∷ 0x69 ∷ 0x6F ∷ 0x6E
          ∷ []))
      ▷ (λ s. wrapped ("ScopeVersion" ∷ []) (w.write_string z.scope_version s))

  unfoldable pub encode_msg : FlatLogRecord → w.State → w.State × Option String
  encode_msg z s =
      encode_scalars z s
      ▷ (w.append
          (0xAB ∷ 0x6C ∷ 0x6F ∷ 0x67 ∷ 0x41 ∷ 0x74 ∷ 0x74 ∷ 0x72 ∷ 0x4B ∷ 0x65 ∷ 0x79 ∷ 0x73 ∷ []))
      ▷ (write_array "LogAttrKeys" z.log_attr_keys)
      ▷ (w.append (
          0xAD ∷ 0x6C ∷ 0x6F ∷ 0x67 ∷ 0x41 ∷ 0x74 ∷ 0x74 ∷ 0x72 ∷ 0x56 ∷ 0x61 ∷ 0x6C ∷ 0x75 ∷ 0x65
          ∷ 0x73 ∷ []))
      ▷ (write_array "LogAttrValues" z.log_attr_values)
      ▷ (w.append
          (0xAB ∷ 0x72 ∷ 0x65 ∷ 0x73 ∷ 0x41 ∷ 0x74 ∷ 0x74 ∷ 0x72 ∷ 0x6B ∷ 0x65 ∷ 0x79 ∷ 0x73 ∷ []))
      ▷ (write_array "ResAttrKeys" z.res_attr_keys)
      ▷ (w.append (
          0xAD ∷ 0x72 ∷ 0x65 ∷ 0x73 ∷ 0x41 ∷ 0x74 ∷ 0x74 ∷ 0x72 ∷ 0x56 ∷ 0x61 ∷ 0x6C ∷ 0x75 ∷ 0x65
          ∷ 0x73 ∷ []))
      ▷ (write_array "ResAttrValues" z.res_attr_values)
