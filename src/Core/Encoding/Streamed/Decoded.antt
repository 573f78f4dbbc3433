-- ===== src/Core/Encoding/Streamed/Decoded.antt =====
-- Reading from a stream is reading from the bytes that are left in it.
use logarithm.Prelude.{
  ◌≡◌, refl, sym, ap, ◌∙◌, ◌++◌, ◌<◌, ltb, ◌&&◌, length, arith, ℕ, zero, suc, ◌+◌, String, Bool,
  true, false, List, [], ◌∷◌, if◌then◌else◌, Bytes, Result, ◌>>=◌, ok, err,
}
use logarithm.Prelude.Text.{string_bytes, show_ℕ}
use logarithm.Core.Msgp.{Msgp}
use logarithm.Core.Logs.{FlatLogRecord}
use logarithm.Core.Encoding.{
  bytes_eq, reading, set_field, read_strings, read_array, skipped, read_field, read_fields,
  unmarshal_msg, marshal_msg, append_strings,
}
use logarithm.Core.Encoding.Fields.{IsEncodable}
use logarithm.Core.Encoding.RoundTrip.{unmarshal_msg-marshal_msg}
use logarithm.Core.Encoding.Streamed.{
  Reader, decode_strings, decode_array, set_decoded, decode_skipped, decode_field, decode_fields,
  decode_msg,
}

-- Where there is a value, the stream gives the same value and has the same rest.
pub data Follows {S A : Type 0} (rest : S → Bytes)
    : Result (A × S) → Result (A × Bytes) → Type 0 where
  same_value : (a : A) (s : S) → Follows rest (ok (a, s)) (ok (a, rest s))
  no_value : (x : Result (A × S)) (e : String) → Follows rest x (err e)

pub data SkipFollows {S : Type 0} (rest : S → Bytes) : Result S → Result Bytes → Type 0 where
  skip_ok : (s : S) → SkipFollows rest (ok s) (ok (rest s))
  no_skip : (x : Result S) (e : String) → SkipFollows rest x (err e)

-- Each primitive of the reader reads what that of the package reads from the bytes that are left, wherever
-- this reads a value. What the errors are is not said.
pub record IsReader (m : Msgp) (r : Reader) : Type 0 where
  pub rest : r.State → Bytes
  pub map_header : (s : r.State) → Follows rest (r.read_map_header s) (m.read_map_header (rest s))
  pub map_key : (s : r.State) → Follows rest (r.read_map_key_ptr s) (m.read_map_key (rest s))
  pub time : (s : r.State) → Follows rest (r.read_time s) (m.read_time (rest s))
  pub string : (s : r.State) → Follows rest (r.read_string s) (m.read_string (rest s))
  pub uint8 : (s : r.State) → Follows rest (r.read_uint8 s) (m.read_uint8 (rest s))
  pub array_header :
      (s : r.State) → Follows rest (r.read_array_header s) (m.read_array_header (rest s))
  pub skips : (s : r.State) → SkipFollows rest (r.skip s) (m.skip (rest s))

-- The errors are wrapped by one package, and the bytes are read by the other.
module _ (e m : Msgp) (r : Reader) (v : IsReader m r) where
  reading-Follows :
      {A : Type 0} (path : List String) {x : Result (A × r.State)} {y : Result (A × Bytes)}
      → Follows v.rest x y
      → Follows v.rest (reading e path x) (reading m path y)
  reading-Follows path (same_value a s) = same_value a s
  reading-Follows path (no_value x t) = no_value (reading e path x) (m.wrap_error t path)

  chain-Follows :
      {A B : Type 0} {x : Result (A × r.State)} {y : Result (A × Bytes)}
      (f : A × r.State → Result (B × r.State)) (g : A × Bytes → Result (B × Bytes))
      → Follows v.rest x y
      → ((a : A) (s : r.State) → Follows v.rest (f (a, s)) (g (a, v.rest s)))
      → Follows v.rest (x >>= f) (y >>= g)
  chain-Follows f g (same_value a s) h = h a s
  chain-Follows f g (no_value x t) h = no_value (x >>= f) t

  set-Follows :
      {A : Type 0} {x : Result (A × r.State)} {y : Result (A × Bytes)} (set : A → FlatLogRecord)
      → Follows v.rest x y
      → Follows v.rest (set_decoded e r x set) (set_field m y set)
  set-Follows set (same_value a s) = same_value (set a) s
  set-Follows set (no_value x t) = no_value (set_decoded e r x set) t

  if-Follows :
      {A : Type 0} (b : Bool) {x x' : Result (A × r.State)} {y y' : Result (A × Bytes)}
      → Follows v.rest x y
      → Follows v.rest x' y'
      → Follows v.rest (if b then x else x') (if b then y else y')
  if-Follows true h k = h
  if-Follows false h k = k

  decode_strings-Follows :
      (name : String) (i n : ℕ) (s : r.State)
      → Follows v.rest (decode_strings e r name i n s) (read_strings m name i n (v.rest s))
  unfolding decode_strings read_strings
  decode_strings-Follows name i zero s = same_value [] s
  decode_strings-Follows name i (suc n) s =
      chain-Follows _ _ (reading-Follows (name ∷ show_ℕ i ∷ []) (v.string s)) λ text t.
        chain-Follows _ _ (decode_strings-Follows name (i + 1) n t)
          λ texts u. same_value (text ∷ texts) u

  decode_array-Follows :
      (name : String) (s : r.State)
      → Follows v.rest (decode_array e r name s) (read_array m name (v.rest s))
  unfolding decode_array read_array
  decode_array-Follows name s =
      chain-Follows _ _ (reading-Follows (name ∷ []) (v.array_header s))
        λ n t. decode_strings-Follows name 0 n t

  decode_skipped-Follows :
      (s : r.State) → Follows v.rest (decode_skipped e r s) (skipped m (v.rest s))
  unfolding decode_skipped skipped
  decode_skipped-Follows s = go (v.skips s)
    where
      go :
          {x : Result r.State} {y : Result Bytes}
          → SkipFollows v.rest x y
          → Follows v.rest (x >>= λ s. ok (tt, s)) (y >>= λ bts. ok (tt, bts))
      go (skip_ok s) = same_value tt s
      go (no_skip x t) = no_value (x >>= λ s. ok (tt, s)) t

  decode_field-Follows :
      (z : FlatLogRecord) (field : Bytes) (s : r.State)
      → Follows v.rest (decode_field e r z field s) (read_field m z field (v.rest s))
  unfolding decode_field read_field
  decode_field-Follows z field s =
      if-Follows (bytes_eq field (string_bytes "timestamp"))
        (set-Follows (λ x. record z { timestamp = x })
          (reading-Follows ("Timestamp" ∷ []) (v.time s)))
        (if-Follows (bytes_eq field (string_bytes "observedTimestamp"))
          (set-Follows (λ x. record z { observed_timestamp = x })
            (reading-Follows ("ObservedTimestamp" ∷ []) (v.time s)))
          (if-Follows (bytes_eq field (string_bytes "insertedAt"))
            (set-Follows (λ x. record z { inserted_at = x })
              (reading-Follows ("InsertedAt" ∷ []) (v.time s)))
            (if-Follows (bytes_eq field (string_bytes "traceId"))
              (set-Follows (λ x. record z { trace_id = x })
                (reading-Follows ("TraceId" ∷ []) (v.string s)))
              (if-Follows (bytes_eq field (string_bytes "spanId"))
                (set-Follows (λ x. record z { span_id = x })
                  (reading-Follows ("SpanId" ∷ []) (v.string s)))
                (if-Follows (bytes_eq field (string_bytes "severityText"))
                  (set-Follows (λ x. record z { severity_text = x })
                    (reading-Follows ("SeverityText" ∷ []) (v.string s)))
                  (if-Follows (bytes_eq field (string_bytes "severityNumber"))
                    (set-Follows (λ x. record z { severity_number = x })
                      (reading-Follows ("SeverityNumber" ∷ []) (v.uint8 s)))
                    (if-Follows (bytes_eq field (string_bytes "serviceName"))
                      (set-Follows (λ x. record z { service_name = x })
                        (reading-Follows ("ServiceName" ∷ []) (v.string s)))
                      (if-Follows (bytes_eq field (string_bytes "body"))
                        (set-Follows (λ x. record z { body = x })
                          (reading-Follows ("Body" ∷ []) (v.string s)))
                        (if-Follows (bytes_eq field (string_bytes "bodyType"))
                          (set-Follows (λ x. record z { body_type = x })
                            (reading-Follows ("BodyType" ∷ []) (v.string s)))
                          (if-Follows (bytes_eq field (string_bytes "scopeName"))
                            (set-Follows (λ x. record z { scope_name = x })
                              (reading-Follows ("ScopeName" ∷ []) (v.string s)))
                            (if-Follows (bytes_eq field (string_bytes "scopeVersion"))
                              (set-Follows (λ x. record z { scope_version = x })
                                (reading-Follows ("ScopeVersion" ∷ []) (v.string s)))
                              (if-Follows (bytes_eq field (string_bytes "logAttrKeys"))
                                (set-Follows (λ x. record z { log_attr_keys = x })
                                  (decode_array-Follows "LogAttrKeys" s))
                                (if-Follows (bytes_eq field (string_bytes "logAttrValues"))
                                  (set-Follows (λ x. record z { log_attr_values = x })
                                    (decode_array-Follows "LogAttrValues" s))
                                  (if-Follows (bytes_eq field (string_bytes "resAttrkeys"))
                                    (set-Follows (λ x. record z { res_attr_keys = x })
                                      (decode_array-Follows "ResAttrKeys" s))
                                    (if-Follows (bytes_eq field (string_bytes "resAttrValues"))
                                      (set-Follows (λ x. record z { res_attr_values = x })
                                        (decode_array-Follows "ResAttrValues" s))
                                      (set-Follows (λ x. z)
                                        (reading-Follows []
                                          (decode_skipped-Follows s))))))))))))))))))

  decode_fields-Follows :
      (n : ℕ) (z : FlatLogRecord) (s : r.State)
      → Follows v.rest (decode_fields e r n z s) (read_fields m n z (v.rest s))
  unfolding decode_fields read_fields
  decode_fields-Follows zero z s = same_value z s
  decode_fields-Follows (suc n) z s =
      chain-Follows _ _ (reading-Follows [] (v.map_key s)) λ field t.
        chain-Follows _ _ (decode_field-Follows z field t) λ z' u. decode_fields-Follows n z' u

  decode_msg-Follows :
      (z : FlatLogRecord) (s : r.State)
      → Follows v.rest (decode_msg e r z s) (unmarshal_msg m z (v.rest s))
  unfolding decode_msg unmarshal_msg
  decode_msg-Follows z s =
      chain-Follows _ _ (reading-Follows [] (v.map_header s)) λ n t. decode_fields-Follows n z t

-- A key of 1 to 31 bytes, as all keys of a record are. The reader refuses some others that the bytes have.
abbrev pub short_key : Result (Bytes × Bytes) → Result (Bytes × Bytes)
short_key (err e) = err e
short_key (ok (key, rest)) =
    if ltb 0 (length key) && ltb (length key) 32 then ok (key, rest) else err "key"

pub short_key-ok :
    (key rest : Bytes)
    → 0 < length key
    → length key < 32
    → short_key (ok (key, rest)) ≡ ok (key, rest)
short_key-ok key rest h k =
    let e : (ltb 0 (length key) && ltb (length key) 32) ≡ true = ground arith in rw e refl

module _ (m : Msgp) where
  -- The package where it reads no other keys.
  abbrev pub with_short_keys : Msgp
  with_short_keys = record {
    append_time = m.append_time;
    append_string = m.append_string;
    append_uint8 = m.append_uint8;
    append_array_header = m.append_array_header;
    read_map_header = m.read_map_header;
    read_map_key = λ b. short_key (m.read_map_key b);
    read_time = m.read_time;
    read_string = m.read_string;
    read_uint8 = m.read_uint8;
    read_array_header = m.read_array_header;
    skip = m.skip;
    wrap_error = m.wrap_error;
    time_encoding = m.time_encoding;
    string_encoding = m.string_encoding;
    uint8_encoding = m.uint8_encoding;
    array_header_encoding = m.array_header_encoding;
    append_time_lem = m.append_time_lem;
    append_string_lem = m.append_string_lem;
    append_uint8_lem = m.append_uint8_lem;
    append_array_header_lem = m.append_array_header_lem;
    read_time_lem = m.read_time_lem;
    read_string_lem = m.read_string_lem;
    read_uint8_lem = m.read_uint8_lem;
    read_array_header_lem = m.read_array_header_lem;
    read_map_header-map16 = m.read_map_header-map16;
    read_map_key-fixstr = λ key rest h k.
        ap short_key (m.read_map_key-fixstr key rest h k) ∙ short_key-ok key rest h k;
  }

  append_strings-short :
      (o : Bytes) (texts : List String)
      → append_strings with_short_keys o texts ≡ append_strings m o texts
  append_strings-short o [] = refl
  append_strings-short o (t ∷ texts) = append_strings-short (m.append_string o t) texts

  marshal_msg-short : (z : FlatLogRecord) → marshal_msg with_short_keys z [] ≡ marshal_msg m z []
  unfolding marshal_msg
  marshal_msg-short z = simp append_strings-short refl

  found :
      (r : Reader) (rest : r.State → Bytes) (z : FlatLogRecord) (more : Bytes)
      (x : Result (FlatLogRecord × r.State)) (y : Result (FlatLogRecord × Bytes))
      → Follows rest x y
      → y ≡ ok (z, more)
      → (s : r.State) × (x ≡ ok (z, s)) × (rest s ≡ more)
  found r rest z more _ _ (same_value a s) e =
      let same = value_of (a, rest s) e in (s, ap (λ w. ok (w.0, s)) same, ap (λ w. w.1) same)
    where
      value_of : (w : FlatLogRecord × Bytes) → ok w ≡ ok (z, more) → w ≡ (z, more)
      value_of w e = ap (λ q. elim q as (λ x. FlatLogRecord × Bytes) [ err t ↦ w | ok u ↦ u ]) e
  found r rest z more _ _ (no_value x t) e = absurd (cc)

  -- With a reader that reads values as the package reads them from what is left of the stream, keys of 1
  -- to 31 bytes at least: decoding from a stream that goes on with the marshalled bytes of a record gives
  -- this record, whatever the record held that it is decoded into, and leaves what follows, if its texts
  -- and lists have lengths below 2 ^ 32 and its severity number fits in a byte.
  pub decode_msg-marshal_msg :
      (r : Reader) (v : IsReader with_short_keys r) (z old : FlatLogRecord) (s : r.State)
      (more : Bytes)
      → IsEncodable z
      → v.rest s ≡ marshal_msg m z [] ++ more
      → (s' : r.State) × (decode_msg m r old s ≡ ok (z, s')) × (v.rest s' ≡ more)
  decode_msg-marshal_msg r v z old s more h e =
      found r v.rest z more _ _ (decode_msg-Follows m with_short_keys r v old s) (
        ap (unmarshal_msg with_short_keys old) (e ∙ ap (λ b. b ++ more) (sym (marshal_msg-short z)))
        ∙ unmarshal_msg-marshal_msg with_short_keys z old more h)
