-- ===== src/Pipeline/Generated.antt =====
-- From the load generator through the ingester to the worker: what is sent is what is read.
pub mod Http
pub mod Grpc
use logarithm.Prelude.{
  String, ◌≡◌, ap, ◌∙◌, ◌⊎◌, inl, inr, true, not, none, List, [], ◌∷◌, str_eq, if◌then◌else◌,
  Bool-cases, Bytes, Result, ok, err,
}
use logarithm.Transport.Message.{Headers, find_header, first_value}
use logarithm.Ingester.Http.{Request, is_supported_type, is_supported_encoding}
use logarithm.Ingester.Supported.{content_type_of, encoding_of}
use logarithm.Worker.Transform.{ResourceLogs}
use logarithm.Worker.Decompress.{
  put_buf, Codecs, decompress, decode, decompress_zstd, decompress_gzip, LogDecompressor, Cleanup,
  no_cleanup, put_gzip,
}
use logarithm.Worker.Process.Dropped.{resources_of, no_buffers, resources_in}
use logarithm.LoadGenerator.{Float64, CleanConfig}
use logarithm.LoadGenerator.Clean.{IsClean}
use logarithm.LoadGenerator.Payload.{
  Encoders, Target, marshal, encode_payload, encode_gzip, write_headers,
}

-- The worker's decoders undo the load generator's encoders, at these logs, and a gzip writer into memory
-- does not fail.
pub record IsCodec (enc : Encoders) (cs : Codecs)
    (unmarshal_proto unmarshal_json : Bytes → Result (List ResourceLogs)) (logs : List ResourceLogs)
    : Type 0 where
  pub proto : (raw : Bytes) → enc.marshal_proto logs ≡ ok raw → unmarshal_proto raw ≡ ok logs
  pub json : (raw : Bytes) → enc.marshal_json logs ≡ ok raw → unmarshal_json raw ≡ ok logs
  pub zstd : (raw : Bytes) → cs.zstd_decode_all (enc.zstd_encode_all raw) ≡ ok raw
  pub writes : (raw : Bytes) → enc.gzip_write raw ≡ none
  pub closes : (raw : Bytes) → enc.gzip_close raw ≡ none
  pub resets : (raw : Bytes) → cs.gzip_reset (enc.gzip_bytes raw) ≡ none
  pub copies : (raw : Bytes) → cs.gzip_copy (enc.gzip_bytes raw) ≡ ok raw
  pub ends : (raw : Bytes) → cs.gzip_close (enc.gzip_bytes raw) ≡ none

-- A target without headers of its own, as the attacker makes it.
abbrev pub new_target : Target
new_target = record { method = ""; url = ""; body = []; header = [] }

-- The headers and the body of the request that arrives at the ingester. Its method and its URL are for
-- the mux.
abbrev pub request_of : Target → Request
request_of t = record {
  content_type = first_value (find_header "Content-Type" t.header);
  content_encoding = first_value (find_header "Content-Encoding" t.header);
  body = ok t.body;
}

module _ (fl : Float64) (cfg : CleanConfig fl) (clean : IsClean fl cfg) (enc : Encoders)
    (cs : Codecs) (unmarshal_proto unmarshal_json : Bytes → Result (List ResourceLogs))
    (logs : List ResourceLogs) (codec : IsCodec enc cs unmarshal_proto unmarshal_json logs) where
  abbrev mime : String
  mime = if str_eq cfg.content_type "proto" then "application/x-protobuf" else "application/json"

  abbrev coding : String
  coding =
      if str_eq cfg.encoding "zstd"
      then "zstd"
      else if str_eq cfg.encoding "gzip"
      then "gzip"
      else "identity"

  write_headers_lem :
      write_headers fl cfg [] ≡ ("Content-Type", mime ∷ []) ∷ ("Content-Encoding", coding ∷ []) ∷ []
  unfolding write_headers
  write_headers_lem = elim clean.content_type [
    | inl t ↦ elim (Bool-cases (str_eq cfg.encoding "zstd")) [
      | inl z ↦ rw (write_headers, t, z)
      | inr n ↦ elim (Bool-cases (str_eq cfg.encoding "gzip")) [
        | inl z ↦ rw (write_headers, t, n, z)
        | inr m ↦ rw (write_headers, t, n, m)
      ]
    ]
    | inr t ↦ elim (Bool-cases (str_eq cfg.encoding "zstd")) [
      | inl z ↦ rw (write_headers, t, z)
      | inr n ↦ elim (Bool-cases (str_eq cfg.encoding "gzip")) [
        | inl z ↦ rw (write_headers, t, n, z)
        | inr m ↦ rw (write_headers, t, n, m)
      ]
    ]
  ]

  mime-supported : is_supported_type mime ≡ true
  mime-supported = elim clean.content_type [ inl t ↦ rw t | inr t ↦ rw t ]

  coding-supported : is_supported_encoding coding ≡ true
  coding-supported = elim clean.encoding [
    | inl e ↦ rw e
    | inr (inl e) ↦ rw e
    | inr (inr (inl e)) ↦ rw e
    | inr (inr (inr e)) ↦ rw e
  ]

  decode-marshal :
      (h : Headers) (raw : Bytes)
      → content_type_of h ≡ mime
      → marshal fl cfg enc logs ≡ ok raw
      → decode unmarshal_proto unmarshal_json raw h ≡ ok logs
  unfolding decode marshal
  decode-marshal h raw q m = elim clean.content_type [
    | inl t ↦ rw (decode, q, t) (codec.json raw (rw (marshal, t) at m))
    | inr t ↦ rw (decode, q, t) (codec.proto raw (rw (marshal, t) at m))
  ]

  -- What the factory makes of the bytes of a request.
  data Encoded (raw : Bytes) : Bytes → Type 0 where
    plain : (cfg.encoding ≡ "identity") ⊎ (cfg.encoding ≡ "none") → Encoded raw raw
    by_gzip : cfg.encoding ≡ "gzip" → Encoded raw (enc.gzip_bytes raw)
    by_zstd : cfg.encoding ≡ "zstd" → Encoded raw (enc.zstd_encode_all raw)

  encode_payload-Encoded :
      (raw : Bytes)
      → (payload : Bytes) × (encode_payload fl cfg enc raw ≡ ok payload) × Encoded raw payload
  unfolding encode_payload encode_gzip
  encode_payload-Encoded raw = elim clean.encoding [
    | inl e ↦ (raw, rw (encode_payload, e), plain (inl e))
    | inr (inl e) ↦ (raw, rw (encode_payload, e), plain (inr e))
    | inr (inr (inl e)) ↦ (
      enc.gzip_bytes raw,
      rw (encode_payload, e, encode_gzip, codec.writes raw, codec.closes raw),
      by_gzip e,
    )
    | inr (inr (inr e)) ↦ (enc.zstd_encode_all raw, rw (encode_payload, e), by_zstd e)
  ]

  -- The worker gets the bytes back if the header names how they were encoded.
  decompress-plain :
      (h : Headers) (raw : Bytes) (d : LogDecompressor)
      → (encoding_of h ≡ "") ⊎ (encoding_of h ≡ "identity")
      → (decompress cs raw h d).0 ≡ ok (raw, no_cleanup)
  unfolding decompress
  decompress-plain h raw d q = elim q [ inl e ↦ rw (decompress, e) | inr e ↦ rw (decompress, e) ]

  decompress-gzip :
      (h : Headers) (raw : Bytes) (d : LogDecompressor)
      → encoding_of h ≡ "gzip"
      → (decompress cs (enc.gzip_bytes raw) h d).0 ≡ ok (raw, put_gzip raw)
  unfolding decompress decompress_gzip
  decompress-gzip h raw d e =
      rw (decompress, e, decompress_gzip, codec.resets raw, codec.copies raw, codec.ends raw)

  decompress-zstd :
      (h : Headers) (raw : Bytes) (d : LogDecompressor)
      → encoding_of h ≡ "zstd"
      → (decompress cs (enc.zstd_encode_all raw) h d).0 ≡ ok (raw, put_buf raw)
  unfolding decompress decompress_zstd
  decompress-zstd h raw d e = rw (decompress, e, decompress_zstd, codec.zstd raw)

  -- The resources of a message whose payload was decompressed to these bytes.
  decompressed-resources :
      (h : Headers) (payload raw : Bytes) (done : Cleanup)
      → (decompress cs payload h (no_buffers cs unmarshal_proto unmarshal_json)).0 ≡ ok (raw, done)
      → resources_of cs unmarshal_proto unmarshal_json (record { payload = payload; headers = h })
        ≡ (elim (decode unmarshal_proto unmarshal_json raw h) [ err e ↦ [] | ok found ↦ found ])
  decompressed-resources h payload raw done e =
      ap (resources_in cs unmarshal_proto unmarshal_json h) e

  encoded-resources :
      (h : Headers) (raw payload : Bytes)
      → content_type_of h ≡ mime
      → encoding_of h ≡ coding
      → marshal fl cfg enc logs ≡ ok raw
      → Encoded raw payload
      → resources_of cs unmarshal_proto unmarshal_json (record { payload = payload; headers = h })
        ≡ logs
  encoded-resources h raw _ t c m (plain e) =
      decompressed-resources h raw raw no_cleanup (
        decompress-plain h raw (no_buffers cs unmarshal_proto unmarshal_json)
          (inr (elim e [ inl x ↦ rw (c, x) | inr x ↦ rw (c, x) ])))
      ∙ rw (decode-marshal h raw t m)
  encoded-resources h raw _ t c m (by_gzip e) =
      decompressed-resources h (enc.gzip_bytes raw) raw (put_gzip raw)
        (decompress-gzip h raw (no_buffers cs unmarshal_proto unmarshal_json) (rw (c, e)))
      ∙ rw (decode-marshal h raw t m)
  encoded-resources h raw _ t c m (by_zstd e) =
      decompressed-resources h (enc.zstd_encode_all raw) raw (put_buf raw)
        (decompress-zstd h raw (no_buffers cs unmarshal_proto unmarshal_json) (rw (c, e)))
      ∙ rw (decode-marshal h raw t m)
