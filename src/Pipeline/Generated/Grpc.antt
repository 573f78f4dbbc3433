-- ===== src/Pipeline/Generated/Grpc.antt =====
-- The gRPC runner's payloads, invoked at the ingester.
use logarithm.Prelude.{
  leb, ◌≤◌, true, if◌then◌else◌, ℕ, String, ◌≡◌, refl, ap, ◌∙◌, ◌⊎◌, inl, inr, Option, none, some,
  List, [], ◌∷◌, arith, eq_iff, Bytes, length, Result, ok, err,
}
use logarithm.Prelude.Int.{ℤ}
use logarithm.Ingester.Http.{Server}
use logarithm.Ingester.Grpc.{
  Received, failed, closed, replied, internal, frame, frame_headers, detect_compression,
  grpc_export, handle_stream, publish_frame,
}
use logarithm.Ingester.Supported.{recorder, content_type_of, encoding_of}
use logarithm.Worker.Transform.{ResourceLogs}
use logarithm.Worker.Decompress.{Codecs, decode, no_cleanup, put_buf, put_gzip, Cleanup, decompress}
use logarithm.Worker.Process.Dropped.{resources_of, no_buffers}
use logarithm.LoadGenerator.{Float64, CleanConfig}
use logarithm.LoadGenerator.Clean.{IsClean}
use logarithm.LoadGenerator.Random.{Rand}
use logarithm.LoadGenerator.Generator.{LogRecordTemplate, Weighted, generate_request}
use logarithm.LoadGenerator.Payload.{
  Encoders, Factory, CallResult, get_rand, put_rand, marshal, encode_payload, invoke,
  grpc_code_to_httpish,
}
use logarithm.LoadGenerator.Payload.Made.{generate_encoded_payload_lem}
use logarithm.Pipeline.Generated.{
  IsCodec, Encoded, plain, by_gzip, by_zstd, encode_payload-Encoded, decompressed-resources,
  decompress-plain, decompress-gzip, decompress-zstd,
}
use logarithm.Pipeline.Generated.Http.{accepts}

-- How the formats begin: the tag of a request's first field, the brace of JSON, and the magic numbers of
-- the two compressions.
pub record IsFormat (enc : Encoders) : Type 0 where
  pub proto_tag :
      (l : ResourceLogs) (ls : List ResourceLogs) (raw : Bytes)
      → enc.marshal_proto (l ∷ ls) ≡ ok raw
      → (rest : Bytes) × (raw ≡ 0x0A ∷ rest)
  pub json_brace :
      (logs : List ResourceLogs) (raw : Bytes)
      → enc.marshal_json logs ≡ ok raw
      → (rest : Bytes) × (raw ≡ 0x7B ∷ rest)
  pub zstd_magic :
      (b : ℕ) (bs : Bytes)
      → (rest : Bytes) × (enc.zstd_encode_all (b ∷ bs) ≡ 0x28 ∷ 0xB5 ∷ 0x2F ∷ 0xFD ∷ rest)
  pub gzip_magic : (raw : Bytes) → (rest : Bytes) × (enc.gzip_bytes raw ≡ 0x1F ∷ 0x8B ∷ rest)

-- The size up to which a gRPC server receives messages, by default: the ingester's does not change it.
abbrev pub max_receive_size : ℕ
max_receive_size = 4_194_304

-- What `RecvMsg` makes of a message on the connection.
abbrev pub receive_message : Bytes → Received
receive_message payload =
    if leb (length payload) max_receive_size
    then frame payload
    else failed "received message larger than max"

-- The connection hands each payload to the ingester's handler.
unfoldable pub serve :
    ℕ
    → ℕ
    → Server (recorder accepts)
    → Bytes
    → (Bytes × Option (ℕ × String)) × Server (recorder accepts)
serve presize limit server payload =
    let (status, server') =
      grpc_export (recorder accepts) presize limit (receive_message payload) server in
    (([], elim status [ closed ↦ none | replied ↦ none | internal e ↦ some (13, e) ]), server')

serve_lem :
    (presize limit : ℕ) (server : Server (recorder accepts)) (payload : Bytes)
    → length payload ≤ max_receive_size
    → serve presize limit server payload
      ≡ (([], none), (grpc_export (recorder accepts) presize limit (frame payload) server).1)
unfolding serve grpc_export handle_stream publish_frame
serve_lem presize limit server payload h =
    let small : leb (length payload) max_receive_size ≡ true = ground arith in rw small refl

detect_other : (b : ℕ) (rest : Bytes) → (b ≡ 0x0A) ⊎ (b ≡ 0x7B) → detect_compression (b ∷ rest) ≡ ""
unfolding detect_compression
detect_other b rest h = ground arith

detect_zstd : (rest : Bytes) → detect_compression (0x28 ∷ 0xB5 ∷ 0x2F ∷ 0xFD ∷ rest) ≡ "zstd"
unfolding detect_compression
detect_zstd rest = ground arith

detect_gzip : (rest : Bytes) → detect_compression (0x1F ∷ 0x8B ∷ rest) ≡ "gzip"
unfolding detect_compression
detect_gzip rest = ground arith

frame_headers_lem :
    (payload : Bytes)
    → (content_type_of (frame_headers payload) ≡ "application/x-protobuf")
      × (encoding_of (frame_headers payload) ≡ detect_compression payload)
unfolding frame_headers
frame_headers_lem payload = ground (arith, eq_iff (detect_compression payload) "")

-- The resources that a payload of Protobuf stands for.
abbrev pub read_proto : Result (List ResourceLogs) → List ResourceLogs
read_proto (err e) = []
read_proto (ok logs) = logs

same_read :
    (r : Result (List ResourceLogs))
    → (elim r as (λ x. List ResourceLogs) [ err e ↦ [] | ok logs ↦ logs ]) ≡ read_proto r
same_read (err e) = refl
same_read (ok logs) = refl

module _ (fl : Float64) (cfg : CleanConfig fl) (clean : IsClean fl cfg) (enc : Encoders)
    (cs : Codecs) (unmarshal_proto unmarshal_json : Bytes → Result (List ResourceLogs))
    (l : ResourceLogs) (ls : List ResourceLogs)
    (codec : IsCodec enc cs unmarshal_proto unmarshal_json (l ∷ ls)) (format : IsFormat enc) where
  first_byte :
      (raw : Bytes)
      → marshal fl cfg enc (l ∷ ls) ≡ ok raw
      → (b : ℕ) × (rest : Bytes) × (raw ≡ b ∷ rest) × ((b ≡ 0x0A) ⊎ (b ≡ 0x7B))
  unfolding marshal
  first_byte raw m = elim clean.content_type [
    | inl t ↦
        let (rest, e) = format.json_brace (l ∷ ls) raw (rw (marshal, t) at m) in
        (0x7B, rest, e, inr refl)
    | inr t ↦
        let (rest, e) = format.proto_tag l ls raw (rw (marshal, t) at m) in
        (0x0A, rest, e, inl refl)
  ]

  decode_frame :
      (raw payload : Bytes)
      → decode unmarshal_proto unmarshal_json raw (frame_headers payload) ≡ unmarshal_proto raw
  unfolding decode
  decode_frame raw payload = rw (decode, (frame_headers_lem payload).0)

  message_read :
      (raw payload : Bytes) (done : Cleanup)
      → (decompress cs payload
          (frame_headers payload)
          (no_buffers cs unmarshal_proto unmarshal_json)).0
        ≡ ok (raw, done)
      → resources_of cs unmarshal_proto unmarshal_json
          (record { payload = payload; headers = frame_headers payload })
        ≡ read_proto (unmarshal_proto raw)
  message_read raw payload done e =
      decompressed-resources fl cfg clean enc cs unmarshal_proto unmarshal_json (l ∷ ls) codec
        (frame_headers payload) payload raw done e
      ∙ same_read (decode unmarshal_proto unmarshal_json raw (frame_headers payload))
      ∙ ap read_proto (decode_frame raw payload)

  -- The worker decompresses what the handler sniffed.
  sniffed :
      (raw payload : Bytes)
      → ((b : ℕ) × (rest : Bytes) × (raw ≡ b ∷ rest) × ((b ≡ 0x0A) ⊎ (b ≡ 0x7B)))
      → Encoded fl cfg clean enc cs unmarshal_proto unmarshal_json (l ∷ ls) codec raw payload
      → resources_of cs unmarshal_proto unmarshal_json
          (record { payload = payload; headers = frame_headers payload })
        ≡ read_proto (unmarshal_proto raw)
  sniffed raw _ (b, rest, q, first) (plain e) = message_read raw raw no_cleanup (
      decompress-plain fl cfg clean enc cs unmarshal_proto unmarshal_json (l ∷ ls) codec
        (frame_headers raw) raw (no_buffers cs unmarshal_proto unmarshal_json)
        (inl ((frame_headers_lem raw).1 ∙ ap detect_compression q ∙ detect_other b rest first)))
  sniffed raw _ (b, rest, q, first) (by_gzip e) =
      let (tail, magic) = format.gzip_magic raw in
      message_read raw (enc.gzip_bytes raw) (put_gzip raw) (
        decompress-gzip fl cfg clean enc cs unmarshal_proto unmarshal_json (l ∷ ls) codec
          (frame_headers (enc.gzip_bytes raw)) raw (no_buffers cs unmarshal_proto unmarshal_json)
          ((frame_headers_lem (enc.gzip_bytes raw)).1
            ∙ ap detect_compression magic
            ∙ detect_gzip tail))
  sniffed raw _ (b, rest, q, first) (by_zstd e) =
      let (tail, magic) = format.zstd_magic b rest in
      message_read raw (enc.zstd_encode_all raw) (put_buf raw) (
        decompress-zstd fl cfg clean enc cs unmarshal_proto unmarshal_json (l ∷ ls) codec
          (frame_headers (enc.zstd_encode_all raw)) raw
          (no_buffers cs unmarshal_proto unmarshal_json)
          ((frame_headers_lem (enc.zstd_encode_all raw)).1
            ∙ ap (λ x. detect_compression (enc.zstd_encode_all x)) q
            ∙ ap detect_compression magic
            ∙ detect_zstd tail))

  -- What `invoke` returns and leaves behind at the ingester, and what the worker reads of the message.
  pub record IsInvoked (server : Server (recorder accepts)) (raw : Bytes) (result : CallResult)
      (after : Server (recorder accepts)) : Type 0 where
    pub code : result.code ≡ 200
    pub payload : Bytes
    pub size : result.bytes_out ≡ length payload
    pub published : after.broker ≡ ("logs.>raw", payload, frame_headers payload) ∷ server.broker
    pub read :
        resources_of cs unmarshal_proto unmarshal_json
          (record { payload = payload; headers = frame_headers payload })
        ≡ read_proto (unmarshal_proto raw)
    pub proto : cfg.content_type ≡ "proto" → read_proto (unmarshal_proto raw) ≡ l ∷ ls

  proto-read :
      (raw : Bytes)
      → marshal fl cfg enc (l ∷ ls) ≡ ok raw
      → cfg.content_type ≡ "proto"
      → read_proto (unmarshal_proto raw) ≡ l ∷ ls
  unfolding marshal
  proto-read raw m t = ap read_proto (codec.proto raw (rw (marshal, t) at m))

  -- For a clean configuration, decoders that undo the encoders, formats that begin as they are documented
  -- to, and a broker that accepts every message: if the factory's next generator makes a request of at
  -- least one resource, it can be marshalled, and what is encoded is within the size that a gRPC server
  -- receives, the invocation has code 200, and the ingester publishes one message; the worker reads of it
  -- what the Protobuf decoder makes of the marshalled bytes, in each encoding. So it reads the logs of
  -- the request if the content type is proto; for json it is the Protobuf decoder that gets the JSON.
  pub invoke-IsInvoked :
      (percent : fl.Float → ℤ) (r : Rand) (w : Weighted r)
      (put_str : List (String × String) → String → String → List (String × String))
      (new_rand : ℕ → r.State) (now : ℕ) (pool : List LogRecordTemplate) (f : Factory r)
      (code_string : ℕ → String) (begin latency presize limit : ℕ)
      (server : Server (recorder accepts)) (s : r.State) (raw : Bytes)
      → generate_request fl percent r w put_str cfg now pool (get_rand r new_rand f).0
        ≡ some (l ∷ ls, s)
      → marshal fl cfg enc (l ∷ ls) ≡ ok raw
      → ((payload : Bytes)
          → encode_payload fl cfg enc raw ≡ ok payload
          → length payload ≤ max_receive_size)
      → (result : CallResult) × (after : Server (recorder accepts)) × (invoke fl cfg percent r w
            put_str enc new_rand now pool code_string
            (serve presize limit)
            begin
            latency
            (server, f)
          ≡ some (result, after, put_rand r s (get_rand r new_rand f).1))
        × IsInvoked server raw result after
  unfolding invoke grpc_code_to_httpish grpc_export handle_stream publish_frame
  invoke-IsInvoked percent r w put_str new_rand now pool f code_string begin latency presize limit
        server s raw made m fits =
      let (payload, q, e) =
        encode_payload-Encoded fl cfg clean enc cs unmarshal_proto unmarshal_json (l ∷ ls) codec
          raw in
      (
        record {
          timestamp = begin;
          latency = latency;
          bytes_out = length payload;
          bytes_in = 0;
          code = 200;
          error = "";
        },
        (grpc_export (recorder accepts) presize limit (frame payload) server).1,
        rw
            (
              invoke,
              generate_encoded_payload_lem fl cfg percent r w put_str enc new_rand now pool f
                  (l ∷ ls) s raw payload made m q,
              serve_lem presize limit server payload (fits payload q),
            )
            refl,
        record {
          code = refl;
          payload = payload;
          size = refl;
          published = refl;
          read = sniffed raw payload (first_byte raw m) e;
          proto = proto-read raw m;
        },
      )
