-- ===== src/Ingester/Supported.antt =====
-- What the ingester publishes, the worker can read: the two sides agree on the headers.
use logarithm.Prelude.{
  ℕ, String, ◌≡◌, refl, ◌⊎◌, inl, inr, true, Option, List, ◌∷◌, arith, str_eq, starts_with, eq_iff,
  if◌then◌else◌, Bool-cases, Option-cases, All, Result, Result-cases, ok, Bytes,
}
use logarithm.Transport.Message.{
  Headers, find_header, first_value, log_stream_subject_prefix, log_stream_subject,
}
use logarithm.Ingester.Http.{
  Request, Producer, Server, is_supported_type, is_supported_encoding, message_headers, post_logs,
  handle_otlp_logs,
}
use logarithm.Ingester.Grpc.{
  Received, frame, eof, failed, frame_headers, detect_compression, grpc_export, publish_frame,
}
use logarithm.Worker.Decompress.{
  Codecs, LogDecompressor, no_cleanup, decompress, decompress_zstd, decompress_gzip, decode,
}

-- Headers with a content type and an encoding that both sides know.
abbrev pub content_type_of : Headers → String
content_type_of h = first_value (find_header "Content-Type" h)

abbrev pub encoding_of : Headers → String
encoding_of h = first_value (find_header "Content-Encoding" h)

pub record IsSupported (h : Headers) : Type 0 where
  pub content_type : is_supported_type (content_type_of h) ≡ true
  pub encoding : is_supported_encoding (encoding_of h) ≡ true

encoding_cases :
    (e : String)
    → is_supported_encoding e ≡ true
    → (e ≡ "") ⊎ (e ≡ "identity") ⊎ (e ≡ "zstd") ⊎ (e ≡ "gzip")
encoding_cases e h =
    ground (arith, eq_iff e "", eq_iff e "identity", eq_iff e "zstd", eq_iff e "gzip")

-- With supported headers the worker's decoder unmarshals the payload as the one or the other format,
-- and its decompressor takes it as it is, or decompresses it by zstd or by gzip: the errors for an
-- unknown content type or encoding do not arise.
pub IsSupported-worker :
    {R : Type 0} (proto json : Bytes → Result R) (cs : Codecs) (payload : Bytes) (h : Headers)
    (d : LogDecompressor)
    → IsSupported h
    → (decode proto json payload h ≡ (
        if starts_with (content_type_of h) "application/x-protobuf"
        then proto payload
        else json payload))
      × (decompress cs payload h d ≡ (
          if str_eq (encoding_of h) "zstd"
          then decompress_zstd cs payload d
          else if str_eq (encoding_of h) "gzip"
          then decompress_gzip cs payload d
          else (ok (payload, no_cleanup), d)))
unfolding decode decompress
IsSupported-worker proto json cs payload h d v = (
  ground (arith, v.content_type),
  elim (encoding_cases (encoding_of h) v.encoding) [
    | inl q ↦ rw (q, decompress)
    | inr (inl q) ↦ rw (q, decompress)
    | inr (inr (inl q)) ↦ rw (q, decompress)
    | inr (inr (inr q)) ↦ rw (q, decompress)
  ],
)

-- A producer that notes each message it is given; `reply` is what the broker answers.
abbrev pub recorder : (Bytes → Option String) → Producer
recorder reply = record {
  State = List (String × Bytes × Headers);
  publish_logs = λ s subject payload headers. ((subject, payload, headers) ∷ s, reply payload);
}

abbrev pub AllSupported : List (String × Bytes × Headers) → Type 0
AllSupported = All λ m. IsSupported m.2

message_headers-IsSupported :
    (p : Producer) (r : Request)
    → is_supported_type r.content_type ≡ true
    → is_supported_encoding r.content_encoding ≡ true
    → IsSupported (message_headers p r)
unfolding message_headers
message_headers-IsSupported p r t e =
    ground (arith, eq_iff r.content_type "", eq_iff r.content_encoding "")

handle_otlp_logs-IsSupported :
    (reply : Bytes → Option String) (grow : ℕ → ℕ → ℕ) (prefix : String) (presize limit : ℕ)
    (r : Request) (s : Server (recorder reply))
    → IsSupported (message_headers (recorder reply) r)
    → AllSupported s.broker
    → AllSupported (handle_otlp_logs (recorder reply) grow prefix presize limit r s).1.broker
unfolding handle_otlp_logs
handle_otlp_logs-IsSupported reply grow prefix presize limit r s v h = elim (Result-cases r.body) [
  | inr (e, q) ↦ rw (q, handle_otlp_logs) h
  | inl (bytes, q) ↦ elim (Option-cases (reply bytes)) [
    | inl accepted ↦ rw (q, handle_otlp_logs, accepted) (v, h)
    | inr (e, refused) ↦ rw (q, handle_otlp_logs, refused) (v, h)
  ]
]

-- Whatever the request and the state, if all that was published before has supported headers, so has
-- all that is published after a call of the HTTP route.
pub post_logs-IsSupported :
    (reply : Bytes → Option String) (grow : ℕ → ℕ → ℕ) (presize limit : ℕ) (r : Request)
    (s : Server (recorder reply))
    → AllSupported s.broker
    → AllSupported (post_logs (recorder reply) grow presize limit r s).1.broker
unfolding post_logs
post_logs-IsSupported reply grow presize limit r s h =
    elim (Bool-cases (is_supported_type r.content_type)) [
      | inr bad ↦ rw (post_logs, bad) h
      | inl typed ↦ elim (Bool-cases (is_supported_encoding r.content_encoding)) [
        | inr bad ↦ rw (post_logs, typed, bad) h
        | inl encoded ↦
            rw (post_logs, typed, encoded)
              (handle_otlp_logs-IsSupported reply grow log_stream_subject_prefix presize limit r s
                (message_headers-IsSupported (recorder reply) r typed encoded) h)
      ]
    ]

detect_compression-cases :
    (raw : Bytes)
    → (detect_compression raw ≡ "zstd")
      ⊎ (detect_compression raw ≡ "gzip")
      ⊎ (detect_compression raw ≡ "")
unfolding detect_compression
detect_compression-cases raw = ground arith

frame_headers-IsSupported : (raw : Bytes) → IsSupported (frame_headers raw)
unfolding frame_headers
frame_headers-IsSupported raw = elim (detect_compression-cases raw) [
  | inl q ↦ rw (frame_headers, q) (record { content_type = refl; encoding = refl })
  | inr (inl q) ↦ rw (frame_headers, q) (record { content_type = refl; encoding = refl })
  | inr (inr q) ↦ rw (frame_headers, q) (record { content_type = refl; encoding = refl })
]

publish_frame-IsSupported :
    (reply : Bytes → Option String) (prefix : String) (received : Received)
    (s : List (String × Bytes × Headers))
    → AllSupported s
    → AllSupported (publish_frame (recorder reply) prefix received s).1
unfolding publish_frame
publish_frame-IsSupported reply prefix eof s h = h
publish_frame-IsSupported reply prefix (failed e) s h = h
publish_frame-IsSupported reply prefix (frame raw) s h = elim (Option-cases (reply raw)) [
  | inl accepted ↦ rw (publish_frame, accepted) (frame_headers-IsSupported raw, h)
  | inr (e, refused) ↦ rw (publish_frame, refused) (frame_headers-IsSupported raw, h)
]

-- Whatever the frame and the state, if all that was published before has supported headers, so has all
-- that is published after a gRPC call.
pub grpc_export-IsSupported :
    (reply : Bytes → Option String) (presize limit : ℕ) (received : Received)
    (s : Server (recorder reply))
    → AllSupported s.broker
    → AllSupported (grpc_export (recorder reply) presize limit received s).1.broker
unfolding grpc_export
grpc_export-IsSupported reply presize limit received s h =
    publish_frame-IsSupported reply log_stream_subject received s.broker h
