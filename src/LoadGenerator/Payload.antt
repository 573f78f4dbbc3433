-- ===== src/LoadGenerator/Payload.antt =====
-- load_generator/attack/factory.go, runner_http.go and runner_grpc.go: the payload of a request, and what
-- the HTTP and the gRPC runner send. The pools of gzip writers and buffers are values here, since what
-- they hold is reset before it is used.
pub mod Made
use logarithm.Prelude.{
  ℕ, ◌+◌, String, Option, none, some, List, [], ◌∷◌, str_eq, ◌==◌, if◌then◌else◌, Bytes, length,
  Result, ok, err, ◌>>=◌,
}
use logarithm.Prelude.Int.{ℤ}
use logarithm.Prelude.Text.{concat}
use logarithm.Transport.Message.{Headers}
use logarithm.Worker.Transform.{ResourceLogs}
use logarithm.LoadGenerator.{Float64, CleanConfig}
use logarithm.LoadGenerator.Random.{Rand}
use logarithm.LoadGenerator.Generator.{LogRecordTemplate, Weighted, generate_request}

-- The marshalling of the OTLP library, `EncodeAll` of the zstd encoder, the errors of `Write` and `Close`
-- of a gzip writer and what is in its buffer then.
pub record Encoders : Type 0 where
  pub marshal_proto : List ResourceLogs → Result Bytes
  pub marshal_json : List ResourceLogs → Result Bytes
  pub zstd_encode_all : Bytes → Bytes
  pub gzip_write : Bytes → Option String
  pub gzip_close : Bytes → Option String
  pub gzip_bytes : Bytes → Bytes

-- The generators that are at rest, and how many there have been.
pub record Factory (r : Rand) : Type 0 where
  pub rand_pool : List r.State
  pub counter : ℕ

pub record Target : Type 0 where
  pub method : String
  pub url : String
  pub body : Bytes
  pub header : Headers

-- `Header.Set`
abbrev pub set_header : String → String → Headers → Headers
set_header name v [] = (name, v ∷ []) ∷ []
set_header name v ((n, vals) ∷ hs) =
    if str_eq n name then (n, v ∷ []) ∷ hs else (n, vals) ∷ set_header name v hs

unfoldable pub encode_gzip : Encoders → Bytes → Result Bytes
encode_gzip enc payload = elim (enc.gzip_write payload) [
  | some e ↦ err (concat ("gzip write error: " ∷ e ∷ []))
  | none ↦ elim (enc.gzip_close payload) [
    | some e ↦ err (concat ("gzip close error: " ∷ e ∷ []))
    | none ↦ ok (enc.gzip_bytes payload)
  ]
]

-- A generator of the pool, or a new one by the count of those before it.
abbrev pub get_rand : (r : Rand) → (ℕ → r.State) → Factory r → r.State × Factory r
get_rand r new_rand f = elim f.rand_pool [
  | [] ↦ (new_rand (f.counter + 1), record f { counter = f.counter + 1 })
  | s ∷ rest ↦ (s, record f { rand_pool = rest })
]

abbrev pub put_rand : (r : Rand) → r.State → Factory r → Factory r
put_rand r s f = record f { rand_pool = s ∷ f.rand_pool }

-- `vegeta.Result`, as far as `invoke` fills it in.
pub record CallResult : Type 0 where
  pub timestamp : ℕ
  pub latency : ℕ
  pub bytes_out : ℕ
  pub bytes_in : ℕ
  pub code : ℕ
  pub error : String

-- 0 is `codes.OK`.
unfoldable pub grpc_code_to_httpish : ℕ → ℕ
grpc_code_to_httpish c = if c == 0 then 200 else 500

module _ (fl : Float64) (cfg : CleanConfig fl) where
  unfoldable pub encode_payload : Encoders → Bytes → Result Bytes
  unfolding encode_gzip
  encode_payload enc payload =
      if str_eq cfg.encoding "zstd"
      then ok (enc.zstd_encode_all payload)
      else if str_eq cfg.encoding "gzip"
      then encode_gzip enc payload
      else ok payload

  unfoldable pub marshal : Encoders → List ResourceLogs → Result Bytes
  marshal enc request =
      if str_eq cfg.content_type "proto"
      then enc.marshal_proto request
      else if str_eq cfg.content_type "json"
      then enc.marshal_json request
      else err (concat ("unsupported content type " ∷ cfg.content_type ∷ []))

  unfoldable pub write_headers : Headers → Headers
  write_headers hs =
      let typed : Headers =
        if str_eq cfg.content_type "proto"
        then set_header "Content-Type" "application/x-protobuf" hs
        else if str_eq cfg.content_type "json"
        then set_header "Content-Type" "application/json" hs
        else hs in
      if str_eq cfg.encoding "zstd"
      then set_header "Content-Encoding" "zstd" typed
      else if str_eq cfg.encoding "gzip"
      then set_header "Content-Encoding" "gzip" typed
      else set_header "Content-Encoding" "identity" typed

  -- `none` is a panic while the request is made.
  module _ (percent : fl.Float → ℤ) (r : Rand) (w : Weighted r)
      (put_str : List (String × String) → String → String → List (String × String)) (enc : Encoders)
      (new_rand : ℕ → r.State) (now : ℕ) (pool : List LogRecordTemplate) where
    unfoldable pub generate_payload : Factory r → Option (Result Bytes × Factory r)
    generate_payload f =
        let (s, taken) = get_rand r new_rand f in
        elim (generate_request fl percent r w put_str cfg now pool s) [
          | none ↦ none
          | some (request, s') ↦ some (marshal enc request, put_rand r s' taken)
        ]

    unfoldable pub generate_encoded_payload : Factory r → Option (Result Bytes × Factory r)
    generate_encoded_payload f = elim (generate_payload f) [
      | none ↦ none
      | some (raw, f') ↦ some (raw >>= encode_payload enc, f')
    ]

    -- The targeter, at a target or at nil.
    unfoldable pub create_targeter : Option Target → Factory r → Option (Result Target × Factory r)
    create_targeter none f = some (err "nil target", f)
    create_targeter (some tgt) f = elim (generate_encoded_payload f) [
      | none ↦ none
      | some (encoded, f') ↦ some (
        encoded >>= λ body. ok (record {
          method = cfg.http_method;
          url = cfg.target_url;
          body = body;
          header = write_headers tgt.header;
        }),
        f',
      )
    ]

    -- What the server answers to an invocation: the bytes of a reply, or a code and a message.
    unfoldable pub invoke :
        {S : Type 0}
        → (ℕ → String)
        → (S → Bytes → (Bytes × Option (ℕ × String)) × S)
        → ℕ
        → ℕ
        → S × Factory r
        → Option (CallResult × S × Factory r)
    invoke code_string conn_invoke begin latency (conn, f) = elim (generate_encoded_payload f) [
      | none ↦ none
      | some (err e, f') ↦ some (
        record {
          timestamp = begin;
          latency = 0;
          bytes_out = 0;
          bytes_in = 0;
          code = 0;
          error = concat ("failed to generate payload: " ∷ e ∷ []);
        },
        conn,
        f',
      )
      | some (ok payload, f') ↦
          let ((reply, failure), conn') = conn_invoke conn payload in
          let (code, message) = outcome failure in
          some (
            record {
              timestamp = begin;
              latency = latency;
              bytes_out = length payload;
              bytes_in = length reply;
              code = code;
              error = message;
            },
            conn',
            f',
          )
    ]
      where
        outcome : Option (ℕ × String) → ℕ × String
        outcome none = (grpc_code_to_httpish 0, "")
        outcome (some (code, message)) =
            (grpc_code_to_httpish code, concat (code_string code ∷ ": " ∷ message ∷ []))
