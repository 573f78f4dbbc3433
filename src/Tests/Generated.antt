-- ===== src/Tests/Generated.antt =====
-- A request of the load generator on its way to the worker.
use logarithm.Prelude.{
  ◌≤◌, length, str_eq, if◌then◌else◌, arith, Option, ℕ, max, String, ◌≡◌, refl, sym, ap, none, some,
  List, [], ◌∷◌, ◌==◌, if◌then◌else◌, Bytes, get_or, drop, Result, ok, err,
}
use logarithm.Prelude.Int.{pos}
use logarithm.Ingester.Http.{Server, Response, NetHttp, find_route}
use logarithm.Prelude.Text.{concat}
use logarithm.Ingester.Supported.{recorder}
use logarithm.Worker.Transform.{ResourceLogs}
use logarithm.Worker.Decompress.{Codecs}
use logarithm.LoadGenerator.Random.{int_n}
use logarithm.LoadGenerator.Generator.{
  generate_request, generate_records, generate_record, generate_trace_id, generate_span_id,
  put_uint64,
}
use logarithm.LoadGenerator.Payload.{
  Encoders, Factory, Target, CallResult, marshal, encode_payload, get_rand, put_rand,
  create_targeter, invoke,
}
use logarithm.Pipeline.Generated.{IsCodec, new_target}
use logarithm.Pipeline.Generated.Http.{accepts, IsDelivered, create_targeter-IsDelivered}
use logarithm.Pipeline.Generated.Grpc.{
  IsFormat, IsInvoked, serve, max_receive_size, invoke-IsInvoked,
}
use logarithm.Tests.LoadGenerator.{
  tenths, config, config-IsClean, counting, first_choice, percent, put_str, templates,
}

abbrev shop : ResourceLogs
shop = record {
  attributes = ("service.name", "shop") ∷ [];
  scope_logs =
      record {
        scope_name = "test-scope";
        scope_version = "1.0.0";
        log_records =
            record {
              attributes = [];
              timestamp = 7;
              observed_timestamp = 7;
              trace_id = 3 ∷ 0 ∷ 0 ∷ 0 ∷ 0 ∷ 0 ∷ 0 ∷ 0 ∷ 4 ∷ 0 ∷ 0 ∷ 0 ∷ 0 ∷ 0 ∷ 0 ∷ 0 ∷ [];
              span_id = 5 ∷ 0 ∷ 0 ∷ 0 ∷ 0 ∷ 0 ∷ 0 ∷ 0 ∷ [];
              severity_text = "INFO";
              severity_number = pos 9;
              body = "paid";
            }
            ∷ [];
      }
      ∷ [];
}

-- Marshalling that knows the one request, and compressions that put their magic numbers in front.
abbrev encoders : Encoders
encoders = record {
  marshal_proto = λ logs. ok (0x0A ∷ 1 ∷ []);
  marshal_json = λ logs. ok (0x7B ∷ 0x7D ∷ []);
  zstd_encode_all = λ b. 0x28 ∷ 0xB5 ∷ 0x2F ∷ 0xFD ∷ b;
  gzip_write = λ b. none;
  gzip_close = λ b. none;
  gzip_bytes = λ b. 0x1F ∷ 0x8B ∷ b;
}

abbrev codecs : Codecs
codecs = record {
  zstd_decode_all = λ b. ok (drop 4 b);
  gzip_reset = λ b. if get_or b 0 0 == 0x1F then none else some "no header";
  gzip_copy = λ b. ok (drop 2 b);
  gzip_close = λ b. none;
}

abbrev unmarshal_proto : Bytes → Result (List ResourceLogs)
unmarshal_proto b = if get_or b 0 0 == 0x0A then ok (shop ∷ []) else err "no tag"

abbrev unmarshal_json : Bytes → Result (List ResourceLogs)
unmarshal_json b = if get_or b 0 0 == 0x7B then ok (shop ∷ []) else err "no brace"

ok_bytes : Result Bytes → Bytes
ok_bytes (err e) = []
ok_bytes (ok b) = b

codec : IsCodec encoders codecs unmarshal_proto unmarshal_json (shop ∷ [])
unfolding ok_bytes
codec = record {
  proto = λ raw e. ap (λ r. unmarshal_proto (ok_bytes r)) (sym e);
  json = λ raw e. ap (λ r. unmarshal_json (ok_bytes r)) (sym e);
  zstd = λ raw. refl;
  writes = λ raw. refl;
  closes = λ raw. refl;
  resets = λ raw. refl;
  copies = λ raw. refl;
  ends = λ raw. refl;
}

format : IsFormat encoders
unfolding ok_bytes
format = record {
  proto_tag = λ l ls raw e. (1 ∷ [], ap ok_bytes (sym e));
  json_brace = λ logs raw e. (0x7D ∷ [], ap ok_bytes (sym e));
  zstd_magic = λ b bs. (b ∷ bs, refl);
  gzip_magic = λ raw. (raw, refl);
}

abbrev factory : Factory counting
factory = record { rand_pool = []; counter = 0 }

abbrev server : Server (recorder accepts)
server = record { broker = []; buf_pool = [] }

abbrev new_rand : ℕ → ℕ
new_rand n = n

made :
    generate_request tenths percent counting first_choice put_str config 7 templates
      (get_rand counting new_rand factory).0
    ≡ some (shop ∷ [], 6)
unfolding generate_request generate_records generate_record generate_trace_id generate_span_id
    put_uint64 int_n
made = refl

marshalled : marshal tenths config encoders (shop ∷ []) ≡ ok (0x0A ∷ 1 ∷ [])
unfolding marshal
marshalled = refl

or_own : {A : Type 0} → (Response → A) → Option A → A
or_own own none = own (record { status = 404; text = "404 page not found\n" })
or_own own (some h) = h

-- One URL, and the table of routes by their patterns.
abbrev http : NetHttp
http = record {
  url_path = λ u. if str_eq u "http://localhost:4318/v1/logs" then "/v1/logs" else "/";
  serve_mux =
      λ own routes method path. or_own own (find_route (concat (method ∷ " " ∷ path ∷ [])) routes);
  serve_mux_exact = λ own routes h e. unfold or_own in ap (or_own own) e;
}

create_targeter-IsDelivered_example :
    (t : Target) × (create_targeter tenths config percent counting first_choice put_str encoders
        new_rand 7 templates
        (some new_target)
        factory
      ≡ some (ok t, put_rand counting 6 (get_rand counting new_rand factory).1))
    × IsDelivered tenths config config-IsClean encoders codecs unmarshal_proto unmarshal_json
        (shop ∷ [])
        codec
        http
        (λ a b. max a b)
        10
        20
        server
        t
create_targeter-IsDelivered_example =
    create_targeter-IsDelivered tenths config config-IsClean encoders codecs unmarshal_proto
      unmarshal_json (shop ∷ []) codec percent counting first_choice put_str new_rand 7 templates
      factory http (λ a b. max a b) 10 20 server 6 (0x0A ∷ 1 ∷ []) refl refl made marshalled

abbrev code_string : ℕ → String
code_string n = "Internal"

small_payload :
    (payload : Bytes)
    → encode_payload tenths config encoders (0x0A ∷ 1 ∷ []) ≡ ok payload
    → length payload ≤ max_receive_size
unfolding encode_payload ok_bytes
small_payload payload e = omega (arith, ap (λ r. length (ok_bytes r)) e)

invoke-IsInvoked_example :
    (result : CallResult) × (after : Server (recorder accepts)) × (invoke tenths config percent
        counting first_choice put_str encoders new_rand 7 templates code_string
        (serve 10 20)
        100
        5
        (server, factory)
      ≡ some (result, after, put_rand counting 6 (get_rand counting new_rand factory).1))
    × IsInvoked tenths config config-IsClean encoders codecs unmarshal_proto unmarshal_json shop []
        codec format server
        (0x0A ∷ 1 ∷ [])
        result
        after
invoke-IsInvoked_example =
    invoke-IsInvoked tenths config config-IsClean encoders codecs unmarshal_proto unmarshal_json
      shop [] codec format percent counting first_choice put_str new_rand 7 templates factory
      code_string 100 5 10 20 server 6 (0x0A ∷ 1 ∷ []) made marshalled small_payload
