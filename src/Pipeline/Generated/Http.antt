-- ===== src/Pipeline/Generated/Http.antt =====
-- The HTTP runner's targets, posted to the ingester.
use logarithm.Prelude.{
  ℕ, String, ◌≡◌, refl, ap, ◌∙◌, true, Option, none, some, List, [], ◌∷◌, arith, eq_iff, Bytes,
  Result, ok,
}
use logarithm.Transport.Message.{Headers, find_header, first_value}
use logarithm.Ingester.Http.{
  NetHttp, Response, new_http_server, new_http_server-post_logs, Server, post_logs,
  handle_otlp_logs, message_headers, is_supported_type, is_supported_encoding,
}
use logarithm.Ingester.Supported.{recorder, content_type_of, encoding_of}
use logarithm.Worker.Transform.{ResourceLogs}
use logarithm.Worker.Decompress.{Codecs}
use logarithm.Worker.Process.Dropped.{resources_of}
use logarithm.LoadGenerator.{Float64, CleanConfig}
use logarithm.LoadGenerator.Clean.{IsClean}
use logarithm.LoadGenerator.Payload.{
  Encoders, Target, write_headers, create_targeter, marshal, Factory, get_rand, put_rand,
}
use logarithm.LoadGenerator.Payload.Made.{generate_encoded_payload_lem}
use logarithm.Pipeline.Generated.{
  IsCodec, request_of, mime, coding, write_headers_lem, Encoded, mime-supported, coding-supported,
  encoded-resources, new_target, encode_payload-Encoded,
}
use logarithm.Prelude.Int.{ℤ}
use logarithm.LoadGenerator.Random.{Rand}
use logarithm.LoadGenerator.Generator.{Weighted, LogRecordTemplate, generate_request}

-- A broker that takes every message.
abbrev pub accepts : Bytes → Option String
accepts b = none

-- What the ingester does with a request for a target.
abbrev pub ingest :
    NetHttp
    → (ℕ → ℕ → ℕ)
    → ℕ
    → ℕ
    → Target
    → Server (recorder accepts)
    → Response × Server (recorder accepts)
ingest http grow presize limit t server =
    new_http_server (recorder accepts) http grow presize limit t.method (http.url_path t.url)
      (request_of t) server

module _ (fl : Float64) (cfg : CleanConfig fl) (clean : IsClean fl cfg) (enc : Encoders)
    (cs : Codecs) (unmarshal_proto unmarshal_json : Bytes → Result (List ResourceLogs))
    (logs : List ResourceLogs) (codec : IsCodec enc cs unmarshal_proto unmarshal_json logs) where
  target_of : Bytes → Target
  target_of payload = record {
    method = cfg.http_method;
    url = cfg.target_url;
    body = payload;
    header = write_headers fl cfg [];
  }

  -- The ingester's answer to a target, by the route that the target's method and URL lead to, and what
  -- the worker reads of the message that it publishes.
  pub record IsDelivered (http : NetHttp) (grow : ℕ → ℕ → ℕ) (presize limit : ℕ)
      (server : Server (recorder accepts)) (t : Target) : Type 0 where
    pub status : (ingest http grow presize limit t server).0.status ≡ 202
    pub headers : Headers
    pub published :
        (ingest http grow presize limit t server).1.broker
        ≡ ("logs.raw", t.body, headers) ∷ server.broker
    pub read :
        resources_of cs unmarshal_proto unmarshal_json
          (record { payload = t.body; headers = headers })
        ≡ logs

  request_of_lem :
      (payload : Bytes)
      → request_of (target_of payload) ≡ record {
        content_type = mime fl cfg clean enc cs unmarshal_proto unmarshal_json logs codec;
        content_encoding = coding fl cfg clean enc cs unmarshal_proto unmarshal_json logs codec;
        body = ok payload;
      }
  unfolding target_of
  request_of_lem payload = λ i. record {
    content_type = first_value (
        find_header "Content-Type"
          (write_headers_lem fl cfg clean enc cs unmarshal_proto unmarshal_json logs codec i));
    content_encoding = first_value (
        find_header "Content-Encoding"
          (write_headers_lem fl cfg clean enc cs unmarshal_proto unmarshal_json logs codec i));
    body = ok payload;
  }

  sent_headers :
      (mime : String) (coding : String) (payload : Bytes)
      → is_supported_type mime ≡ true
      → is_supported_encoding coding ≡ true
      → (grow : ℕ → ℕ → ℕ) (presize limit : ℕ) (server : Server (recorder accepts))
      → ((post_logs
            (recorder accepts)
            grow
            presize
            limit
            (record { content_type = mime; content_encoding = coding; body = ok payload })
            server).0.status
          ≡ 202)
        × ((post_logs
              (recorder accepts)
              grow
              presize
              limit
              (record { content_type = mime; content_encoding = coding; body = ok payload })
              server).1.broker
            ≡ (
              "logs.raw",
              payload,
              message_headers
                  (recorder accepts)
                  (record { content_type = mime; content_encoding = coding; body = ok payload }),
            )
              ∷ server.broker)
  unfolding post_logs handle_otlp_logs
  sent_headers mime coding payload t e grow presize limit server =
      (rw (post_logs, t, e) refl, rw (post_logs, t, e) refl)

  message_headers_lem :
      (m c : String) (payload : Bytes)
      → (content_type_of (
            message_headers
              (recorder accepts)
              (record { content_type = m; content_encoding = c; body = ok payload }))
          ≡ m)
        × (encoding_of (
              message_headers
                (recorder accepts)
                (record { content_type = m; content_encoding = c; body = ok payload }))
            ≡ c)
  unfolding message_headers
  message_headers_lem m c payload = ground (arith, eq_iff m "", eq_iff c "")

  target-IsDelivered :
      (http : NetHttp) (grow : ℕ → ℕ → ℕ) (presize limit : ℕ) (server : Server (recorder accepts))
      (raw payload : Bytes)
      → cfg.http_method ≡ "POST"
      → http.url_path cfg.target_url ≡ "/v1/logs"
      → marshal fl cfg enc logs ≡ ok raw
      → Encoded fl cfg clean enc cs unmarshal_proto unmarshal_json logs codec raw payload
      → IsDelivered http grow presize limit server (target_of payload)
  unfolding target_of
  target-IsDelivered http grow presize limit server raw payload post path m e =
      let t = mime fl cfg clean enc cs unmarshal_proto unmarshal_json logs codec in
      let c = coding fl cfg clean enc cs unmarshal_proto unmarshal_json logs codec in
      let same = request_of_lem payload in
      let routed : ingest http grow presize limit (target_of payload) server
          ≡ post_logs (recorder accepts) grow presize limit (request_of (target_of payload))
              server =
        (λ i.
          new_http_server (recorder accepts) http grow presize limit (post i) (path i)
            (request_of (target_of payload)) server)
        ∙ ap (λ h. h (request_of (target_of payload)) server)
            (new_http_server-post_logs (recorder accepts) http grow presize limit) in
      let sent =
        sent_headers t c payload
          (mime-supported fl cfg clean enc cs unmarshal_proto unmarshal_json logs codec)
          (coding-supported fl cfg clean enc cs unmarshal_proto unmarshal_json logs codec) grow
          presize limit server in
      let named = message_headers_lem t c payload in
      record {
        status =
            ap (λ r. r.0.status) routed
            ∙ ap (λ r. (post_logs (recorder accepts) grow presize limit r server).0.status) same
            ∙ sent.0;
        headers =
            message_headers (recorder accepts)
              (record { content_type = t; content_encoding = c; body = ok payload });
        published =
            ap (λ r. r.1.broker) routed
            ∙ ap (λ r. (post_logs (recorder accepts) grow presize limit r server).1.broker) same
            ∙ sent.1;
        read =
            encoded-resources fl cfg clean enc cs unmarshal_proto unmarshal_json logs codec _ raw
              payload named.0 named.1 m e;
      }

  -- For a clean configuration with the method POST and a URL whose path is /v1/logs, decoders that undo
  -- the encoders, and a broker that accepts every message: if the factory's next generator makes a
  -- request, and it can be marshalled, the targeter fills in a target; by the route of its method and
  -- URL the ingester answers 202 and publishes one message; and the worker reads of that message exactly
  -- the logs of the request. This holds in each content type and encoding.
  pub create_targeter-IsDelivered :
      (percent : fl.Float → ℤ) (r : Rand) (w : Weighted r)
      (put_str : List (String × String) → String → String → List (String × String))
      (new_rand : ℕ → r.State) (now : ℕ) (pool : List LogRecordTemplate) (f : Factory r)
      (http : NetHttp) (grow : ℕ → ℕ → ℕ) (presize limit : ℕ) (server : Server (recorder accepts))
      (s : r.State) (raw : Bytes)
      → cfg.http_method ≡ "POST"
      → http.url_path cfg.target_url ≡ "/v1/logs"
      → generate_request fl percent r w put_str cfg now pool (get_rand r new_rand f).0
        ≡ some (logs, s)
      → marshal fl cfg enc logs ≡ ok raw
      → (t : Target) × (create_targeter fl cfg percent r w put_str enc new_rand now pool
            (some new_target)
            f
          ≡ some (ok t, put_rand r s (get_rand r new_rand f).1))
        × IsDelivered http grow presize limit server t
  unfolding create_targeter target_of
  create_targeter-IsDelivered percent r w put_str new_rand now pool f http grow presize limit server
        s raw post path made m =
      let (payload, q, e) =
        encode_payload-Encoded fl cfg clean enc cs unmarshal_proto unmarshal_json logs codec raw in
      (
        target_of payload,
        rw (
          create_targeter,
          generate_encoded_payload_lem fl cfg percent r w put_str enc new_rand now pool f logs s raw
              payload made m q,
        ),
        target-IsDelivered http grow presize limit server raw payload post path m e,
      )
