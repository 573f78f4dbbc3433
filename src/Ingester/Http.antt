-- ===== src/Ingester/Http.antt =====
-- backend/internal/ingester/routes.go: the routes, with their handlers and middleware.
use logarithm.Prelude.{
  ◌≡◌, refl, ℕ, String, Bool, ◌||◌, Option, none, some, List, [], ◌∷◌, ◌++◌, str_eq, starts_with,
  leb, if◌then◌else◌, length, Result, ok, err, Bytes,
}
use logarithm.Prelude.Text.{concat}
use logarithm.Transport.Message.{Headers, log_stream_subject_prefix}

-- What the handlers read of a request. A header that is missing reads as ""; `body` is what
-- `ReadFrom` returns.
pub record Request : Type 0 where
  pub content_type : String
  pub content_encoding : String
  pub body : Result Bytes

pub record Response : Type 0 where
  pub status : ℕ
  pub text : String

-- A `transport.Producer` and the state behind it.
pub record Producer : Type 1 where
  pub State : Type 0
  pub publish_logs : State → String → Bytes → Headers → State × Option String

-- The handler's state: the broker, and the capacities of the buffers in its `sync.Pool`.
pub record Server (p : Producer) : Type 0 where
  pub broker : p.State
  pub buf_pool : List ℕ

abbrev pub Handler : Producer → Type 0
Handler p = Request → Server p → Response × Server p

abbrev pub is_supported_type : String → Bool
is_supported_type s = starts_with s "application/x-protobuf" || starts_with s "application/json"

abbrev pub is_supported_encoding : String → Bool
is_supported_encoding s =
    (str_eq s "" || str_eq s "identity") || (str_eq s "zstd" || str_eq s "gzip")

-- The handler that is registered for a pattern.
abbrev pub find_route {ℓ} : {A : Type ℓ} → String → List (String × A) → Option A
find_route pattern [] = none
find_route pattern ((q, h) ∷ routes) =
    if str_eq q pattern then some h else find_route pattern routes

-- Of `net/http`, the mux's choice of a handler by the patterns, the method and the path, where it may also
-- give a reply of its own, and the path of a URL. As is documented, the handler of a pattern without wildcards gets the requests with its method
-- and its path; this is the law at the pattern of the logs.
pub record NetHttp : Type 1 where
  pub url_path : String → String
  pub serve_mux : {A : Type 0} → (Response → A) → List (String × A) → String → String → A
  pub serve_mux_exact :
      {A : Type 0} (own : Response → A) (routes : List (String × A)) (h : A)
      → find_route "POST /v1/logs" routes ≡ some h
      → serve_mux own routes "POST" "/v1/logs" ≡ h

module _ (p : Producer) where
  unfoldable pub handle_root : Handler p
  handle_root r s = (record { status = 200; text = "Ingestor API root!\n" }, s)

  -- `json.Marshal` does not fail on the one text of the reply.
  unfoldable pub handle_health : Handler p
  handle_health r s = (record { status = 200; text = "{\"health\":\"ok\"}" }, s)

  unfoldable pub content_type_middleware : Handler p → Handler p
  content_type_middleware next r s = if is_supported_type r.content_type then next r s else (
    record {
      status = 415;
      text = concat ("Unsupported or Missing Content-Type: " ∷ r.content_type ∷ []);
    },
    s,
  )

  unfoldable pub content_encoding_middleware : Handler p → Handler p
  content_encoding_middleware next r s =
      if is_supported_encoding r.content_encoding then next r s else (
        record {
          status = 415;
          text = concat ("Unsupported Content-Encoding: " ∷ r.content_encoding ∷ []);
        },
        s,
      )

  -- The headers of the message: a header that is "" is left out.
  unfoldable pub message_headers : Request → Headers
  message_headers r =
      let ct : Headers =
        if str_eq r.content_type "" then [] else ("Content-Type", r.content_type ∷ []) ∷ [] in
      let ce : Headers =
        if str_eq r.content_encoding ""
        then []
        else ("Content-Encoding", r.content_encoding ∷ []) ∷ [] in
      ct ++ ce

  -- The capacity of the buffer that `Get` returns, and what is left in the pool.
  abbrev pub get_buffer : ℕ → List ℕ → ℕ × List ℕ
  get_buffer presize [] = (presize, [])
  get_buffer presize (b ∷ bs) = (b, bs)

  abbrev pub put_buffer : ℕ → ℕ → List ℕ → List ℕ
  put_buffer limit b bs = if leb b limit then b ∷ bs else bs

  -- The bytes of the body that were read: on an error the buffer's growth is the library's own.
  abbrev pub body_size : Result Bytes → ℕ
  body_size (ok b) = length b
  body_size (err e) = 0

  -- `grow` is the capacity of a buffer of the first capacity after it has read so many bytes.
  unfoldable pub handle_otlp_logs : (ℕ → ℕ → ℕ) → String → ℕ → ℕ → Handler p
  handle_otlp_logs grow prefix presize limit r s =
      let (b, rest) = get_buffer presize s.buf_pool in
      let pool = put_buffer limit (grow b (body_size r.body)) rest in
      elim r.body [
        | err e ↦ (
          record { status = 400; text = "Failed to read request body" },
          record s { buf_pool = pool },
        )
        | ok bytes ↦
            let (broker, failure) =
              p.publish_logs s.broker (concat (prefix ∷ "raw" ∷ [])) bytes (message_headers r) in
            elim failure [
              | some e ↦ (
                record { status = 503; text = "Message broker unavailable" },
                record { broker = broker; buf_pool = pool },
              )
              | none ↦ (
                record { status = 202; text = "Log ingested successfully" },
                record { broker = broker; buf_pool = pool },
              )
            ]
      ]

  -- The handler of the route, as `addRoutes` composes it.
  unfoldable pub post_logs : (ℕ → ℕ → ℕ) → ℕ → ℕ → Handler p
  unfolding content_type_middleware content_encoding_middleware
  post_logs grow presize limit =
      content_type_middleware (
        content_encoding_middleware (handle_otlp_logs grow log_stream_subject_prefix presize limit))

  -- `addRoutes`
  unfoldable pub add_routes : (ℕ → ℕ → ℕ) → ℕ → ℕ → List (String × Handler p)
  unfolding handle_root handle_health
  add_routes grow presize limit =
      ("GET /", handle_root)
      ∷ ("GET /health", handle_health)
      ∷ ("POST /v1/logs", post_logs grow presize limit)
      ∷ []

  -- `NewHTTPServer`, at a request's method and path.
  unfoldable pub new_http_server : NetHttp → (ℕ → ℕ → ℕ) → ℕ → ℕ → String → String → Handler p
  unfolding add_routes
  new_http_server http grow presize limit =
      http.serve_mux (λ reply r s. (reply, s)) (add_routes grow presize limit)

  pub new_http_server-post_logs :
      (http : NetHttp) (grow : ℕ → ℕ → ℕ) (presize limit : ℕ)
      → new_http_server http grow presize limit "POST" "/v1/logs" ≡ post_logs grow presize limit
  unfolding new_http_server add_routes
  new_http_server-post_logs http grow presize limit =
      http.serve_mux_exact (λ reply r s. (reply, s)) (add_routes grow presize limit)
        (post_logs grow presize limit) refl
