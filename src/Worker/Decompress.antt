-- ===== src/Worker/Decompress.antt =====
-- backend/internal/worker/decompress.go and decode.go: from the bytes of a message to a request.
-- The pooled buffers are values here: that a result aliases its buffer until the cleanup is not
-- modelled, and a cleanup is the buffer that it puts back.
pub mod Pools
use logarithm.Prelude.{
  String, not, ◌||◌, Option, none, some, List, [], ◌∷◌, str_eq, starts_with, if◌then◌else◌, Result,
  ok, err, Bytes,
}
use logarithm.Transport.Message.{Headers, find_header, first_value}
use logarithm.Prelude.Text.{concat}

-- The decoders of other libraries: what they make of a payload.
pub record Codecs : Type 0 where
  pub zstd_decode_all : Bytes → Result Bytes
  -- `Reset` reads the header, `Copy` the contents, `Close` may still fail.
  pub gzip_reset : Bytes → Option String
  pub gzip_copy : Bytes → Result Bytes
  pub gzip_close : Bytes → Option String

-- The two `sync.Pool`s, each as the buffers that it holds.
pub record LogDecompressor : Type 0 where
  pub buf_pool : List Bytes
  pub gzip_pool : List Bytes

-- The callback that is returned: `func() {}`, or the pool and buffer of its `Put`.
pub data Cleanup : Type 0 where
  no_cleanup : Cleanup
  put_buf put_gzip : Bytes → Cleanup

-- `Get`: what is left in the pool; the buffer's old contents are cleared before use.
unfoldable pub take_one : List Bytes → List Bytes
take_one [] = []
take_one (b ∷ bs) = bs

unfoldable pub run_cleanup : Cleanup → LogDecompressor → LogDecompressor
run_cleanup no_cleanup d = d
run_cleanup (put_buf b) d = record d { buf_pool = b ∷ d.buf_pool }
run_cleanup (put_gzip b) d = record d { gzip_pool = b ∷ d.gzip_pool }

module _ (cs : Codecs) where
  unfoldable pub decompress_zstd :
      Bytes → LogDecompressor → Result (Bytes × Cleanup) × LogDecompressor
  unfolding take_one
  decompress_zstd payload d =
      let taken = take_one d.buf_pool in
      elim (cs.zstd_decode_all payload) [
        | err e ↦ (err e, record d { buf_pool = [] ∷ taken })
        | ok buf ↦ (ok (buf, put_buf buf), record d { buf_pool = taken })
      ]

  unfoldable pub decompress_gzip :
      Bytes → LogDecompressor → Result (Bytes × Cleanup) × LogDecompressor
  unfolding take_one
  decompress_gzip payload d =
      let taken = take_one d.gzip_pool in
      let back = record d { gzip_pool = [] ∷ taken } in
      elim (cs.gzip_reset payload) [
        | some e ↦ (err (concat ("gzip reset error: " ∷ e ∷ [])), back)
        | none ↦ elim (cs.gzip_copy payload) [
          | err e ↦ (err (concat ("gzip copy error: " ∷ e ∷ [])), back)
          | ok buf ↦ elim (cs.gzip_close payload) [
            | some e ↦ (err (concat ("gzip close error: " ∷ e ∷ [])), back)
            | none ↦ (ok (buf, put_gzip buf), record d { gzip_pool = taken })
          ]
        ]
      ]

  unfoldable pub decompress :
      Bytes → Headers → LogDecompressor → Result (Bytes × Cleanup) × LogDecompressor
  unfolding decompress_zstd decompress_gzip
  decompress payload headers d =
      let encoding = first_value (find_header "Content-Encoding" headers) in
      if str_eq encoding "" || (str_eq encoding "none" || str_eq encoding "identity")
      then (ok (payload, no_cleanup), d)
      else if str_eq encoding "zstd"
      then decompress_zstd payload d
      else if str_eq encoding "gzip"
      then decompress_gzip payload d
      else (err "unsupported encoding", d)

-- `decode`, with the two unmarshalling functions of the OTLP library.
unfoldable pub decode :
    {Request : Type 0}
    → (Bytes → Result Request)
    → (Bytes → Result Request)
    → Bytes
    → Headers
    → Result Request
decode unmarshal_proto unmarshal_json payload headers =
    let content_type = first_value (find_header "Content-Type" headers) in
    if starts_with content_type "application/x-protobuf"
    then unmarshal_proto payload
    else if starts_with content_type "application/json"
    then unmarshal_json payload
    else err (concat ("unsupported or missing content type: " ∷ content_type ∷ []))
