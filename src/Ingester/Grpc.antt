-- ===== src/Ingester/Grpc.antt =====
-- backend/internal/ingester/grpc_proxy.go and grpc_server.go: every unknown method is a log export,
-- whose raw bytes go to the stream.
use logarithm.Prelude.{
  ℕ, max, String, ◌&&◌, none, some, [], ◌∷◌, str_eq, leb, ◌==◌, if◌then◌else◌, length, get_or,
  Bytes,
}
use logarithm.Prelude.Text.{concat}
use logarithm.Transport.Message.{Headers, log_stream_subject}
use logarithm.Ingester.Http.{Producer, Server, get_buffer, put_buffer}

unfoldable pub detect_compression : Bytes → String
detect_compression b =
    if leb 4 (length b)
      && (get_or b 0 0 == 0x28
          && (get_or b 1 0 == 0xB5 && (get_or b 2 0 == 0x2F && get_or b 3 0 == 0xFD)))
    then "zstd"
    else if leb 2 (length b) && (get_or b 0 0 == 0x1F && get_or b 1 0 == 0x8B)
    then "gzip"
    else ""

-- What `RecvMsg` returns.
pub data Received : Type 0 where
  frame : Bytes → Received
  eof : Received
  failed : String → Received

-- What the call returns: nothing at an end of the stream, a reply, or a status.
pub data Status : Type 0 where
  closed replied : Status
  internal : String → Status

unfoldable pub frame_headers : Bytes → Headers
unfolding detect_compression
frame_headers raw =
    let compression = detect_compression raw in
    let ce : Headers =
      if str_eq compression "" then [] else ("Content-Encoding", compression ∷ []) ∷ [] in
    ("Content-Type", "application/x-protobuf" ∷ []) ∷ ce

-- The bytes of the frame that was received.
abbrev pub frame_size : Received → ℕ
frame_size (frame raw) = length raw
frame_size eof = 0
frame_size (failed e) = 0

-- What the handler does with a frame; the error of the reply's own send is the stream's.
unfoldable pub publish_frame : (p : Producer) → String → Received → p.State → Status × p.State
publish_frame p prefix eof s = (closed, s)
publish_frame p prefix (failed e) s = (internal "failed to read stream", s)
publish_frame p prefix (frame raw) s =
    let (s', failure) = p.publish_logs s (concat (prefix ∷ "raw" ∷ [])) raw (frame_headers raw) in
    elim failure [ some e ↦ (internal "failed to publish to nats", s') | none ↦ (replied, s') ]

-- The handler of `NewStreamHandler`, with the pool of its frames by their capacities: a frame that is
-- too small for the message is replaced by one of its size, and one that is too large is not put back.
unfoldable pub handle_stream :
    (p : Producer) → String → ℕ → ℕ → Received → Server p → Status × Server p
unfolding publish_frame
handle_stream p prefix presize limit received s =
    let (b, rest) = get_buffer p presize s.buf_pool in
    let (status, broker) = publish_frame p prefix received s.broker in
    (
      status,
      record { broker = broker; buf_pool = put_buffer p limit (max b (frame_size received)) rest },
    )

-- `NewGRPCServer` hands over the subject of the stream, not its prefix.
unfoldable pub grpc_export : (p : Producer) → ℕ → ℕ → Received → Server p → Status × Server p
unfolding handle_stream
grpc_export p = handle_stream p log_stream_subject
