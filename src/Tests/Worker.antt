-- ===== src/Tests/Worker.antt =====
-- The worker's helpers at concrete inputs.
use logarithm.Prelude.{
  ℕ, ◌/◌, ◌<◌, ◌≡◌, none, some, List, [], ◌∷◌, arith, ◌==◌, if◌then◌else◌, length, get_or, drop, ok,
  err,
}
use logarithm.Core.Time.{Duration}
use logarithm.Worker.Split.{split_messages}
use logarithm.Worker.Split.Cover.{slices, slices-split_messages, Even, split_messages-Even}
use logarithm.Worker.Decompress.{LogDecompressor, Codecs}
use logarithm.Transport.Message.{Headers}
use logarithm.Prelude.Int.{pos}

abbrev five_logs : List ℕ
five_logs = 10 ∷ 20 ∷ 30 ∷ 40 ∷ 50 ∷ []

split_messages-Even_example :
    (length (split_messages 5 (pos 3)) ≡ 3) × (0 < 5 / 3) × Even 1 2 (split_messages 5 (pos 3))
split_messages-Even_example = split_messages-Even 5 3 (omega arith) (omega arith)

slices-split_messages_example : slices five_logs (split_messages 5 (pos 2)) ≡ five_logs
slices-split_messages_example = slices-split_messages five_logs 2 (omega arith) (omega arith)

abbrev backoff : List Duration
backoff = pos 1 ∷ pos 5 ∷ pos 30 ∷ []

-- Decoders that take every payload whose first byte is not 0.
abbrev codecs : Codecs
codecs = record {
  zstd_decode_all = λ b. if get_or b 0 0 == 0 then err "corrupt" else ok (drop 1 b);
  gzip_reset = λ b. if get_or b 0 0 == 0 then some "no header" else none;
  gzip_copy = λ b. ok (drop 1 b);
  gzip_close = λ b. none;
}

abbrev decompressor : LogDecompressor
decompressor = record { buf_pool = (9 ∷ []) ∷ []; gzip_pool = [] }

abbrev gzip_headers : Headers
gzip_headers = ("Content-Encoding", "gzip" ∷ []) ∷ []
