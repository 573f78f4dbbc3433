-- ===== src/Tests/Ingester.antt =====
-- The two receivers at concrete inputs.
use logarithm.Prelude.{
  max, String, ◌≡◌, refl, Option, none, some, [], ◌∷◌, ◌==◌, if◌then◌else◌, length, ok, Bytes,
}
use logarithm.Ingester.Supported.{
  recorder, IsSupported, AllSupported, post_logs-IsSupported, grpc_export-IsSupported,
  IsSupported-worker,
}
use logarithm.Ingester.Http.{Server, Request, post_logs}
use logarithm.Worker.Decompress.{decode, LogDecompressor, Codecs, decompress, no_cleanup}
use logarithm.Transport.Message.{Headers}
use logarithm.Ingester.Grpc.{grpc_export, frame}

abbrev accepts : Bytes → Option String
accepts b = if length b == 0 then some "empty" else none

abbrev request : Request
request = record {
  content_type = "application/json; charset=utf-8";
  content_encoding = "";
  body = ok (1 ∷ 2 ∷ []);
}

abbrev server : Server (recorder accepts)
server = record { broker = []; buf_pool = [] }

post_logs-IsSupported_example :
    AllSupported (post_logs (recorder accepts) (λ a b. max a b) 10 20 request server).1.broker
post_logs-IsSupported_example =
    post_logs-IsSupported accepts (λ a b. max a b) 10 20 request server tt

grpc_export-IsSupported_example :
    AllSupported
      (grpc_export (recorder accepts) 10 20 (frame (0x1F ∷ 0x8B ∷ 0 ∷ [])) server).1.broker
grpc_export-IsSupported_example =
    grpc_export-IsSupported accepts 10 20 (frame (0x1F ∷ 0x8B ∷ 0 ∷ [])) server tt

abbrev json_headers : Headers
json_headers = ("Content-Type", "application/json" ∷ []) ∷ []

json_headers-IsSupported : IsSupported json_headers
json_headers-IsSupported = record { content_type = refl; encoding = refl }

abbrev plain : Codecs
plain = record {
  zstd_decode_all = λ b. ok b;
  gzip_reset = λ b. none;
  gzip_copy = λ b. ok b;
  gzip_close = λ b. none;
}

abbrev no_pools : LogDecompressor
no_pools = record { buf_pool = []; gzip_pool = [] }

IsSupported-worker_example :
    (decode (λ b. ok (0 ∷ b)) (λ b. ok b) (1 ∷ []) json_headers ≡ ok (1 ∷ []))
    × (decompress plain (1 ∷ []) json_headers no_pools ≡ (ok (1 ∷ [], no_cleanup), no_pools))
IsSupported-worker_example =
    IsSupported-worker (λ b. ok (0 ∷ b)) (λ b. ok b) plain (1 ∷ []) json_headers no_pools
      json_headers-IsSupported
