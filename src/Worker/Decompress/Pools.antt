-- ===== src/Worker/Decompress/Pools.antt =====
-- No path of `decompress` loses a pooled buffer.
use logarithm.Prelude.{◌≤◌, max, arith, length, Result, ok, err, Bytes}
use logarithm.Transport.Message.{Headers}
use logarithm.Worker.Decompress.{Codecs, LogDecompressor, Cleanup, run_cleanup, decompress}

-- The decompressor once the caller is done: after an error no cleanup is due.
abbrev pub settled : Result (Bytes × Cleanup) × LogDecompressor → LogDecompressor
settled (err e, d) = d
settled (ok (payload, cleanup), d) = run_cleanup cleanup d

-- Whatever the payload and the headers, an error included, each pool has afterwards as many buffers
-- as before, or one more where it was empty; so none is lost.
pub decompress-pools :
    (cs : Codecs) (payload : Bytes) (headers : Headers) (d : LogDecompressor)
    → (length d.buf_pool ≤ length (settled (decompress cs payload headers d)).buf_pool)
      × (length (settled (decompress cs payload headers d)).buf_pool ≤ max 1 (length d.buf_pool))
      × (length d.gzip_pool ≤ length (settled (decompress cs payload headers d)).gzip_pool)
      × (length (settled (decompress cs payload headers d)).gzip_pool ≤ max 1 (length d.gzip_pool))
unfolding decompress run_cleanup
decompress-pools cs payload headers d = ground arith
