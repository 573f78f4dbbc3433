-- ===== src/Core/Msgp.antt =====
-- The msgp package, which backend/internal/core/flat_log_gen.go calls: its primitives, and as their laws
-- the format that it documents.
use logarithm.Prelude.{
  ℕ, ◌+◌, ◌*◌, ◌^◌, ◌<◌, String, ◌≡◌, List, ◌∷◌, ◌++◌, length, Result, ok, Bytes,
}
use logarithm.Prelude.Text.{string_bytes}
use logarithm.Core.Time.{Time}

pub record Msgp : Type 0 where
  pub append_time : Bytes → Time → Bytes
  pub append_string : Bytes → String → Bytes
  pub append_uint8 : Bytes → ℕ → Bytes
  pub append_array_header : Bytes → ℕ → Bytes
  pub read_map_header : Bytes → Result (ℕ × Bytes)
  pub read_map_key : Bytes → Result (Bytes × Bytes)
  pub read_time : Bytes → Result (Time × Bytes)
  pub read_string : Bytes → Result (String × Bytes)
  pub read_uint8 : Bytes → Result (ℕ × Bytes)
  pub read_array_header : Bytes → Result (ℕ × Bytes)
  pub skip : Bytes → Result Bytes
  -- `WrapError` with the path of what was read.
  pub wrap_error : String → List String → String
  pub time_encoding : Time → Bytes
  pub string_encoding : String → Bytes
  pub uint8_encoding : ℕ → Bytes
  pub array_header_encoding : ℕ → Bytes
  -- What is appended is the encoding of the value alone.
  pub append_time_lem : (o : Bytes) (t : Time) → append_time o t ≡ o ++ time_encoding t
  pub append_string_lem : (o : Bytes) (s : String) → append_string o s ≡ o ++ string_encoding s
  pub append_uint8_lem : (o : Bytes) (n : ℕ) → append_uint8 o n ≡ o ++ uint8_encoding n
  pub append_array_header_lem :
      (o : Bytes) (n : ℕ) → append_array_header o n ≡ o ++ array_header_encoding n
  -- A value is read back from its encoding, where its length fits in the 32 bits that the format has
  -- for it.
  pub read_time_lem : (t : Time) (rest : Bytes) → read_time (time_encoding t ++ rest) ≡ ok (t, rest)
  pub read_string_lem :
      (s : String) (rest : Bytes)
      → length (string_bytes s) < 2 ^ 32
      → read_string (string_encoding s ++ rest) ≡ ok (s, rest)
  pub read_uint8_lem :
      (n : ℕ) (rest : Bytes) → n < 256 → read_uint8 (uint8_encoding n ++ rest) ≡ ok (n, rest)
  pub read_array_header_lem :
      (n : ℕ) (rest : Bytes)
      → n < 2 ^ 32
      → read_array_header (array_header_encoding n ++ rest) ≡ ok (n, rest)
  -- The headers of a map with a 16-bit count and of a text of 1 to 31 bytes.
  pub read_map_header-map16 :
      (high low : ℕ) (rest : Bytes)
      → read_map_header (0xDE ∷ high ∷ low ∷ rest) ≡ ok (256 * high + low, rest)
  pub read_map_key-fixstr :
      (key rest : Bytes)
      → 0 < length key
      → length key < 32
      → read_map_key ((0xA0 + length key) ∷ (key ++ rest)) ≡ ok (key, rest)
