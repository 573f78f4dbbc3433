-- ===== src/Core/Encoding/Size.antt =====
-- `Msgsize` of backend/internal/core/flat_log_gen.go: room for a record, before it is marshalled.
use logarithm.Prelude.{
  ℕ, ◌+◌, ◌%◌, ◌^◌, ◌≤◌, String, ap, List, [], ◌∷◌, ◌++◌, arith, Bytes, length, length-append,
}
use logarithm.Prelude.Text.{string_bytes}
use logarithm.Core.Time.{Time}
use logarithm.Core.Msgp.{Msgp}
use logarithm.Core.Logs.{FlatLogRecord}
use logarithm.Core.Encoding.{append_strings, append_array, marshal_msg}

-- The constants of the msgp package.
pub record Sizes : Type 0 where
  pub time_size : ℕ
  pub string_prefix_size : ℕ
  pub uint8_size : ℕ
  pub array_header_size : ℕ

-- A constant is the most that a value takes, for a text without its bytes.
pub record IsSized (m : Msgp) (z : Sizes) : Type 0 where
  pub time : (t : Time) → length (m.time_encoding t) ≤ z.time_size
  pub string :
      (s : String) → length (m.string_encoding s) ≤ z.string_prefix_size + length (string_bytes s)
  pub uint8 : (n : ℕ) → length (m.uint8_encoding n) ≤ z.uint8_size
  pub array_header : (n : ℕ) → length (m.array_header_encoding n) ≤ z.array_header_size

module _ (c : Sizes) where
  -- `msgp.StringPrefixSize + len(s)`
  abbrev pub text_size : String → ℕ
  text_size s = c.string_prefix_size + length (string_bytes s)

  -- The loop over an array.
  unfoldable pub texts_size : List String → ℕ
  texts_size [] = 0
  texts_size (s ∷ ss) = text_size s + texts_size ss

  unfoldable pub msgsize : FlatLogRecord → ℕ
  msgsize z =
      let s =
        3
        + 10
        + c.time_size
        + 18
        + c.time_size
        + 11
        + c.time_size
        + 8
        + text_size z.trace_id
        + 7
        + text_size z.span_id
        + 13
        + text_size z.severity_text
        + 15
        + c.uint8_size
        + 12
        + text_size z.service_name
        + 5
        + text_size z.body
        + 9
        + text_size z.body_type
        + 10
        + text_size z.scope_name
        + 13
        + text_size z.scope_version
        + 12
        + c.array_header_size in
      let s = s + texts_size z.log_attr_keys in
      let s = s + (14 + c.array_header_size) + texts_size z.log_attr_values in
      let s = s + (12 + c.array_header_size) + texts_size z.res_attr_keys in
      s + (14 + c.array_header_size) + texts_size z.res_attr_values

-- So many bytes at most.
record Within (n : ℕ) (o : Bytes) : Type 0 where
  fits : length o ≤ n

module _ (m : Msgp) (c : Sizes) (v : IsSized m c) where
  module _ {n : ℕ} {o : Bytes} where
    then-bytes : (b : Bytes) → Within n o → Within (n + length b) (o ++ b)
    then-bytes b h = record { fits = omega (arith, h.fits, length-append o b) }

    then-time : (t : Time) → Within n o → Within (n + c.time_size) (m.append_time o t)
    then-time t h = record {
      fits = omega (
        arith,
        h,
        ap length (m.append_time_lem o t),
        length-append o (m.time_encoding t),
        v.time t,
      );
    }

    then-string : (s : String) → Within n o → Within (n + text_size c s) (m.append_string o s)
    then-string s h = record {
      fits = omega (
        arith,
        h,
        ap length (m.append_string_lem o s),
        length-append o (m.string_encoding s),
        v.string s,
      );
    }

    then-uint8 : (k : ℕ) → Within n o → Within (n + c.uint8_size) (m.append_uint8 o k)
    then-uint8 k h = record {
      fits = omega (
        arith,
        h,
        ap length (m.append_uint8_lem o k),
        length-append o (m.uint8_encoding k),
        v.uint8 k,
      );
    }

    then-header :
        (k : ℕ) → Within n o → Within (n + c.array_header_size) (m.append_array_header o k)
    then-header k h = record {
      fits = omega (
        arith,
        h,
        ap length (m.append_array_header_lem o k),
        length-append o (m.array_header_encoding k),
        v.array_header k,
      );
    }

  then-strings :
      (n : ℕ) (o : Bytes) (ss : List String)
      → Within n o
      → Within (n + texts_size c ss) (append_strings m o ss)
  unfolding texts_size
  then-strings n o [] h = record { fits = omega (arith, h.fits) }
  then-strings n o (s ∷ ss) h = record {
    fits =
        omega (
          arith,
          (then-strings (n + text_size c s) (m.append_string o s) ss (then-string s h)).fits,
        );
  }

  then-array :
      {n : ℕ} {o : Bytes} (l : List String)
      → Within n o
      → Within (n + c.array_header_size + texts_size c l) (append_array m o l)
  then-array {n = n} {o = o} l h =
      then-strings (n + c.array_header_size) (m.append_array_header o (length l % 2 ^ 32)) l
        (then-header (length l % 2 ^ 32) h)

  -- With constants that are large enough for the values that they stand for: marshalling a record
  -- appends at most as many bytes as `Msgsize` answers, so that no further room is needed.
  pub length-marshal_msg :
      (z : FlatLogRecord) (o : Bytes) → length (marshal_msg m z o) ≤ length o + msgsize c z
  unfolding marshal_msg msgsize
  length-marshal_msg z o =
      let start : Within (length o) o = record { fits = omega arith } in
      let t0 = then-bytes _ start in
      let t1 = then-time z.timestamp t0 in
      let t2 = then-bytes _ t1 in
      let t3 = then-time z.observed_timestamp t2 in
      let t4 = then-bytes _ t3 in
      let t5 = then-time z.inserted_at t4 in
      let t6 = then-bytes _ t5 in
      let t7 = then-string z.trace_id t6 in
      let t8 = then-bytes _ t7 in
      let t9 = then-string z.span_id t8 in
      let t10 = then-bytes _ t9 in
      let t11 = then-string z.severity_text t10 in
      let t12 = then-bytes _ t11 in
      let t13 = then-uint8 z.severity_number t12 in
      let t14 = then-bytes _ t13 in
      let t15 = then-string z.service_name t14 in
      let t16 = then-bytes _ t15 in
      let t17 = then-string z.body t16 in
      let t18 = then-bytes _ t17 in
      let t19 = then-string z.body_type t18 in
      let t20 = then-bytes _ t19 in
      let t21 = then-string z.scope_name t20 in
      let t22 = then-bytes _ t21 in
      let t23 = then-string z.scope_version t22 in
      let t24 = then-bytes _ t23 in
      let t25 = then-array z.log_attr_keys t24 in
      let t26 = then-bytes _ t25 in
      let t27 = then-array z.log_attr_values t26 in
      let t28 = then-bytes _ t27 in
      let t29 = then-array z.res_attr_keys t28 in
      let t30 = then-bytes _ t29 in
      let t31 : Within _ (marshal_msg m z o) = then-array z.res_attr_values t30 in
      omega (arith, t31.fits)
