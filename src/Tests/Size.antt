-- ===== src/Tests/Size.antt =====
-- Room for a record in memory.
use logarithm.Prelude.{ℕ, ◌+◌, ◌≤◌, ◌<◌, String, [], ◌∷◌, arith, length, length-append}
use Prim.Native.Char.{code}
use logarithm.Prelude.Text.{utf8, string_bytes}
use logarithm.Prelude.Int.{pos, negsuc}
use logarithm.Core.Time.{Time, zero_time, unix_nano}
use logarithm.Core.Encoding.{marshal_msg}
use logarithm.Core.Encoding.Size.{Sizes, IsSized, msgsize, length-marshal_msg}
use logarithm.Tests.Encoding.{codec, row, write_text, write_time}

abbrev sizes : Sizes
sizes = record { time_size = 2; string_prefix_size = 1; uint8_size = 1; array_header_size = 1 }

utf8_some : (c : ℕ) → 0 < length (utf8 c)
unfolding utf8
utf8_some c = ground arith

text_fits : (s : String) → length (write_text s) ≤ 1 + length (string_bytes s)
unfolding string_bytes
text_fits String.[] = omega arith
text_fits (String.◌∷◌ c s) =
    omega (arith, text_fits s, utf8_some (code c), length-append (utf8 (code c)) (string_bytes s))

time_fits : (t : Time) → length (write_time t) ≤ 2
time_fits zero_time = omega arith
time_fits (unix_nano (pos n)) = omega arith
time_fits (unix_nano (negsuc n)) = omega arith

codec-IsSized : IsSized codec sizes
codec-IsSized = record {
  time = time_fits;
  string = text_fits;
  uint8 = λ n. omega arith;
  array_header = λ n. omega arith;
}

length-marshal_msg_example :
    length (marshal_msg codec row (7 ∷ [])) ≤ length {A = ℕ} (7 ∷ []) + msgsize sizes row
length-marshal_msg_example = length-marshal_msg codec sizes codec-IsSized row (7 ∷ [])
