-- ===== src/Tests/Streamed.antt =====
-- A writer and a reader over bytes in memory.
use logarithm.Prelude.{◌≡◌, refl, none, [], ◌∷◌, ◌++◌, Bytes, Result, ok, err}
use logarithm.Core.Encoding.{marshal_msg}
use logarithm.Core.Encoding.Streamed.{Reader, Writer, decode_msg, encode_msg}
use logarithm.Core.Encoding.Streamed.Decoded.{
  Follows, same_value, no_value, no_skip, IsReader, decode_msg-marshal_msg, short_key,
  with_short_keys,
}
use logarithm.Core.Encoding.Streamed.Encoded.{Tracks, wrote, IsWriter, encode_msg-Tracks}
use logarithm.Tests.Encoding.{codec, row, row-IsEncodable}

abbrev reader : Reader
reader = record {
  State = Bytes;
  read_map_header = λ s. codec.read_map_header s;
  read_map_key_ptr = λ s. short_key (codec.read_map_key s);
  read_time = λ s. codec.read_time s;
  read_string = λ s. codec.read_string s;
  read_uint8 = λ s. codec.read_uint8 s;
  read_array_header = λ s. codec.read_array_header s;
  skip = λ s. codec.skip s;
}

abbrev all_left : Bytes → Bytes
all_left s = s

same : {A : Type 0} (x : Result (A × Bytes)) → Follows all_left x x
same (ok (a, s)) = same_value a s
same (err e) = no_value (err e) e

reader-IsReader : IsReader (with_short_keys codec) reader
reader-IsReader = record {
  rest = all_left;
  map_header = λ s. same (codec.read_map_header s);
  map_key = λ s. same (short_key (codec.read_map_key s));
  time = λ s. same (codec.read_time s);
  string = λ s. same (codec.read_string s);
  uint8 = λ s. same (codec.read_uint8 s);
  array_header = λ s. same (codec.read_array_header s);
  skips = λ s. no_skip (err "unknown") "unknown";
}

decode_msg-marshal_msg_example :
    (s' : Bytes) × (decode_msg codec reader row (marshal_msg codec row [] ++ 1 ∷ []) ≡ ok (row, s'))
    × (s' ≡ 1 ∷ [])
unfolding marshal_msg reader-IsReader
decode_msg-marshal_msg_example =
    decode_msg-marshal_msg codec reader reader-IsReader row row (marshal_msg codec row [] ++ 1 ∷ [])
      (1 ∷ []) row-IsEncodable refl

abbrev writer : Writer
writer = record {
  State = Bytes;
  append = λ b s. (s ++ b, none);
  write_time = λ t s. (codec.append_time s t, none);
  write_string = λ x s. (codec.append_string s x, none);
  write_uint8 = λ n s. (codec.append_uint8 s n, none);
  write_array_header = λ n s. (codec.append_array_header s n, none);
}

writer-IsWriter : IsWriter codec writer
writer-IsWriter = record {
  written = all_left;
  append = λ b s. wrote _ _ refl;
  time = λ t s. wrote _ _ refl;
  string = λ x s. wrote _ _ refl;
  uint8 = λ n s. wrote _ _ refl;
  array_header = λ n s. wrote _ _ refl;
}

encode_msg-Tracks_example :
    Tracks writer-IsWriter.written
      (encode_msg codec writer row (5 ∷ []))
      (marshal_msg codec row (writer-IsWriter.written (5 ∷ [])))
encode_msg-Tracks_example = encode_msg-Tracks codec writer writer-IsWriter row (5 ∷ [])
