-- ===== src/Tests/Encoding.antt =====
-- A row through a codec that meets the laws, with texts written character by character.
use Prim.Native.Char.{Char, char, code, nul, IsScalar, IsLt}
use Prim.Native.Nat.{Ordering, compare}
use text.Mathlib.TextEquality.{Char-path}
use logarithm.Prelude.{
  ℕ, zero, suc, ◌+◌, ◌-◌, ◌*◌, String, ◌≡◌, refl, ap, true, none, [], ◌∷◌, ◌++◌, arith, Bytes,
  length, take, drop, Result, ◌>>=◌, ok, err,
}
use logarithm.Prelude.Text.{string_bytes}
use logarithm.Core.Msgp.{Msgp}
use logarithm.Core.Time.{Time, zero_time, unix_nano}
use logarithm.Core.Logs.{FlatLogRecord}
use logarithm.Core.Encoding.Fields.{IsEncodable}
use logarithm.Prelude.Int.{pos, negsuc}
use logarithm.Core.Encoding.{unmarshal_msg, marshal_msg}
use logarithm.Core.Encoding.RoundTrip.{unmarshal_msg-marshal_msg}
use logarithm.Dashboard.Socket.Frames.{Shown, encode_row, Tailing-Shown}
use logarithm.Dashboard.Socket.{on_payload, on_tick, opened_socket, payload, tick, opened}

-- The three comparisons of `IsScalar`, decided.
abbrev Both : Ordering → Ordering → Type 0
Both Ordering.lt o = IsLt o
Both Ordering.eq o = ⊥
Both Ordering.gt o = ⊥

abbrev Scalar : Ordering → Ordering → Ordering → Type 0
Scalar Ordering.lt o p = Unit
Scalar Ordering.eq o p = Both o p
Scalar Ordering.gt o p = Both o p

abbrev dec_both : (o p : Ordering) → Dec (Both o p)
dec_both Ordering.lt Ordering.lt = yes tt
dec_both Ordering.lt Ordering.eq = no (λ h. h)
dec_both Ordering.lt Ordering.gt = no (λ h. h)
dec_both Ordering.eq p = no (λ h. h)
dec_both Ordering.gt p = no (λ h. h)

abbrev dec_scalar : (o p q : Ordering) → Dec (Scalar o p q)
dec_scalar Ordering.lt p q = yes tt
dec_scalar Ordering.eq p q = dec_both p q
dec_scalar Ordering.gt p q = dec_both p q

abbrev is_scalar : (n : ℕ) → Dec (IsScalar n)
is_scalar n = dec_scalar (compare n 55296) (compare 57343 n) (compare n 1114112)

abbrev char_of : (n : ℕ) → Dec (IsScalar n) → Char
char_of n (yes p) = char n p
char_of n (no h) = nul

char_of-code : (c : Char) (d : Dec (IsScalar (code c))) → char_of (code c) d ≡ c
char_of-code c (yes p) = Char-path (char (code c) p) c refl
char_of-code (char n p) (no h) = absurd (h p)

abbrev pub write_text : String → Bytes
write_text String.[] = 0 ∷ []
write_text (String.◌∷◌ c s) = suc (code c) ∷ write_text s

abbrev read_text : Bytes → Result (String × Bytes)
read_text [] = err "short"
read_text (zero ∷ bts) = ok ("", bts)
read_text (suc c ∷ bts) =
    read_text bts >>= λ (s, bts). ok (String.◌∷◌ (char_of c (is_scalar c)) s, bts)

pub read_text-write_text :
    (s : String) (rest : Bytes) → read_text (write_text s ++ rest) ≡ ok (s, rest)
read_text-write_text String.[] rest = refl
read_text-write_text (String.◌∷◌ c s) rest =
    rw (read_text-write_text s rest, char_of-code c (is_scalar (code c)))

abbrev pub write_time : Time → Bytes
write_time zero_time = 0 ∷ []
write_time (unix_nano (pos n)) = 1 ∷ n ∷ []
write_time (unix_nano (negsuc n)) = 2 ∷ n ∷ []

abbrev read_time : Bytes → Result (Time × Bytes)
read_time [] = err "short"
read_time (zero ∷ bts) = ok (zero_time, bts)
read_time (suc k ∷ []) = err "short"
read_time (suc zero ∷ n ∷ bts) = ok (unix_nano (pos n), bts)
read_time (suc (suc k) ∷ n ∷ bts) = ok (unix_nano (negsuc n), bts)

pub read_time-write_time :
    (t : Time) (rest : Bytes) → read_time (write_time t ++ rest) ≡ ok (t, rest)
read_time-write_time zero_time rest = refl
read_time-write_time (unix_nano (pos n)) rest = refl
read_time-write_time (unix_nano (negsuc n)) rest = refl

abbrev read_number : Bytes → Result (ℕ × Bytes)
read_number [] = err "short"
read_number (n ∷ bts) = ok (n, bts)

abbrev read_header : Bytes → Result (ℕ × Bytes)
read_header (b ∷ high ∷ low ∷ bts) = ok (256 * high + low, bts)
read_header bts = err "short"

abbrev read_key : Bytes → Result (Bytes × Bytes)
read_key [] = err "short"
read_key (b ∷ bts) = ok (take (b - 0xA0) bts, drop (b - 0xA0) bts)

take-append :
    (xs ys : Bytes) → (take (length xs) (xs ++ ys) ≡ xs) × (drop (length xs) (xs ++ ys) ≡ ys)
take-append [] ys = (refl, refl)
take-append (x ∷ xs) ys = let ih = take-append xs ys in (ap (λ l. x ∷ l) ih.0, ih.1)

pub read_key-fixstr :
    (key rest : Bytes) → read_key ((0xA0 + length key) ∷ (key ++ rest)) ≡ ok (key, rest)
read_key-fixstr key rest =
    let e : 0xA0 + length key - 0xA0 ≡ length key = omega arith in
    let p = take-append key rest in rw (e, p.0, p.1)

abbrev pub codec : Msgp
codec = record {
  append_time = λ o t. o ++ write_time t;
  append_string = λ o s. o ++ write_text s;
  append_uint8 = λ o n. o ++ n ∷ [];
  append_array_header = λ o n. o ++ n ∷ [];
  read_map_header = read_header;
  read_map_key = read_key;
  read_time = read_time;
  read_string = read_text;
  read_uint8 = read_number;
  read_array_header = read_number;
  skip = λ bts. err "unknown";
  wrap_error = λ e path. e;
  time_encoding = write_time;
  string_encoding = write_text;
  uint8_encoding = λ n. n ∷ [];
  array_header_encoding = λ n. n ∷ [];
  append_time_lem = λ o t. refl;
  append_string_lem = λ o s. refl;
  append_uint8_lem = λ o n. refl;
  append_array_header_lem = λ o n. refl;
  read_time_lem = read_time-write_time;
  read_string_lem = λ s rest h. read_text-write_text s rest;
  read_uint8_lem = λ n rest h. refl;
  read_array_header_lem = λ n rest h. refl;
  read_map_header-map16 = λ high low rest. refl;
  read_map_key-fixstr = λ key rest h' h. read_key-fixstr key rest;
}

abbrev pub row : FlatLogRecord
row = record {
  timestamp = unix_nano (pos 7);
  observed_timestamp = zero_time;
  inserted_at = zero_time;
  trace_id = "0a";
  span_id = "0b";
  severity_text = "INFO";
  severity_number = 9;
  service_name = "billing";
  body = "paid";
  body_type = "string";
  scope_name = "app";
  scope_version = "1";
  log_attr_keys = "user" ∷ [];
  log_attr_values = "ann" ∷ [];
  res_attr_keys = [];
  res_attr_values = [];
}

pub row-IsEncodable : IsEncodable row
unfolding string_bytes
row-IsEncodable = record {
  trace_id = omega arith;
  span_id = omega arith;
  severity_text = omega arith;
  severity_number = omega arith;
  service_name = omega arith;
  body = omega arith;
  body_type = omega arith;
  scope_name = omega arith;
  scope_version = omega arith;
  log_attr_keys = record { count = omega arith; each = (omega arith, tt) };
  log_attr_values = record { count = omega arith; each = (omega arith, tt) };
  res_attr_keys = record { count = omega arith; each = tt };
  res_attr_values = record { count = omega arith; each = tt };
}

unmarshal_msg-marshal_msg_example :
    unmarshal_msg codec row (marshal_msg codec row [] ++ 1 ∷ []) ≡ ok (row, 1 ∷ [])
unmarshal_msg-marshal_msg_example = unmarshal_msg-marshal_msg codec row row (1 ∷ []) row-IsEncodable

Tailing-Shown_example : Shown codec row (row ∷ row ∷ []) (
    on_payload
      (encode_row codec row)
      (on_tick none (on_payload (encode_row codec row) opened_socket)).0)
unfolding on_tick on_payload marshal_msg
Tailing-Shown_example =
    Tailing-Shown codec row (row ∷ row ∷ []) _ true (payload row (tick none (payload row opened)))
      (row-IsEncodable, (row-IsEncodable, tt))
