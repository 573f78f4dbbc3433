-- ===== src/Core/Encoding/Streamed/Encoded.antt =====
-- Writing to a stream is appending to the bytes that have been written.
use logarithm.Prelude.{
  ℕ, ◌+◌, ◌%◌, ◌^◌, String, ◌≡◌, refl, subst, Option, none, some, List, [], ◌∷◌, ◌++◌, Bytes,
  length,
}
use logarithm.Prelude.Text.{show_ℕ}
use logarithm.Core.Time.{Time}
use logarithm.Core.Msgp.{Msgp}
use logarithm.Core.Logs.{FlatLogRecord}
use logarithm.Core.Encoding.{append_strings, append_array, marshal_msg}
use logarithm.Core.Encoding.Streamed.{
  Writer, ◌▷◌, wrapped, write_strings, write_array, encode_scalars, encode_msg,
}

-- An error, or these bytes have been written.
pub data Tracks {S : Type 0} (written : S → Bytes) : S × Option String → Bytes → Type 0 where
  gave_up : (s : S) (e : String) (o : Bytes) → Tracks written (s, some e) o
  wrote : (s : S) (o : Bytes) → written s ≡ o → Tracks written (s, none) o

-- A call of the writer fails, or has written what the package would append.
pub record IsWriter (m : Msgp) (w : Writer) : Type 0 where
  pub written : w.State → Bytes
  pub append : (b : Bytes) (s : w.State) → Tracks written (w.append b s) (written s ++ b)
  pub time :
      (t : Time) (s : w.State) → Tracks written (w.write_time t s) (m.append_time (written s) t)
  pub string :
      (x : String) (s : w.State)
      → Tracks written (w.write_string x s) (m.append_string (written s) x)
  pub uint8 :
      (n : ℕ) (s : w.State) → Tracks written (w.write_uint8 n s) (m.append_uint8 (written s) n)
  pub array_header :
      (n : ℕ) (s : w.State)
      → Tracks written (w.write_array_header n s) (m.append_array_header (written s) n)

module _ (m : Msgp) (w : Writer) (v : IsWriter m w) where
  wrapped-Tracks :
      (path : List String) {out : w.State × Option String} {o : Bytes}
      → Tracks v.written out o
      → Tracks v.written (wrapped m w path out) o
  wrapped-Tracks path (gave_up s e o) = gave_up s (m.wrap_error e path) o
  wrapped-Tracks path (wrote s o h) = wrote s o h

  then-Tracks :
      {out : w.State × Option String} {o : Bytes} (f : w.State → w.State × Option String)
      (g : Bytes → Bytes)
      → ((s : w.State) → Tracks v.written (f s) (g (v.written s)))
      → Tracks v.written out o
      → Tracks v.written (out ▷ f) (g o)
  then-Tracks f g h (gave_up s e o) = gave_up s e (g o)
  then-Tracks f g h (wrote s o q) = subst (λ x. Tracks v.written (f s) (g x)) q (h s)

  module _ {out : w.State × Option String} {o : Bytes} where
    then-append :
        (b : Bytes) → Tracks v.written out o → Tracks v.written (out ▷ w.append b) (o ++ b)
    then-append b = then-Tracks (w.append b) (λ x. x ++ b) (v.append b)

    then-time :
        (path : List String) (t : Time)
        → Tracks v.written out o
        → Tracks v.written (out ▷ (λ s. wrapped m w path (w.write_time t s))) (m.append_time o t)
    then-time path t =
        then-Tracks _ (λ x. m.append_time x t) (λ s. wrapped-Tracks path (v.time t s))

    then-string :
        (path : List String) (text : String)
        → Tracks v.written out o
        → Tracks v.written
            (out ▷ (λ s. wrapped m w path (w.write_string text s)))
            (m.append_string o text)
    then-string path text =
        then-Tracks _ (λ x. m.append_string x text) (λ s. wrapped-Tracks path (v.string text s))

    then-uint8 :
        (path : List String) (n : ℕ)
        → Tracks v.written out o
        → Tracks v.written (out ▷ (λ s. wrapped m w path (w.write_uint8 n s))) (m.append_uint8 o n)
    then-uint8 path n =
        then-Tracks _ (λ x. m.append_uint8 x n) (λ s. wrapped-Tracks path (v.uint8 n s))

  write_strings-Tracks :
      (name : String) (i : ℕ) (texts : List String) (s : w.State)
      → Tracks v.written (write_strings m w name i texts s) (append_strings m (v.written s) texts)
  unfolding write_strings
  write_strings-Tracks name i [] s = wrote s (v.written s) refl
  write_strings-Tracks name i (text ∷ texts) s =
      then-Tracks (write_strings m w name (i + 1) texts) (λ x. append_strings m x texts)
        (write_strings-Tracks name (i + 1) texts)
        (wrapped-Tracks (name ∷ show_ℕ i ∷ []) (v.string text s))

  write_array-Tracks :
      (name : String) (texts : List String) (s : w.State)
      → Tracks v.written (write_array m w name texts s) (append_array m (v.written s) texts)
  unfolding write_array
  write_array-Tracks name texts s =
      then-Tracks (write_strings m w name 0 texts) (λ x. append_strings m x texts)
        (write_strings-Tracks name 0 texts)
        (wrapped-Tracks (name ∷ []) (v.array_header (length texts % 2 ^ 32) s))

  then-array :
      {out : w.State × Option String} {o : Bytes} (name : String) (texts : List String)
      → Tracks v.written out o
      → Tracks v.written (out ▷ write_array m w name texts) (append_array m o texts)
  then-array name texts =
      then-Tracks (write_array m w name texts) (λ x. append_array m x texts)
        (write_array-Tracks name texts)

  -- For a writer each of whose calls fails or has written what the package would append: encoding a
  -- record to the stream ends with an error, or has written what marshalling would append.
  pub encode_msg-Tracks :
      (z : FlatLogRecord) (s : w.State)
      → Tracks v.written (encode_msg m w z s) (marshal_msg m z (v.written s))
  unfolding encode_msg encode_scalars marshal_msg
  encode_msg-Tracks z s =
      let t0 = v.append _ s in
      let t1 = then-time ("Timestamp" ∷ []) z.timestamp t0 in
      let t2 = then-append _ t1 in
      let t3 = then-time ("ObservedTimestamp" ∷ []) z.observed_timestamp t2 in
      let t4 = then-append _ t3 in
      let t5 = then-time ("InsertedAt" ∷ []) z.inserted_at t4 in
      let t6 = then-append _ t5 in
      let t7 = then-string ("TraceId" ∷ []) z.trace_id t6 in
      let t8 = then-append _ t7 in
      let t9 = then-string ("SpanId" ∷ []) z.span_id t8 in
      let t10 = then-append _ t9 in
      let t11 = then-string ("SeverityText" ∷ []) z.severity_text t10 in
      let t12 = then-append _ t11 in
      let t13 = then-uint8 ("SeverityNumber" ∷ []) z.severity_number t12 in
      let t14 = then-append _ t13 in
      let t15 = then-string ("ServiceName" ∷ []) z.service_name t14 in
      let t16 = then-append _ t15 in
      let t17 = then-string ("Body" ∷ []) z.body t16 in
      let t18 = then-append _ t17 in
      let t19 = then-string ("BodyType" ∷ []) z.body_type t18 in
      let t20 = then-append _ t19 in
      let t21 = then-string ("ScopeName" ∷ []) z.scope_name t20 in
      let t22 = then-append _ t21 in
      let t23 = then-string ("ScopeVersion" ∷ []) z.scope_version t22 in
      let t24 = then-append _ t23 in
      let t25 = then-array "LogAttrKeys" z.log_attr_keys t24 in
      let t26 = then-append _ t25 in
      let t27 = then-array "LogAttrValues" z.log_attr_values t26 in
      let t28 = then-append _ t27 in
      let t29 = then-array "ResAttrKeys" z.res_attr_keys t28 in
      let t30 = then-append _ t29 in then-array "ResAttrValues" z.res_attr_values t30
