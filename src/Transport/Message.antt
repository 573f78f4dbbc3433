-- ===== src/Transport/Message.antt =====
-- The messages of backend/internal/transport/nats.go, and the subjects of its streams.
use logarithm.Prelude.{String, Option, none, some, List, [], ◌∷◌, str_eq, if◌then◌else◌, Bytes}

-- `map[string][]string`; the first entry of a key counts.
abbrev pub Headers : Type 0
Headers = List (String × List String)

pub record Message : Type 0 where
  pub payload : Bytes
  pub headers : Headers

-- `headers[name]`, where `none` is a missing key.
abbrev pub find_header : String → Headers → Option (List String)
find_header name [] = none
find_header name ((n, vals) ∷ hs) = if str_eq n name then some vals else find_header name hs

-- `vals[0]` if the key is there with a value, and "" otherwise.
abbrev pub first_value : Option (List String) → String
first_value none = ""
first_value (some []) = ""
first_value (some (v ∷ vs)) = v

abbrev pub log_stream_subject : String
log_stream_subject = "logs.>"

abbrev pub log_stream_subject_prefix : String
log_stream_subject_prefix = "logs."

abbrev pub dlq_subject : String
dlq_subject = "dlq.logs"

abbrev pub live_tail_subject_prefix : String
live_tail_subject_prefix = "tail."
