-- ===== src/Dashboard/Logs.antt =====
-- `handleLogs` of backend/internal/dashboard/routes.go: from the parameters of a request to a filter,
-- its two queries, and the reply. `strconv` is written out; `time.Parse` with the layout
-- 2006-01-02T15:04:05 is a parameter.
pub mod Order
use logarithm.Prelude.{
  ℕ, zero, suc, ◌+◌, ◌-◌, ◌*◌, ◌^◌, String, Bool, true, false, ◌&&◌, ◌||◌, Option, none, some, List,
  [], ◌∷◌, str_eq, leb, ◌==◌, if◌then◌else◌, Result, ◌>>=◌, ok, err,
}
use logarithm.Prelude.Text.{string_bytes}
use logarithm.Core.Logs.{
  LogRecord, parse_order_by_field, FlatLogRecord, LogQueryFilter, unflatten_log_records,
}
use logarithm.Core.Time.{Time, zero_time}
use logarithm.Prelude.Int.{ℤ, pos, negsuc}
use logarithm.Storage.Query.{Arg, search_logs, get_filtered_logs_count}
use logarithm.Storage.Tables.{Tables}

-- `query.Get`: a parameter that is missing reads as "".
pub record Params : Type 0 where
  pub start_time : String
  pub end_time : String
  pub order_by : String
  pub descending : String
  pub severity_number : String
  pub limit : String
  pub offset : String
  pub service_name : String
  pub severity_text : String
  pub trace_id : String
  pub span_id : String
  pub body : String

abbrev one_of : String → List String → Bool
one_of s [] = false
one_of s (t ∷ ts) = str_eq s t || one_of s ts

-- `strconv.ParseBool`
unfoldable pub parse_bool : String → Result Bool
parse_bool s =
    if one_of s ("1" ∷ "t" ∷ "T" ∷ "TRUE" ∷ "true" ∷ "True" ∷ [])
    then ok true
    else if one_of s ("0" ∷ "f" ∷ "F" ∷ "FALSE" ∷ "false" ∷ "False" ∷ [])
    then ok false
    else err "invalid syntax"

-- The value of decimal digits after those that make `n`.
digits_value : ℕ → List ℕ → Option ℕ
digits_value n [] = some n
digits_value n (c ∷ cs) =
    let rest = digits_value (n * 10 + (c - b'0')) cs in
    if leb b'0' c && leb c b'9' then rest else none

unsigned : List ℕ → Option ℕ
unfolding digits_value
unsigned [] = none
unsigned (c ∷ cs) = digits_value 0 (c ∷ cs)

in_range : ℕ → ℕ → (ℕ → ℤ) → Result ℤ
in_range limit n sign = if leb n limit then ok (sign n) else err "value out of range"

negated : ℕ → ℤ
negated zero = pos 0
negated (suc n) = negsuc n

read_signed : ℕ → (ℕ → ℤ) → List ℕ → Result ℤ
unfolding unsigned in_range
read_signed limit sign cs = elim (unsigned cs) [
  | none ↦ err "invalid syntax"
  | some n ↦ in_range limit n sign
]

atoi_bytes : List ℕ → Result ℤ
unfolding read_signed negated
atoi_bytes [] = err "invalid syntax"
atoi_bytes (c ∷ cs) =
    if c == b'-'
    then read_signed (2 ^ 63) negated cs
    else if c == b'+'
    then read_signed (2 ^ 63 - 1) pos cs
    else read_signed (2 ^ 63 - 1) pos (c ∷ cs)

-- `strconv.Atoi` on 64 bits.
unfoldable pub atoi : String → Result ℤ
unfolding atoi_bytes
atoi s = atoi_bytes (string_bytes s)

-- A parameter that may be missing.
abbrev pub optional : {A : Type 0} → A → (String → Result A) → String → Result A
optional missing parse s = if str_eq s "" then ok missing else parse s

-- One parse: its own message stands for its error.
abbrev pub or_message : {A : Type 0} → String → Result A → Result A
or_message message (ok a) = ok a
or_message message (err e) = err message

module _ (parse_time : String → Result Time) where
  unfoldable pub log_filter : Params → Result LogQueryFilter
  unfolding parse_order_by_field parse_bool atoi
  log_filter p = do
    start ← or_message "invalid start time type" (optional zero_time parse_time p.start_time)
    end ← or_message "invalid end time type" (optional zero_time parse_time p.end_time)
    descending ← or_message "invalid descending type" (parse_bool p.descending)
    severity ← or_message "invalid severityNumber type" (optional (negsuc 0) atoi p.severity_number)
    limit ← or_message "invalid limit type" (atoi p.limit)
    offset ← or_message "invalid offset type" (atoi p.offset)
    ok (record {
      start_time = start;
      end_time = end;
      service_name = p.service_name;
      severity_number = severity;
      severity_text = p.severity_text;
      trace_id = p.trace_id;
      span_id = p.span_id;
      body = p.body;
      limit = limit;
      offset = offset;
      order_by = parse_order_by_field p.order_by;
      descending = descending;
    })

-- The status, and the message or the data.
pub data Reply : Type 0 where
  bad_request internal_error : String → Reply
  found : List LogRecord → ℤ → Reply

module _ (parse_time : String → Result Time)
    (select : String → List Arg → Result (List FlatLogRecord))
    (query_row : String → List Arg → Result ℕ) (tables : Tables) where
  unfoldable pub handle_logs : Params → Reply
  unfolding log_filter search_logs get_filtered_logs_count unflatten_log_records
  handle_logs p = elim (log_filter parse_time p) [
    | err e ↦ bad_request e
    | ok f ↦ elim (search_logs select tables f) [
      | err e ↦ internal_error "failed to search logs"
      | ok rows ↦ elim (get_filtered_logs_count query_row tables f) [
        | err e ↦ internal_error "failed to get logs count"
        | ok count ↦ found (unflatten_log_records rows) count
      ]
    ]
  ]
