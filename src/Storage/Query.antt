-- ===== src/Storage/Query.antt =====
-- The log queries of backend/internal/storage/clickhouse.go: the text that is sent and its arguments.
pub mod Placeholders
use Prim.Native.String.{◌++◌ as join}
use logarithm.Prelude.{
  ℕ, ◌+◌, ◌*◌, ◌%◌, String, Bool, not, List, [], ◌∷◌, ◌++◌, str_eq, ◌==◌, if◌then◌else◌, Result,
  ◌>>=◌, ok, err,
}
use logarithm.Prelude.Int.{ℤ, pos, ltb_ℤ, max_ℤ, pos_part, neg_part}
use logarithm.Prelude.Text.{concat, show_ℤ}
use logarithm.Core.Time.{Time, is_zero, to_int64}
use logarithm.Core.Logs.{LogQueryFilter, FlatLogRecord, order_by_timestamp}
use logarithm.Storage.Tables.{Tables, table, table_logs}

-- An argument that the driver puts in the place of a `?`.
pub data Arg : Type 0 where
  time_arg : Time → Arg
  text_arg : String → Arg
  int_arg : ℤ → Arg

-- One `if` of the function: a condition and its argument, where the field is set.
unfoldable pub add_filter : Bool → String → Arg → String × List Arg → String × List Arg
add_filter set condition arg q = if set then (join q.0 condition, q.1 ++ arg ∷ []) else q

-- Which fields of the filter are set, in the order in which they are looked at.
abbrev pub is_set : String → Bool
is_set s = not (str_eq s "")

unfoldable pub build_filter_query_string : LogQueryFilter → String × List Arg
build_filter_query_string f =
    let q0 : String × List Arg = ("WHERE 1=1", []) in
    let q1 =
      add_filter (not (is_zero f.start_time)) " AND Timestamp >= ?" (time_arg f.start_time) q0 in
    let q2 = add_filter (not (is_zero f.end_time)) " AND Timestamp <= ?" (time_arg f.end_time) q1 in
    let q3 =
      add_filter (is_set f.service_name) " AND ServiceName ILIKE ?"
        (text_arg (join f.service_name "%")) q2 in
    let q4 =
      add_filter (is_set f.severity_text) " AND SeverityText ILIKE ?"
        (text_arg (join f.severity_text "%")) q3 in
    let q5 =
      add_filter (is_set f.trace_id) " AND TraceId ILIKE ?" (text_arg (join f.trace_id "%")) q4 in
    let q6 =
      add_filter (is_set f.span_id) " AND SpanId ILIKE ?" (text_arg (join f.span_id "%")) q5 in
    let q7 =
      add_filter (ltb_ℤ (pos 0) f.severity_number) " AND SeverityNumber = ?"
        (int_arg f.severity_number) q6 in
    add_filter (is_set f.body) " AND Body ILIKE ?" (text_arg (join "%" (join f.body "%"))) q7

abbrev is_zero_ℤ : ℤ → Bool
is_zero_ℤ n = pos_part n + neg_part n == 0

-- The text and the arguments of `SearchLogs`.
unfoldable pub search_query : String → LogQueryFilter → String × List Arg
unfolding build_filter_query_string
search_query tbl f =
    let (where_clause, args) = build_filter_query_string f in
    let order = if is_set f.order_by then f.order_by else order_by_timestamp in
    let limit = if is_zero_ℤ f.limit then pos 100 else f.limit in
    (
      concat (
          "Select * FROM "
          ∷ tbl
          ∷ " "
          ∷ where_clause
          ∷ " ORDER BY "
          ∷ order
          ∷ (if f.descending then " DESC" else " ASC")
          ∷ " LIMIT "
          ∷ show_ℤ limit
          ∷ " OFFSET "
          ∷ show_ℤ (max_ℤ f.offset (pos 0))
          ∷ []),
      args,
    )

unfoldable pub search_logs :
    (String → List Arg → Result (List FlatLogRecord))
    → Tables
    → LogQueryFilter
    → Result (List FlatLogRecord)
unfolding search_query table
search_logs select tables f = elim (table tables table_logs) [
  | err e ↦ err (concat ("failed to get table: " ∷ e ∷ []))
  | ok tbl ↦ select (search_query tbl f).0 (search_query tbl f).1
]

unfoldable pub count_query : String → LogQueryFilter → String × List Arg
unfolding build_filter_query_string
count_query tbl f =
    let (where_clause, args) = build_filter_query_string f in
    (concat ("SELECT COUNT(*) FROM " ∷ tbl ∷ " " ∷ where_clause ∷ []), args)

-- `GetFilteredLogsCount`, which reads a `uint64` and returns an `int`.
unfoldable pub get_filtered_logs_count :
    (String → List Arg → Result ℕ) → Tables → LogQueryFilter → Result ℤ
unfolding count_query table to_int64
get_filtered_logs_count query_row tables f = elim (table tables table_logs) [
  | err e ↦ err (concat ("failed to get table: " ∷ e ∷ []))
  | ok tbl ↦ do count ← query_row (count_query tbl f).0 (count_query tbl f).1; ok (to_int64 count)
]
