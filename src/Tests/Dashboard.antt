-- ===== src/Tests/Dashboard.antt =====
-- A request of the dashboard that tries to order by something else.
use logarithm.Prelude.{String, ◌≡◌, refl, true, Result, ok, err}
use logarithm.Prelude.Text.{string_bytes, show_ℤ}
use logarithm.Dashboard.Logs.{log_filter, Params, parse_bool, atoi}
use logarithm.Storage.Query.Placeholders.{SameShape}
use logarithm.Storage.Query.{search_query, build_filter_query_string, add_filter}
use logarithm.Core.Time.{Time, zero_time}
use logarithm.Core.Logs.{LogQueryFilter, parse_order_by_field}
use logarithm.Dashboard.Logs.Order.{search_query-text}
use logarithm.Prelude.Int.{pos, negsuc}

abbrev no_time : String → Result Time
no_time s = err "no layout"

abbrev params : Params
params = record {
  start_time = "";
  end_time = "";
  order_by = "Body; DROP TABLE logs";
  descending = "true";
  severity_number = "9";
  limit = "50";
  offset = "-3";
  service_name = "bill";
  severity_text = "";
  trace_id = "";
  span_id = "";
  body = "x";
}

abbrev asked : LogQueryFilter
asked = record {
  start_time = zero_time;
  end_time = zero_time;
  service_name = "bill";
  severity_number = pos 9;
  severity_text = "";
  trace_id = "";
  span_id = "";
  body = "x";
  limit = pos 50;
  offset = negsuc 2;
  order_by = "";
  descending = true;
}

accepted : log_filter no_time params ≡ ok asked
unfolding log_filter parse_order_by_field parse_bool atoi string_bytes
accepted = refl

-- The text that is sent for this request.
query_text :
    (search_query "app.logs" asked).0
    ≡ "Select * FROM app.logs WHERE 1=1 AND ServiceName ILIKE ? AND SeverityNumber = ? AND Body ILIKE ? ORDER BY Timestamp DESC LIMIT 50 OFFSET 0"
unfolding search_query build_filter_query_string add_filter show_ℤ
query_text = refl

abbrev other : LogQueryFilter
other = record asked { service_name = "' OR 1=1"; body = "?" }

same_fields : SameShape asked other
same_fields = record {
  start_time = refl;
  end_time = refl;
  service_name = refl;
  severity_text = refl;
  trace_id = refl;
  span_id = refl;
  severity_number = refl;
  body = refl;
}

search_query-text_example : (search_query "app.logs" asked).0 ≡ (search_query "app.logs" other).0
search_query-text_example = search_query-text "app.logs" asked other same_fields refl refl refl refl

-- A request that does not say whether the order is descending is refused.
undecided : log_filter no_time (record params { descending = "" }) ≡ err "invalid descending type"
unfolding log_filter parse_bool
undecided = refl
