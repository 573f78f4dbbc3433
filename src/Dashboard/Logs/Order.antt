-- ===== src/Dashboard/Logs/Order.antt =====
-- What a request can change of the query that is sent, and when it is refused.
use logarithm.Prelude.{
  String, ◌≡◌, refl, sym, ap, ◌∙◌, ◌⊎◌, inl, inr, Bool, arith, eq_iff, if◌then◌else◌, Result, ◌>>=◌,
  ok, err,
}
use logarithm.Core.Logs.{
  LogQueryFilter, parse_order_by_field, order_by_timestamp, order_by_service_name,
}
use logarithm.Dashboard.Logs.{log_filter, Params, or_message, optional, parse_bool, atoi}
use logarithm.Storage.Query.{is_set, search_query}
use logarithm.Core.Time.{Time, zero_time}
use logarithm.Storage.Query.Placeholders.{SameShape, build_filter_query_string-text}
use logarithm.Prelude.Int.{ℤ, negsuc}

-- The column of the query's ORDER BY.
abbrev pub order_column : LogQueryFilter → String
order_column f = if is_set f.order_by then f.order_by else order_by_timestamp

parse_order_by_field-cases :
    (s : String)
    → (parse_order_by_field s ≡ order_by_timestamp)
      ⊎ (parse_order_by_field s ≡ order_by_service_name)
      ⊎ (parse_order_by_field s ≡ "")
unfolding parse_order_by_field
parse_order_by_field-cases s =
    ground (arith, eq_iff s order_by_timestamp, eq_iff s order_by_service_name)

order_of : Result LogQueryFilter → String
order_of (ok f) = f.order_by
order_of (err e) = ""

-- Six parses in a row, whose results all go into filters of one order.
six_parses :
    (a b : Result Time) (d : Result Bool) (s l o : Result ℤ)
    (make : Time → Time → Bool → ℤ → ℤ → ℤ → LogQueryFilter) (order : String) (f : LogQueryFilter)
    → ((t u : Time) (v : Bool) (x y z : ℤ) → (make t u v x y z).order_by ≡ order)
    → (a >>= λ t. b >>= λ u. d >>= λ v. s >>= λ x. l >>= λ y. o >>= λ z. ok (make t u v x y z))
      ≡ ok f
    → f.order_by ≡ order
unfolding order_of
six_parses (err e) b d s l o make order f same h = absurd (cc)
six_parses (ok t) (err e) d s l o make order f same h = absurd (cc)
six_parses (ok t) (ok u) (err e) s l o make order f same h = absurd (cc)
six_parses (ok t) (ok u) (ok v) (err e) l o make order f same h = absurd (cc)
six_parses (ok t) (ok u) (ok v) (ok x) (err e) o make order f same h = absurd (cc)
six_parses (ok t) (ok u) (ok v) (ok x) (ok y) (err e) make order f same h = absurd (cc)
six_parses (ok t) (ok u) (ok v) (ok x) (ok y) (ok z) make order f same h =
    sym (ap order_of h) ∙ same t u v x y z

log_filter-order :
    (parse_time : String → Result Time) (p : Params) (f : LogQueryFilter)
    → log_filter parse_time p ≡ ok f
    → f.order_by ≡ parse_order_by_field p.order_by
unfolding log_filter
log_filter-order parse_time p f h =
    six_parses (or_message "invalid start time type" (optional zero_time parse_time p.start_time))
      (or_message "invalid end time type" (optional zero_time parse_time p.end_time))
      (or_message "invalid descending type" (parse_bool p.descending))
      (or_message "invalid severityNumber type" (optional (negsuc 0) atoi p.severity_number))
      (or_message "invalid limit type" (atoi p.limit))
      (or_message "invalid offset type" (atoi p.offset))
      (λ t u v x y z. record {
        start_time = t;
        end_time = u;
        service_name = p.service_name;
        severity_number = x;
        severity_text = p.severity_text;
        trace_id = p.trace_id;
        span_id = p.span_id;
        body = p.body;
        limit = y;
        offset = z;
        order_by = parse_order_by_field p.order_by;
        descending = v;
      })
      (parse_order_by_field p.order_by) f (λ t u v x y z. refl) h

-- Whatever a request asks for, if it is accepted, its query is ordered by one of the two columns that
-- the API knows.
pub log_filter-order_column :
    (parse_time : String → Result Time) (p : Params) (f : LogQueryFilter)
    → log_filter parse_time p ≡ ok f
    → (order_column f ≡ order_by_timestamp) ⊎ (order_column f ≡ order_by_service_name)
log_filter-order_column parse_time p f h =
    let e = log_filter-order parse_time p f h in
    elim (parse_order_by_field-cases p.order_by) [
      | inl q ↦ inl (rw (e, q) refl)
      | inr (inl q) ↦ inr (rw (e, q) refl)
      | inr (inr q) ↦ inl (rw (e, q) refl)
    ]

-- No text of a filter but its order enters the text of the search: filters that set the same fields,
-- with the same order, limit and offset, have the same text.
pub search_query-text :
    (tbl : String) (f g : LogQueryFilter)
    → SameShape f g
    → f.order_by ≡ g.order_by
    → f.descending ≡ g.descending
    → f.limit ≡ g.limit
    → f.offset ≡ g.offset
    → (search_query tbl f).0 ≡ (search_query tbl g).0
unfolding search_query
search_query-text tbl f g shape o d l s =
    rw (build_filter_query_string-text f g shape, o, d, l, s) refl
