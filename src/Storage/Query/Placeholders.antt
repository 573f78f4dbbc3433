-- ===== src/Storage/Query/Placeholders.antt =====
-- The text of a query holds no value of the filter, and one `?` for each argument.
use Prim.Native.Char.{code}
use Prim.Native.String.append
use Prim.Native.String.{◌++◌ as join}
use logarithm.Prelude.{
  ℕ, ◌+◌, String, ◌≡◌, refl, ap, ◌∙◌, Bool, true, false, not, List, [], ◌∷◌, arith, ◌==◌,
  if◌then◌else◌, length, length-append,
}
use logarithm.Core.Logs.{LogQueryFilter}
use logarithm.Storage.Query.{Arg, add_filter, build_filter_query_string, is_set}
use logarithm.Core.Time.{is_zero}
use logarithm.Prelude.Int.{ltb_ℤ, pos}

-- How many `?` a text has.
abbrev pub placeholders : String → ℕ
placeholders String.[] = 0
placeholders (String.◌∷◌ c s) = (if code c == b'?' then 1 else 0) + placeholders s

placeholders-join : (s t : String) → placeholders (join s t) ≡ placeholders s + placeholders t
placeholders-join String.[] t = ap placeholders (append.nil t) ∙ omega arith
placeholders-join (String.◌∷◌ c s) t =
    ap placeholders (append.cons c s t) ∙ omega (arith, placeholders-join s t)

-- One `?` for each argument.
abbrev IsMatched : String × List Arg → Type 0
IsMatched q = placeholders q.0 ≡ length q.1

add_filter-IsMatched :
    (set : Bool) (condition : String) (arg : Arg) (q : String × List Arg)
    → placeholders condition ≡ 1
    → IsMatched q
    → IsMatched (add_filter set condition arg q)
unfolding add_filter
add_filter-IsMatched true condition arg q one h =
    omega (arith, placeholders-join q.0 condition, length-append q.1 (arg ∷ []))
add_filter-IsMatched false condition arg q one h = h

-- The filter's text has exactly as many `?` as there are arguments for them.
pub build_filter_query_string-placeholders :
    (f : LogQueryFilter)
    → placeholders (build_filter_query_string f).0 ≡ length (build_filter_query_string f).1
unfolding build_filter_query_string
build_filter_query_string-placeholders f = add_filter-IsMatched _ _ _ _ refl (
    add_filter-IsMatched _ _ _ _ refl (
      add_filter-IsMatched _ _ _ _ refl (
        add_filter-IsMatched _ _ _ _ refl (
          add_filter-IsMatched _ _ _ _ refl (
            add_filter-IsMatched _ _ _ _ refl
              (add_filter-IsMatched _ _ _ _ refl (add_filter-IsMatched _ _ _ _ refl refl)))))))

-- Two filters that set the same fields, whatever their values.
pub record SameShape (f g : LogQueryFilter) : Type 0 where
  pub start_time : is_zero f.start_time ≡ is_zero g.start_time
  pub end_time : is_zero f.end_time ≡ is_zero g.end_time
  pub service_name : is_set f.service_name ≡ is_set g.service_name
  pub severity_text : is_set f.severity_text ≡ is_set g.severity_text
  pub trace_id : is_set f.trace_id ≡ is_set g.trace_id
  pub span_id : is_set f.span_id ≡ is_set g.span_id
  pub severity_number : ltb_ℤ (pos 0) f.severity_number ≡ ltb_ℤ (pos 0) g.severity_number
  pub body : is_set f.body ≡ is_set g.body

add_filter-text :
    (condition : String) (a b : Bool) (x y : Arg) (p q : String × List Arg)
    → a ≡ b
    → p.0 ≡ q.0
    → (add_filter a condition x p).0 ≡ (add_filter b condition y q).0
unfolding add_filter
add_filter-text condition a true x y p q e h = rw e (ap (λ s. join s condition) h)
add_filter-text condition a false x y p q e h = rw e h

-- No value of the filter enters the text of the query: filters that set the same fields have the
-- same text.
pub build_filter_query_string-text :
    (f g : LogQueryFilter)
    → SameShape f g
    → (build_filter_query_string f).0 ≡ (build_filter_query_string g).0
unfolding build_filter_query_string
build_filter_query_string-text f g h = add_filter-text _ _ _ _ _ _ _ h.body (
    add_filter-text _ _ _ _ _ _ _ h.severity_number (
      add_filter-text _ _ _ _ _ _ _ h.span_id (
        add_filter-text _ _ _ _ _ _ _ h.trace_id (
          add_filter-text _ _ _ _ _ _ _ h.severity_text (
            add_filter-text _ _ _ _ _ _ _ h.service_name (
              add_filter-text _ _ _ _ _ _ _ (ap not h.end_time)
                (add_filter-text _ _ _ _ _ _ _ (ap not h.start_time) refl)))))))
