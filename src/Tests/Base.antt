-- ===== src/Tests/Base.antt =====
-- The pool and the core types at concrete inputs.
use logarithm.Prelude.{
  ◌≤◌, ◌<◌, ◌⊎◌, ℕ, String, ◌≡◌, refl, subst, ◌≢◌, Bool, true, false, none, some, List, [], ◌∷◌,
  arith, str_eq, leb, length,
}
use logarithm.Core.Metrics.{IngestionGraphMetrics, new_ingestion_graph_metrics, IngestionMetrics}
use logarithm.Core.Time.{Time, unix_nano, zero_time}
use logarithm.Pool.{Pool}
use logarithm.Pool.Bounds.{Call, IsValid, gets, run, puts, run-IsValid}
use logarithm.Core.Logs.{FlatLogRecord}
use logarithm.Prelude.Int.{ℤ, pos}
use logarithm.Core.Metrics.Grouping.{new_ingestion_graph_metrics_lem, Draws}

abbrev short_only : List ℕ → Bool
short_only xs = leb (length xs) 2

abbrev small_pool : Pool (List ℕ)
small_pool = record {
  items = [] ∷ (1 ∷ []) ∷ [];
  size = 3;
  new_func = λ _. [];
  reuse_func = some short_only;
}

small_pool-IsValid : IsValid small_pool
small_pool-IsValid = record { bounded = omega arith; reusable = (refl, (refl, tt)) }

abbrev calls : List (Call (List ℕ))
calls = gets ∷ puts (1 ∷ 2 ∷ 3 ∷ []) ∷ puts (4 ∷ []) ∷ puts (5 ∷ []) ∷ []

run-IsValid_example : IsValid (run small_pool calls)
run-IsValid_example = run-IsValid small_pool calls small_pool-IsValid

abbrev flat_log : FlatLogRecord
flat_log = record {
  timestamp = unix_nano (pos 17);
  observed_timestamp = zero_time;
  inserted_at = zero_time;
  trace_id = "";
  span_id = "";
  severity_text = "INFO";
  severity_number = 9;
  service_name = "billing";
  body = "paid";
  body_type = "string";
  scope_name = "";
  scope_version = "";
  log_attr_keys = "user" ∷ "amount" ∷ [];
  log_attr_values = "ann" ∷ "12" ∷ [];
  res_attr_keys = "host" ∷ [];
  res_attr_values = "a1" ∷ [];
}

abbrev short_log : FlatLogRecord
short_log = record flat_log { log_attr_values = "ann" ∷ []; res_attr_values = "a1" ∷ "b2" ∷ [] }

abbrev row : String → ℕ → IngestionMetrics
row name n = record { timestamp = unix_nano (pos n); service_name = name; logs_count = n }

abbrev metric_rows : List IngestionMetrics
metric_rows = row "billing" 1 ∷ row "" 2 ∷ row "search" 3 ∷ row "billing" 4 ∷ []

abbrev nanos : Time → ℤ
nanos zero_time = pos 0
nanos (unix_nano n) = n

named : ◌≢◌ {A = String} "billing" ""
named = λ e. subst (λ s. elim (str_eq s "") [ true ↦ ⊥ | false ↦ Unit {0} ]) e tt

new_ingestion_graph_metrics_lem_example :
    ((2 ≤ 2)
      × (g : IngestionGraphMetrics) × (new_ingestion_graph_metrics nanos
            (row "billing" 1 ∷ row "" 3 ∷ [])
            2
          ≡ some g)
      × Draws nanos (row "billing" 1 ∷ row "" 3 ∷ []) 2 g)
    ⊎ ((2 < 2) × (new_ingestion_graph_metrics nanos (row "billing" 1 ∷ row "" 3 ∷ []) 2 ≡ none))
new_ingestion_graph_metrics_lem_example =
    new_ingestion_graph_metrics_lem nanos (row "billing" 1) (row "" 3 ∷ []) 2
