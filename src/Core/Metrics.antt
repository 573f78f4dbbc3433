-- ===== src/Core/Metrics.antt =====
-- backend/internal/core/metrics.go: the ingestion metrics of the dashboard.
pub mod Grouping
use logarithm.Prelude.{
  ℕ, zero, suc, String, Option, none, some, List, [], ◌∷◌, ◌++◌, map, str_eq, if◌then◌else◌,
}
use logarithm.Prelude.Int.{ℤ}
use logarithm.Core.Time.{Time}

pub record IngestionMetrics : Type 0 where
  pub timestamp : Time
  pub service_name : String
  pub logs_count : ℕ

-- A Go map from service names; a missing key reads as the empty list.
abbrev pub IngestionMetricsMap : Type 0
IngestionMetricsMap = List (String × List IngestionMetrics)

pub record IngestionGraphMetrics : Type 0 where
  pub timestamps : List ℤ
  pub metrics : IngestionMetricsMap

unfoldable pub find_service : String → IngestionMetricsMap → List IngestionMetrics
find_service name [] = []
find_service name ((n, rows) ∷ m) = if str_eq n name then rows else find_service name m

-- `result[name] = append(result[name], row)`
unfoldable pub append_row : String → IngestionMetrics → IngestionMetricsMap → IngestionMetricsMap
append_row name row [] = (name, row ∷ []) ∷ []
append_row name row ((n, rows) ∷ m) =
    if str_eq n name then (n, rows ++ row ∷ []) ∷ m else (n, rows) ∷ append_row name row m

unfoldable pub group_rows : IngestionMetricsMap → List IngestionMetrics → IngestionMetricsMap
unfolding append_row
group_rows result [] = result
group_rows result (row ∷ rows) =
    group_rows
      (if str_eq row.service_name "" then result else append_row row.service_name row result) rows

unfoldable pub new_ingestion_metrics_map : List IngestionMetrics → IngestionMetricsMap
unfolding group_rows
new_ingestion_metrics_map rows = group_rows [] rows

-- The first `n` timestamps; `none` is the panic of an index out of range.
unfoldable pub copy_timestamps : (Time → ℤ) → ℕ → List IngestionMetrics → Option (List ℤ)
copy_timestamps unix_milli zero rows = some []
copy_timestamps unix_milli (suc n) [] = none
copy_timestamps unix_milli (suc n) (row ∷ rows) = elim (copy_timestamps unix_milli n rows) [
  | none ↦ none
  | some ts ↦ some (unix_milli row.timestamp ∷ ts)
]

unfoldable pub new_ingestion_graph_metrics :
    (Time → ℤ) → List IngestionMetrics → ℕ → Option IngestionGraphMetrics
unfolding copy_timestamps new_ingestion_metrics_map
new_ingestion_graph_metrics unix_milli [] num_timestamps =
    some (record { timestamps = []; metrics = [] })
new_ingestion_graph_metrics unix_milli (row ∷ rows) num_timestamps =
    elim (copy_timestamps unix_milli num_timestamps (row ∷ rows)) [
      | none ↦ none
      | some ts ↦
          some (record { timestamps = ts; metrics = new_ingestion_metrics_map (row ∷ rows) })
    ]
