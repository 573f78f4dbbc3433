-- ===== src/Core/Metrics/Grouping.antt =====
-- The grouping by service, and when the graph can be drawn.
use logarithm.Prelude.{
  ℕ, zero, suc, ◌≤◌, ◌<◌, String, ◌≡◌, refl, sym, ap, ◌∙◌, ◌≢◌, ◌⊎◌, inl, inr, none, some, List, [],
  ◌∷◌, ◌++◌, map, arith, str_eq, eq_iff, leb, if◌then◌else◌, leb→le, Bool-cases, length, take,
}
use logarithm.Prelude.Int.{ℤ}
use mathlib.Core.List.{append-nil, append_assoc}
use logarithm.Core.Time.{Time}
use logarithm.Core.Metrics.{
  IngestionMetrics, IngestionMetricsMap, IngestionGraphMetrics, find_service, append_row,
  group_rows, new_ingestion_metrics_map, copy_timestamps, new_ingestion_graph_metrics,
}

-- The rows of one service, in their order.
abbrev pub rows_of : String → List IngestionMetrics → List IngestionMetrics
rows_of name [] = []
rows_of name (row ∷ rows) =
    let rest = rows_of name rows in if str_eq row.service_name name then row ∷ rest else rest

find_service-append_row :
    (name : String) (row : IngestionMetrics) (m : IngestionMetricsMap) (k : String)
    → find_service k (append_row name row m)
      ≡ (if str_eq name k then find_service k m ++ row ∷ [] else find_service k m)
unfolding find_service append_row
find_service-append_row name row [] k = ground (arith, eq_iff name k)
find_service-append_row name row ((n, rows) ∷ m) k =
    ground (arith, eq_iff n name, eq_iff n k, eq_iff name k, find_service-append_row name row m k)

-- What one row adds to the rows of service `k`.
abbrev one_row : String → IngestionMetrics → List IngestionMetrics
one_row k row = if str_eq row.service_name k then row ∷ [] else []

one_row-append :
    (k : String) (row : IngestionMetrics) (rows : List IngestionMetrics)
    → one_row k row ++ rows_of k rows ≡ rows_of k (row ∷ rows)
one_row-append k row rows = ground arith

find_service_step :
    (m : IngestionMetricsMap) (row : IngestionMetrics) (k : String)
    → k ≢ ""
    → find_service k (if str_eq row.service_name "" then m else append_row row.service_name row m)
      ≡ find_service k m ++ one_row k row
find_service_step m row k h = ground (
  arith,
  eq_iff row.service_name "",
  eq_iff row.service_name k,
  find_service-append_row row.service_name row m k,
  append-nil (find_service k m),
)

find_service-group_rows :
    (m : IngestionMetricsMap) (rows : List IngestionMetrics) (k : String)
    → k ≢ ""
    → find_service k (group_rows m rows) ≡ find_service k m ++ rows_of k rows
unfolding group_rows
find_service-group_rows m [] k h = sym (append-nil (find_service k m))
find_service-group_rows m (row ∷ rows) k h =
    find_service-group_rows next rows k h
    ∙ ap (λ l. l ++ rows_of k rows) (find_service_step m row k h)
    ∙ append_assoc (find_service k m) (one_row k row) (rows_of k rows)
    ∙ ap (λ l. find_service k m ++ l) (one_row-append k row rows)
  where
    next : IngestionMetricsMap
    next = if str_eq row.service_name "" then m else append_row row.service_name row m

-- Every service with a name gets exactly its rows, in the order in which the query returned them.
pub new_ingestion_metrics_map-rows :
    (rows : List IngestionMetrics) (k : String)
    → k ≢ ""
    → find_service k (new_ingestion_metrics_map rows) ≡ rows_of k rows
unfolding new_ingestion_metrics_map find_service
new_ingestion_metrics_map-rows rows k h = find_service-group_rows [] rows k h

copy_timestamps-take :
    (unix_milli : Time → ℤ) (n : ℕ) (rows : List IngestionMetrics)
    → n ≤ length rows
    → copy_timestamps unix_milli n rows ≡ some (map (λ r. unix_milli r.timestamp) (take n rows))
unfolding copy_timestamps
copy_timestamps-take unix_milli zero rows h = refl
copy_timestamps-take unix_milli (suc n) [] h = absurd (omega arith)
copy_timestamps-take unix_milli (suc n) (row ∷ rows) h =
    rw (copy_timestamps-take unix_milli n rows (omega arith))

copy_timestamps_short :
    (unix_milli : Time → ℤ) (n : ℕ) (rows : List IngestionMetrics)
    → length rows < n
    → copy_timestamps unix_milli n rows ≡ none
unfolding copy_timestamps
copy_timestamps_short unix_milli zero rows h = absurd (omega arith)
copy_timestamps_short unix_milli (suc n) [] h = refl
copy_timestamps_short unix_milli (suc n) (row ∷ rows) h =
    rw (copy_timestamps_short unix_milli n rows (omega arith))

unnamed-append_row :
    (m : IngestionMetricsMap) (row : IngestionMetrics)
    → find_service "" (if str_eq row.service_name "" then m else append_row row.service_name row m)
      ≡ find_service "" m
unnamed-append_row m row =
    ground (arith, eq_iff row.service_name "", find_service-append_row row.service_name row m "")

unnamed-group_rows :
    (m : IngestionMetricsMap) (rows : List IngestionMetrics)
    → find_service "" (group_rows m rows) ≡ find_service "" m
unfolding group_rows
unnamed-group_rows m [] = refl
unnamed-group_rows m (row ∷ rows) =
    unnamed-group_rows (if str_eq row.service_name "" then m else append_row row.service_name row m)
      rows
    ∙ unnamed-append_row m row

-- The rows that the map has for a key: those of the service, and none for the empty name.
abbrev pub named_rows : String → List IngestionMetrics → List IngestionMetrics
named_rows k rows = if str_eq k "" then [] else rows_of k rows

new_ingestion_metrics_map-named_rows :
    (rows : List IngestionMetrics) (k : String)
    → find_service k (new_ingestion_metrics_map rows) ≡ named_rows k rows
unfolding new_ingestion_metrics_map find_service
new_ingestion_metrics_map-named_rows rows k = elim (Bool-cases (str_eq k "")) [
  | inl e ↦ let same : k ≡ "" = ground (arith, eq_iff k "") in rw same (unnamed-group_rows [] rows)
  | inr e ↦ rw e (new_ingestion_metrics_map-rows rows k (λ same. ground (arith, eq_iff k "")))
]

-- What the graph is made of: the timestamps of the first rows, and the rows by service.
pub record Draws (unix_milli : Time → ℤ) (rows : List IngestionMetrics) (n : ℕ)
    (g : IngestionGraphMetrics) : Type 0 where
  pub timestamps : g.timestamps ≡ map (λ r. unix_milli r.timestamp) (take n rows)
  pub metrics : (k : String) → find_service k g.metrics ≡ named_rows k rows

-- With at least one row: if there are at least as many rows as timestamps asked for, the call returns
-- the timestamps of the first of them, and for each service name that is not empty its rows, in their
-- order; rows without a name are left out. If there are fewer, the call panics.
pub new_ingestion_graph_metrics_lem :
    (unix_milli : Time → ℤ) (row : IngestionMetrics) (rows : List IngestionMetrics) (n : ℕ)
    → ((n ≤ length (row ∷ rows))
        × (g : IngestionGraphMetrics) × (new_ingestion_graph_metrics unix_milli (row ∷ rows) n
            ≡ some g)
        × Draws unix_milli (row ∷ rows) n g)
      ⊎ ((length (row ∷ rows) < n) × (new_ingestion_graph_metrics unix_milli (row ∷ rows) n ≡ none))
unfolding new_ingestion_graph_metrics
new_ingestion_graph_metrics_lem unix_milli row rows n =
    elim (Bool-cases (leb n (length (row ∷ rows)))) [
      | inl enough ↦ inl (
        leb→le n _ enough,
        record {
          timestamps = map (λ r. unix_milli r.timestamp) (take n (row ∷ rows));
          metrics = new_ingestion_metrics_map (row ∷ rows);
        },
        rw (
          copy_timestamps-take unix_milli n (row ∷ rows) (leb→le n _ enough),
          new_ingestion_graph_metrics,
        ),
        record { timestamps = refl; metrics = new_ingestion_metrics_map-named_rows (row ∷ rows) },
      )
      | inr short ↦ inr (
        ground arith,
        rw (
          copy_timestamps_short unix_milli n (row ∷ rows) (ground arith),
          new_ingestion_graph_metrics,
        ),
      )
    ]
