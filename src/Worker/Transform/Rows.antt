-- ===== src/Worker/Transform/Rows.antt =====
-- What `flatten` adds to the batch, and that the live tail shows the same.
use mathlib.Core.List.{append-nil, append_assoc}
use logarithm.Prelude.{
  ℕ, String, ◌≡◌, refl, inl, inr, not, ◌&&◌, List, [], ◌∷◌, ◌++◌, map, str_eq, if◌then◌else◌,
  Bool-cases,
}
use logarithm.Worker.Transform.{
  to_uint8, range_resource, range_log, TransformBuffer, ScopeLogs, Publisher, Runtime, LogData,
  flatten_records, flatten_record, flatten_scopes, Flattening, time_at, or_now, to_uint8, flatten,
  reset_buffer, ResourceLogs,
}
use logarithm.Storage.Columns.{ColumnApi}
use logarithm.Storage.Batch.Rows.{Row, row_of, Holds, append_row-Holds}
use logarithm.Storage.Batch.{LogFields, append_row, ColumnBatch}

-- The service of a resource: its last service name that is not empty, or else `name`.
abbrev pub service_of : List (String × String) → String → String
service_of [] name = name
service_of ((k, v) ∷ attrs) name =
    service_of attrs (if str_eq k "service.name" && not (str_eq v "") then v else name)

abbrev pub attr_keys : List (String × String) → List String
attr_keys [] = []
attr_keys ((k, v) ∷ attrs) = k ∷ attr_keys attrs

abbrev pub attr_values : List (String × String) → List String
attr_values [] = []
attr_values ((k, v) ∷ attrs) = v ∷ attr_values attrs

-- The row of a log of the resource with these attributes.
abbrev pub log_row : ColumnApi → ℕ → List (String × String) → ScopeLogs → LogData → Row
log_row api now attrs scope log =
    row_of api (time_at (or_now now log.timestamp)) (time_at (or_now now log.observed_timestamp))
      (to_uint8 log.severity_number) log.trace_id log.span_id (attr_keys log.attributes)
      (attr_values log.attributes) (attr_keys attrs) (attr_values attrs)
      (record {
        scope_name = scope.scope_name;
        scope_version = scope.scope_version;
        severity_text = log.severity_text;
        service_name = service_of attrs "unknown";
        body = log.body;
        body_type = "string";
      })

-- The rows of all logs of a resource, scope by scope.
abbrev pub resource_rows : ColumnApi → ℕ → List (String × String) → List ScopeLogs → List Row
resource_rows api now attrs [] = []
resource_rows api now attrs (scope ∷ scopes) =
    map (log_row api now attrs scope) scope.log_records ++ resource_rows api now attrs scopes

pub range_resource_lem :
    (attrs : List (String × String)) (name : String) (b : TransformBuffer)
    → range_resource attrs name b ≡ (
      service_of attrs name,
      record b {
        res_attr_keys = b.res_attr_keys ++ attr_keys attrs;
        res_attr_values = b.res_attr_values ++ attr_values attrs;
      },
    )
unfolding range_resource
range_resource_lem [] name b = rw (append-nil b.res_attr_keys, append-nil b.res_attr_values)
range_resource_lem ((k, v) ∷ attrs) name b = rw (
  range_resource_lem attrs,
  append_assoc b.res_attr_keys (k ∷ []) (attr_keys attrs),
  append_assoc b.res_attr_values (v ∷ []) (attr_values attrs),
)

range_log_lem :
    (attrs : List (String × String)) (b : TransformBuffer)
    → range_log attrs b ≡ record b {
      log_attr_keys = b.log_attr_keys ++ attr_keys attrs;
      log_attr_values = b.log_attr_values ++ attr_values attrs;
    }
unfolding range_log
range_log_lem [] b = rw (append-nil b.log_attr_keys, append-nil b.log_attr_values)
range_log_lem ((k, v) ∷ attrs) b = rw (
  range_log_lem attrs,
  append_assoc b.log_attr_keys (k ∷ []) (attr_keys attrs),
  append_assoc b.log_attr_values (v ∷ []) (attr_values attrs),
)

module _ (api : ColumnApi) (publisher : Publisher) (rt : Runtime) where
  -- A state whose buffer has the attributes of the resource.
  pub record Ready (attrs : List (String × String)) (rows : List Row)
      (f : Flattening api publisher rt) : Type 0 where
    pub keys : f.buffer.res_attr_keys ≡ attr_keys attrs
    pub values : f.buffer.res_attr_values ≡ attr_values attrs
    pub holds : Holds api f.batch rows

  pub flatten_record-Ready :
      (now : ℕ) (attrs : List (String × String)) (scope : ScopeLogs) (log : LogData)
      (rows : List Row) (f : Flattening api publisher rt)
      → Ready attrs rows f
      → Ready attrs (rows ++ log_row api now attrs scope log ∷ []) (
          flatten_record api publisher rt now
            (service_of attrs "unknown")
            scope.scope_name
            scope.scope_version
            log
            f)
  unfolding flatten_record
  flatten_record-Ready now attrs scope log rows f r =
      elim (Bool-cases (publisher.has_subscribers f.watch).1) [
        | inl watched ↦
            rw (watched, range_log_lem log.attributes)
              (record { keys = r.keys; values = r.values; holds = appended })
        | inr unwatched ↦
            rw (unwatched, range_log_lem log.attributes)
              (record { keys = r.keys; values = r.values; holds = appended })
      ]
    where
      fields : LogFields
      fields = record {
        scope_name = scope.scope_name;
        scope_version = scope.scope_version;
        severity_text = log.severity_text;
        service_name = service_of attrs "unknown";
        body = log.body;
        body_type = "string";
      }

      appended :
          Holds api
            (append_row api
              (time_at (or_now now log.timestamp))
              (time_at (or_now now log.observed_timestamp))
              (to_uint8 log.severity_number)
              log.trace_id
              log.span_id
              (attr_keys log.attributes)
              (attr_values log.attributes)
              f.buffer.res_attr_keys
              f.buffer.res_attr_values
              fields
              f.batch)
            (rows ++ log_row api now attrs scope log ∷ [])
      appended =
          rw (r.keys, r.values)
            (append_row-Holds api (time_at (or_now now log.timestamp))
              (time_at (or_now now log.observed_timestamp)) (to_uint8 log.severity_number)
              log.trace_id log.span_id (attr_keys log.attributes) (attr_values log.attributes)
              (attr_keys attrs) (attr_values attrs) fields f.batch rows r.holds)

  flatten_records-Ready :
      (now : ℕ) (attrs : List (String × String)) (scope : ScopeLogs) (logs : List LogData)
      (rows : List Row) (f : Flattening api publisher rt)
      → Ready attrs rows f
      → Ready attrs (rows ++ map (log_row api now attrs scope) logs) (
          flatten_records api publisher rt now
            (service_of attrs "unknown")
            scope.scope_name
            scope.scope_version
            logs
            f)
  unfolding flatten_records
  flatten_records-Ready now attrs scope [] rows f r = rw append-nil r
  flatten_records-Ready now attrs scope (log ∷ logs) rows f r =
      rw (← append_assoc rows (log_row api now attrs scope log ∷ [])) (
        flatten_records-Ready now attrs scope logs _ _
          (flatten_record-Ready now attrs scope log rows f r))

  flatten_scopes-Ready :
      (now : ℕ) (attrs : List (String × String)) (scopes : List ScopeLogs) (rows : List Row)
      (f : Flattening api publisher rt)
      → Ready attrs rows f
      → Ready attrs
          (rows ++ resource_rows api now attrs scopes)
          (flatten_scopes api publisher rt now (service_of attrs "unknown") scopes f)
  unfolding flatten_scopes
  flatten_scopes-Ready now attrs [] rows f r = rw append-nil r
  flatten_scopes-Ready now attrs (scope ∷ scopes) rows f r =
      rw (← append_assoc rows (map (log_row api now attrs scope) scope.log_records)) (
        flatten_scopes-Ready now attrs scopes _ _
          (flatten_records-Ready now attrs scope scope.log_records rows f r))

  -- On a batch that holds some rows, flattening a resource makes it hold after them one row for each
  -- log, scope by scope and in order, whatever the live tail and the pool of buffers hold: with the
  -- log's attributes, the resource's and its service, and the present for a time that is missing.
  pub flatten-Holds :
      (now : ℕ) (logs : ResourceLogs) (pool : List TransformBuffer) (watch : publisher.State)
      (batch : ColumnBatch api) (rows : List Row)
      → Holds api batch rows
      → Holds api
          (flatten api publisher rt now logs (pool, watch, batch)).2
          (rows ++ resource_rows api now logs.attributes logs.scope_logs)
  unfolding flatten reset_buffer
  flatten-Holds now logs [] watch batch rows h =
      rw (range_resource_lem logs.attributes "unknown")
        (flatten_scopes-Ready now logs.attributes logs.scope_logs rows _
          (record { keys = refl; values = refl; holds = h })).holds
  flatten-Holds now logs (b ∷ pool) watch batch rows h =
      rw (range_resource_lem logs.attributes "unknown")
        (flatten_scopes-Ready now logs.attributes logs.scope_logs rows _
          (record { keys = refl; values = refl; holds = h })).holds
