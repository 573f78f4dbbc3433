-- ===== src/Storage/Seed.antt =====
-- `InitDB` of backend/internal/storage/clickhouse.go, which inserts the sample records of seed.go into a
-- table of logs that has no rows.
pub mod Records
pub mod Init
use logarithm.Prelude.{ℕ, zero, suc, String, Option, none, some, List, [], ◌∷◌, Result, ok, err}
use logarithm.Prelude.Text.{concat}
use logarithm.Core.Logs.{FlatLogRecord}
use logarithm.Storage.Columns.{ColumnApi}
use logarithm.Storage.Store.{Connection, Store, batch_insert}
use logarithm.Storage.Tables.{table, table_logs}

-- The error that `%w` puts behind a text.
abbrev pub wrap_error : String → Option String → Option String
wrap_error text none = none
wrap_error text (some e) = some (concat (text ∷ e ∷ []))

module _ (api : ColumnApi) (conn : Connection api) where
  -- `QueryRow` with `Scan` is a parameter: what the database answers to a text.
  unfoldable pub init_db :
      (conn.Database → String → Result ℕ)
      → List FlatLogRecord
      → Store api conn
      → Store api conn × Option String
  unfolding table
  init_db query_row records s = elim (table s.tables table_logs) [
    | err e ↦ (s, some (concat ("failed to get table: " ∷ e ∷ [])))
    | ok tbl ↦ elim (query_row s.database (concat ("SELECT count() FROM " ∷ tbl ∷ []))) [
      | err e ↦ (s, some (concat ("failed to check existing data: " ∷ e ∷ [])))
      | ok zero ↦
          let (s', failure) = batch_insert api conn s records in
          (s', wrap_error "failed to init db: " failure)
      | ok (suc n) ↦ (s, none)
    ]
  ]
