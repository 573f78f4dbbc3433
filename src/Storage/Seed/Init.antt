-- ===== src/Storage/Seed/Init.antt =====
-- What `InitDB` does to the database.
use logarithm.Prelude.{
  ℕ, zero, suc, String, ◌≡◌, refl, sym, ap, subst, ◌⊎◌, inl, inr, true, Option, none, some, [], ◌∷◌,
  map, Result, Result-cases, ok, err,
}
use logarithm.Prelude.Text.{string_bytes, concat}
use logarithm.Core.Time.{Time}
use logarithm.Storage.Store.Inserts.{all_insertable, batch_insert-sent, record_row, sent}
use logarithm.Storage.Seed.Records.{test_data}
use logarithm.Storage.Columns.{ColumnApi}
use logarithm.Storage.Store.{Connection, Store, batch_insert}
use logarithm.Storage.Seed.{init_db, wrap_error}
use logarithm.Storage.Tables.{table, table_logs}
use logarithm.Storage.Batch.{ColumnBatch}
use logarithm.Storage.Batch.Rows.{Holds}

-- The ids of all sample records have the lengths of their columns.
test_data_insertable : (ago : ℕ → ℕ → Time) → all_insertable (test_data ago) ≡ true
unfolding string_bytes
test_data_insertable ago = refl

module _ (api : ColumnApi) (conn : Connection api) (ago : ℕ → ℕ → Time)
    (query_row : conn.Database → String → Result ℕ) where
  -- What the database answers to the count of the rows of a table.
  abbrev pub row_count : Store api conn → String → Result ℕ
  row_count s tbl = query_row s.database (concat ("SELECT count() FROM " ∷ tbl ∷ []))

  -- A batch with exactly the rows of the sample records, and what the insert of it comes to.
  pub record Seeded (s : Store api conn) (tbl : String) (out : Store api conn × Option String)
      : Type 0 where
    pub batch : ColumnBatch api
    pub holds : Holds api batch (map record_row (test_data ago))
    pub database : out.0.database ≡ (sent api conn s tbl batch).0.database
    pub failure : out.1 ≡ wrap_error "failed to init db: " (sent api conn s tbl batch).1

  init_db_empty :
      (s : Store api conn) (tbl : String)
      → table s.tables table_logs ≡ ok tbl
      → row_count s tbl ≡ ok 0
      → init_db api conn query_row (test_data ago) s ≡ (
        (batch_insert api conn s (test_data ago)).0,
        wrap_error "failed to init db: " (batch_insert api conn s (test_data ago)).1,
      )
  unfolding init_db
  init_db_empty s tbl known counted = rw (init_db, known, counted)

  seeded :
      (s : Store api conn) (tbl : String)
      → table s.tables table_logs ≡ ok tbl
      → row_count s tbl ≡ ok 0
      → Seeded s tbl (init_db api conn query_row (test_data ago) s)
  seeded s tbl known counted =
      let i = batch_insert-sent api conn s _ _ tbl (test_data_insertable ago) known in
      subst (Seeded s tbl) (sym (init_db_empty s tbl known counted)) (record {
        batch = i.0;
        holds = i.1;
        database = i.2;
        failure = ap (wrap_error "failed to init db: ") i.3;
      })

  -- With a known log table: if its rows cannot be counted, that is the error; if there are some, nothing
  -- happens; and if there are none, one query inserts exactly the sample records, in their order, all of
  -- which are fit to be inserted, and only an error of that query is returned.
  pub init_db-Seeded :
      (s : Store api conn) (tbl : String)
      → table s.tables table_logs ≡ ok tbl
      → ((e : String) × (row_count s tbl ≡ err e)
          × (init_db api conn query_row (test_data ago) s
              ≡ (s, some (concat ("failed to check existing data: " ∷ e ∷ [])))))
        ⊎ (((n : ℕ) × (row_count s tbl ≡ ok (suc n))
              × (init_db api conn query_row (test_data ago) s ≡ (s, none)))
            ⊎ ((row_count s tbl ≡ ok 0)
                × Seeded s tbl (init_db api conn query_row (test_data ago) s)))
  init_db-Seeded s tbl known = elim (Result-cases (row_count s tbl)) [
    | inr (e, failed) ↦ inl (e, failed, unfold init_db in rw (init_db, known, failed))
    | inl (suc n, counted) ↦ inr (inl (n, counted, unfold init_db in rw (init_db, known, counted)))
    | inl (zero, counted) ↦ inr (inr (counted, seeded s tbl known counted))
  ]
