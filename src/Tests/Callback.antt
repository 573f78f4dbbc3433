-- ===== src/Tests/Callback.antt =====
-- The handler at a concrete batch, over columns as lists and a database that accepts every query.
use logarithm.Prelude.{ℕ, ◌+◌, String, ◌≡◌, refl, Option, none, List, [], ◌∷◌, arith}
use logarithm.Tests.Process.{silent, runtime, plain, unmarshal, broken, sound}
use logarithm.Worker.Callback.{new_worker_pool, PoolConfig, stay, Call, new_jobs, Shared, JobState}
use logarithm.Storage.Batch.{new_column_batch}
use logarithm.Storage.Columns.{list_columns}
use logarithm.Storage.Store.{Store, Connection, Query}
use logarithm.Worker.Callback.Inserted.{Inserted, Call-Inserted}
use logarithm.Worker.Callback.Ends.{turns_taken, jobs_work, Call-ends, Finished, Turns-Finished}
use logarithm.Prelude.Int.{pos}
use logarithm.Storage.Tables.{table}

abbrev pub accepting : Connection list_columns
accepting = record { Database = List (Query list_columns); execute = λ db q. (q ∷ db, none) }

abbrev pub store : Store list_columns accepting
store = record {
  database = [];
  tables = ("logs", "app.logs") ∷ [];
  batch_pool = record {
    items = [];
    size = 1;
    new_func = λ _. new_column_batch list_columns;
    reuse_func = none;
  };
}

abbrev pub pool_config : PoolConfig
pool_config = record { estimated_rows = pos 10; num_workers = pos 2 }

abbrev run :
    (out : Store list_columns accepting × Option String) × (w : ℕ) × Call list_columns silent
      runtime plain unmarshal unmarshal accepting
      (new_worker_pool pool_config)
      store
      0
      (broken ∷ sound ∷ [])
      out
      w
run =
    Call-ends list_columns silent runtime plain unmarshal unmarshal accepting
      (new_worker_pool pool_config) store 0 (broken ∷ sound ∷ [])

Call-Inserted_example :
    Inserted list_columns silent runtime plain unmarshal unmarshal accepting store "app.logs"
      (broken ∷ sound ∷ [])
      run.0
Call-Inserted_example =
    Call-Inserted list_columns silent runtime plain unmarshal unmarshal accepting pool_config store
      0 broken (sound ∷ []) run.0 run.1 "app.logs" (unfold table in refl)
      (record { bounded = omega arith; reusable = tt }) run.2

abbrev begun : Shared list_columns silent runtime plain unmarshal unmarshal
begun = record { watch = 0; batch = new_column_batch list_columns }

abbrev two_jobs : List JobState
two_jobs =
    new_jobs (broken ∷ sound ∷ [])
      (record { start = 0; end = 1 } ∷ record { start = 1; end = 2 } ∷ [])

Turns-Finished_example :
    (turns_taken list_columns silent runtime plain unmarshal unmarshal {js = two_jobs} {s = begun}
          stay
        + jobs_work list_columns silent runtime plain unmarshal unmarshal two_jobs
      ≡ jobs_work list_columns silent runtime plain unmarshal unmarshal two_jobs)
    × Finished list_columns silent runtime plain unmarshal unmarshal two_jobs begun
Turns-Finished_example =
    Turns-Finished list_columns silent runtime plain unmarshal unmarshal two_jobs two_jobs begun
      begun stay
