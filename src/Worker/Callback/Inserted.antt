-- ===== src/Worker/Callback/Inserted.antt =====
-- What a call of the handler inserts, and what its error means for the messages.
use mathlib.Core.List.{Permᴰ, append-nil, append_assoc}
use logarithm.Prelude.{
  ℕ, zero, suc, ◌<◌, String, ◌≡◌, refl, sym, ap, subst, ◌∙◌, Option, List, [], ◌∷◌, ◌++◌, map,
  arith, if◌then◌else◌, length, All, Result, ok, Bytes,
}
use logarithm.Storage.Store.{Connection, Store, fast_insert}
use logarithm.Storage.Store.Inserts.{sent, fast_insert_lem, flush-sent}
use logarithm.Storage.Columns.{ColumnApi}
use logarithm.Worker.Callback.{
  new_worker_pool, PoolConfig, new_job, JobState, IsDone, new_jobs, Call, handled,
}
use logarithm.Worker.Transform.{Publisher, Runtime, ResourceLogs}
use logarithm.Prelude.Int.{pos, ℤ, leb_ℤ, negsuc, pos_part}
use logarithm.Worker.Decompress.{Codecs}
use logarithm.Transport.Message.{Message}
use logarithm.Worker.Split.Cover.{slices, slices-split_messages, slice}
use logarithm.Worker.Split.{Interval, split_messages}
use logarithm.Worker.Callback.Work.{resources_rows, messages_rows, jobs_rows, log_rows, untimed}
use logarithm.Worker.Callback.Jobs.{Current, Turns-Progress}
use logarithm.Storage.Batch.Rows.{Row, Holds}
use logarithm.Storage.Batch.{ColumnBatch}
use logarithm.Storage.Tables.{table, table_logs}
use logarithm.Worker.Process.Dropped.{resources_of}
use logarithm.Pool.Bounds.{IsValid, get-IsValid}

workers_positive :
    (cfg : PoolConfig) → (w : ℕ) × (0 < w) × ((new_worker_pool cfg).num_workers ≡ pos w)
unfolding new_worker_pool
workers_positive cfg = go cfg.num_workers
  where
    go : (n : ℤ) → (w : ℕ) × (0 < w) × ((if leb_ℤ n (pos 0) then pos 1 else n) ≡ pos w)
    go (pos zero) = (1, omega arith, refl)
    go (pos (suc n)) = (suc n, omega arith, ground arith)
    go (negsuc n) = (1, omega arith, ground arith)

module _ (api : ColumnApi) (publisher : Publisher) (rt : Runtime) (cs : Codecs)
    (unmarshal_proto unmarshal_json : Bytes → Result (List ResourceLogs)) where
  -- The rows of a batch of messages, whatever the times at which they are read.
  abbrev pub batch_rows : List Message → List Row
  batch_rows = messages_rows api publisher rt cs unmarshal_proto unmarshal_json

  batch_rows-append :
      (xs ys : List Message) → batch_rows (xs ++ ys) ≡ batch_rows xs ++ batch_rows ys
  batch_rows-append [] ys = refl
  batch_rows-append (x ∷ xs) ys =
      ap (λ l. resources_rows api (resources_of cs unmarshal_proto unmarshal_json x) ++ l)
        (batch_rows-append xs ys)
      ∙ sym (
          append_assoc (resources_rows api (resources_of cs unmarshal_proto unmarshal_json x))
            (batch_rows xs) (batch_rows ys))

  jobs_rows-new_jobs :
      (messages : List Message) (ivs : List Interval)
      → jobs_rows api publisher rt cs unmarshal_proto unmarshal_json (new_jobs messages ivs)
        ≡ batch_rows (slices messages ivs)
  unfolding new_job
  jobs_rows-new_jobs messages [] = refl
  jobs_rows-new_jobs messages (iv ∷ ivs) =
      ap (λ l. batch_rows (slice messages iv) ++ l) (jobs_rows-new_jobs messages ivs)
      ∙ sym (batch_rows-append (slice messages iv) (slices messages ivs))

  jobs_rows-IsDone :
      (js : List JobState)
      → All (IsDone api publisher rt cs unmarshal_proto unmarshal_json) js
      → jobs_rows api publisher rt cs unmarshal_proto unmarshal_json js ≡ []
  jobs_rows-IsDone [] done = refl
  jobs_rows-IsDone (j ∷ js) ((l, r, m), done) = λ i.
      (log_rows api j.resource.attributes (l i) ++ (resources_rows api (r i) ++ batch_rows (m i)))
      ++ jobs_rows-IsDone js done i

  new_jobs-Current :
      (messages : List Message) (ivs : List Interval)
      → All (Current api publisher rt cs unmarshal_proto unmarshal_json) (new_jobs messages ivs)
  unfolding new_job
  new_jobs-Current messages [] = tt
  new_jobs-Current messages (iv ∷ ivs) =
      (record { keys = refl; values = refl; service = refl }, new_jobs-Current messages ivs)

  all_done :
      (messages : List Message) (ivs : List Interval) (js : List JobState) (rows : List Row)
      → slices messages ivs ≡ messages
      → All (IsDone api publisher rt cs unmarshal_proto unmarshal_json) js
      → Permᴰ
          (map untimed rows ++ jobs_rows api publisher rt cs unmarshal_proto unmarshal_json js)
          (jobs_rows api publisher rt cs unmarshal_proto unmarshal_json (new_jobs messages ivs))
      → Permᴰ (map untimed rows) (batch_rows messages)
  all_done messages ivs js rows whole done p =
      subst (λ l. Permᴰ l (batch_rows messages))
        (ap (λ l. map untimed rows ++ l) (jobs_rows-IsDone js done) ∙ append-nil (map untimed rows))
        (subst
          (λ l.
            Permᴰ
              (map untimed rows ++ jobs_rows api publisher rt cs unmarshal_proto unmarshal_json js)
              l)
          (jobs_rows-new_jobs messages ivs ∙ ap batch_rows whole) p)

  module _ (conn : Connection api) where
    -- A batch that holds the rows of these messages in some order, less the times, and what the insert
    -- of it into the table comes to.
    pub record Inserted (s : Store api conn) (tbl : String) (messages : List Message)
        (out : Store api conn × Option String) : Type 0 where
      pub batch : ColumnBatch api
      pub rows : List Row
      pub holds : Holds api batch rows
      pub same : Permᴰ (map untimed rows) (batch_rows messages)
      pub database : out.0.database ≡ (sent api conn s tbl batch).0.database
      pub failure : out.1 ≡ (sent api conn s tbl batch).1

    new_jobs-batch :
        (cfg : PoolConfig) (m : Message) (rest : List Message)
        → slices (m ∷ rest) (split_messages (length (m ∷ rest)) (new_worker_pool cfg).num_workers)
          ≡ m ∷ rest
    new_jobs-batch cfg m rest =
        let (w, h, e) = workers_positive cfg in
        ap (λ n. slices (m ∷ rest) (split_messages (length (m ∷ rest)) n)) e
        ∙ slices-split_messages (m ∷ rest) w (omega arith) h

    -- With a known log table and a pool within its bound, a call of the handler on a batch that is not
    -- empty inserts exactly the rows of its messages, each once, in whatever order its jobs took their
    -- turns, and returns what the database returns. Rows are compared but for their times.
    pub Call-Inserted :
        (cfg : PoolConfig) (s : Store api conn) (w : publisher.State) (m : Message)
        (rest : List Message) (out : Store api conn × Option String) (w' : publisher.State)
        (tbl : String)
        → table s.tables table_logs ≡ ok tbl
        → IsValid s.batch_pool
        → Call api publisher rt cs unmarshal_proto unmarshal_json conn
            (new_worker_pool cfg)
            s
            w
            (m ∷ rest)
            out
            w'
        → Inserted s tbl (m ∷ rest) out
    unfolding fast_insert
    Call-Inserted cfg s w m rest _ _ tbl known v (handled {js = js} {u = u} turns done) =
        let n = pos_part (new_worker_pool cfg).estimated_rows in
        let p =
          Turns-Progress api publisher rt cs unmarshal_proto unmarshal_json [] turns
            (new_jobs-Current (m ∷ rest) _) (fast_insert_lem api conn s n).0 in
        let f =
          flush-sent api conn (fast_insert api conn s n).0 tbl u.batch known
            (get-IsValid s.batch_pool v) in
        record {
          batch = u.batch;
          rows = p.more;
          holds = p.holds;
          same = all_done (m ∷ rest) _ js p.more (new_jobs-batch cfg m rest) done p.same;
          database = f.0;
          failure = f.1;
        }
