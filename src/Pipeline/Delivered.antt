-- ===== src/Pipeline/Delivered.antt =====
-- What it means for the database that a message was acknowledged.
use logarithm.Prelude.{
  ℕ, String, ◌≡◌, sym, inl, inr, false, Option, none, List, [], ◌∷◌, ◌++◌, subst, Memᴰ, arith,
  All-mem, Result, ok, Bytes,
}
use logarithm.Pipeline.{WorkerState, Scheduler, worker_handlers, DeadLetters}
use logarithm.Storage.Columns.{ColumnApi}
use logarithm.Storage.Store.{flush, Connection, Store, fast_insert, insert_records}
use logarithm.Storage.Store.Inserts.{sent, flush-sent}
use logarithm.Pool.Bounds.{IsValid, get-IsValid}
use logarithm.Worker.Callback.{Call, handled, empty_batch, new_worker_pool, PoolConfig}
use logarithm.Worker.Callback.Inserted.{Inserted, Call-Inserted}
use logarithm.Worker.Transform.{Publisher, Runtime, ResourceLogs}
use logarithm.Worker.Decompress.{Codecs}
use logarithm.Storage.Tables.{table, table_logs}
use logarithm.Storage.Batch.{ColumnBatch}
use logarithm.Transport.Message.{Message}
use logarithm.Core.Time.{Duration}
use logarithm.Transport.Consume.{Handlers, Settled, Msg, Loop, Reach, Step, ack, ack_all}
use logarithm.Transport.Consume.Accepted.{Keeps, Accepted, HandsOver, Later, Reach-Justified}
use logarithm.Transport.Consume.Settle.{bodies, is_dead}

module _ (api : ColumnApi) (publisher : Publisher) (rt : Runtime) (cs : Codecs)
    (unmarshal_proto unmarshal_json : Bytes → Result (List ResourceLogs)) (conn : Connection api)
    (dlq : DeadLetters) where
  -- The log table is known and the pool is within its bound.
  pub record IsOpen (tbl : String) (s : Store api conn) : Type 0 where
    pub known : table s.tables table_logs ≡ ok tbl
    pub valid : IsValid s.batch_pool

  insert_records-tables :
      (s : Store api conn) (batch : ColumnBatch api)
      → (insert_records api conn s batch).0.tables ≡ s.tables
  unfolding insert_records
  insert_records-tables s batch = ground arith

  flush-IsOpen :
      (tbl : String) (s : Store api conn) (n : ℕ) (batch : ColumnBatch api)
      → IsOpen tbl s
      → IsOpen tbl (flush api conn (fast_insert api conn s n).0 batch).0
  unfolding flush fast_insert
  flush-IsOpen tbl s n batch o = record {
    known = rw (insert_records-tables (fast_insert api conn s n).0 batch) o.known;
    valid =
        (flush-sent api conn (fast_insert api conn s n).0 tbl batch o.known
          (get-IsValid s.batch_pool o.valid)).3;
  }

  Call-IsOpen :
      (tbl : String) (cfg : PoolConfig) (s : Store api conn) (w : publisher.State)
      (ms : List Message) (out : Store api conn × Option String) (w' : publisher.State)
      → Call api publisher rt cs unmarshal_proto unmarshal_json conn cfg s w ms out w'
      → IsOpen tbl s
      → IsOpen tbl out.0
  Call-IsOpen tbl cfg s w _ _ _ empty_batch o = o
  Call-IsOpen tbl cfg s w _ _ _ (handled turns done) o = flush-IsOpen tbl s _ _ o

  module _ (cfg : PoolConfig)
      (sch : Scheduler api publisher rt cs unmarshal_proto unmarshal_json conn dlq
        (new_worker_pool cfg))
      (delay : ℕ → Duration) (max_deliver max_batch max_wait : ℕ) where
    abbrev pub handlers :
        Handlers (WorkerState api publisher rt cs unmarshal_proto unmarshal_json conn dlq)
    handlers =
        worker_handlers api publisher rt cs unmarshal_proto unmarshal_json conn dlq cfg sch delay

    abbrev pub StoreIsOpen :
        String → WorkerState api publisher rt cs unmarshal_proto unmarshal_json conn dlq → Type 0
    StoreIsOpen tbl s = IsOpen tbl s.store

    handlers-Keeps : (tbl : String) → Keeps handlers (StoreIsOpen tbl)
    unfolding worker_handlers
    handlers-Keeps tbl = record {
      logs = λ s ms o.
          Call-IsOpen tbl (new_worker_pool cfg) s.store s.watch ms _ _
            (sch.calls s.store s.watch ms) o;
      dlq = λ s payload headers o. o;
    }

    -- A step of the run that ended in a state: the loop handed over its batch, with this message, and the
    -- store that it went on with has the database in which the insert of the rows of that batch was
    -- executed, which the database accepted. All of the batch was acknowledged, and the run went on.
    pub record Delivered
        (s0 : WorkerState api publisher rt cs unmarshal_proto unmarshal_json conn dlq) (now0 : ℕ)
        (tbl : String) (m : Msg)
        (final : Loop (WorkerState api publisher rt cs unmarshal_proto unmarshal_json conn dlq))
        : Type 0 where
      pub seen : List Msg
      pub earlier : Loop (WorkerState api publisher rt cs unmarshal_proto unmarshal_json conn dlq)
      pub reached : Reach handlers max_deliver max_batch max_wait s0 now0 seen earlier
      pub batch : List Msg
      pub member : Memᴰ m batch
      pub handed_over : HandsOver handlers max_deliver max_batch max_wait s0 now0 earlier batch
      pub new : List Msg
      pub after : Loop (WorkerState api publisher rt cs unmarshal_proto unmarshal_json conn dlq)
      pub step : Step handlers max_deliver max_batch max_wait earlier new after
      pub inserted :
          Inserted api publisher rt cs unmarshal_proto unmarshal_json conn earlier.shared.store tbl
            (bodies batch)
            (after.shared.store, none)
      pub accepted : (sent api conn earlier.shared.store tbl inserted.batch).1 ≡ none
      pub answered : after.settled ≡ ack_all batch ++ earlier.settled
      pub cleared : after.batch ≡ []
      pub later : Later handlers max_deliver max_batch max_wait s0 now0 after final

    handler-Inserted :
        (s : WorkerState api publisher rt cs unmarshal_proto unmarshal_json conn dlq) (tbl : String)
        (m : Msg) (batch : List Msg)
        → Memᴰ m batch
        → IsOpen tbl s.store
        → Inserted api publisher rt cs unmarshal_proto unmarshal_json conn s.store tbl
            (bodies batch)
            (sch.outcome s.store s.watch (bodies batch))
    handler-Inserted s tbl m [] h o = elim h [ ]
    handler-Inserted s tbl m (x ∷ rest) h o =
        Call-Inserted api publisher rt cs unmarshal_proto unmarshal_json conn cfg s.store s.watch
          x.body (bodies rest) _ _ tbl o.known o.valid
          (sch.calls s.store s.watch (bodies (x ∷ rest)))

    Accepted-Delivered :
        (s0 : WorkerState api publisher rt cs unmarshal_proto unmarshal_json conn dlq) (now0 : ℕ)
        (tbl : String) (d : Settled)
        (final : Loop (WorkerState api publisher rt cs unmarshal_proto unmarshal_json conn dlq))
        → Accepted handlers max_deliver max_batch max_wait s0 now0 (StoreIsOpen tbl) d final
        → Delivered s0 now0 tbl d.msg final
    unfolding worker_handlers
    Accepted-Delivered s0 now0 tbl d final a =
        let i : Inserted api publisher rt cs unmarshal_proto unmarshal_json conn
            a.earlier.shared.store tbl (bodies a.batch) (a.after.shared.store, none) =
          subst
            (Inserted api publisher rt cs unmarshal_proto unmarshal_json conn a.earlier.shared.store
              tbl (bodies a.batch))
            (λ i. ((sym a.went_on i).store, a.accepted i))
            (handler-Inserted a.earlier.shared tbl d.msg a.batch a.member a.kept) in
        record {
          seen = a.seen;
          earlier = a.earlier;
          reached = a.reached;
          batch = a.batch;
          member = a.member;
          handed_over = a.handed_over;
          new = a.new;
          after = a.after;
          step = a.step;
          inserted = i;
          accepted = sym i.failure;
          answered = a.answered;
          cleared = a.cleared;
          later = a.later;
        }

    -- Over a whole run of the worker, from a store whose log table is known and whose pool is within its
    -- bound: for each message that was acknowledged before its deliveries were used up, there is a step
    -- of this run in which the loop handed over its batch, with the message, its rows were inserted in
    -- one query that the database accepted, the loop went on with the database after that query, and the
    -- batch was acknowledged. This is so for every order of the loop's steps and every schedule of the
    -- jobs. Rows are compared but for their times, and a message that cannot be decoded has none.
    pub acknowledged-Delivered :
        (s0 : WorkerState api publisher rt cs unmarshal_proto unmarshal_json conn dlq) (now0 : ℕ)
        (tbl : String) (seen : List Msg)
        (l : Loop (WorkerState api publisher rt cs unmarshal_proto unmarshal_json conn dlq))
        (d : Settled)
        → IsOpen tbl s0.store
        → Reach handlers max_deliver max_batch max_wait s0 now0 seen l
        → Memᴰ d l.settled
        → d.answer ≡ ack
        → is_dead max_deliver d.msg.num_delivered ≡ false
        → Delivered s0 now0 tbl d.msg l
    acknowledged-Delivered s0 now0 tbl seen l d o r h e alive =
        elim (All-mem _ _
          (Reach-Justified handlers max_deliver max_batch max_wait s0 now0 (StoreIsOpen tbl)
            (handlers-Keeps tbl) o r).1
          h) [
            | inl other ↦ absurd (other e)
            | inr (inl dead) ↦ absurd (ground arith)
            | inr (inr a) ↦ Accepted-Delivered s0 now0 tbl d l a
          ]
