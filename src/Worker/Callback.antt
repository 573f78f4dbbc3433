-- ===== src/Worker/Callback.antt =====
-- `NewWorkerPool` and `ConsumeCallback` of backend/internal/worker/worker.go: the handler of a batch.
-- Its jobs run at once, and their appends to the one batch come in any order that keeps each job's own.
pub mod Work
pub mod Jobs
pub mod Inserted
pub mod Ends
use logarithm.Prelude.{
  ℕ, String, ◌≡◌, not, Option, none, List, [], ◌∷◌, ◌++◌, if◌then◌else◌, length, take, All, Result,
  ◌>>=◌, ok, err, Bytes,
}
use logarithm.Storage.Store.{flush, Connection, Store, fast_insert}
use logarithm.Storage.Columns.{ColumnApi}
use logarithm.Worker.Transform.{
  ScopeLogs, ResourceLogs, Publisher, LogData, new_transform_buffer, TransformBuffer, Runtime,
  flatten_record, range_resource, Flattening, reset_buffer,
}
use logarithm.Prelude.Int.{leb_ℤ, ℤ, pos, pos_part}
use logarithm.Transport.Message.{Message}
use logarithm.Worker.Split.{Interval, split_messages}
use logarithm.Worker.Split.Cover.{slice}
use logarithm.Worker.Decompress.{Codecs, decompress, LogDecompressor, decode}
use logarithm.Storage.Batch.{ColumnBatch}

-- The counts of `Config`, less the parts that the pool hands on.
pub record PoolConfig : Type 0 where
  pub estimated_rows : ℤ
  pub num_workers : ℤ

-- The defaults that `NewWorkerPool` puts in for counts that are not positive.
unfoldable pub new_worker_pool : PoolConfig → PoolConfig
new_worker_pool cfg = record {
  estimated_rows = if leb_ℤ cfg.estimated_rows (pos 0) then pos 1000 else cfg.estimated_rows;
  num_workers = if leb_ℤ cfg.num_workers (pos 0) then pos 1 else cfg.num_workers;
}

-- Where a job stands in `processMessages` and in its call of `Flatten`: the messages and the resources
-- that are still to come, and of the present resource its logs, with the variables of the call.
pub record JobState : Type 0 where
  pub messages : List Message
  pub resources : List ResourceLogs
  pub resource : ResourceLogs
  pub logs : List (ScopeLogs × LogData)
  pub service_name : String
  pub buffer : TransformBuffer
  pub now : ℕ

abbrev pub no_resource : ResourceLogs
no_resource = record { attributes = []; scope_logs = [] }

unfoldable pub new_job : List Message → JobState
new_job messages = record {
  messages = messages;
  resources = [];
  resource = no_resource;
  logs = [];
  service_name = "unknown";
  buffer = new_transform_buffer;
  now = 0;
}

-- The logs of a resource in the order of the two inner loops.
abbrev pub with_scope : ScopeLogs → List LogData → List (ScopeLogs × LogData)
with_scope scope [] = []
with_scope scope (log ∷ logs) = (scope, log) ∷ with_scope scope logs

abbrev pub all_logs : List ScopeLogs → List (ScopeLogs × LogData)
all_logs [] = []
all_logs (scope ∷ scopes) = with_scope scope scope.log_records ++ all_logs scopes

-- The jobs of a batch, one for each interval.
abbrev pub new_jobs : List Message → List Interval → List JobState
new_jobs messages [] = []
new_jobs messages (iv ∷ ivs) = new_job (slice messages iv) ∷ new_jobs messages ivs

module _ (api : ColumnApi) (publisher : Publisher) (rt : Runtime) (cs : Codecs)
    (unmarshal_proto unmarshal_json : Bytes → Result (List ResourceLogs)) where
  -- The head of the loop over the messages, on a worker with this decompressor.
  unfoldable pub read_message : LogDecompressor → Message → List ResourceLogs
  unfolding decompress decode
  read_message d m = elim (decompress cs m.payload m.headers d).0 [
    | err e ↦ []
    | ok (payload, done) ↦ elim (decode unmarshal_proto unmarshal_json payload m.headers) [
      | err e ↦ []
      | ok logs ↦ logs
    ]
  ]

  -- The head of `Flatten`, with the buffer that its pool hands out and the time that it reads.
  unfoldable pub begin_resource : TransformBuffer → ℕ → ResourceLogs → JobState → JobState
  unfolding range_resource reset_buffer
  begin_resource old now r j =
      let (service_name, b) = range_resource r.attributes "unknown" (reset_buffer old) in
      record j {
        resource = r;
        logs = all_logs r.scope_logs;
        service_name = service_name;
        buffer = record b { res_attr_cap = rt.grow b.res_attr_cap (length r.attributes) };
        now = now;
      }

  -- What the jobs share: what is behind the publisher, and the batch, whose appends take its lock.
  pub record Shared : Type 0 where
    pub watch : publisher.State
    pub batch : ColumnBatch api

  unfoldable pub append_log : JobState → ScopeLogs × LogData → Shared → Flattening api publisher rt
  append_log j (scope, log) s =
      flatten_record api publisher rt j.now j.service_name scope.scope_name scope.scope_version log
        (record { buffer = j.buffer; watch = s.watch; batch = s.batch })

  -- One step of one job.
  pub data JobStep : JobState → Shared → JobState → Shared → Type 0 where
    next_message :
        {j : JobState} {s : Shared} (d : LogDecompressor) (m : Message) (rest : List Message)
        → j.logs ≡ []
        → j.resources ≡ []
        → j.messages ≡ m ∷ rest
        → JobStep j s (record j { messages = rest; resources = read_message d m }) s
    next_resource :
        {j : JobState} {s : Shared} (old : TransformBuffer) (now : ℕ) (r : ResourceLogs)
        (rest : List ResourceLogs)
        → j.logs ≡ []
        → j.resources ≡ r ∷ rest
        → JobStep j s (begin_resource old now r (record j { resources = rest })) s
    next_log :
        {j : JobState} {s : Shared} (scope : ScopeLogs) (log : LogData)
        (rest : List (ScopeLogs × LogData))
        → j.logs ≡ (scope, log) ∷ rest
        → JobStep j s
            (record j { logs = rest; buffer = (append_log j (scope, log) s).buffer })
            (record {
              watch = (append_log j (scope, log) s).watch;
              batch = (append_log j (scope, log) s).batch;
            })

  -- The jobs take turns in any order; what others do to the publisher's state between two steps is
  -- not told apart.
  pub data Turns : List JobState → Shared → List JobState → Shared → Type 0 where
    stay : {js : List JobState} {s : Shared} → Turns js s js s
    turn :
        {js ks : List JobState} {s t u : Shared} {j k : JobState} (before after : List JobState)
        → Turns js s ks t
        → ks ≡ before ++ j ∷ after
        → JobStep j t k u
        → Turns js s (before ++ k ∷ after) u

  -- What a job has still to do is nothing: it signals the wait group.
  abbrev pub IsDone : JobState → Type 0
  IsDone j = (j.logs ≡ []) × (j.resources ≡ []) × (j.messages ≡ [])

  -- A call of the handler, from the store and the publisher's state to the same and its error. It
  -- flushes once all its jobs are done.
  pub data Call (conn : Connection api) (cfg : PoolConfig) (s : Store api conn)
      (w : publisher.State)
      : List Message → Store api conn × Option String → publisher.State → Type 0 where
    empty_batch : Call conn cfg s w [] (s, none) w
    handled :
        {m : Message} {rest : List Message} {js : List JobState} {u : Shared}
        → Turns
            (new_jobs (m ∷ rest) (split_messages (length (m ∷ rest)) cfg.num_workers))
            (record { watch = w; batch = (fast_insert api conn s (pos_part cfg.estimated_rows)).1 })
            js
            u
        → All IsDone js
        → Call conn cfg s w
            (m ∷ rest)
            (flush api conn (fast_insert api conn s (pos_part cfg.estimated_rows)).0 u.batch)
            u.watch
