-- ===== src/Pipeline.antt =====
-- backend/cmd/worker/main.go: the consumer loop with the handler of the worker pool, the callback for
-- the dead letters, and the delays.
pub mod Delivered
pub mod Generated
use logarithm.Prelude.{ℕ, String, Option, List, take, Result, Bytes}
use logarithm.Storage.Columns.{ColumnApi}
use logarithm.Storage.Store.{Connection, Store}
use logarithm.Transport.Message.{Message, Headers, dlq_subject}
use logarithm.Transport.Consume.{Handlers}
use logarithm.Core.Time.{Duration}
use logarithm.Worker.Callback.{Call, PoolConfig, new_worker_pool}
use logarithm.Worker.Transform.{Publisher, Runtime, ResourceLogs}
use logarithm.Worker.Decompress.{Codecs}

-- The stream of the dead letters, with `PublishLogs`.
pub record DeadLetters : Type 1 where
  pub Stream : Type 0
  pub publish_logs : Stream → String → Bytes → Headers → Stream × Option String

-- `DLQCallback`
unfoldable pub dlq_callback :
    (dlq : DeadLetters) → String → dlq.Stream → Bytes → Headers → dlq.Stream × Option String
dlq_callback dlq subject s payload headers = dlq.publish_logs s subject payload headers

module _ (api : ColumnApi) (publisher : Publisher) (rt : Runtime) (cs : Codecs)
    (unmarshal_proto unmarshal_json : Bytes → Result (List ResourceLogs)) (conn : Connection api)
    (dlq : DeadLetters) where
  -- What the callbacks share.
  pub record WorkerState : Type 0 where
    pub store : Store api conn
    pub watch : publisher.State
    pub dead : dlq.Stream

  -- In which order the jobs of a call take their turns is for the scheduler: it gives a call of the
  -- handler for every state and batch.
  pub record Scheduler (cfg : PoolConfig) : Type 0 where
    pub outcome : Store api conn → publisher.State → List Message → Store api conn × Option String
    pub watched : Store api conn → publisher.State → List Message → publisher.State
    pub calls :
        (s : Store api conn) (w : publisher.State) (ms : List Message)
        → Call api publisher rt cs unmarshal_proto unmarshal_json conn cfg s w ms
            (outcome s w ms)
            (watched s w ms)

  unfoldable pub worker_handlers :
      (cfg : PoolConfig) → Scheduler (new_worker_pool cfg) → (ℕ → Duration) → Handlers WorkerState
  unfolding dlq_callback
  worker_handlers cfg sch delay = record {
    log_handler = λ s ms.
        let (store, failure) = sch.outcome s.store s.watch ms in
        (record s { store = store; watch = sch.watched s.store s.watch ms }, failure);
    dlq_handler = λ s payload headers.
        let (dead, failure) = dlq_callback dlq dlq_subject s.dead payload headers in
        (record s { dead = dead }, failure);
    delay_handler = delay;
  }
