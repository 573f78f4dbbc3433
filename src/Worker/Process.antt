-- ===== src/Worker/Process.antt =====
-- `processMessages` of backend/internal/worker/worker.go: one worker's share of a batch, from the
-- bytes of its messages to rows.
pub mod Dropped
use logarithm.Prelude.{ℕ, ◌+◌, List, [], ◌∷◌, Result, ok, err, Bytes}
use logarithm.Storage.Columns.{ColumnApi}
use logarithm.Worker.Transform.{Publisher, Runtime, TransformBuffer, ResourceLogs, flatten}
use logarithm.Worker.Decompress.{LogDecompressor, Codecs, decompress, decode, run_cleanup, Cleanup}
use logarithm.Storage.Batch.{ColumnBatch}
use logarithm.Transport.Message.{Message, Headers}

-- The state of one job: its decompressor, the buffers of the transformer, what is behind the
-- publisher, the batch, and how often the clock has been read.
pub record Job (api : ColumnApi) (publisher : Publisher) : Type 0 where
  pub decompressor : LogDecompressor
  pub buffers : List TransformBuffer
  pub watch : publisher.State
  pub batch : ColumnBatch api
  pub readings : ℕ

module _ (api : ColumnApi) (publisher : Publisher) (rt : Runtime) (cs : Codecs)
    (unmarshal_proto unmarshal_json : Bytes → Result (List ResourceLogs)) (clock : ℕ → ℕ) where
  -- The loop over the resources of a request; the clock is read once for each.
  unfoldable pub flatten_all : List ResourceLogs → Job api publisher → Job api publisher
  unfolding flatten
  flatten_all [] j = j
  flatten_all (logs ∷ more) j =
      let (buffers, watch, batch) =
        flatten api publisher rt (clock j.readings) logs (j.buffers, j.watch, j.batch) in
      flatten_all more (record {
        decompressor = j.decompressor;
        buffers = buffers;
        watch = watch;
        batch = batch;
        readings = j.readings + 1;
      })

  -- A round of the loop over the messages, once the decompressor has answered: a payload that cannot
  -- be read is dropped.
  unfoldable pub process_payload :
      Headers → Result (Bytes × Cleanup) × LogDecompressor → Job api publisher → Job api publisher
  unfolding decode run_cleanup flatten_all
  process_payload headers (err e, taken) j = record j { decompressor = taken }
  process_payload headers (ok (payload, done), taken) j =
      let cleaned = record j { decompressor = run_cleanup done taken } in
      elim (decode unmarshal_proto unmarshal_json payload headers) [
        | err e ↦ cleaned
        | ok logs ↦ flatten_all logs cleaned
      ]

  unfoldable pub process_message : Message → Job api publisher → Job api publisher
  unfolding decompress process_payload
  process_message m j =
      process_payload m.headers (decompress cs m.payload m.headers j.decompressor) j

  unfoldable pub process_messages : List Message → Job api publisher → Job api publisher
  unfolding process_message
  process_messages [] j = j
  process_messages (m ∷ messages) j = process_messages messages (process_message m j)
