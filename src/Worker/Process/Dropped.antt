-- ===== src/Worker/Process/Dropped.antt =====
-- A job adds the rows of every message that can be read, and only of those.
use mathlib.Core.List.{append-nil, append_assoc}
use logarithm.Prelude.{
  ℕ, suc, ◌+◌, ◌≡◌, refl, sym, ap, ◌∙◌, inl, inr, List, [], ◌∷◌, ◌++◌, arith, length, length-append,
  Result, Result-cases, ok, err, Bytes,
}
use logarithm.Storage.Columns.{ColumnApi}
use logarithm.Worker.Decompress.{Codecs, decompress, LogDecompressor, decode, Cleanup, run_cleanup}
use logarithm.Worker.Transform.{ResourceLogs, Publisher, Runtime, flatten}
use logarithm.Transport.Message.{Message, Headers}
use logarithm.Storage.Batch.Rows.{Row, Holds}
use logarithm.Worker.Transform.Rows.{resource_rows, flatten-Holds}
use logarithm.Worker.Process.{flatten_all, Job, process_message, process_messages, process_payload}

module _ (cs : Codecs) (unmarshal_proto unmarshal_json : Bytes → Result (List ResourceLogs)) where
  abbrev pub no_buffers : LogDecompressor
  no_buffers = record { buf_pool = []; gzip_pool = [] }

  -- The resources of a payload that the decompressor has answered.
  abbrev pub resources_in : Headers → Result (Bytes × Cleanup) → List ResourceLogs
  resources_in headers (err e) = []
  resources_in headers (ok (payload, done)) =
      elim (decode unmarshal_proto unmarshal_json payload headers) [ err e ↦ [] | ok logs ↦ logs ]

  -- The resources of a message: none if its payload cannot be decompressed or decoded.
  abbrev pub resources_of : Message → List ResourceLogs
  resources_of m = resources_in m.headers (decompress cs m.payload m.headers no_buffers).0

  abbrev pub resources : List Message → List ResourceLogs
  resources [] = []
  resources (m ∷ messages) = resources_of m ++ resources messages

  -- What the decompressor returns does not hang on the buffers it holds.
  pub decompress-same :
      (payload : Bytes) (headers : Headers) (d : LogDecompressor)
      → (decompress cs payload headers d).0 ≡ (decompress cs payload headers no_buffers).0
  unfolding decompress
  decompress-same payload headers d = ground arith

-- The rows of resources that are flattened one after the other, the first one at reading `k`.
abbrev pub timed_rows : ColumnApi → (ℕ → ℕ) → ℕ → List ResourceLogs → List Row
timed_rows api clock k [] = []
timed_rows api clock k (r ∷ rs) =
    resource_rows api (clock k) r.attributes r.scope_logs ++ timed_rows api clock (k + 1) rs

timed_rows-append :
    (api : ColumnApi) (clock : ℕ → ℕ) (k : ℕ) (rs ss : List ResourceLogs)
    → timed_rows api clock k (rs ++ ss)
      ≡ timed_rows api clock k rs ++ timed_rows api clock (k + length rs) ss
timed_rows-append api clock k [] ss = ap (λ n. timed_rows api clock n ss) same
  where
    same : k ≡ k + 0
    same = omega arith
timed_rows-append api clock k (r ∷ rs) ss =
    ap (λ l. here ++ l) (timed_rows-append api clock (k + 1) rs ss)
    ∙ sym (append_assoc here (timed_rows api clock (k + 1) rs) _)
    ∙ ap (λ n. (here ++ timed_rows api clock (k + 1) rs) ++ timed_rows api clock n ss) later
  where
    here : List Row
    here = resource_rows api (clock k) r.attributes r.scope_logs

    later : k + 1 + length rs ≡ k + suc (length rs)
    later = omega arith

module _ (api : ColumnApi) (publisher : Publisher) (rt : Runtime) (cs : Codecs)
    (unmarshal_proto unmarshal_json : Bytes → Result (List ResourceLogs)) (clock : ℕ → ℕ) where
  -- The batch holds these rows, and the clock has been read so often.
  record Done (rows : List Row) (k : ℕ) (j : Job api publisher) : Type 0 where
    holds : Holds api j.batch rows
    readings : j.readings ≡ k

  flatten_all-Done :
      (logs : List ResourceLogs) (rows : List Row) (k : ℕ) (j : Job api publisher)
      → Done rows k j
      → Done
          (rows ++ timed_rows api clock k logs)
          (k + length logs)
          (flatten_all api publisher rt cs unmarshal_proto unmarshal_json clock logs j)
  unfolding flatten_all
  flatten_all-Done [] rows k j d = record {
    holds = rw append-nil d.holds;
    readings = omega (arith, d.readings);
  }
  flatten_all-Done (r ∷ logs) rows k j d =
      let rest =
        flatten_all-Done logs (rows ++ here) (k + 1) _
          (record { holds = flattened; readings = omega (arith, d.readings) }) in
      record {
        holds = rw (← append_assoc rows here) rest.holds;
        readings = omega (arith, rest.readings);
      }
    where
      here : List Row
      here = resource_rows api (clock k) r.attributes r.scope_logs

      flattened :
          Holds api
            (flatten api publisher rt (clock j.readings) r (j.buffers, j.watch, j.batch)).2
            (rows ++ here)
      flattened = rw (← d.readings) (
          flatten-Holds api publisher rt (clock j.readings) r j.buffers j.watch j.batch rows
            d.holds)

  process_payload-Done :
      (headers : Headers) (answer : Result (Bytes × Cleanup) × LogDecompressor) (rows : List Row)
      (k : ℕ) (j : Job api publisher)
      → Done rows k j
      → let logs = resources_in cs unmarshal_proto unmarshal_json headers answer.0 in
        Done (rows ++ timed_rows api clock k logs) (k + length logs) (
          process_payload api publisher rt cs unmarshal_proto unmarshal_json clock headers answer j)
  unfolding process_payload
  process_payload-Done headers (err e, taken) rows k j d =
      rw append-nil (record { holds = d.holds; readings = omega (arith, d.readings) })
  process_payload-Done headers (ok (payload, done), taken) rows k j d =
      elim (Result-cases (decode unmarshal_proto unmarshal_json payload headers)) [
        | inr (e, q) ↦
            rw (process_payload, resources_in, q, append-nil)
              (record { holds = d.holds; readings = omega (arith, d.readings) })
        | inl (logs, q) ↦
            rw (process_payload, resources_in, q)
              (flatten_all-Done logs rows k (record j { decompressor = run_cleanup done taken })
                (record { holds = d.holds; readings = d.readings }))
      ]

  process_message-Done :
      (m : Message) (rows : List Row) (k : ℕ) (j : Job api publisher)
      → Done rows k j
      → let logs = resources_of cs unmarshal_proto unmarshal_json m in
        Done
          (rows ++ timed_rows api clock k logs)
          (k + length logs)
          (process_message api publisher rt cs unmarshal_proto unmarshal_json clock m j)
  process_message-Done m rows k j d =
      rw (← decompress-same cs unmarshal_proto unmarshal_json m.payload m.headers j.decompressor) (
        unfold process_message in
        process_payload-Done m.headers (decompress cs m.payload m.headers j.decompressor) rows k j
          d)

  process_messages-Done :
      (messages : List Message) (rows : List Row) (k : ℕ) (j : Job api publisher)
      → Done rows k j
      → let logs = resources cs unmarshal_proto unmarshal_json messages in
        Done
          (rows ++ timed_rows api clock k logs)
          (k + length logs)
          (process_messages api publisher rt cs unmarshal_proto unmarshal_json clock messages j)
  unfolding process_messages
  process_messages-Done [] rows k j d =
      rw append-nil (record { holds = d.holds; readings = omega (arith, d.readings) })
  process_messages-Done (m ∷ messages) rows k j d =
      let first = resources_of cs unmarshal_proto unmarshal_json m in
      let others = resources cs unmarshal_proto unmarshal_json messages in
      let rest = process_messages-Done messages _ _ _ (process_message-Done m rows k j d) in
      record {
        holds =
            rw
              (
                timed_rows-append api clock k first others,
                ← append_assoc rows (timed_rows api clock k first),
              )
              rest.holds;
        readings = omega (arith, rest.readings, length-append first others);
      }

  -- A job over messages of any content: the batch, if it held some rows, holds after them the rows of
  -- all resources of the messages that can be decompressed and decoded, in order; a message that
  -- cannot adds none and stops nothing. Each resource has its own reading of the clock.
  pub process_messages-Holds :
      (messages : List Message) (j : Job api publisher) (rows : List Row)
      → Holds api j.batch rows
      → Holds api
          (process_messages api publisher rt cs unmarshal_proto unmarshal_json clock messages
            j).batch
          (rows
            ++ timed_rows api clock j.readings
                (resources cs unmarshal_proto unmarshal_json messages))
  process_messages-Holds messages j rows h =
      (process_messages-Done messages rows j.readings j
        (record { holds = h; readings = refl })).holds
