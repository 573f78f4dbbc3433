-- ===== src/Worker/Callback/Work.antt =====
-- The rows that a job, and a list of jobs, has still to make.
use mathlib.Core.List.{append_assoc}
use logarithm.Prelude.{String, ◌≡◌, refl, sym, ap, ◌∙◌, List, [], ◌∷◌, ◌++◌, Bytes, Result}
use logarithm.Storage.Batch.Rows.{Row}
use logarithm.Storage.Columns.{ColumnApi}
use logarithm.Core.Time.{zero_time}
use logarithm.Worker.Transform.{ScopeLogs, ResourceLogs, Publisher, Runtime, LogData}
use logarithm.Worker.Callback.{all_logs, JobState}
use logarithm.Worker.Decompress.{Codecs}
use logarithm.Worker.Transform.Rows.{log_row}
use logarithm.Transport.Message.{Message}
use logarithm.Worker.Process.Dropped.{resources_of}

-- A row less its two times, which may be the present where the log has none.
abbrev pub untimed : Row → Row
untimed r = record r { timestamp = zero_time; observed_timestamp = zero_time }

-- What a list of resources, and a list of messages, comes to in such rows.
abbrev pub log_rows : ColumnApi → List (String × String) → List (ScopeLogs × LogData) → List Row
log_rows api attrs [] = []
log_rows api attrs ((scope, log) ∷ logs) =
    untimed (log_row api 0 attrs scope log) ∷ log_rows api attrs logs

abbrev pub resources_rows : ColumnApi → List ResourceLogs → List Row
resources_rows api [] = []
resources_rows api (r ∷ rs) =
    log_rows api r.attributes (all_logs r.scope_logs) ++ resources_rows api rs

module _ (api : ColumnApi) (publisher : Publisher) (rt : Runtime) (cs : Codecs)
    (unmarshal_proto unmarshal_json : Bytes → Result (List ResourceLogs)) where
  abbrev pub messages_rows : List Message → List Row
  messages_rows [] = []
  messages_rows (m ∷ messages) =
      resources_rows api (resources_of cs unmarshal_proto unmarshal_json m)
      ++ messages_rows messages

  abbrev pub job_rows : JobState → List Row
  job_rows j =
      log_rows api j.resource.attributes j.logs
      ++ (resources_rows api j.resources ++ messages_rows j.messages)

  abbrev pub jobs_rows : List JobState → List Row
  jobs_rows [] = []
  jobs_rows (j ∷ js) = job_rows j ++ jobs_rows js

  pub jobs_rows-append :
      (js ks : List JobState) → jobs_rows (js ++ ks) ≡ jobs_rows js ++ jobs_rows ks
  jobs_rows-append [] ks = refl
  jobs_rows-append (j ∷ js) ks =
      ap (λ l. job_rows j ++ l) (jobs_rows-append js ks)
      ∙ sym (append_assoc (job_rows j) (jobs_rows js) (jobs_rows ks))
