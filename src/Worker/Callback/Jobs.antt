-- ===== src/Worker/Callback/Jobs.antt =====
-- However the jobs take turns, the batch holds what they have done, and what is left they still do.
use mathlib.Core.List.{Permᴰ, append-nil, append_assoc, map-append}
use mathlib.Core.List.Permᴰ
use logarithm.Prelude.{
  ℕ, ◌≡◌, refl, sym, ap, subst, ◌∙◌, List, [], ◌∷◌, ◌++◌, map, Bytes, All, All-replace, Result,
}
use logarithm.Storage.Batch.Rows.{Row, Holds}
use logarithm.Storage.Columns.{ColumnApi}
use logarithm.Worker.Transform.{
  ScopeLogs, ResourceLogs, Publisher, Runtime, LogData, reset_buffer, flatten_record,
  TransformBuffer,
}
use logarithm.Worker.Callback.{
  stay, turn, all_logs, JobState, read_message, Shared, JobStep, next_message, next_resource,
  next_log, begin_resource, append_log, Turns,
}
use logarithm.Worker.Decompress.{Codecs, LogDecompressor}
use logarithm.Worker.Transform.Rows.{
  log_row, attr_keys, attr_values, service_of, Ready, range_resource_lem, flatten_record-Ready,
}
use logarithm.Transport.Message.{Message}
use logarithm.Worker.Process.Dropped.{resources_of, resources_in, decompress-same}
use logarithm.Worker.Callback.Work.{
  untimed, job_rows, resources_rows, jobs_rows, messages_rows, jobs_rows-append, log_rows,
}

-- A part of a list moved behind the next one.
move_back {ℓ} : {A : Type ℓ} (u b x : List A) → Permᴰ (u ++ (b ++ x)) (b ++ (u ++ x))
move_back u b x =
    rw (← append_assoc u b x, ← append_assoc b u x) (Permᴰ.append_right x (Permᴰ.append_comm u b))

module _ (api : ColumnApi) (publisher : Publisher) (rt : Runtime) (cs : Codecs)
    (unmarshal_proto unmarshal_json : Bytes → Result (List ResourceLogs)) where
  pub read_message-same :
      (d : LogDecompressor) (m : Message)
      → read_message api publisher rt cs unmarshal_proto unmarshal_json d m
        ≡ resources_of cs unmarshal_proto unmarshal_json m
  unfolding read_message
  read_message-same d m =
      ap (resources_in cs unmarshal_proto unmarshal_json m.headers)
        (decompress-same cs unmarshal_proto unmarshal_json m.payload m.headers d)

  -- A job's buffer has the attributes of its resource, and its service is that of the resource.
  pub record Current (j : JobState) : Type 0 where
    pub keys : j.buffer.res_attr_keys ≡ attr_keys j.resource.attributes
    pub values : j.buffer.res_attr_values ≡ attr_values j.resource.attributes
    pub service : j.service_name ≡ service_of j.resource.attributes "unknown"

  -- A step adds to the rows of the batch what it takes from the job's.
  record Moves (j : JobState) (rows : List Row) (k : JobState)
      (u : Shared api publisher rt cs unmarshal_proto unmarshal_json) : Type 0 where
    more : List Row
    holds : Holds api u.batch (rows ++ more)
    taken :
        job_rows api publisher rt cs unmarshal_proto unmarshal_json j
        ≡ map untimed more ++ job_rows api publisher rt cs unmarshal_proto unmarshal_json k
    current : Current k

  begin_resource-Current :
      (old : TransformBuffer) (now : ℕ) (r : ResourceLogs) (j : JobState)
      → Current (begin_resource api publisher rt cs unmarshal_proto unmarshal_json old now r j)
  unfolding begin_resource reset_buffer
  begin_resource-Current old now r j =
      rw (range_resource_lem r.attributes "unknown")
        (record { keys = refl; values = refl; service = refl })

  append_log-Ready :
      (j : JobState) (scope : ScopeLogs) (log : LogData) (rows : List Row)
      (s : Shared api publisher rt cs unmarshal_proto unmarshal_json)
      → Current j
      → Holds api s.batch rows
      → Ready api publisher rt j.resource.attributes
          (rows ++ log_row api j.now j.resource.attributes scope log ∷ [])
          (append_log api publisher rt cs unmarshal_proto unmarshal_json j (scope, log) s)
  unfolding append_log
  append_log-Ready j scope log rows s c h =
      subst
        (λ name.
          Ready api publisher rt j.resource.attributes
            (rows ++ log_row api j.now j.resource.attributes scope log ∷ [])
            (flatten_record api publisher rt j.now name scope.scope_name scope.scope_version log
              (record { buffer = j.buffer; watch = s.watch; batch = s.batch })))
        (sym c.service)
        (flatten_record-Ready api publisher rt j.now j.resource.attributes scope log rows _
          (record { keys = c.keys; values = c.values; holds = h }))

  JobStep-Moves :
      {j : JobState} {s u : Shared api publisher rt cs unmarshal_proto unmarshal_json}
      {k : JobState} (rows : List Row)
      → JobStep api publisher rt cs unmarshal_proto unmarshal_json j s k u
      → Current j
      → Holds api s.batch rows
      → Moves j rows k u
  unfolding begin_resource
  JobStep-Moves {j = j} rows (next_message d m rest no_logs no_resources e) c h = record {
    more = [];
    holds = rw append-nil h;
    taken = before ∙ sym later;
    current = record { keys = c.keys; values = c.values; service = c.service };
  }
    where
      before :
          job_rows api publisher rt cs unmarshal_proto unmarshal_json j
          ≡ resources_rows api (resources_of cs unmarshal_proto unmarshal_json m)
            ++ messages_rows api publisher rt cs unmarshal_proto unmarshal_json rest
      before = λ i.
          log_rows api j.resource.attributes (no_logs i)
          ++ (resources_rows api (no_resources i)
              ++ messages_rows api publisher rt cs unmarshal_proto unmarshal_json (e i))

      later :
          log_rows api j.resource.attributes j.logs
            ++ (resources_rows api
                  (read_message api publisher rt cs unmarshal_proto unmarshal_json d m)
                ++ messages_rows api publisher rt cs unmarshal_proto unmarshal_json rest)
          ≡ resources_rows api (resources_of cs unmarshal_proto unmarshal_json m)
            ++ messages_rows api publisher rt cs unmarshal_proto unmarshal_json rest
      later = λ i.
          log_rows api j.resource.attributes (no_logs i)
          ++ (resources_rows api (read_message-same d m i)
              ++ messages_rows api publisher rt cs unmarshal_proto unmarshal_json rest)
  JobStep-Moves {j = j} rows (next_resource old now r rest no_logs e) c h = record {
    more = [];
    holds = rw append-nil h;
    taken = before ∙ append_assoc (log_rows api r.attributes (all_logs r.scope_logs)) _ _;
    current = begin_resource-Current old now r (record j { resources = rest });
  }
    where
      before :
          job_rows api publisher rt cs unmarshal_proto unmarshal_json j
          ≡ (log_rows api r.attributes (all_logs r.scope_logs) ++ resources_rows api rest)
            ++ messages_rows api publisher rt cs unmarshal_proto unmarshal_json j.messages
      before = λ i.
          log_rows api j.resource.attributes (no_logs i)
          ++ (resources_rows api (e i)
              ++ messages_rows api publisher rt cs unmarshal_proto unmarshal_json j.messages)
  JobStep-Moves {j = j} {s = s} rows (next_log scope log rest e) c h =
      let ready = append_log-Ready j scope log rows s c h in
      record {
        more = log_row api j.now j.resource.attributes scope log ∷ [];
        holds = ready.holds;
        taken = λ i.
            log_rows api j.resource.attributes (e i)
            ++ (resources_rows api j.resources
                ++ messages_rows api publisher rt cs unmarshal_proto unmarshal_json j.messages);
        current = record { keys = ready.keys; values = ready.values; service = c.service };
      }

  -- What the turns have added to the batch, and what the jobs have still to do.
  pub record Progress (js : List JobState) (rows : List Row) (ks : List JobState)
      (u : Shared api publisher rt cs unmarshal_proto unmarshal_json) : Type 0 where
    pub more : List Row
    pub holds : Holds api u.batch (rows ++ more)
    pub same :
        Permᴰ
          (map untimed more ++ jobs_rows api publisher rt cs unmarshal_proto unmarshal_json ks)
          (jobs_rows api publisher rt cs unmarshal_proto unmarshal_json js)
    pub current : All Current ks

  turn-Progress :
      {j k : JobState} {t u : Shared api publisher rt cs unmarshal_proto unmarshal_json}
      (js before after : List JobState) (rows : List Row)
      → Progress js rows (before ++ j ∷ after) t
      → JobStep api publisher rt cs unmarshal_proto unmarshal_json j t k u
      → Progress js rows (before ++ k ∷ after) u
  turn-Progress {j = j} {k = k} js before after rows p st =
      let split = All-replace Current before after p.current in
      let m = JobStep-Moves (rows ++ p.more) st split.0 p.holds in
      record {
        more = p.more ++ m.more;
        holds = rw (← append_assoc rows p.more) m.holds;
        same = Permᴰ.trans (moved m.more m.taken) p.same;
        current = split.1 k m.current;
      }
    where
      moved :
          (new : List Row)
          → job_rows api publisher rt cs unmarshal_proto unmarshal_json j
            ≡ map untimed new ++ job_rows api publisher rt cs unmarshal_proto unmarshal_json k
          → Permᴰ
              (map untimed (p.more ++ new)
                ++ jobs_rows api publisher rt cs unmarshal_proto unmarshal_json
                    (before ++ k ∷ after))
              (map untimed p.more
                ++ jobs_rows api publisher rt cs unmarshal_proto unmarshal_json
                    (before ++ j ∷ after))
      moved new e =
          rw
            (
              map-append,
              jobs_rows-append api publisher rt cs unmarshal_proto unmarshal_json before
                  (k ∷ after),
              jobs_rows-append api publisher rt cs unmarshal_proto unmarshal_json before
                  (j ∷ after),
              append_assoc (map untimed p.more),
            )
            (Permᴰ.append_left (map untimed p.more) (
              subst
                (λ l.
                  Permᴰ
                    (map untimed new
                      ++ (jobs_rows api publisher rt cs unmarshal_proto unmarshal_json before
                          ++ (job_rows api publisher rt cs unmarshal_proto unmarshal_json k
                              ++ jobs_rows api publisher rt cs unmarshal_proto unmarshal_json
                                  after)))
                    (jobs_rows api publisher rt cs unmarshal_proto unmarshal_json before ++ l))
                (sym (
                  ap (λ l. l ++ jobs_rows api publisher rt cs unmarshal_proto unmarshal_json after)
                    e
                  ∙ append_assoc (map untimed new)
                      (job_rows api publisher rt cs unmarshal_proto unmarshal_json k)
                      (jobs_rows api publisher rt cs unmarshal_proto unmarshal_json after)))
                (move_back (map untimed new)
                  (jobs_rows api publisher rt cs unmarshal_proto unmarshal_json before)
                  (job_rows api publisher rt cs unmarshal_proto unmarshal_json k
                    ++ jobs_rows api publisher rt cs unmarshal_proto unmarshal_json after))))

  pub Turns-Progress :
      {js : List JobState} {s : Shared api publisher rt cs unmarshal_proto unmarshal_json}
      {ks : List JobState} {u : Shared api publisher rt cs unmarshal_proto unmarshal_json}
      (rows : List Row)
      → Turns api publisher rt cs unmarshal_proto unmarshal_json js s ks u
      → All Current js
      → Holds api s.batch rows
      → Progress js rows ks u
  Turns-Progress rows stay c h = record {
    more = [];
    holds = rw append-nil h;
    same = Permᴰ.refl _;
    current = c;
  }
  Turns-Progress {js = js} rows (turn {t = t} before after ts e st) c h =
      turn-Progress js before after rows
        (subst (λ ks. Progress js rows ks t) e (Turns-Progress rows ts c h)) st
