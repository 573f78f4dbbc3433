-- ===== src/Worker/Callback/Ends.antt =====
-- The jobs of a batch come to an end, whichever of them takes each turn.
use logarithm.Prelude.{
  ℕ, zero, suc, ◌+◌, String, ◌≡◌, refl, sym, ap, ◌∙◌, ◌⊎◌, inl, inr, Option, none, List, [], ◌∷◌,
  ◌++◌, arith, length, All, Result, Bytes,
}
use logarithm.Worker.Callback.{
  stay, turn, Turns, JobStep, next_message, next_resource, next_log, JobState, Shared, IsDone,
  begin_resource, all_logs, PoolConfig, Call, handled, empty_batch,
}
use logarithm.Worker.Transform.{
  new_transform_buffer, Publisher, ResourceLogs, Runtime, ScopeLogs, LogData,
}
use logarithm.Storage.Columns.{ColumnApi}
use logarithm.Transport.Message.{Message}
use logarithm.Worker.Process.Dropped.{resources_of}
use logarithm.Worker.Decompress.{Codecs}
use logarithm.Storage.Store.{Connection, Store}
use logarithm.Worker.Callback.Jobs.{read_message-same}

-- The steps that a list of resources takes: one for each, and one for each of its logs.
abbrev pub resources_work : List ResourceLogs → ℕ
resources_work [] = 0
resources_work (r ∷ rs) = suc (length (all_logs r.scope_logs) + resources_work rs)

module _ (api : ColumnApi) (publisher : Publisher) (rt : Runtime) (cs : Codecs)
    (unmarshal_proto unmarshal_json : Bytes → Result (List ResourceLogs)) where
  abbrev pub messages_work : List Message → ℕ
  messages_work [] = 0
  messages_work (m ∷ messages) =
      suc
        (resources_work (resources_of cs unmarshal_proto unmarshal_json m) + messages_work messages)

  -- The steps that a job, and a list of jobs, has still to take.
  abbrev pub job_work : JobState → ℕ
  job_work j = length j.logs + (resources_work j.resources + messages_work j.messages)

  abbrev pub jobs_work : List JobState → ℕ
  jobs_work [] = 0
  jobs_work (j ∷ js) = job_work j + jobs_work js

  -- The number of turns taken.
  abbrev pub turns_taken :
      {js ks : List JobState} {s u : Shared api publisher rt cs unmarshal_proto unmarshal_json}
      → Turns api publisher rt cs unmarshal_proto unmarshal_json js s ks u
      → ℕ
  turns_taken stay = 0
  turns_taken (turn before after ts e st) = suc (turns_taken ts)

  jobs_work-append : (js ks : List JobState) → jobs_work (js ++ ks) ≡ jobs_work js + jobs_work ks
  jobs_work-append [] ks = omega arith
  jobs_work-append (j ∷ js) ks = let ih = jobs_work-append js ks in omega arith

  JobStep-work :
      {j : JobState} {s u : Shared api publisher rt cs unmarshal_proto unmarshal_json}
      {k : JobState}
      → JobStep api publisher rt cs unmarshal_proto unmarshal_json j s k u
      → job_work j ≡ suc (job_work k)
  unfolding begin_resource
  JobStep-work {j = j} (next_message d m rest no_logs no_resources e) =
      (λ i. length (no_logs i) + (resources_work (no_resources i) + messages_work (e i)))
      ∙ ground (
        arith,
        ap (λ rs. suc (resources_work rs + messages_work rest))
            (sym (read_message-same api publisher rt cs unmarshal_proto unmarshal_json d m)),
        ap length no_logs,
      )
  JobStep-work {j = j} (next_resource old now r rest no_logs e) =
      let n = messages_work j.messages in
      let before : job_work j
          ≡ 0 + (suc (length (all_logs r.scope_logs) + resources_work rest) + n) =
        λ i. length (no_logs i) + (resources_work (e i) + n) in
      omega arith
  JobStep-work {j = j} (next_log scope log rest e) =
      let before = ap (λ l. length l) e in omega arith

  Turns-work :
      {js ks : List JobState} {s u : Shared api publisher rt cs unmarshal_proto unmarshal_json}
      (ts : Turns api publisher rt cs unmarshal_proto unmarshal_json js s ks u)
      → turns_taken ts + jobs_work ks ≡ jobs_work js
  Turns-work stay = omega arith
  Turns-work (turn {j = j} {k = k} before after ts e st) =
      let ih = Turns-work ts in
      let one = JobStep-work st in
      let split = ap jobs_work e in
      let old = jobs_work-append before (j ∷ after) in
      let new = jobs_work-append before (k ∷ after) in omega arith

  -- A job that can take its turn, at its place among the jobs.
  record Able (js : List JobState) (s : Shared api publisher rt cs unmarshal_proto unmarshal_json)
      : Type 0 where
    before : List JobState
    job : JobState
    after : List JobState
    next : JobState
    later : Shared api publisher rt cs unmarshal_proto unmarshal_json
    place : js ≡ before ++ job ∷ after
    step : JobStep api publisher rt cs unmarshal_proto unmarshal_json job s next later

  job_turn :
      (j : JobState) (s : Shared api publisher rt cs unmarshal_proto unmarshal_json)
      → IsDone api publisher rt cs unmarshal_proto unmarshal_json j
        ⊎ ((k : JobState) × (u : Shared api publisher rt cs unmarshal_proto unmarshal_json)
            × JobStep api publisher rt cs unmarshal_proto unmarshal_json j s k u)
  job_turn j s = go j.logs refl j.resources refl j.messages refl
    where
      go :
          (logs : List (ScopeLogs × LogData))
          → j.logs ≡ logs
          → (resources : List ResourceLogs) → j.resources ≡ resources
          → (messages : List Message) → j.messages ≡ messages
          → IsDone api publisher rt cs unmarshal_proto unmarshal_json j
            ⊎ ((k : JobState) × (u : Shared api publisher rt cs unmarshal_proto unmarshal_json)
                × JobStep api publisher rt cs unmarshal_proto unmarshal_json j s k u)
      go ((scope, log) ∷ rest) e rs e' ms e'' = inr (_, _, next_log scope log rest e)
      go [] e (r ∷ rest) e' ms e'' = inr (_, _, next_resource new_transform_buffer 0 r rest e e')
      go [] e [] e' (m ∷ rest) e'' =
          inr (_, _, next_message (record { buf_pool = []; gzip_pool = [] }) m rest e e' e'')
      go [] e [] e' [] e'' = inl (e, e', e'')

  jobs_turn :
      (js : List JobState) (s : Shared api publisher rt cs unmarshal_proto unmarshal_json)
      → All (IsDone api publisher rt cs unmarshal_proto unmarshal_json) js ⊎ Able js s
  jobs_turn [] s = inl tt
  jobs_turn (j ∷ js) s = elim (job_turn j s) [
    | inr (k, u, st) ↦
        inr (record {
          before = [];
          job = j;
          after = js;
          next = k;
          later = u;
          place = refl;
          step = st;
        })
    | inl done ↦ elim (jobs_turn js s) [
      | inl all ↦ inl (done, all)
      | inr a ↦ inr (record {
        before = j ∷ a.before;
        job = a.job;
        after = a.after;
        next = a.next;
        later = a.later;
        place = ap (λ l. j ∷ l) a.place;
        step = a.step;
      })
    ]
  ]

  -- Turns after which every job is done.
  pub record Finished (js : List JobState)
      (s : Shared api publisher rt cs unmarshal_proto unmarshal_json) : Type 0 where
    pub jobs : List JobState
    pub later : Shared api publisher rt cs unmarshal_proto unmarshal_json
    pub turns : Turns api publisher rt cs unmarshal_proto unmarshal_json js s jobs later
    pub done : All (IsDone api publisher rt cs unmarshal_proto unmarshal_json) jobs

  finish :
      (n : ℕ) {js ks : List JobState}
      {s u : Shared api publisher rt cs unmarshal_proto unmarshal_json}
      (ts : Turns api publisher rt cs unmarshal_proto unmarshal_json js s ks u)
      → jobs_work ks ≡ n
      → Finished js s
  finish zero {ks = ks} {u = u} ts e = elim (jobs_turn ks u) [
    | inl done ↦ record { jobs = ks; later = u; turns = ts; done = done }
    | inr a ↦
        let w = JobStep-work a.step in
        let p = ap jobs_work a.place in
        let q = jobs_work-append a.before (a.job ∷ a.after) in absurd (omega arith)
  ]
  finish (suc n) {ks = ks} {u = u} ts e = elim (jobs_turn ks u) [
    | inl done ↦ record { jobs = ks; later = u; turns = ts; done = done }
    | inr a ↦
        let w = JobStep-work a.step in
        let p = ap jobs_work a.place in
        let q = jobs_work-append a.before (a.job ∷ a.after) in
        let r = jobs_work-append a.before (a.next ∷ a.after) in
        finish n (turn a.before a.after ts a.place a.step) (omega arith)
  ]

  -- Each turn takes one of the steps that the jobs had to take at the start, so no schedule is longer
  -- than these are many; and from wherever the turns have come there are more that finish every job.
  pub Turns-Finished :
      (js ks : List JobState) (s u : Shared api publisher rt cs unmarshal_proto unmarshal_json)
      (ts : Turns api publisher rt cs unmarshal_proto unmarshal_json js s ks u)
      → (turns_taken ts + jobs_work ks ≡ jobs_work js) × Finished ks u
  Turns-Finished js ks s u ts = (Turns-work ts, finish (jobs_work ks) stay refl)

  -- From every state, a call of the handler has a schedule on which it returns.
  pub Call-ends :
      (conn : Connection api) (cfg : PoolConfig) (s : Store api conn) (w : publisher.State)
      (messages : List Message)
      → (out : Store api conn × Option String) × (w' : publisher.State) × Call api publisher rt cs
          unmarshal_proto unmarshal_json conn cfg s w messages out w'
  Call-ends conn cfg s w [] = ((s, none), w, empty_batch)
  Call-ends conn cfg s w (m ∷ rest) = let f = finish _ stay refl in (_, _, handled f.turns f.done)
