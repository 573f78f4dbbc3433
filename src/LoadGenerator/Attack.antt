-- ===== src/LoadGenerator/Attack.antt =====
-- `attack` and the loop of `Run` in load_generator/attack/runner_grpc.go: a dispatcher, the workers, and
-- who reads the results, in whatever order they take their turns.
pub mod Sound
pub mod Drained
pub mod Answered
use logarithm.Prelude.{
  ℕ, zero, suc, ◌+◌, ◌*◌, ◌<◌, ◌≡◌, Bool, true, false, List, [], ◌∷◌, ◌++◌, length, take, All,
}
use logarithm.Prelude.Int.{pos_part}
use logarithm.LoadGenerator.{Float64, CleanConfig}
use logarithm.LoadGenerator.Payload.{CallResult}

-- A worker waits for a signal, is in `invoke`, has a result to send, or has returned.
pub data Worker : Type 0 where
  waiting calling ended : Worker
  sending : CallResult → Worker

-- The two channels with what is in them, whether they are closed, the workers, and as a history how many
-- signals were dispatched and which results `Run` has received.
pub record Attack : Type 0 where
  pub jobs : ℕ
  pub jobs_closed : Bool
  pub workers : List Worker
  pub results : List CallResult
  pub results_closed : Bool
  pub dispatched : ℕ
  pub received : List CallResult

abbrev pub idle : ℕ → List Worker
idle zero = []
idle (suc n) = waiting ∷ idle n

-- `GrpcWorkers`; `make` and `Add` panic on a negative number.
abbrev pub worker_count : (fl : Float64) → CleanConfig fl → ℕ
worker_count fl cfg = pos_part cfg.grpc_workers

unfoldable pub start_attack : ℕ → Attack
start_attack n = record {
  jobs = 0;
  jobs_closed = false;
  workers = idle n;
  results = [];
  results_closed = false;
  dispatched = 0;
  received = [];
}

abbrev pub is_ended : Worker → Bool
is_ended waiting = false
is_ended calling = false
is_ended ended = true
is_ended (sending res) = false

abbrev pub AllEnded : List Worker → Type 0
AllEnded = All λ w. is_ended w ≡ true

-- `n` is the number of workers, and each channel holds twice as many. When the pacer lets the dispatcher
-- send or stops it, and what an invocation returns, is left open: so is a cancelled context.
pub data Step (n : ℕ) (s : Attack) : Attack → Type 0 where
  dispatch :
      s.jobs_closed ≡ false
      → s.jobs < n * 2
      → Step n s (record s { jobs = s.jobs + 1; dispatched = s.dispatched + 1 })
  stop : s.jobs_closed ≡ false → Step n s (record s { jobs_closed = true })
  take_job :
      (before after : List Worker) (k : ℕ)
      → s.workers ≡ before ++ waiting ∷ after
      → s.jobs ≡ suc k
      → Step n s (record s { jobs = k; workers = before ++ calling ∷ after })
  finish_call :
      (before after : List Worker) (res : CallResult)
      → s.workers ≡ before ++ calling ∷ after
      → Step n s (record s { workers = before ++ sending res ∷ after })
  send_result :
      (before after : List Worker) (res : CallResult)
      → s.workers ≡ before ++ sending res ∷ after
      → s.results_closed ≡ false
      → length s.results < n * 2
      → Step n s (record s { workers = before ++ waiting ∷ after; results = s.results ++ res ∷ [] })
  end_worker :
      (before after : List Worker)
      → s.workers ≡ before ++ waiting ∷ after
      → s.jobs_closed ≡ true
      → s.jobs ≡ 0
      → Step n s (record s { workers = before ++ ended ∷ after })
  close_results :
      AllEnded s.workers → s.results_closed ≡ false → Step n s (record s { results_closed = true })
  receive_result :
      (res : CallResult) (rest : List CallResult)
      → s.results ≡ res ∷ rest
      → Step n s (record s { results = rest; received = s.received ++ res ∷ [] })

pub data Steps (n : ℕ) : ℕ → Attack → Attack → Type 0 where
  rest_here : {s : Attack} → Steps n 0 s s
  step_on : {k : ℕ} {s t u : Attack} → Step n s t → Steps n k t u → Steps n (suc k) s u

-- `Run` is done: the results are closed, and all of them have been received.
pub record IsDone (s : Attack) : Type 0 where
  pub closed : s.results_closed ≡ true
  pub empty : s.results ≡ []
