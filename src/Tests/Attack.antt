-- ===== src/Tests/Attack.antt =====
-- A load test that is stopped after its first signal.
use logarithm.Prelude.{ℕ, ◌≤◌, refl, true, false, [], ◌∷◌, arith}
use logarithm.LoadGenerator.Payload.{CallResult}
use logarithm.LoadGenerator.Attack.{
  Attack, waiting, ended, Step, Steps, rest_here, step_on, dispatch, stop, take_job, finish_call,
  send_result, end_worker, close_results, receive_result, start_attack, IsDone,
}
use logarithm.LoadGenerator.Attack.Drained.{steps_left}
use logarithm.LoadGenerator.Attack.Answered.{IsAnswered, attack-drains}
use logarithm.Tests.LoadGenerator.{tenths, config, config-IsClean}

abbrev answer : CallResult
answer = record {
  timestamp = 100;
  latency = 5;
  bytes_out = 4;
  bytes_in = 0;
  code = 200;
  error = "";
}

-- One signal is dispatched and the dispatcher stops.
abbrev stopped : Attack
stopped = record {
  jobs = 1;
  jobs_closed = true;
  workers = waiting ∷ waiting ∷ waiting ∷ waiting ∷ waiting ∷ [];
  results = [];
  results_closed = false;
  dispatched = 1;
  received = [];
}

reached : Steps 5 2 (start_attack 5) stopped
unfolding start_attack
reached = step_on (dispatch refl (omega arith)) (step_on (stop refl) rest_here)

attack-drains_example :
    ((j : ℕ) (u : Attack) → Steps 5 j stopped u → j ≤ steps_left stopped)
    × ((j : ℕ) × (t : Attack) × Steps 5 j stopped t × IsDone t × IsAnswered t)
    × (((t : Attack) → Step 5 stopped t → ⊥) → IsAnswered stopped)
attack-drains_example =
    attack-drains tenths config config-IsClean refl answer 2 stopped reached refl

abbrev finished : Attack
finished = record {
  jobs = 0;
  jobs_closed = true;
  workers = ended ∷ ended ∷ ended ∷ ended ∷ ended ∷ [];
  results = [];
  results_closed = true;
  dispatched = 1;
  received = answer ∷ [];
}

-- The first worker answers the signal, and then the five return one after the other.
answered : Steps 5 10 stopped finished
answered = step_on (take_job [] _ 0 refl refl) (
    step_on (finish_call [] _ answer refl) (
      step_on (send_result [] _ answer refl refl (omega arith)) (
        step_on (receive_result answer [] refl) (
          step_on (end_worker [] _ refl refl refl) (
            step_on (end_worker (ended ∷ []) _ refl refl refl) (
              step_on (end_worker (ended ∷ ended ∷ []) _ refl refl refl) (
                step_on (end_worker (ended ∷ ended ∷ ended ∷ []) _ refl refl refl) (
                  step_on (end_worker (ended ∷ ended ∷ ended ∷ ended ∷ []) _ refl refl refl) (
                    step_on (close_results (refl, (refl, (refl, (refl, (refl, tt))))) refl)
                      rest_here)))))))))
