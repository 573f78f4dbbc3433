-- ===== src/LoadGenerator/Attack/Answered.antt =====
-- The end of a load test: a result for each signal.
use logarithm.Prelude.{
  ℕ, ◌≤◌, ◌<◌, ◌≡◌, refl, ap, inl, inr, true, List, [], ◌∷◌, arith, length, All,
}
use logarithm.LoadGenerator.{Float64, CleanConfig}
use logarithm.LoadGenerator.Clean.{IsClean}
use logarithm.LoadGenerator.Payload.{CallResult}
use logarithm.LoadGenerator.Attack.{
  worker_count, Worker, waiting, calling, ended, sending, Attack, start_attack, is_ended, AllEnded,
  Step, Steps, IsDone,
}
use logarithm.LoadGenerator.Attack.Sound.{IsSound, total, busy, start_attack-IsSound, Steps-IsSound}
use logarithm.LoadGenerator.Attack.Drained.{steps_left, next-Step, run_on, Steps-steps_left}

-- Every signal has been answered, and `Run` has the answers.
pub record IsAnswered (s : Attack) : Type 0 where
  pub each : length s.received ≡ s.dispatched
  pub returned : AllEnded s.workers
  pub no_job : s.jobs ≡ 0

none_busy : (ws : List Worker) → AllEnded ws → total busy ws ≡ 0
none_busy [] h = refl
none_busy (ended ∷ ws) h = omega (arith, none_busy ws h.1)
none_busy (waiting ∷ ws) h = absurd (ground (arith, h.0))
none_busy (calling ∷ ws) h = absurd (ground (arith, h.0))
none_busy (sending res ∷ ws) h = absurd (ground (arith, h.0))

IsDone-IsAnswered : (n : ℕ) (s : Attack) → 0 < n → IsSound n s → IsDone s → IsAnswered s
IsDone-IsAnswered n s pos_n v d = record {
  each =
      omega
        (arith, v.accounted, none_busy s.workers (v.closes d.closed), ap length d.empty, no_job);
  returned = v.closes d.closed;
  no_job = no_job;
}
  where
    first_ended :
        (ws : List Worker)
        → length ws ≡ n
        → AllEnded ws
        → All (λ w. is_ended w ≡ true → (s.jobs_closed ≡ true) × (s.jobs ≡ 0)) ws
        → s.jobs ≡ 0
    first_ended [] l h e = absurd (omega (arith, l))
    first_ended (w ∷ ws) l h e = (e.0 h.0).1

    no_job : s.jobs ≡ 0
    no_job = first_ended s.workers v.crew (v.closes d.closed) v.ends

module _ (fl : Float64) (cfg : CleanConfig fl) (clean : IsClean fl cfg)
    (grpc : cfg.protocol ≡ "grpc") where
  some_worker : 0 < worker_count fl cfg
  some_worker = omega (arith, clean.workers grpc)

  -- With the workers of a clean configuration for gRPC: in every order of the turns, and whatever the
  -- invocations return, once the results are closed and have all been received, `Run` has received one
  -- result for each signal that was dispatched, and all workers have returned.
  pub attack-IsAnswered :
      (k : ℕ) (s : Attack)
      → Steps (worker_count fl cfg) k (start_attack (worker_count fl cfg)) s
      → IsDone s
      → IsAnswered s
  attack-IsAnswered k s st d =
      let n = worker_count fl cfg in
      IsDone-IsAnswered n s some_worker
        (Steps-IsSound n k (start_attack n) s st (start_attack-IsSound n)) d

  -- With the workers of a clean configuration for gRPC: from every state that the test can come to, once
  -- the dispatcher has stopped, no run takes more steps than are left, and some run ends with a result
  -- received for each signal; a state from which nobody can go on is such an end.
  pub attack-drains :
      (answer : CallResult) (k : ℕ) (s : Attack)
      → Steps (worker_count fl cfg) k (start_attack (worker_count fl cfg)) s
      → s.jobs_closed ≡ true
      → ((j : ℕ) (u : Attack) → Steps (worker_count fl cfg) j s u → j ≤ steps_left s)
        × ((j : ℕ) × (t : Attack) × Steps (worker_count fl cfg) j s t × IsDone t × IsAnswered t)
        × (((t : Attack) → Step (worker_count fl cfg) s t → ⊥) → IsAnswered s)
  attack-drains answer k s st c =
      let n = worker_count fl cfg in
      let v = Steps-IsSound n k (start_attack n) s st (start_attack-IsSound n) in
      let (j, t, more, done) = run_on answer n (steps_left s) s (omega arith) v c in
      (
        λ i u run. Steps-steps_left answer n i s u run c,
        (j, t, more, done, IsDone-IsAnswered n t some_worker (Steps-IsSound n j s t more v) done),
        λ stuck. elim (next-Step answer n s v c) [
          | inl d ↦ IsDone-IsAnswered n s some_worker v d
          | inr (u, su) ↦ absurd (stuck u su)
        ],
      )
