-- ===== src/LoadGenerator/Attack/Drained.antt =====
-- No deadlock once the dispatcher has stopped, and a bound on what is left to do.
use logarithm.Prelude.{
  ℕ, zero, suc, ◌+◌, ◌*◌, ◌≤◌, ◌<◌, ◌≡◌, refl, ap, ◌⊎◌, inl, inr, true, false, List, [], ◌∷◌, ◌++◌,
  arith, if◌then◌else◌, Bool-cases, length, length-append,
}
use logarithm.LoadGenerator.Payload.{CallResult}
use logarithm.LoadGenerator.Attack.{
  Worker, waiting, calling, ended, sending, Attack, is_ended, AllEnded, Step, dispatch, stop,
  take_job, finish_call, send_result, end_worker, close_results, receive_result, Steps, rest_here,
  step_on, IsDone,
}
use logarithm.LoadGenerator.Attack.Sound.{IsSound, total, total-replace, Step-IsSound}

-- The steps that a worker has still to take for the signal that it has, and to return.
abbrev pub left : Worker → ℕ
left waiting = 1
left calling = 4
left ended = 0
left (sending res) = 3

-- The steps that are left when no more signals come: four for a signal, one for a result, and one to
-- close the results.
abbrev pub steps_left : Attack → ℕ
steps_left s =
    s.jobs * 4 + (total left s.workers + (length s.results + (if s.results_closed then 0 else 1)))

-- The first worker that has not returned.
data Search (ws : List Worker) : Type 0 where
  all_ended : AllEnded ws → Search ws
  found :
      (before after : List Worker) (w : Worker)
      → ws ≡ before ++ w ∷ after
      → is_ended w ≡ false
      → Search ws

worker-Search : (ws : List Worker) → Search ws
worker-Search [] = all_ended tt
worker-Search (waiting ∷ ws) = found [] ws waiting refl refl
worker-Search (calling ∷ ws) = found [] ws calling refl refl
worker-Search (sending res ∷ ws) = found [] ws (sending res) refl refl
worker-Search (ended ∷ ws) = elim (worker-Search ws) [
  | all_ended h ↦ all_ended (refl, h)
  | found before after w e f ↦ found (ended ∷ before) after w (ap (λ l. ended ∷ l) e) f
]

no_workers :
    (n : ℕ) (s : Attack)
    → IsSound n s
    → (before after : List Worker) (w : Worker) → s.workers ≡ before ++ w ∷ after
    → 0 < n
no_workers n s v before after w e =
    omega (arith, v.crew, ap length e, length-append before (w ∷ after))

-- What `invoke` returns in the run that ends the test.
module _ (answer : CallResult) (n : ℕ) where
  waiting-Step :
      (s : Attack) (before after : List Worker)
      → s.workers ≡ before ++ waiting ∷ after
      → s.jobs_closed ≡ true
      → (j : ℕ) → s.jobs ≡ j
      → (t : Attack) × Step n s t
  waiting-Step s before after e c zero q = (_, end_worker before after e c q)
  waiting-Step s before after e c (suc k) q = (_, take_job before after k e q)

  worker-Step :
      (s : Attack)
      → IsSound n s
      → s.jobs_closed ≡ true
      → s.results ≡ []
      → s.results_closed ≡ false
      → (before after : List Worker) (w : Worker) → s.workers ≡ before ++ w ∷ after
      → is_ended w ≡ false
      → (t : Attack) × Step n s t
  worker-Step s v c empty unclosed before after waiting e f =
      waiting-Step s before after e c s.jobs refl
  worker-Step s v c empty unclosed before after calling e f = (_, finish_call before after answer e)
  worker-Step s v c empty unclosed before after (sending res) e f = (
    _,
    send_result before after res e unclosed
        (omega (arith, no_workers n s v before after (sending res) e, ap length empty)),
  )
  worker-Step s v c empty unclosed before after ended e f = absurd (ground arith)

  -- Unless the test is done, one of those who take part can go on.
  pub next-Step :
      (s : Attack) → IsSound n s → s.jobs_closed ≡ true → IsDone s ⊎ ((t : Attack) × Step n s t)
  next-Step s v c = go s.results refl
    where
      go : (rs : List CallResult) → s.results ≡ rs → IsDone s ⊎ ((t : Attack) × Step n s t)
      go (res ∷ rest) e = inr (_, receive_result res rest e)
      go [] e = elim (Bool-cases s.results_closed) [
        | inl closed ↦ inl (record { closed = closed; empty = e })
        | inr unclosed ↦ elim (worker-Search s.workers) [
          | all_ended h ↦ inr (_, close_results h unclosed)
          | found before after w q f ↦ inr (worker-Step s v c e unclosed before after w q f)
        ]
      ]

  -- Each step is one of those that were left.
  Step-steps_left :
      (s t : Attack)
      → Step n s t
      → s.jobs_closed ≡ true
      → (t.jobs_closed ≡ true) × (steps_left s ≡ suc (steps_left t))
  Step-steps_left s _ (dispatch unclosed fits) c = absurd (ground arith)
  Step-steps_left s _ (stop unclosed) c = absurd (ground arith)
  Step-steps_left s _ (take_job before after k e q) c = (
    c,
    omega (
      arith,
      q,
      ap (total left) e,
      total-replace left before waiting after,
      total-replace left before calling after,
    ),
  )
  Step-steps_left s _ (finish_call before after res e) c = (
    c,
    omega (
      arith,
      ap (total left) e,
      total-replace left before calling after,
      total-replace left before (sending res) after,
    ),
  )
  Step-steps_left s _ (send_result before after res e unclosed fits) c = (
    c,
    omega (
      arith,
      ap (total left) e,
      total-replace left before (sending res) after,
      total-replace left before waiting after,
      length-append s.results (res ∷ []),
    ),
  )
  Step-steps_left s _ (end_worker before after e closed q) c = (
    c,
    omega (
      arith,
      ap (total left) e,
      total-replace left before waiting after,
      total-replace left before ended after,
    ),
  )
  Step-steps_left s _ (close_results all unclosed) c = (c, ground (arith, unclosed))
  Step-steps_left s _ (receive_result res rest e) c =
      let m : length s.results ≡ suc (length rest) = ap length e in (c, omega arith)

  pub Steps-steps_left :
      (k : ℕ) (s t : Attack) → Steps n k s t → s.jobs_closed ≡ true → k ≤ steps_left s
  Steps-steps_left _ s _ rest_here c = omega arith
  Steps-steps_left _ s t (step_on {k = k} {t = u} st more) c =
      let (c', less) = Step-steps_left s u st c in
      omega (arith, less, Steps-steps_left k u t more c')

  pub run_on :
      (fuel : ℕ) (s : Attack)
      → steps_left s ≤ fuel
      → IsSound n s
      → s.jobs_closed ≡ true
      → (k : ℕ) × (t : Attack) × Steps n k s t × IsDone t
  run_on zero s h v c = elim (next-Step s v c) [
    | inl done ↦ (0, s, rest_here, done)
    | inr (t, st) ↦ absurd (omega (arith, (Step-steps_left s t st c).1))
  ]
  run_on (suc fuel) s h v c = elim (next-Step s v c) [
    | inl done ↦ (0, s, rest_here, done)
    | inr (t, st) ↦
        let (c', less) = Step-steps_left s t st c in
        let (k, u, more, done) = run_on fuel t (omega (arith, less)) (Step-IsSound n s t st v) c' in
        (suc k, u, step_on st more, done)
  ]
