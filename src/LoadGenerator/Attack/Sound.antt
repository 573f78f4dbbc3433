-- ===== src/LoadGenerator/Attack/Sound.antt =====
-- However the turns are taken, no signal and no result is lost.
use logarithm.Prelude.{
  ℕ, zero, suc, ◌+◌, ◌*◌, ◌≤◌, ◌≡◌, refl, sym, ap, subst, ◌∙◌, true, false, List, [], ◌∷◌, ◌++◌,
  arith, length, length-append, All, All-map, All-replace,
}
use logarithm.LoadGenerator.Attack.{
  Worker, waiting, calling, ended, sending, Attack, idle, start_attack, is_ended, AllEnded, Step,
  dispatch, stop, take_job, finish_call, send_result, end_worker, close_results, receive_result,
  Steps, rest_here, step_on,
}

-- The signals that a worker has taken, and not yet answered.
abbrev pub busy : Worker → ℕ
busy waiting = 0
busy calling = 1
busy ended = 0
busy (sending res) = 1

abbrev pub total : (Worker → ℕ) → List Worker → ℕ
total f [] = 0
total f (w ∷ ws) = f w + total f ws

pub total-replace :
    (f : Worker → ℕ) (before : List Worker) (w : Worker) (after : List Worker)
    → total f (before ++ w ∷ after) ≡ f w + (total f before + total f after)
total-replace f [] w after = omega arith
total-replace f (b ∷ before) w after = omega (arith, total-replace f before w after)

length-replace :
    (before : List Worker) (v w : Worker) (after : List Worker)
    → length (before ++ v ∷ after) ≡ length (before ++ w ∷ after)
length-replace [] v w after = refl
length-replace (b ∷ before) v w after = ap suc (length-replace before v w after)

-- A worker that has returned left no signal behind, and there will be none.
abbrev LeftNone : Attack → Worker → Type 0
LeftNone s w = is_ended w ≡ true → (s.jobs_closed ≡ true) × (s.jobs ≡ 0)

-- Every signal that was dispatched is in the channel, with a worker, or answered; the channels keep to
-- their capacities; and the results are closed only after all workers have returned.
pub record IsSound (n : ℕ) (s : Attack) : Type 0 where
  pub accounted :
      s.dispatched ≡ s.jobs + (total busy s.workers + (length s.results + length s.received))
  pub crew : length s.workers ≡ n
  pub jobs_fit : s.jobs ≤ n * 2
  pub results_fit : length s.results ≤ n * 2
  pub ends : All (LeftNone s) s.workers
  pub closes : s.results_closed ≡ true → AllEnded s.workers

pub start_attack-IsSound : (n : ℕ) → IsSound n (start_attack n)
unfolding start_attack
start_attack-IsSound n = record {
  accounted = omega (arith, none_busy n);
  crew = all_idle n;
  jobs_fit = omega arith;
  results_fit = omega arith;
  ends = none_ended n;
  closes = λ e. absurd (ground arith);
}
  where
    none_busy : (k : ℕ) → total busy (idle k) ≡ 0
    none_busy zero = refl
    none_busy (suc k) = omega (arith, none_busy k)

    all_idle : (k : ℕ) → length (idle k) ≡ k
    all_idle zero = refl
    all_idle (suc k) = ap suc (all_idle k)

    none_ended : (k : ℕ) → All (LeftNone (start_attack n)) (idle k)
    none_ended zero = tt
    none_ended (suc k) = (λ e. absurd (ground arith), none_ended k)

-- One worker replaced by another.
module _ (n : ℕ) (s : Attack) (v : IsSound n s) (before after : List Worker) (w : Worker)
    (e : s.workers ≡ before ++ w ∷ after) where
  crew_of : (u : Worker) → length (before ++ u ∷ after) ≡ n
  crew_of u = length-replace before u w after ∙ sym (ap length e) ∙ v.crew

  busy_of : (u : Worker) → total busy (before ++ u ∷ after) + busy w ≡ total busy s.workers + busy u
  busy_of u = omega (
    arith,
    total-replace busy before u after,
    total-replace busy before w after,
    ap (total busy) e,
  )

  others : LeftNone s w × ((u : Worker) → LeftNone s u → All (LeftNone s) (before ++ u ∷ after))
  others = All-replace (LeftNone s) before after (subst (All (LeftNone s)) e v.ends)

  still_open : is_ended w ≡ false → s.results_closed ≡ true → ⊥
  still_open f c =
      let h = All-replace (λ u. is_ended u ≡ true) before after (subst AllEnded e (v.closes c)) in
      absurd (ground (arith, h.0))

pub Step-IsSound : (n : ℕ) (s t : Attack) → Step n s t → IsSound n s → IsSound n t
Step-IsSound n s _ (dispatch unclosed fits) v = record {
  accounted = omega (arith, v.accounted);
  crew = v.crew;
  jobs_fit = omega arith;
  results_fit = v.results_fit;
  ends = All-map (LeftNone s) _ (λ w h e. absurd (ground (arith, (h e).0))) s.workers v.ends;
  closes = v.closes;
}
Step-IsSound n s _ (stop unclosed) v = record {
  accounted = v.accounted;
  crew = v.crew;
  jobs_fit = v.jobs_fit;
  results_fit = v.results_fit;
  ends = All-map (LeftNone s) _ (λ w h e. (refl, (h e).1)) s.workers v.ends;
  closes = v.closes;
}
Step-IsSound n s _ (take_job before after k e some_job) v =
    let b = busy_of n s v before after waiting e calling in
    let o = others n s v before after waiting e in
    record {
      accounted = omega (arith, v.accounted, some_job);
      crew = crew_of n s v before after waiting e calling;
      jobs_fit = omega (arith, v.jobs_fit);
      results_fit = v.results_fit;
      ends =
          All-map (LeftNone s) _ (λ w h x. absurd (omega (arith, (h x).1, some_job))) _
            (o.1 calling (λ x. absurd (ground arith)));
      closes = λ c. absurd (still_open n s v before after waiting e refl c);
    }
Step-IsSound n s _ (finish_call before after res e) v =
    let b = busy_of n s v before after calling e (sending res) in
    record {
      accounted = omega (arith, v.accounted);
      crew = crew_of n s v before after calling e (sending res);
      jobs_fit = v.jobs_fit;
      results_fit = v.results_fit;
      ends = (others n s v before after calling e).1 (sending res) (λ x. absurd (ground arith));
      closes = λ c. absurd (still_open n s v before after calling e refl c);
    }
Step-IsSound n s _ (send_result before after res e unclosed fits) v =
    let b = busy_of n s v before after (sending res) e waiting in
    let l = length-append s.results (res ∷ []) in
    record {
      accounted = omega (arith, v.accounted);
      crew = crew_of n s v before after (sending res) e waiting;
      jobs_fit = v.jobs_fit;
      results_fit = omega arith;
      ends = (others n s v before after (sending res) e).1 waiting (λ x. absurd (ground arith));
      closes = λ c. absurd (still_open n s v before after (sending res) e refl c);
    }
Step-IsSound n s _ (end_worker before after e closed no_job) v =
    let b = busy_of n s v before after waiting e ended in
    record {
      accounted = omega (arith, v.accounted);
      crew = crew_of n s v before after waiting e ended;
      jobs_fit = v.jobs_fit;
      results_fit = v.results_fit;
      ends = (others n s v before after waiting e).1 ended (λ x. (closed, no_job));
      closes = λ c. absurd (still_open n s v before after waiting e refl c);
    }
Step-IsSound n s _ (close_results all unclosed) v = record {
  accounted = v.accounted;
  crew = v.crew;
  jobs_fit = v.jobs_fit;
  results_fit = v.results_fit;
  ends = v.ends;
  closes = λ c. all;
}
Step-IsSound n s _ (receive_result res rest e) v =
    let l = length-append s.received (res ∷ []) in
    let m : length s.results ≡ suc (length rest) = ap length e in
    record {
      accounted = omega (arith, v.accounted);
      crew = v.crew;
      jobs_fit = v.jobs_fit;
      results_fit = omega (arith, v.results_fit);
      ends = v.ends;
      closes = v.closes;
    }

pub Steps-IsSound : (n k : ℕ) (s t : Attack) → Steps n k s t → IsSound n s → IsSound n t
Steps-IsSound n _ s _ rest_here v = v
Steps-IsSound n _ s t (step_on {k = k} {t = u} st more) v =
    Steps-IsSound n k u t more (Step-IsSound n s u st v)
