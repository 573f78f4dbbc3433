-- ===== src/Tests/Pipeline.antt =====
-- A run of the worker on one message, with a scheduler that lets the first job that can go on do so.
use logarithm.Prelude.{
  ℕ, ◌+◌, String, ◌≡◌, refl, sym, subst, ◌∙◌, Option, none, some, List, [], ◌∷◌, Memᴰ, arith,
}
use logarithm.Tests.Process.{silent, runtime, plain, unmarshal, sound}
use logarithm.Tests.Callback.{accepting, store, pool_config}
use logarithm.Pipeline.{DeadLetters, WorkerState, Scheduler, worker_handlers}
use logarithm.Pipeline.Delivered.{Delivered, IsOpen, handlers, acknowledged-Delivered}
use logarithm.Storage.Columns.{list_columns}
use logarithm.Worker.Callback.{Call, new_worker_pool}
use logarithm.Worker.Callback.Ends.{Call-ends}
use logarithm.Worker.Callback.Inserted.{Call-Inserted}
use mathlib.Core.List.{append-nil}
use logarithm.Transport.Consume.{
  buffers, receives, here, next, flush, start, receive, flush_loop, Msg, Handlers, Settled, Reach,
  Loop, ack,
}
use logarithm.Storage.Tables.{table}
use logarithm.Storage.Store.{Store}
use logarithm.Prelude.Int.{pos}
use logarithm.Transport.Message.{Message}

abbrev letters : DeadLetters
letters = record { Stream = ℕ; publish_logs = λ s subject payload headers. (s + 1, none) }

abbrev State : Type 0
State = WorkerState list_columns silent runtime plain unmarshal unmarshal accepting letters

abbrev first_able :
    Scheduler list_columns silent runtime plain unmarshal unmarshal accepting letters
      (new_worker_pool pool_config)
first_able = record {
  outcome = λ s w ms. (run s w ms).0;
  watched = λ s w ms. (run s w ms).1;
  calls = λ s w ms. (run s w ms).2;
}
  where
    run :
        (s : Store list_columns accepting) (w : ℕ) (ms : List Message)
        → (out : Store list_columns accepting × Option String) × (w' : ℕ) × Call list_columns silent
            runtime plain unmarshal unmarshal accepting
            (new_worker_pool pool_config)
            s
            w
            ms
            out
            w'
    run =
        Call-ends list_columns silent runtime plain unmarshal unmarshal accepting
          (new_worker_pool pool_config)

abbrev worker : Handlers State
worker =
    handlers list_columns silent runtime plain unmarshal unmarshal accepting letters pool_config
      first_able (λ n. pos n) 5 1 10

abbrev begin : State
begin = record { store = store; watch = 0; dead = 0 }

begin-IsOpen :
    IsOpen list_columns silent runtime plain unmarshal unmarshal accepting letters "app.logs" store
begin-IsOpen = record {
  known = unfold table in refl;
  valid = record { bounded = omega arith; reusable = tt };
}

abbrev msg : Msg
msg = record { seq = 1; body = sound; num_delivered = some 1 }

accepted : (worker.log_handler begin (sound ∷ [])).1 ≡ none
unfolding worker_handlers
accepted =
    (Call-Inserted list_columns silent runtime plain unmarshal unmarshal accepting pool_config store
      0 sound [] _ _ "app.logs" begin-IsOpen.known begin-IsOpen.valid
      (first_able.calls store 0 (sound ∷ []))).failure
    ∙ refl

abbrev answered : Settled
answered = record { msg = msg; answer = ack }

abbrev buffered : Loop State
buffered = record (start worker 5 1 10 begin 0) { channel = msg ∷ [] }

abbrev done_loop : Loop State
done_loop = receive worker 5 1 10 0 msg (record buffered { channel = [] })

flush-answered : (flush worker 5 begin (msg ∷ [])).1 ≡ answered ∷ []
flush-answered = unfold flush in rw (accepted, flush) refl

answered-Memᴰ : Memᴰ answered done_loop.settled
unfolding receive flush_loop start
answered-Memᴰ = subst (Memᴰ answered) (sym (append-nil _ ∙ flush-answered)) (Memᴰ.head refl)

reached : Reach worker 5 1 10 begin 0 (msg ∷ []) done_loop
unfolding start
reached =
    next (next here (buffers (start worker 5 1 10 begin 0) msg (omega arith)))
      (receives buffered 0 msg [] refl refl)

acknowledged-Delivered_example :
    Delivered list_columns silent runtime plain unmarshal unmarshal accepting letters pool_config
      first_able
      (λ n. pos n)
      5
      1
      10
      begin
      0
      "app.logs"
      msg
      done_loop
acknowledged-Delivered_example =
    acknowledged-Delivered list_columns silent runtime plain unmarshal unmarshal accepting letters
      pool_config first_able (λ n. pos n) 5 1 10 begin 0 "app.logs" (msg ∷ []) done_loop answered
      begin-IsOpen reached answered-Memᴰ refl refl
