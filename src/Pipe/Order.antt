-- ===== src/Pipe/Order.antt =====
-- The commands that source/ipc/PipeServer.cpp hands to its worker.
use text.Mathlib.Text.{◌==◌ as str_eq}
use mathlib.Core.List.{append_assoc, map-append}
use plugin_lab.Prelude.{
  ℕ, ◌≡◌, refl, sym, ◌∙◌, Bool, true, false, not, ◌||◌, ◌&&◌, String, Option, List, [], ◌∷◌, ◌++◌,
  map, none, some, ◌==◌, if◌then◌else◌,
}
use plugin_lab.Pipe.{
  Service, Job, Kind, inline, final, progress, Phase, acquiring, accepting, connecting, serving,
  queueing, Worker, waiting, settling, running, answering, Server, Poll, gone, nothing, broken,
  oversized, message, Action, pipe_acquires, pipe_accepts, pipe_pushes, pipe_connects, pipe_polls,
  worker_takes, worker_answers, worker_settles, worker_writes, handler_emits, closes_instance,
  signals_exit, ends_worker, write_line, emit_line, detach, init, create_pipe, acquire, accept,
  connect, push, is_control_command, receive, serve, poll, take_next, take_job, answer, settle,
  close_instance, pipe_step, worker_step, step, run, put_line, drop_client,
}

-- The command that the handler is at work on.
abbrev pub in_hand : Worker → List String
in_hand (running job) = job.command ∷ []
in_hand _ = []

abbrev pub commands : List Job → List String
commands = map (λ j. j.command)

abbrev OrderOf : List String → List String → Worker → List Job → Type 0
OrderOf queued handled worker queue = queued ≡ handled ++ (in_hand worker ++ commands queue)

abbrev pub IsOrdered : {S : Type 0} → Server S → Type 0
IsOrdered s = OrderOf s.queued s.handled s.worker s.worker_queue

module _ {S : Type 0} where
  abbrev IsOrderedAs : Worker → Server S → Type 0
  IsOrderedAs worker s = OrderOf s.queued s.handled worker s.worker_queue

  if-IsOrderedAs :
      (worker : Worker) (b : Bool) (s t : Server S)
      → IsOrderedAs worker s
      → IsOrderedAs worker t
      → IsOrderedAs worker (if b then s else t)
  if-IsOrderedAs worker true s t v v' = v
  if-IsOrderedAs worker false s t v v' = v'

  write_line-IsOrderedAs :
      (worker : Worker) (s : Server S) (text : String) (origin generation : ℕ) (ok : Bool)
      → IsOrderedAs worker s
      → IsOrderedAs worker (write_line s final text origin generation false ok)
  unfolding write_line
  write_line-IsOrderedAs worker s text origin generation ok v =
      if-IsOrderedAs worker (not s.pipe_open || not (generation == s.connection_generation)) _ _ v
        (if-IsOrderedAs worker ok (put_line s final text origin) (drop_client s) v v)

  if-IsOrdered :
      (b : Bool) (s t : Server S) → IsOrdered s → IsOrdered t → IsOrdered (if b then s else t)
  if-IsOrdered true s t v v' = v
  if-IsOrdered false s t v v' = v'

  write_line-IsOrdered :
      (s : Server S) (kind : Kind) (text : String) (origin generation : ℕ) (busy ok : Bool)
      → IsOrdered s
      → IsOrdered (write_line s kind text origin generation busy ok)
  unfolding write_line
  write_line-IsOrdered s kind text origin generation busy ok v =
      if-IsOrdered (busy && not s.worker_busy) _ _ v (
        if-IsOrdered (not s.pipe_open || not (generation == s.connection_generation)) _ _ v
          (if-IsOrdered ok (put_line s kind text origin) (drop_client s) v v))

  push-IsOrdered : (s : Server S) (command : String) → IsOrdered s → IsOrdered (push s command)
  unfolding push
  push-IsOrdered s command v =
      rw
        (
          v,
          map-append (λ j. j.command) s.worker_queue,
          append_assoc s.handled,
          append_assoc (in_hand s.worker),
        )
        refl

module _ (w : Service) where
  receive-IsOrdered :
      (s : Server w.Session) (text : String) (ok : Bool)
      → IsOrdered s
      → IsOrdered (receive w s text ok)
  unfolding receive
  receive-IsOrdered s text ok v =
      if-IsOrdered (not s.has_handler || str_eq (w.trim text) "") _ _ v (
        if-IsOrdered (is_control_command w s.control_names (w.trim text)) _ _
          (write_line-IsOrdered _ inline _ s.epoch s.connection_generation false ok v) v)

  serve-IsOrdered : (s : Server w.Session) (p : Poll) → IsOrdered s → IsOrdered (serve w s p)
  unfolding serve detach
  serve-IsOrdered s (oversized ok) v =
      write_line-IsOrdered s inline _ s.epoch s.connection_generation false ok v
  serve-IsOrdered s (message text ok) v = receive-IsOrdered s text ok v
  serve-IsOrdered s gone v = v
  serve-IsOrdered s nothing v = v
  serve-IsOrdered s broken v = v

  create_pipe-IsOrdered :
      (s : Server w.Session) (outcome : Option ℕ) → IsOrdered s → IsOrdered (create_pipe s outcome)
  unfolding create_pipe
  create_pipe-IsOrdered s none v = v
  create_pipe-IsOrdered s (some error) v = v

  pipe_step-IsOrdered :
      (p : Phase) (s : Server w.Session) (a : Action) → IsOrdered s → IsOrdered (pipe_step w p s a)
  unfolding pipe_step acquire accept connect poll detach
  pipe_step-IsOrdered acquiring s (pipe_acquires outcome) v =
      if-IsOrdered s.should_exit _ _ v (create_pipe-IsOrdered s outcome v)
  pipe_step-IsOrdered accepting s pipe_accepts v = if-IsOrdered s.should_exit _ _ v v
  pipe_step-IsOrdered connecting s (pipe_connects true) v = v
  pipe_step-IsOrdered connecting s (pipe_connects false) v = v
  pipe_step-IsOrdered serving s (pipe_polls p) v =
      if-IsOrdered s.should_exit _ _ v (serve-IsOrdered s p v)
  pipe_step-IsOrdered (queueing command) s pipe_pushes v = push-IsOrdered s command v
  pipe_step-IsOrdered _ s _ v = v

  take_next-IsOrdered :
      (s : Server w.Session) (queue : List Job)
      → OrderOf s.queued s.handled waiting queue
      → IsOrdered s
      → IsOrdered (take_next w s queue)
  unfolding take_next
  take_next-IsOrdered s [] h v = v
  take_next-IsOrdered s (job ∷ jobs) h v = h

  worker_step-IsOrdered :
      (worker : Worker) (s : Server w.Session) (a : Action)
      → OrderOf s.queued s.handled worker s.worker_queue
      → IsOrdered s
      → IsOrdered (worker_step w worker s a)
  unfolding worker_step answer settle emit_line take_job
  worker_step-IsOrdered waiting s worker_takes h v =
      if-IsOrdered s.worker_exit _ _ h (take_next-IsOrdered s s.worker_queue h v)
  worker_step-IsOrdered (running job) s worker_answers h v =
      h ∙ sym (append_assoc s.handled (job.command ∷ []) (commands s.worker_queue))
  worker_step-IsOrdered (running job) s (handler_emits text ok) h v =
      if-IsOrdered s.worker_busy _ _
        (write_line-IsOrdered s progress text job.epoch s.connection_generation true ok v) v
  worker_step-IsOrdered (answering job response) s (worker_writes ok) h v =
      write_line-IsOrderedAs settling s response job.epoch job.generation ok h
  worker_step-IsOrdered settling s worker_settles h v = h
  worker_step-IsOrdered _ s _ h v = v

  step-IsOrdered : (s : Server w.Session) (a : Action) → IsOrdered s → IsOrdered (step w s a)
  unfolding step close_instance
  step-IsOrdered s closes_instance v = v
  step-IsOrdered s signals_exit v = v
  step-IsOrdered s ends_worker v = v
  step-IsOrdered s (pipe_acquires o) v = pipe_step-IsOrdered s.phase s (pipe_acquires o) v
  step-IsOrdered s pipe_accepts v = pipe_step-IsOrdered s.phase s pipe_accepts v
  step-IsOrdered s pipe_pushes v = pipe_step-IsOrdered s.phase s pipe_pushes v
  step-IsOrdered s (pipe_connects ok) v = pipe_step-IsOrdered s.phase s (pipe_connects ok) v
  step-IsOrdered s (pipe_polls p) v = pipe_step-IsOrdered s.phase s (pipe_polls p) v
  step-IsOrdered s worker_takes v = worker_step-IsOrdered s.worker s worker_takes v v
  step-IsOrdered s worker_answers v = worker_step-IsOrdered s.worker s worker_answers v v
  step-IsOrdered s worker_settles v = worker_step-IsOrdered s.worker s worker_settles v v
  step-IsOrdered s (worker_writes ok) v = worker_step-IsOrdered s.worker s (worker_writes ok) v v
  step-IsOrdered s (handler_emits text ok) v =
      worker_step-IsOrdered s.worker s (handler_emits text ok) v v

  run-IsOrdered : (s : Server w.Session) (as' : List Action) → IsOrdered s → IsOrdered (run w s as')
  unfolding run
  run-IsOrdered s [] v = v
  run-IsOrdered s (a ∷ as') v = run-IsOrdered (step w s a) as' (step-IsOrdered s a v)

  -- In every history the worker handles the queued commands one after the other, each once, in the
  -- order in which they were queued: those queued are those handled, then the one that the handler
  -- is at work on, then those that wait.
  pub handled_in_order :
      (session : w.Session) (has_handler : Bool) (names : List String) (as' : List Action)
      → let out = run w (init session has_handler names) as' in
        out.queued ≡ out.handled ++ (in_hand out.worker ++ commands out.worker_queue)
  unfolding init
  handled_in_order session has_handler names as' =
      run-IsOrdered (init session has_handler names) as' refl
