-- ===== src/Pipe/Delivery.antt =====
-- To which connection the lines of source/ipc/PipeServer.cpp go.
use text.Mathlib.Text.{◌==◌ as str_eq}
use plugin_lab.Prelude.{
  ℕ, suc, ◌%◌, ◌^◌, ◌≤◌, ◌<◌, ◌≡◌, refl, ◌⊎◌, inl, inr, Bool, true, false, String, List, [], ◌∷◌,
  Option, none, some, arith, All, All-append, ◌==◌, if◌then◌else◌, Bool-cases, not, ◌||◌, ◌&&◌,
}
use plugin_lab.Pipe.{
  Service, Job, Kind, inline, final, progress, Line, Phase, acquiring, accepting, connecting,
  serving, queueing, Worker, waiting, settling, exited, running, answering, Server, Poll, gone,
  nothing, broken, oversized, message, Action, pipe_acquires, pipe_accepts, pipe_pushes,
  pipe_connects, pipe_polls, worker_takes, worker_answers, worker_settles, worker_writes,
  handler_emits, closes_instance, signals_exit, ends_worker, bump, write_line, emit_line, detach,
  put_line, drop_client, init, create_pipe, acquire, accept, connect, push, is_control_command,
  receive, serve, poll, take_next, take_job, answer, settle, close_instance, pipe_step, worker_step,
  step, run,
}

-- A line that is not a progress line stands in the epoch of its command.
abbrev pub IsOwn : Line → Type 0
IsOwn l = (l.kind ≡ progress) ⊎ (l.to ≡ l.origin)

abbrev pub IsPast : ℕ → Job → Type 0
IsPast epoch j = (j.generation ≡ j.epoch % 2 ^ 64) × (j.epoch ≤ epoch)

-- The job that the worker has taken.
abbrev pub Holds : ℕ → Worker → Type 0
Holds epoch (running j) = IsPast epoch j
Holds epoch (answering j response) = IsPast epoch j
Holds epoch _ = Unit

-- What holds between two steps, of the fields that it is about.
pub record InvOf (generation epoch : ℕ) (queue : List Job) (worker : Worker) (written : List Line)
    : Type 0 where
  pub generation_eq : generation ≡ epoch % 2 ^ 64
  pub jobs : All (IsPast epoch) queue
  pub job : Holds epoch worker
  pub lines : epoch < 2 ^ 64 → All IsOwn written

abbrev pub Inv : {S : Type 0} → Server S → Type 0
Inv s = InvOf s.connection_generation s.epoch s.worker_queue s.worker s.written

jobs_later : (e : ℕ) (jobs : List Job) → All (IsPast e) jobs → All (IsPast (suc e)) jobs
jobs_later e [] h = tt
jobs_later e (j ∷ js) ((g, p), rest) = ((g, omega arith), jobs_later e js rest)

job_later : (e : ℕ) (w : Worker) → Holds e w → Holds (suc e) w
job_later e waiting h = tt
job_later e settling h = tt
job_later e exited h = tt
job_later e (running j) (g, p) = (g, omega arith)
job_later e (answering j response) (g, p) = (g, omega arith)

module _ {S : Type 0} where
  init-Inv :
      (session : S) (has_handler : Bool) (names : List String)
      → Inv (init session has_handler names)
  unfolding init
  init-Inv session has_handler names = record {
    generation_eq = refl;
    jobs = tt;
    job = tt;
    lines = λ small. tt;
  }

  if-Inv : (b : Bool) (s t : Server S) → Inv s → Inv t → Inv (if b then s else t)
  if-Inv true s t v v' = v
  if-Inv false s t v v' = v'

  bump-Inv : (s : Server S) → Inv s → Inv (bump s)
  bump-Inv s v = record {
    generation_eq = ground (arith, v.generation_eq);
    jobs = jobs_later s.epoch s.worker_queue v.jobs;
    job = job_later s.epoch s.worker v.job;
    lines = λ small. v.lines (omega arith);
  }

  put_line-Inv :
      (s : Server S) (kind : Kind) (text : String) (origin : ℕ)
      → (s.epoch < 2 ^ 64 → (kind ≡ progress) ⊎ (s.epoch ≡ origin))
      → Inv s
      → Inv (put_line s kind text origin)
  put_line-Inv s kind text origin h v = record {
    generation_eq = v.generation_eq;
    jobs = v.jobs;
    job = v.job;
    lines = λ small. All-append IsOwn s.written _ (v.lines small) (h small, tt);
  }

  -- Of the three outcomes of writeLine.
  pub write_line-cases :
      (s : Server S) (kind : Kind) (text : String) (origin generation : ℕ) (busy ok : Bool)
      → let out = write_line s kind text origin generation busy ok in
        (out ≡ s)
        ⊎ ((out ≡ put_line s kind text origin) × (generation ≡ s.connection_generation))
        ⊎ (out ≡ drop_client s)
  unfolding write_line
  write_line-cases s kind text origin generation busy ok =
      elim (Bool-cases (busy && not s.worker_busy)) [
        | inl idle ↦ inl (rw idle refl)
        | inr runs ↦
            elim (Bool-cases (not s.pipe_open || not (generation == s.connection_generation))) [
              | inl stale ↦ inl (rw (runs, stale) refl)
              | inr fresh ↦ elim (Bool-cases ok) [
                | inl all ↦ inr (inl (rw (runs, fresh, all) refl, ground (arith, fresh)))
                | inr part ↦ inr (inr (rw (runs, fresh, part) refl))
              ]
            ]
      ]

  -- A line that is written with the generation of its command.
  write_line-Inv :
      (s : Server S) (kind : Kind) (text : String) (origin generation : ℕ) (busy ok : Bool)
      → (kind ≡ progress) ⊎ ((generation ≡ origin % 2 ^ 64) × (origin ≤ s.epoch))
      → Inv s
      → Inv (write_line s kind text origin generation busy ok)
  write_line-Inv s kind text origin generation busy ok h v =
      elim (write_line-cases s kind text origin generation busy ok) [
        | inl e ↦ rw e v
        | inr (inl (e, same)) ↦ rw e (
            put_line-Inv s kind text origin
              (λ small. elim h [
                | inl p ↦ inl p
                | inr (g, past) ↦ inr (omega (arith, v.generation_eq, same))
              ])
              v)
        | inr (inr e) ↦ rw e (bump-Inv s v)
      ]

  push-Inv : (s : Server S) (command : String) → Inv s → Inv (push s command)
  unfolding push
  push-Inv s command v = record {
    generation_eq = v.generation_eq;
    jobs = All-append (IsPast s.epoch) s.worker_queue _ v.jobs ((v.generation_eq, omega arith), tt);
    job = v.job;
    lines = v.lines;
  }

module _ (w : Service) where
  receive-Inv :
      (s : Server w.Session) (text : String) (ok : Bool) → Inv s → Inv (receive w s text ok)
  unfolding receive
  receive-Inv s text ok v = if-Inv (not s.has_handler || str_eq (w.trim text) "") _ _ v (
      if-Inv (is_control_command w s.control_names (w.trim text)) _ _
        (write_line-Inv _ inline _ s.epoch s.connection_generation false ok
          (inr (v.generation_eq, omega arith)) v)
        v)

  serve-Inv : (s : Server w.Session) (p : Poll) → Inv s → Inv (serve w s p)
  unfolding serve detach
  serve-Inv s gone v = bump-Inv s v
  serve-Inv s nothing v = v
  serve-Inv s broken v = bump-Inv s v
  serve-Inv s (oversized ok) v =
      write_line-Inv s inline _ s.epoch s.connection_generation false ok
        (inr (v.generation_eq, omega arith)) v
  serve-Inv s (message text ok) v = receive-Inv s text ok v

  poll-Inv : (s : Server w.Session) (p : Poll) → Inv s → Inv (poll w s p)
  unfolding poll detach
  poll-Inv s p v = if-Inv s.should_exit _ _ (bump-Inv s v) (serve-Inv s p v)

  accept-Inv : (s : Server w.Session) → Inv s → Inv (accept s)
  unfolding accept
  accept-Inv s v = if-Inv s.should_exit _ _ v (bump-Inv s v)

  create_pipe-Inv :
      (s : Server w.Session) (outcome : Option ℕ) → Inv s → Inv (create_pipe s outcome)
  unfolding create_pipe
  create_pipe-Inv s none v = v
  create_pipe-Inv s (some error) v = v

  acquire-Inv : (s : Server w.Session) (outcome : Option ℕ) → Inv s → Inv (acquire s outcome)
  unfolding acquire
  acquire-Inv s outcome v = if-Inv s.should_exit _ _ v (create_pipe-Inv s outcome v)

  connect-Inv : (s : Server w.Session) (ok : Bool) → Inv s → Inv (connect s ok)
  unfolding connect
  connect-Inv s true v = v
  connect-Inv s false v = bump-Inv s v

  take_next-Inv :
      (s : Server w.Session) (queue : List Job)
      → All (IsPast s.epoch) queue
      → Inv s
      → Inv (take_next w s queue)
  unfolding take_next
  take_next-Inv s [] past v = v
  take_next-Inv s (job ∷ jobs) past v = record {
    generation_eq = v.generation_eq;
    jobs = past.1;
    job = past.0;
    lines = v.lines;
  }

  idle-Inv :
      (s : Server w.Session) (worker : Worker) (e : Holds s.epoch worker)
      → Inv s
      → Inv (record s { worker = worker })
  idle-Inv s worker e v = record {
    generation_eq = v.generation_eq;
    jobs = v.jobs;
    job = e;
    lines = v.lines;
  }

  take_job-Inv : (s : Server w.Session) → Inv s → Inv (take_job w s)
  unfolding take_job
  take_job-Inv s v =
      if-Inv s.worker_exit _ _ (idle-Inv s exited tt v) (take_next-Inv s s.worker_queue v.jobs v)

  pipe_step-Inv : (p : Phase) (s : Server w.Session) (a : Action) → Inv s → Inv (pipe_step w p s a)
  unfolding pipe_step
  pipe_step-Inv acquiring s (pipe_acquires outcome) v = acquire-Inv s outcome v
  pipe_step-Inv accepting s pipe_accepts v = accept-Inv s v
  pipe_step-Inv connecting s (pipe_connects ok) v = connect-Inv s ok v
  pipe_step-Inv serving s (pipe_polls p) v = poll-Inv s p v
  pipe_step-Inv (queueing command) s pipe_pushes v = push-Inv s command v
  pipe_step-Inv _ s _ v = v

  worker_step-Inv :
      (worker : Worker) (s : Server w.Session) (a : Action)
      → Holds s.epoch worker
      → Inv s
      → Inv (worker_step w worker s a)
  unfolding worker_step answer settle emit_line
  worker_step-Inv waiting s worker_takes h v = take_job-Inv s v
  worker_step-Inv (running job) s worker_answers h v = idle-Inv s (answering job _) h v
  worker_step-Inv (running job) s (handler_emits text ok) h v =
      if-Inv s.worker_busy _ _
        (write_line-Inv s progress text job.epoch s.connection_generation true ok (inl refl) v) v
  worker_step-Inv (answering job response) s (worker_writes ok) h v =
      idle-Inv (write_line s final response job.epoch job.generation false ok) settling tt
        (write_line-Inv s final response job.epoch job.generation false ok (inr h) v)
  worker_step-Inv settling s worker_settles h v = idle-Inv s waiting tt v
  worker_step-Inv _ s _ h v = v

  step-Inv : (s : Server w.Session) (a : Action) → Inv s → Inv (step w s a)
  unfolding step close_instance
  step-Inv s closes_instance v = v
  step-Inv s signals_exit v = v
  step-Inv s ends_worker v = v
  step-Inv s (pipe_acquires outcome) v = pipe_step-Inv s.phase s (pipe_acquires outcome) v
  step-Inv s pipe_accepts v = pipe_step-Inv s.phase s pipe_accepts v
  step-Inv s pipe_pushes v = pipe_step-Inv s.phase s pipe_pushes v
  step-Inv s (pipe_connects ok) v = pipe_step-Inv s.phase s (pipe_connects ok) v
  step-Inv s (pipe_polls p) v = pipe_step-Inv s.phase s (pipe_polls p) v
  step-Inv s worker_takes v = worker_step-Inv s.worker s worker_takes v.job v
  step-Inv s worker_answers v = worker_step-Inv s.worker s worker_answers v.job v
  step-Inv s worker_settles v = worker_step-Inv s.worker s worker_settles v.job v
  step-Inv s (worker_writes ok) v = worker_step-Inv s.worker s (worker_writes ok) v.job v
  step-Inv s (handler_emits text ok) v = worker_step-Inv s.worker s (handler_emits text ok) v.job v

  run-Inv : (s : Server w.Session) (as' : List Action) → Inv s → Inv (run w s as')
  unfolding run
  run-Inv s [] v = v
  run-Inv s (a ∷ as') v = run-Inv (step w s a) as' (step-Inv s a v)

  -- In every history of the pipe thread, the worker, the handler and shutdown(), with fewer than 2^64
  -- transitions of the connection, each answer that is written, the worker's as well as those of the
  -- pipe thread, is written in the very epoch of the connection in which its command was taken in.
  pub run-IsOwn :
      (session : w.Session) (has_handler : Bool) (names : List String) (as' : List Action)
      → let out = run w (init session has_handler names) as' in
        out.epoch < 2 ^ 64 → All IsOwn out.written
  run-IsOwn session has_handler names as' =
      (run-Inv (init session has_handler names) as' (init-Inv session has_handler names)).lines
