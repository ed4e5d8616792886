-- ===== src/Pipe.antt =====
-- PipeServer of source/ipc/PipeServer.{h,cpp}: the pipe thread, the worker thread and the writers,
-- as steps that follow one another; a step ends where another thread can come in between. The client
-- and Windows are arguments of the steps. `uint64_t` generations wrap.
pub mod Delivery
pub mod Order
pub mod Busy
mod Tests
use text.Mathlib.Text.{◌==◌ as str_eq}
use plugin_lab.Prelude.{
  ℕ, suc, ◌+◌, ◌%◌, ◌^◌, Bool, true, false, not, ◌||◌, ◌&&◌, String, List, [], ◌∷◌, ◌++◌, Option,
  none, some, ◌==◌, if◌then◌else◌,
}

-- The command handler with the state that it works on, and what JUCE reads of a text: the text
-- without blanks at its ends, and the "cmd" property of a JSON object.
pub record Service : Type 1 where
  pub Session : Type 0
  pub handle : Session → String → Session × String
  pub trim : String → String
  pub cmd_field : String → Option String

-- One entry of `workerQueue`. `epoch` is there for the theorems: how many transitions of the
-- connection there have been, of which the generation is the low 64 bits.
pub record Job : Type 0 where
  pub command : String
  pub generation : ℕ
  pub epoch : ℕ

pub data Kind : Type 0 where
  inline final progress : Kind

-- A line that has been written to the pipe: in which epoch, and in which epoch the command came that
-- it belongs to.
pub record Line : Type 0 where
  pub kind : Kind
  pub text : String
  pub to : ℕ
  pub origin : ℕ

-- Where the pipe thread is in run(), and where the worker is in workerLoop().
pub data Phase : Type 0 where
  acquiring accepting connecting serving ended : Phase
  queueing : String → Phase

pub data Worker : Type 0 where
  waiting settling exited : Worker
  running : Job → Worker
  answering : Job → String → Worker

-- `queued` and `handled` list the commands that went into the queue and those that the handler has
-- done from there; these two, `epoch` and `written` are there for the theorems.
pub record Server (S : Type 0) : Type 0 where
  pub session : S
  pub has_handler : Bool
  pub control_names : List String
  pub phase : Phase
  pub worker : Worker
  pub should_exit : Bool
  pub pipe_open : Bool
  pub instance_open : Bool
  pub connection_generation : ℕ
  pub client_connected : Bool
  pub pipe_acquired : Bool
  pub last_error : ℕ
  pub worker_queue : List Job
  pub worker_exit : Bool
  pub worker_busy : Bool
  pub epoch : ℕ
  pub written : List Line
  pub queued : List String
  pub handled : List String

-- What the pipe thread meets when it polls: the peek fails, there is nothing, a message that is too
-- large (it is drained), a read that fails, or a message. The Boolean is the success of the write of
-- an answer.
pub data Poll : Type 0 where
  gone nothing broken : Poll
  oversized : Bool → Poll
  message : String → Bool → Poll

-- A step of the pipe thread, of the worker, of the handler, or of shutdown().
pub data Action : Type 0 where
  pipe_acquires : Option ℕ → Action
  pipe_accepts pipe_pushes : Action
  pipe_connects : Bool → Action
  pipe_polls : Poll → Action
  worker_takes worker_answers worker_settles : Action
  worker_writes : Bool → Action
  handler_emits : String → Bool → Action
  closes_instance signals_exit ends_worker : Action

pub is_member : String → List String → Bool
is_member cmd [] = false
is_member cmd (name ∷ names) = str_eq cmd name || is_member cmd names

module _ {S : Type 0} where
  -- `++connectionGeneration`
  abbrev pub bump : Server S → Server S
  bump s = record s {
    connection_generation = (s.connection_generation + 1) % 2 ^ 64;
    epoch = suc s.epoch;
  }

  abbrev pub put_line : Server S → Kind → String → ℕ → Server S
  put_line s kind text origin = record s {
    written =
        s.written ++ (record { kind = kind; text = text; to = s.epoch; origin = origin } ∷ []);
  }

  -- A write that fails.
  abbrev pub drop_client : Server S → Server S
  drop_client s = record (bump s) { client_connected = false; pipe_open = false }

  -- writeLine, of a line that belongs to a command of the epoch `origin`; `ok`: all bytes are
  -- written.
  unfoldable pub write_line : Server S → Kind → String → ℕ → ℕ → Bool → Bool → Server S
  write_line s kind text origin generation require_busy ok =
      if require_busy && not s.worker_busy
      then s
      else if not s.pipe_open || not (generation == s.connection_generation)
      then s
      else if ok
      then put_line s kind text origin
      else drop_client s

  -- emitLine, called by the handler of a job of the epoch `origin`.
  pub emit_line : Server S → String → ℕ → Bool → Server S
  unfolding write_line
  emit_line s text origin ok =
      if s.worker_busy then write_line s progress text origin s.connection_generation true ok else s

  -- The end of the read loop.
  pub detach : Server S → Server S
  detach s = record (bump s) { client_connected = false; pipe_open = false; phase = accepting }

  -- The server behind its constructor, the setters and startup().
  pub init : S → Bool → List String → Server S
  init session has_handler control_names = record {
    session = session;
    has_handler = has_handler;
    control_names = control_names;
    phase = acquiring;
    worker = waiting;
    should_exit = false;
    pipe_open = false;
    instance_open = false;
    connection_generation = 0;
    client_connected = false;
    pipe_acquired = false;
    last_error = 0;
    worker_queue = [];
    worker_exit = false;
    worker_busy = false;
    epoch = 0;
    written = [];
    queued = [];
    handled = [];
  }

  -- CreateNamedPipeA fails with an error, or makes the instance.
  pub create_pipe : Server S → Option ℕ → Server S
  create_pipe s (some error) = record s { last_error = error }
  create_pipe s none = record s {
    last_error = 0;
    pipe_acquired = true;
    instance_open = true;
    phase = accepting;
  }

  pub acquire : Server S → Option ℕ → Server S
  unfolding create_pipe
  acquire s outcome = if s.should_exit then record s { phase = ended } else create_pipe s outcome

  -- The head of the accept loop.
  pub accept : Server S → Server S
  accept s =
      if s.should_exit
      then record s { phase = ended }
      else record (bump s) { pipe_open = true; phase = connecting }

  pub connect : Server S → Bool → Server S
  connect s true = record s { client_connected = true; phase = serving }
  connect s false = record (bump s) { pipe_open = false; phase = accepting }

  -- `workerQueue.emplace_back`; the busy flag is set before.
  pub push : Server S → String → Server S
  push s command = record s {
    worker_queue =
        s.worker_queue
        ++ (record { command = command; generation = s.connection_generation; epoch = s.epoch }
            ∷ []);
    queued = s.queued ++ (command ∷ []);
    phase = serving;
  }

module _ (v : Service) where
  pub is_control_command : List String → String → Bool
  unfolding is_member
  is_control_command [] json = false
  is_control_command (name ∷ names) json =
      if str_eq json ""
      then false
      else elim (v.cmd_field json) [ none ↦ false | some cmd ↦ is_member cmd (name ∷ names) ]

  -- A message that has been read.
  pub receive : Server v.Session → String → Bool → Server v.Session
  unfolding is_control_command write_line
  receive s text ok =
      let command = v.trim text in
      if not s.has_handler || str_eq command ""
      then s
      else if is_control_command s.control_names command
      then (let (session, response) = v.handle s.session command in
          write_line (record s { session = session }) inline response s.epoch
            s.connection_generation false ok)
      else record s { worker_busy = true; phase = queueing command }

  -- One round of the read loop, and its head.
  pub serve : Server v.Session → Poll → Server v.Session
  unfolding receive detach write_line
  serve s gone = detach s
  serve s nothing = s
  serve s broken = detach s
  serve s (oversized ok) =
      write_line s inline "{\"ok\":false,\"error\":\"command too large\"}" s.epoch
        s.connection_generation false ok
  serve s (message text ok) = receive s text ok

  pub poll : Server v.Session → Poll → Server v.Session
  unfolding serve detach
  poll s p = if s.should_exit then detach s else serve s p

  -- The first part of workerLoop: it waits for a job or for the end.
  pub take_next : Server v.Session → List Job → Server v.Session
  take_next s [] = s
  take_next s (job ∷ jobs) = record s { worker = running job; worker_queue = jobs }

  pub take_job : Server v.Session → Server v.Session
  unfolding take_next
  take_job s =
      if s.worker_exit
      then record s { worker_busy = false; worker = exited }
      else take_next s s.worker_queue

  -- The handler returns.
  pub answer : Server v.Session → Job → Server v.Session
  answer s job =
      let (session, response) =
        if s.has_handler then v.handle s.session job.command else (s.session, "{}") in
      record s {
        session = session;
        worker = answering job response;
        handled = s.handled ++ (job.command ∷ []);
      }

  -- Under `workerMutex`, behind the write.
  pub settle : Server v.Session → Server v.Session
  settle s = record s {
    worker_busy = elim s.worker_queue [ [] ↦ false | _ ∷ _ ↦ s.worker_busy ];
    worker = waiting;
  }

  -- The three parts of shutdown().
  pub close_instance : Server v.Session → Server v.Session
  close_instance s = record s { instance_open = false; pipe_open = false }

  -- A step is taken only if the thread is where the step belongs.
  pub pipe_step : Phase → Server v.Session → Action → Server v.Session
  unfolding acquire accept connect push poll
  pipe_step acquiring s (pipe_acquires outcome) = acquire s outcome
  pipe_step accepting s pipe_accepts = accept s
  pipe_step connecting s (pipe_connects ok) = connect s ok
  pipe_step serving s (pipe_polls p) = poll s p
  pipe_step (queueing command) s pipe_pushes = push s command
  pipe_step _ s _ = s

  pub worker_step : Worker → Server v.Session → Action → Server v.Session
  unfolding take_job answer settle write_line emit_line
  worker_step waiting s worker_takes = take_job s
  worker_step (running job) s worker_answers = answer s job
  worker_step (running job) s (handler_emits text ok) = emit_line s text job.epoch ok
  worker_step (answering job response) s (worker_writes ok) =
      record (write_line s final response job.epoch job.generation false ok) { worker = settling }
  worker_step settling s worker_settles = settle s
  worker_step _ s _ = s

  pub step : Server v.Session → Action → Server v.Session
  unfolding close_instance
  step s closes_instance = close_instance s
  step s signals_exit = record s { should_exit = true }
  step s ends_worker = record s { client_connected = false; worker_exit = true }
  step s (pipe_acquires outcome) = pipe_step s.phase s (pipe_acquires outcome)
  step s pipe_accepts = pipe_step s.phase s pipe_accepts
  step s pipe_pushes = pipe_step s.phase s pipe_pushes
  step s (pipe_connects ok) = pipe_step s.phase s (pipe_connects ok)
  step s (pipe_polls p) = pipe_step s.phase s (pipe_polls p)
  step s worker_takes = worker_step s.worker s worker_takes
  step s worker_answers = worker_step s.worker s worker_answers
  step s worker_settles = worker_step s.worker s worker_settles
  step s (worker_writes ok) = worker_step s.worker s (worker_writes ok)
  step s (handler_emits text ok) = worker_step s.worker s (handler_emits text ok)

  pub run : Server v.Session → List Action → Server v.Session
  run s [] = s
  run s (a ∷ as') = run (step s a) as'
