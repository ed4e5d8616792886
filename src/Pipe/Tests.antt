-- ===== src/Pipe/Tests.antt =====
-- Histories of the server of source/ipc/PipeServer.cpp, and its theorems at inputs.
use plugin_lab.Prelude.{
  ℕ, suc, ◌<◌, ◌^◌, ◌≡◌, refl, true, false, List, [], ◌∷◌, ◌++◌, none, some, arith, All,
}
use plugin_lab.Pipe.{
  Service, inline, progress, running, Server, message, gone, serving, settling, queueing, Action,
  pipe_acquires, pipe_accepts, pipe_connects, pipe_polls, pipe_pushes, worker_takes, worker_answers,
  worker_writes, handler_emits, init, step, run, write_line, serve, receive, worker_step, pipe_step,
  is_control_command,
}
use plugin_lab.Pipe.Delivery.{IsOwn, run-IsOwn}
use plugin_lab.Pipe.Order.{in_hand, commands, handled_in_order}

-- A session counts the commands; a text is its own "cmd".
abbrev counter : Service
counter = record { Session = ℕ; handle = λ n c. (suc n, c); trim = λ t. t; cmd_field = λ t. some t }

-- A client sends "measure", the worker takes it, the client goes, another one comes.
abbrev reconnect : List Action
reconnect =
    pipe_acquires none
    ∷ pipe_accepts
    ∷ pipe_connects true
    ∷ pipe_polls (message "measure" true)
    ∷ pipe_pushes
    ∷ worker_takes
    ∷ pipe_polls gone
    ∷ pipe_accepts
    ∷ pipe_connects true
    ∷ handler_emits "half" true
    ∷ pipe_polls (message "stop" true)
    ∷ worker_answers
    ∷ worker_writes true
    ∷ []

-- The new client gets the progress line and its own answer, and not the answer of the first one.
reconnected :
    (run counter (init 0 true ("stop" ∷ [])) reconnect).written
    ≡ record { kind = progress; text = "half"; to = 3; origin = 1 }
      ∷ record { kind = inline; text = "stop"; to = 3; origin = 3 }
      ∷ []
unfolding run step serve receive write_line worker_step pipe_step init
reconnected = refl

few_transitions : (run counter (init 0 true ("stop" ∷ [])) reconnect).epoch < 2 ^ 64
unfolding run step serve receive write_line worker_step pipe_step init
few_transitions = omega arith

run-IsOwn_example : All IsOwn (run counter (init 0 true ("stop" ∷ [])) reconnect).written
run-IsOwn_example = run-IsOwn counter 0 true ("stop" ∷ []) reconnect few_transitions

handled_in_order_example :
    let out = run counter (init 0 true ("stop" ∷ [])) reconnect in
    out.queued ≡ out.handled ++ (in_hand out.worker ++ commands out.worker_queue)
handled_in_order_example = handled_in_order counter 0 true ("stop" ∷ []) reconnect

-- A client is connected.
abbrev serving_client : Server ℕ
serving_client = record {
  session = 5;
  has_handler = true;
  control_names = "stop" ∷ [];
  phase = serving;
  worker = running (record { command = "measure"; generation = 1; epoch = 1 });
  should_exit = false;
  pipe_open = true;
  instance_open = true;
  connection_generation = 3;
  client_connected = true;
  pipe_acquired = true;
  last_error = 0;
  worker_queue = [];
  worker_exit = false;
  worker_busy = true;
  epoch = 3;
  written = [];
  queued = "measure" ∷ [];
  handled = [];
}

stop_is_control : is_control_command counter ("stop" ∷ []) "stop" ≡ true
unfolding is_control_command
stop_is_control = refl

abbrev between : Server ℕ
between = record serving_client { phase = queueing "measure"; worker = settling }
