-- ===== src/Pipe/Busy.antt =====
-- Control commands, progress lines and the busy flag of source/ipc/PipeServer.cpp.
use text.Mathlib.Text.{◌==◌ as str_eq}
use plugin_lab.Prelude.{◌≡◌, refl, Bool, true, false, String, [], ◌∷◌, ◌++◌, arith}
use plugin_lab.Pipe.{
  Service, Job, inline, progress, serving, queueing, settling, running, Server, message,
  pipe_pushes, pipe_polls, worker_takes, worker_settles, handler_emits, write_line, emit_line, push,
  is_control_command, receive, serve, poll, take_next, take_job, settle, pipe_step, worker_step,
  step, run,
}

module _ (w : Service) where
  -- With a handler, an open pipe and no exit requested, a control command is answered at once,
  -- whatever the worker is doing: its answer is written in this epoch, and the queue, the worker and
  -- the busy flag stay as they are.
  control_is_inline :
      (s : Server w.Session) (text : String)
      → s.phase ≡ serving
      → s.should_exit ≡ false
      → s.has_handler ≡ true
      → s.pipe_open ≡ true
      → str_eq (w.trim text) "" ≡ false
      → is_control_command w s.control_names (w.trim text) ≡ true
      → let (session, response) = w.handle s.session (w.trim text) in
        let out = step w s (pipe_polls (message text true)) in
        (out.session ≡ session)
        × (out.written
            ≡ s.written
              ++ (record { kind = inline; text = response; to = s.epoch; origin = s.epoch } ∷ []))
        × (out.worker_queue ≡ s.worker_queue)
        × (out.worker ≡ s.worker)
        × (out.worker_busy ≡ s.worker_busy)
        × (out.phase ≡ serving)
  unfolding step pipe_step poll serve receive write_line
  control_is_inline s text p e h o full control = ground arith

  -- While the handler is at work, the busy flag is set and the pipe is open, a progress line is
  -- written to the pipe as it is now, also where the connection has changed since the command came.
  progress_crosses :
      (s : Server w.Session) (job : Job) (text : String)
      → s.worker ≡ running job
      → s.worker_busy ≡ true
      → s.pipe_open ≡ true
      → (step w s (handler_emits text true)).written
        ≡ s.written
          ++ (record { kind = progress; text = text; to = s.epoch; origin = job.epoch } ∷ [])
  unfolding step worker_step emit_line write_line
  progress_crosses s job text r b o = ground arith

  -- If the worker settles with an empty queue between the flag and the push of a command, and is
  -- not to exit, then it takes that command with the busy flag unset, and every progress line of its
  -- handler is lost.
  busy_is_lost :
      (s : Server w.Session) (command : String)
      → s.phase ≡ queueing command
      → s.worker ≡ settling
      → s.worker_queue ≡ []
      → s.worker_exit ≡ false
      → let out = run w s (worker_settles ∷ pipe_pushes ∷ worker_takes ∷ []) in
        (out.worker
          ≡ running
              (record { command = command; generation = s.connection_generation; epoch = s.epoch }))
        × (out.worker_busy ≡ false)
        × ((text : String) (ok : Bool) → step w out (handler_emits text ok) ≡ out)
  unfolding run step pipe_step worker_step push settle take_job take_next emit_line write_line
  busy_is_lost s command p r q e = rw (p, r, q, e) (refl, refl, λ text ok. refl)
