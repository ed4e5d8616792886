-- ===== src/Child/Coordinator/Invariant.antt =====
-- What holds of the coordinator of source/host/ChildProcessCoordinator.cpp between two steps.
use plugin_lab.Prelude.{
  ℕ, ◌≤◌, ◌<◌, ◌≡◌, refl, Bool, true, false, List, [], ◌∷◌, arith, length, length-append,
}
use plugin_lab.Prelude.Int.{ℤ}
use plugin_lab.Child.Lines.{Utf8, LineBuffer, consume_bytes, last_log_summary, pop_line}
use plugin_lab.Child.Coordinator.{
  Coordinator, CrashDetail, joinable, JoinOutcome, SpawnOutcome, ExitOutcome, Peek, Action,
  call_start, call_restart, finish_stop, call_destroy, call_pop, set_on_crash, set_cancel, round,
  init, start, restart, stop_finish, destroy, mark_crashed, check_heartbeat, handle_pipe_closed,
  reader_round, step, run, broken, bytes, nothing, heartbeat_timeout, closed_output, exited_with,
}

pub record Inv (c : Coordinator) : Type 0 where
  pub crash_le : c.crash_count ≤ c.spawns
  pub unreported : c.reader_thread ≡ joinable → c.crash_reported ≡ false → c.crash_count < c.spawns
  pub running_stdin : c.process_running ≡ true → c.stdin_write_handle ≡ true
  pub running_stdout : c.process_running ≡ true → c.stdout_read_handle ≡ true
  pub running_process : c.process_running ≡ true → c.process_handle ≡ true
  pub running_reader : c.process_running ≡ true → c.reader_thread ≡ joinable
  pub crashed_stopped : c.crash_reported ≡ true → c.process_running ≡ false
  pub crashed_stdin : c.crash_reported ≡ true → c.stdin_write_handle ≡ false
  pub crashed_stdout : c.crash_reported ≡ true → c.stdout_read_handle ≡ false
  pub crashed_process : c.crash_reported ≡ true → c.process_handle ≡ false
  pub stop_stopped : c.stop_requested ≡ true → c.process_running ≡ false
  pub log_le : length c.crash_log ≤ c.crash_count

init-Inv : (timeout : ℤ) → Inv (init timeout)
unfolding init
init-Inv timeout = ground arith

start-Inv :
    (c : Coordinator) (join : JoinOutcome) (spawn : SpawnOutcome)
    → Inv c
    → Inv (start c join spawn).0
unfolding start
start-Inv c join spawn v = ground arith

restart-Inv :
    (c : Coordinator) (join : JoinOutcome) (spawn : SpawnOutcome)
    → Inv c
    → Inv (restart c join spawn).0
unfolding restart
restart-Inv c join spawn v = ground arith

stop_finish-Inv : (c : Coordinator) → Inv c → Inv (stop_finish c)
unfolding stop_finish
stop_finish-Inv c v = ground arith

destroy-Inv : (c : Coordinator) → Inv c → Inv (destroy c)
unfolding destroy
destroy-Inv c v = ground arith

mark_crashed-Inv :
    (c : Coordinator) (detail : CrashDetail)
    → c.reader_thread ≡ joinable
    → c.process_running ≡ false
    → Inv c
    → Inv (mark_crashed c detail).0
unfolding mark_crashed
mark_crashed-Inv c detail j r v = ground (arith, length-append c.crash_log (detail ∷ []))

-- The reader has cleared `processRunning` when it reports.
stopped-Inv : (c : Coordinator) → Inv c → Inv (record c { process_running = false })
stopped-Inv c v = ground arith

check_heartbeat-Inv :
    (c : Coordinator) (now : ℕ) (alive : Bool)
    → c.reader_thread ≡ joinable
    → Inv c
    → Inv (check_heartbeat c now alive)
unfolding check_heartbeat
check_heartbeat-Inv c now alive j v =
    let stopped : Coordinator = record c { process_running = false } in
    ground (
      arith,
      mark_crashed-Inv stopped (heartbeat_timeout c.heartbeat_timeout_ms) j refl (stopped-Inv c v),
    )

handle_pipe_closed-Inv :
    (c : Coordinator) (o : ExitOutcome)
    → c.reader_thread ≡ joinable
    → Inv c
    → Inv (handle_pipe_closed c o)
unfolding handle_pipe_closed
handle_pipe_closed-Inv c o j v =
    let stopped : Coordinator = record c { process_running = false } in
    let kept = λ (d : CrashDetail). mark_crashed-Inv stopped d j refl (stopped-Inv c v) in
    ground (
      arith,
      stopped-Inv c v,
      kept closed_output,
      kept (exited_with o.exit_code (last_log_summary c.lines)),
    )

reader_done-Inv : (c : Coordinator) → Inv c → Inv (record c { reader_done = true })
reader_done-Inv c v = ground arith

lines-Inv : (c : Coordinator) (b : LineBuffer) → Inv c → Inv (record c { lines = b })
lines-Inv c b v = ground arith

module _ (u : Utf8) where
  reader_round-Inv :
      (c : Coordinator) (peek : Peek)
      → c.reader_thread ≡ joinable
      → Inv c
      → Inv (reader_round u c peek)
  unfolding reader_round
  reader_round-Inv c (broken o) j v = ground (
    arith,
    reader_done-Inv c v,
    reader_done-Inv (handle_pipe_closed c o) (handle_pipe_closed-Inv c o j v),
  )
  reader_round-Inv c (bytes clock chunk) j v =
      ground (arith, reader_done-Inv c v, lines-Inv c (consume_bytes u clock c.lines chunk) v)
  reader_round-Inv c (nothing now alive) j v =
      ground (arith, reader_done-Inv c v, check_heartbeat-Inv c now alive j v)

  -- Every step keeps the invariant: no more crashes are counted than children were spawned, and fewer
  -- while the present child has no report; a running child has all three handles and a reader; a
  -- reported crash and a requested stop both mean that nothing runs, and after a report no handle is
  -- left open.
  pub step-Inv : (c : Coordinator) (a : Action) → Inv c → Inv (step u c a)
  unfolding step
  step-Inv c (call_start join spawn) v = start-Inv c join spawn v
  step-Inv c (call_restart join spawn) v = restart-Inv c join spawn v
  step-Inv c finish_stop v = stop_finish-Inv c v
  step-Inv c call_destroy v = destroy-Inv c v
  step-Inv c call_pop v = lines-Inv c (pop_line c.lines).0 v
  step-Inv c (set_on_crash b) v = ground arith
  step-Inv c (set_cancel b) v = ground arith
  step-Inv c (round peek) v = ground (arith, reader_round-Inv c peek)

  run-Inv : (c : Coordinator) (actions : List Action) → Inv c → Inv (run u c actions)
  unfolding run
  run-Inv c [] v = v
  run-Inv c (a ∷ rest) v = run-Inv (step u c a) rest (step-Inv c a v)

  -- In every history from the construction on, each successful spawn is reported as crashed at most
  -- once: neither the count nor the calls of onCrash exceed the number of spawns.
  pub run-crash_count-le :
      (timeout : ℤ) (actions : List Action)
      → let c = run u (init timeout) actions in
        (c.crash_count ≤ c.spawns) × (length c.crash_log ≤ c.crash_count)
  run-crash_count-le timeout actions =
      let v = run-Inv (init timeout) actions (init-Inv timeout) in (v.crash_le, v.log_le)
