-- ===== src/Child/Coordinator/Tests.antt =====
-- Runs of the coordinator of source/host/ChildProcessCoordinator.cpp, and its theorems at inputs.
use plugin_lab.Prelude.{ℕ, ◌≤◌, ◌≡◌, ◌≢◌, inr, refl, true, false, List, [], ◌∷◌, arith, length}
use plugin_lab.Prelude.Int.{pos}
use plugin_lab.Child.Lines.{Utf8}
use plugin_lab.Child.Coordinator.{
  Coordinator, JoinOutcome, created, broken, nothing, Action, call_start, call_restart, round, init,
  restart, handle_pipe_closed, reader_round, step, run, null, joinable, ExitOutcome,
}
use plugin_lab.Child.Coordinator.Invariant.{Inv, step-Inv, run-crash_count-le}
use plugin_lab.Child.Coordinator.Reports.{rounds, reported_once}
use plugin_lab.Child.Coordinator.Handles.{IsBalanced, step-IsBalanced, restart_recovers}

-- ASCII: a byte is its character.
cons_ne_nil : (b : ℕ) (bs : List ℕ) → (b ∷ bs) ≢ []
cons_ne_nil b bs e = cc e

abbrev ascii : Utf8
ascii = record { decode = λ b. b; decode_ne_nil = cons_ne_nil }

abbrev fresh : Coordinator
fresh = record {
  heartbeat_timeout_ms = pos 3000;
  on_crash = true;
  process_handle = false;
  stdin_write_handle = false;
  stdout_read_handle = false;
  process_running = false;
  stop_requested = false;
  crash_reported = false;
  reader_done = false;
  cancel_requested = false;
  crash_count = 0;
  reader_thread = null;
  lines = record {
    pending_bytes = [];
    line_queue = [];
    last_log_lines = [];
    last_heartbeat_ms = 0;
  };
  kernel_handles = 0;
  spawns = 0;
  crash_log = [];
}

abbrev up : Coordinator
up = record fresh {
  process_handle = true;
  stdin_write_handle = true;
  stdout_read_handle = true;
  process_running = true;
  reader_thread = joinable;
  kernel_handles = 3;
  spawns = 1;
}

up-Inv : Inv up
up-Inv = ground arith

abbrev access_violation : ExitOutcome
access_violation = record { ended = true; exit_code = 0xc000_0005 }

step-Inv_example : Inv (step ascii up (round (broken access_violation)))
step-Inv_example = step-Inv ascii up (round (broken access_violation)) up-Inv

abbrev joins : JoinOutcome
joins = record { same_thread = false; finishes = true }

abbrev crash_and_restart : List Action
crash_and_restart =
    call_start joins (created 5)
    ∷ round (broken access_violation)
    ∷ call_restart joins (created 9)
    ∷ round (nothing 4000 true)
    ∷ []

counts_two : (run ascii (init (pos 3000)) crash_and_restart).crash_count ≡ 2
unfolding run step init
counts_two = refl

run-crash_count-le_example :
    let c = run ascii (init (pos 3000)) crash_and_restart in
    (c.crash_count ≤ c.spawns) × (length c.crash_log ≤ c.crash_count)
run-crash_count-le_example = run-crash_count-le ascii (pos 3000) crash_and_restart

reported_once_example :
    (rounds ascii
      (reader_round ascii up (broken access_violation))
      (nothing 9000 true ∷ [])).crash_count
    ≡ 1
unfolding reader_round handle_pipe_closed
reported_once_example =
    (reported_once ascii up (broken access_violation) (nothing 9000 true ∷ []) refl refl).0

step-IsBalanced_example : IsBalanced (step ascii up (round (broken access_violation)))
step-IsBalanced_example = step-IsBalanced ascii up (round (broken access_violation)) tt refl

-- A child that has ended by itself.
abbrev gone : Coordinator
gone = record up { process_running = false }

abbrev crashed : Coordinator
crashed = record fresh {
  crash_reported = true;
  reader_thread = joinable;
  spawns = 1;
  crash_count = 1;
}

restart_recovers_example : (restart crashed joins (created 8)).1 ≡ true
restart_recovers_example =
    (restart_recovers crashed joins 8 (ground arith) refl refl refl (inr refl)).0
