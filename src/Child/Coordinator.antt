-- ===== src/Child/Coordinator.antt =====
-- PluginHostChildCoordinator of source/host/ChildProcessCoordinator.{h,cpp}: spawning, the reader
-- thread with its watchdog, crash reports and shutdown. What Windows answers is an argument of each
-- operation. A host call or one round of the reader's loop is one step; stop() is two, so that the
-- reader can run while stop() waits. `uint32_t` times wrap.
pub mod Invariant
pub mod Reports
pub mod Handles
mod Tests
use plugin_lab.Prelude.{
  ℕ, suc, ◌+◌, ◌-◌, ◌%◌, ◌^◌, Bool, true, false, not, ◌||◌, ◌&&◌, List, [], ◌∷◌, ◌++◌, leb, ◌==◌,
  if◌then◌else◌,
}
use plugin_lab.Prelude.Int.{ℤ, pos, negsuc}
use plugin_lab.Child.Lines.{Utf8, LineBuffer, Text, consume_bytes, last_log_summary, pop_line}

-- STILL_ACTIVE of the Windows API.
abbrev pub still_active : ℕ
still_active = 259

-- The text that onCrash gets.
pub data CrashDetail : Type 0 where
  heartbeat_timeout : ℤ → CrashDetail
  closed_output : CrashDetail
  exited_with : ℕ → Text → CrashDetail

-- `readerThread`: null, holding a thread that cannot be joined, or one that can.
pub data ReaderThread : Type 0 where
  null unjoinable joinable : ReaderThread

-- The three handles are null or not. `kernel_handles` counts what Windows has open for this object;
-- `spawns` counts the successful spawns and `crash_log` lists the calls of onCrash. The code keeps
-- none of these three; they are there for the theorems.
pub record Coordinator : Type 0 where
  pub heartbeat_timeout_ms : ℤ
  pub on_crash : Bool
  pub process_handle : Bool
  pub stdin_write_handle : Bool
  pub stdout_read_handle : Bool
  pub process_running : Bool
  pub stop_requested : Bool
  pub crash_reported : Bool
  pub reader_done : Bool
  pub cancel_requested : Bool
  pub crash_count : ℕ
  pub reader_thread : ReaderThread
  pub lines : LineBuffer
  pub kernel_handles : ℕ
  pub spawns : ℕ
  pub crash_log : List CrashDetail

pub init : ℤ → Coordinator
init timeout = record {
  heartbeat_timeout_ms = timeout;
  on_crash = false;
  process_handle = false;
  stdin_write_handle = false;
  stdout_read_handle = false;
  process_running = false;
  stop_requested = false;
  crash_reported = false;
  reader_done = false;
  cancel_requested = false;
  crash_count = 0;
  reader_thread = null;
  lines = record {
    pending_bytes = [];
    line_queue = [];
    last_log_lines = [];
    last_heartbeat_ms = 0;
  };
  kernel_handles = 0;
  spawns = 0;
  crash_log = [];
}

abbrev pub as_count : Bool → ℕ
as_count b = if b then 1 else 0

abbrev pub open_count : Coordinator → ℕ
open_count c =
    as_count c.stdin_write_handle + as_count c.stdout_read_handle + as_count c.process_handle

pub close_handles : Coordinator → Coordinator
close_handles c = record c {
  stdin_write_handle = false;
  stdout_read_handle = false;
  process_handle = false;
  kernel_handles = c.kernel_handles - open_count c;
}

-- How far spawnChild gets: the second pipe and the process may fail to be created. The number is the
-- millisecond counter after the spawn.
pub data SpawnOutcome : Type 0 where
  no_stdin_pipe no_stdout_pipe no_process : SpawnOutcome
  created : ℕ → SpawnOutcome

-- Each pipe is two handles, the new process two more; the child's two ends and the thread's handle
-- are closed again, and on failure all of them.
pub spawn_child : Coordinator → SpawnOutcome → Coordinator × Bool
spawn_child c no_stdin_pipe = (c, false)
spawn_child c no_stdout_pipe = (record c { kernel_handles = c.kernel_handles + 2 - 2 }, false)
spawn_child c no_process = (record c { kernel_handles = c.kernel_handles + 2 + 2 - 2 - 2 }, false)
spawn_child c (created now) = (
  record c {
    kernel_handles = c.kernel_handles + 2 + 2 + 2 - 2 - 1;
    process_handle = true;
    stdin_write_handle = true;
    stdout_read_handle = true;
    process_running = true;
    crash_reported = false;
    stop_requested = false;
    reader_done = false;
    lines = record (c.lines) { last_heartbeat_ms = now; pending_bytes = [] };
    reader_thread = joinable;
    spawns = suc c.spawns;
  },
  true,
)

-- What joinFinishedReader meets: is it called on the reader thread, and does the reader finish
-- within the grace time.
pub record JoinOutcome : Type 0 where
  pub same_thread : Bool
  pub finishes : Bool

pub join_finished_reader : Coordinator → JoinOutcome → Coordinator × Bool
join_finished_reader c o = elim c.reader_thread [
  | null ↦ (c, true)
  | unjoinable ↦ (record c { reader_thread = null }, true)
  | joinable ↦
      if o.same_thread
      then (c, false)
      else if c.reader_done || o.finishes
      then (record c { reader_done = true; reader_thread = null }, true)
      else (c, false)
]

pub start : Coordinator → JoinOutcome → SpawnOutcome → Coordinator × Bool
unfolding join_finished_reader spawn_child
start c join spawn =
    if c.process_running
    then (c, false)
    else let (joined, ok) = join_finished_reader c join in
      if ok then spawn_child joined spawn else (joined, false)

pub restart : Coordinator → JoinOutcome → SpawnOutcome → Coordinator × Bool
unfolding join_finished_reader spawn_child close_handles
restart c join spawn =
    if c.process_running
    then (c, false)
    else let (joined, ok) = join_finished_reader c join in
      if ok then spawn_child (close_handles joined) spawn else (joined, false)

-- Is the line written: WriteFile succeeds, and with all bytes.
pub send_line : Coordinator → Bool → Bool
send_line c written = c.process_running && written

-- The first half of stop(): it goes on only if the child runs, sends the stop line, and waits for
-- the child, whatever that brings.
pub stop_goes_on : Coordinator → Bool
stop_goes_on c = c.process_running

-- The second half: both branches of the wait set the flag.
pub stop_finish : Coordinator → Coordinator
unfolding close_handles
stop_finish c =
    let closed = close_handles (record c { stop_requested = true; process_running = false }) in
    elim c.reader_thread [
      | joinable ↦ record closed { reader_thread = null; reader_done = true }
      | other ↦ closed
    ]

-- The destructor; a reader that has not finished is abandoned.
pub destroy : Coordinator → Coordinator
unfolding close_handles
destroy c = record (close_handles (record c { stop_requested = true; process_running = false })) {
  reader_thread = null;
}

pub mark_crashed : Coordinator → CrashDetail → Coordinator × Bool
unfolding close_handles
mark_crashed c detail =
    if c.stop_requested
    then (c, false)
    else if c.crash_reported
    then (record c { crash_reported = true }, false)
    else let closed =
        close_handles (record c { crash_reported = true; crash_count = suc c.crash_count }) in
      (
        record closed {
          crash_log = if c.on_crash then c.crash_log ++ (detail ∷ []) else c.crash_log;
        },
        true,
      )

-- The deadline test of the watchdog, on `uint32_t`: is the child silent for longer than the timeout.
pub is_stale : ℤ → ℕ → ℕ → Bool
is_stale (negsuc _) now last = false
is_stale (pos timeout) now last =
    not (timeout == 0) && not (leb ((now + 2 ^ 32 - last) % 2 ^ 32) (timeout % 2 ^ 32))

-- `alive` is the answer of the wait with no timeout: WAIT_TIMEOUT.
pub check_heartbeat : Coordinator → ℕ → Bool → Coordinator
unfolding mark_crashed is_stale
check_heartbeat c now alive =
    if is_stale c.heartbeat_timeout_ms now c.lines.last_heartbeat_ms && alive
    then (mark_crashed (record c { process_running = false })
        (heartbeat_timeout c.heartbeat_timeout_ms)).0
    else c

-- What Windows says of the process once its output is closed: does it end within the grace time,
-- and its exit code (STILL_ACTIVE if that cannot be read).
pub record ExitOutcome : Type 0 where
  pub ended : Bool
  pub exit_code : ℕ

pub handle_pipe_closed : Coordinator → ExitOutcome → Coordinator
unfolding mark_crashed
handle_pipe_closed c o =
    let stopped = record c { process_running = false } in
    if c.stop_requested
    then stopped
    else if not o.ended || o.exit_code == still_active
    then (mark_crashed stopped closed_output).0
    else if o.exit_code == 0
    then stopped
    else (mark_crashed stopped (exited_with o.exit_code (last_log_summary c.lines))).0

-- What one round of the reader's loop meets at the pipe: the peek or the read fails, bytes come
-- (with the clock of each), or there is nothing to read.
pub data Peek : Type 0 where
  broken : ExitOutcome → Peek
  bytes : (ℕ → ℕ) → List ℕ → Peek
  nothing : (now : ℕ) (alive : Bool) → Peek

-- A step of a history: a host call, or a round of a reader that has not finished. `finish_stop` is
-- the end of a stop() that went on some time before.
pub data Action : Type 0 where
  call_start call_restart : JoinOutcome → SpawnOutcome → Action
  finish_stop call_destroy call_pop : Action
  set_on_crash set_cancel : Bool → Action
  round : Peek → Action

module _ (u : Utf8) where
  -- One round of readerLoop. The loop's test may end it instead; the thread then is done.
  pub reader_round : Coordinator → Peek → Coordinator
  unfolding handle_pipe_closed check_heartbeat
  reader_round c peek =
      if c.stop_requested || not c.process_running
      then record c { reader_done = true }
      else elim peek [
        | broken o ↦ record (handle_pipe_closed c o) { reader_done = true }
        | bytes clock chunk ↦ record c { lines = consume_bytes u clock c.lines chunk }
        | nothing now alive ↦ check_heartbeat c now alive
      ]

  pub step : Coordinator → Action → Coordinator
  unfolding start restart stop_finish destroy reader_round
  step c (call_start join spawn) = (start c join spawn).0
  step c (call_restart join spawn) = (restart c join spawn).0
  step c finish_stop = stop_finish c
  step c call_destroy = destroy c
  step c call_pop = record c { lines = (pop_line c.lines).0 }
  step c (set_on_crash b) = record c { on_crash = b }
  step c (set_cancel b) = record c { cancel_requested = b }
  step c (round peek) = elim c.reader_thread [
    | joinable ↦ if c.reader_done then c else reader_round c peek
    | other ↦ c
  ]

  pub run : Coordinator → List Action → Coordinator
  run c [] = c
  run c (a ∷ as') = run (step c a) as'
