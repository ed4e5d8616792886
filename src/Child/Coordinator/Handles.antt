-- ===== src/Child/Coordinator/Handles.antt =====
-- Kernel handles of the coordinator of source/host/ChildProcessCoordinator.cpp, and recovery.
use plugin_lab.Prelude.{ℕ, ◌+◌, ◌≡◌, ◌⊎◌, true, false, arith}
use plugin_lab.Child.Lines.{Utf8}
use plugin_lab.Child.Coordinator.{
  Coordinator, JoinOutcome, created, Peek, Action, call_start, call_restart, finish_stop,
  call_destroy, call_pop, set_on_crash, set_cancel, round, open_count, close_handles, start,
  restart, stop_finish, destroy, mark_crashed, check_heartbeat, handle_pipe_closed, reader_round,
  step, broken, bytes, nothing,
}
use plugin_lab.Child.Coordinator.Invariant.{Inv}

-- Windows has open exactly the handles that the members hold.
abbrev pub IsBalanced : Coordinator → Type 0
IsBalanced c = c.kernel_handles ≡ open_count c

-- start() alone wants the members to hold nothing.
abbrev pub IsSafeFor : Coordinator → Action → Type 0
IsSafeFor c (call_start _ _) = open_count c ≡ 0
IsSafeFor c _ = Unit

module _ (u : Utf8) where
  reader_round-IsBalanced :
      (c : Coordinator) (peek : Peek) → IsBalanced c → IsBalanced (reader_round u c peek)
  unfolding reader_round handle_pipe_closed check_heartbeat mark_crashed close_handles
  reader_round-IsBalanced c (broken o) h = ground arith
  reader_round-IsBalanced c (bytes clock chunk) h = ground arith
  reader_round-IsBalanced c (nothing now alive) h = ground arith

  -- No step but start() leaks or double-closes a handle; start() does not if the members hold none.
  pub step-IsBalanced :
      (c : Coordinator) (a : Action) → IsSafeFor c a → IsBalanced c → IsBalanced (step u c a)
  unfolding step start restart stop_finish destroy close_handles
  step-IsBalanced c (call_start join spawn) closed h = ground arith
  step-IsBalanced c (call_restart join spawn) closed h = ground arith
  step-IsBalanced c finish_stop closed h = ground arith
  step-IsBalanced c call_destroy closed h = ground arith
  step-IsBalanced c call_pop closed h = h
  step-IsBalanced c (set_on_crash b) closed h = h
  step-IsBalanced c (set_cancel b) closed h = h
  step-IsBalanced c (round peek) closed h = ground (arith, reader_round-IsBalanced c peek h)

-- Each handle that a child left open is leaked by the next start(): after a successful one Windows
-- has as many handles more than the members hold.
start_leaks :
    (c : Coordinator) (join : JoinOutcome) (now : ℕ)
    → IsBalanced c
    → c.process_running ≡ false
    → (start c join (created now)).1 ≡ true
    → let out = (start c join (created now)).0 in out.kernel_handles ≡ open_count out + open_count c
unfolding start
start_leaks c join now h r ok = ground arith

-- A child that ends by itself with exit code 0 leaves its three handles open.
graceful_exit_keeps_handles :
    (c : Coordinator)
    → c.stop_requested ≡ false
    → open_count (handle_pipe_closed c (record { ended = true; exit_code = 0 })) ≡ open_count c
unfolding handle_pipe_closed
graceful_exit_keeps_handles c s = ground arith

-- After a reported crash restart() brings up a fresh child, if it is not called on the reader thread,
-- that thread finishes in time and Windows creates the process: nothing is reported or requested of
-- the new child, its heartbeat starts now, the number of crashes is kept and no handle is leaked.
pub restart_recovers :
    (c : Coordinator) (join : JoinOutcome) (now : ℕ)
    → Inv c
    → IsBalanced c
    → c.crash_reported ≡ true
    → join.same_thread ≡ false
    → (c.reader_done ≡ true) ⊎ (join.finishes ≡ true)
    → let (out, ok) = restart c join (created now) in
      (ok ≡ true)
      × (out.process_running ≡ true)
      × (out.crash_reported ≡ false)
      × (out.stop_requested ≡ false)
      × (out.lines.last_heartbeat_ms ≡ now)
      × (out.crash_count ≡ c.crash_count)
      × (out.kernel_handles ≡ 3)
unfolding restart
restart_recovers c join now v h r other ends = ground arith
