-- ===== src/Child/Coordinator/Reports.antt =====
-- When the coordinator of source/host/ChildProcessCoordinator.cpp reports a crash.
use plugin_lab.Prelude.{
  ℕ, suc, ◌+◌, ◌%◌, ◌^◌, ◌<◌, ◌≡◌, ◌↔◌, refl, true, false, ◌&&◌, List, [], ◌∷◌, ◌==◌, arith,
  if◌then◌else◌,
}
use plugin_lab.Prelude.Int.{pos}
use plugin_lab.Child.Lines.{Utf8}
use plugin_lab.Child.Coordinator.{
  Coordinator, ExitOutcome, Peek, broken, bytes, nothing, close_handles, stop_finish, destroy,
  mark_crashed, is_stale, check_heartbeat, handle_pipe_closed, reader_round,
}

-- The deadline test is exact across the wrap of the 32-bit counter: with a timeout below 2^32 ms and
-- less than 2^32 ms since the last line, a child is stale just when the timeout is not 0 and more
-- time than the timeout has passed.
is_stale_iff :
    (timeout last passed : ℕ)
    → timeout < 2 ^ 32
    → passed < 2 ^ 32
    → (is_stale (pos timeout) ((last + passed) % 2 ^ 32) (last % 2 ^ 32) ≡ true)
      ↔ ((0 < timeout) × (timeout < passed))
unfolding is_stale
is_stale_iff timeout last passed ht hp = ground arith

-- A closed pipe of a child that is neither being stopped nor reported counts one crash, unless the
-- child has ended with exit code 0; the child is no longer running in either case.
handle_pipe_closed_reports :
    (c : Coordinator) (o : ExitOutcome)
    → c.stop_requested ≡ false
    → c.crash_reported ≡ false
    → let graceful = o.ended && o.exit_code == 0 in
      let out = handle_pipe_closed c o in
      (out.crash_count ≡ (if graceful then c.crash_count else suc c.crash_count))
      × (out.crash_reported ≡ (if graceful then false else true))
      × (out.process_running ≡ false)
unfolding handle_pipe_closed mark_crashed
handle_pipe_closed_reports c o s r = ground arith

module _ (u : Utf8) where
  abbrev pub rounds : Coordinator → List Peek → Coordinator
  rounds c [] = c
  rounds c (p ∷ ps) = rounds (reader_round u c p) ps

  rounds_stopped :
      (c : Coordinator) (ps : List Peek)
      → c.stop_requested ≡ true
      → let out = rounds c ps in
        (out.crash_count ≡ c.crash_count)
        × (out.crash_log ≡ c.crash_log)
        × (out.process_running ≡ c.process_running)
        × (out.kernel_handles ≡ c.kernel_handles)
  unfolding reader_round
  rounds_stopped c [] h = (refl, refl, refl, refl)
  rounds_stopped c (p ∷ ps) h =
      ground (arith, rounds_stopped (record c { reader_done = true }) ps h)

  -- A deliberate stop, and the destructor, are never reported as a crash: whatever a reader that is
  -- still about meets afterwards, the count and the calls of onCrash stay as they were before, the
  -- child is not running.
  stop_is_no_crash :
      (c : Coordinator) (ps : List Peek)
      → let stopped = rounds (stop_finish c) ps in
        let gone = rounds (destroy c) ps in
        (stopped.crash_count ≡ c.crash_count)
        × (stopped.crash_log ≡ c.crash_log)
        × (stopped.process_running ≡ false)
        × (gone.crash_count ≡ c.crash_count)
        × (gone.crash_log ≡ c.crash_log)
        × (gone.process_running ≡ false)
  unfolding stop_finish destroy close_handles
  stop_is_no_crash c ps =
      ground (arith, rounds_stopped (stop_finish c) ps, rounds_stopped (destroy c) ps)

  rounds_reported :
      (c : Coordinator) (ps : List Peek)
      → c.crash_reported ≡ true
      → c.process_running ≡ false
      → let out = rounds c ps in (out.crash_count ≡ c.crash_count) × (out.crash_log ≡ c.crash_log)
  unfolding reader_round
  rounds_reported c [] h r = (refl, refl)
  rounds_reported c (p ∷ ps) h r =
      ground (arith, rounds_reported (record c { reader_done = true }) ps h r)

  -- A crash is reported once: the round of the reader that reports it counts one, and no later round
  -- of that reader changes the count or calls onCrash again.
  pub reported_once :
      (c : Coordinator) (p : Peek) (ps : List Peek)
      → c.crash_reported ≡ false
      → (reader_round u c p).crash_reported ≡ true
      → let out = rounds (reader_round u c p) ps in
        (out.crash_count ≡ suc c.crash_count) × (out.crash_log ≡ (reader_round u c p).crash_log)
  unfolding reader_round check_heartbeat handle_pipe_closed mark_crashed
  reported_once c (broken o) ps h r =
      ground (arith, rounds_reported (reader_round u c (broken o)) ps r)
  reported_once c (bytes clock chunk) ps h r = ground (arith)
  reported_once c (nothing now alive) ps h r =
      ground (arith, rounds_reported (reader_round u c (nothing now alive)) ps r)
