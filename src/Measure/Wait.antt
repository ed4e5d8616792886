-- ===== src/Measure/Wait.antt =====
-- waitForLine of source/host/ChildMeasureOrchestrator.cpp: two ways in which it gives up on a child
-- that is well.
use plugin_lab.Prelude.{
  ℕ, suc, ◌+◌, ◌%◌, ◌^◌, ◌≤◌, ◌<◌, ◌≡◌, refl, ap, true, false, String, Option, none, some, arith,
  ltb,
}
use plugin_lab.Measure.{Setting, ends, again, wait_round, wait_loop, wait_for_line}

module _ (g : Setting) where
  old_crash_ends_round :
      (needle : String) (deadline baseline : ℕ) (w : g.World)
      → let (w1, now) = g.millisecond_counter w in
        let (w2, cancelled) = g.is_cancel_requested w1 in
        let (w3, line) = g.pop_line w2 in
        now < deadline
        → cancelled ≡ false
        → line ≡ ""
        → baseline < (g.crash_count w3).1
        → wait_round g needle deadline baseline w ≡ ends (g.crash_count w3).0 none
  unfolding wait_round
  old_crash_ends_round needle deadline baseline w early going silent old =
      let running : ltb (g.millisecond_counter w).1 deadline ≡ true = ground (arith, early) in
      let asked = (g.is_cancel_requested (g.millisecond_counter w).0).0 in
      let counted : ltb baseline (g.crash_count (g.pop_line asked).0).1 ≡ true =
        ground (arith, old) in
      rw (running, going, silent, counted) refl

  -- Where a crash has come since the last success, the first poll that finds no line ends the wait
  -- with no line, before the deadline, whether the child of this run is well or not.
  old_crash_ends_wait :
      (fuel : ℕ) (needle : String) (timeout baseline : ℕ) (w : g.World)
      → let w0 = (g.millisecond_counter w).0 in
        let deadline = ((g.millisecond_counter w).1 + timeout) % 2 ^ 32 in
        let (w1, now) = g.millisecond_counter w0 in
        let (w2, cancelled) = g.is_cancel_requested w1 in
        let (w3, line) = g.pop_line w2 in
        now < deadline
        → cancelled ≡ false
        → line ≡ ""
        → baseline < (g.crash_count w3).1
        → wait_for_line g (suc fuel) needle timeout baseline w ≡ some ((g.crash_count w3).0, none)
  unfolding wait_for_line wait_loop wait_round
  old_crash_ends_wait fuel needle timeout baseline w early going silent old =
      let w0 = (g.millisecond_counter w).0 in
      let deadline = ((g.millisecond_counter w).1 + timeout) % 2 ^ 32 in
      ap
        (λ r. elim r as (λ r'. Option (g.World × Option String)) [
          | ends w' line ↦ some (w', line)
          | again w' ↦ wait_loop g fuel needle deadline baseline w'
        ])
        (old_crash_ends_round needle deadline baseline w0 early going silent old)

  -- If the deadline passes 2^32, the wait is over before the first poll, unless the clock has wrapped
  -- by then as well.
  deadline_wraps :
      (fuel : ℕ) (needle : String) (timeout baseline : ℕ) (w : g.World)
      → let (w0, now) = g.millisecond_counter w in
        now < 2 ^ 32
        → timeout < 2 ^ 32
        → 2 ^ 32 ≤ now + timeout
        → now ≤ (g.millisecond_counter w0).1
        → wait_for_line g (suc fuel) needle timeout baseline w
          ≡ some ((g.millisecond_counter w0).0, none)
  unfolding wait_for_line wait_loop wait_round
  deadline_wraps fuel needle timeout baseline w n t wraps later = ground arith
