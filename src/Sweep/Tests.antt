-- ===== src/Sweep/Tests.antt =====
-- SweepRunner::run of source/capture/SweepRunner.cpp: its theorem at an input.
use plugin_lab.Prelude.{
  ℕ, suc, ◌≤◌, ◌≡◌, refl, true, false, List, [], ◌∷◌, Option, none, some, arith, ltb, ◌+◌,
  if◌then◌else◌,
}
use plugin_lab.Prelude.Int.{pos}
use plugin_lab.Sweep.{Rig, Runner, run, loop, plan_of, signal_round, tail_round}
use plugin_lab.Sweep.Run.{Returns, plan_for, run-Returns}

-- A plugin that counts its calls and throws at the fifth, a generator that counts its samples, and
-- blocks that are their first sample.
abbrev counting : Rig
counting = record {
  Plugin = ℕ;
  Generator = ℕ;
  Block = ℕ;
  release_resources = λ p. (suc p, true);
  set_non_realtime = λ b p. (p, true);
  prepare_to_play = λ p. (p, true);
  process_block = λ p x. (suc p, if ltb p 4 then some x else none);
  prepare_and_reset = λ g. 0;
  get_total_length = λ g. pos 10;
  generate = λ g n. (g + n, g);
  silence = 0;
}

abbrev idle_runner : Runner counting
idle_runner = record {
  block_size = 4;
  tail_pad_samples = pos 5;
  has_generator = true;
  has_plugin = true;
  running = false;
  plugin_prepared = false;
  plugin = 0;
  generator = 0;
  appended = [];
  trimmed = false;
  progress_calls = [];
  block_calls = [];
}

never-stays : (j k : ℕ) → j ≤ k → false ≡ true → false ≡ true
never-stays j k le e = e

run-Returns_example :
    Returns counting
      (λ k. false)
      (plan_for counting (λ k. false) 1000 idle_runner)
      (run counting (λ k. false) 1000 idle_runner)
run-Returns_example =
    run-Returns counting (λ k. false) 1000 idle_runner refl refl (omega arith) never-stays

-- The signal of ten samples and the tail of five, in four blocks.
counts : Option (List ℕ)
counts = elim (run counting (λ k. false) 1000 idle_runner) [
  | none ↦ none
  | some (runner, ok) ↦ some runner.block_calls
]

runs_in_four_blocks : counts ≡ some (4 ∷ 8 ∷ 12 ∷ 15 ∷ [])
unfolding counts run loop plan_of signal_round tail_round
runs_in_four_blocks = refl
