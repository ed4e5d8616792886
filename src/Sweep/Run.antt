-- ===== src/Sweep/Run.antt =====
-- SweepRunner::run of source/capture/SweepRunner.cpp as a whole.
use plugin_lab.Prelude.{
  ℕ, ◌+◌, ◌≤◌, ◌<◌, ◌≡◌, refl, inl, inr, Bool, true, false, not, ◌&&◌, [], Option, some, arith, All,
}
use plugin_lab.Sweep.{
  Rig, Plan, Loop, ended, threw, no_fuel, Runner, plan_of, start_pass, after_loops, teardown,
  finish, run_prepared, begin, run,
}
use plugin_lab.Sweep.Loops.{sample_count, Good}
use plugin_lab.Sweep.Tail.{Result, both_loops-Result}

module _ (r : Rig) (cancel : ℕ → Bool) where
  -- `run` has returned, is no longer running, and has appended no more than planned, in blocks of
  -- the block size at most; if it says that it succeeded, all of the signal and of the tail, to the
  -- sample, and the result is trimmed.
  pub record IsRunOf (plan : Plan) (out : Runner r) (ok : Bool) : Type 0 where
    pub stopped : out.running ≡ false
    pub count_le : sample_count out.appended ≤ plan.total_length + plan.tail_target
    pub blocks : All (λ a. a.num_samples ≤ plan.block_size) out.appended
    pub complete : ok ≡ true → sample_count out.appended ≡ plan.total_length + plan.tail_target
    pub trimmed : ok ≡ true → out.trimmed ≡ true

  abbrev pub Returns : Plan → Option (Runner r × Bool) → Type 0
  Returns plan out = (x : Runner r × Bool) × (out ≡ some x) × IsRunOf plan x.0 x.1

  finish-Returns :
      (plan : Plan) (runner : Runner r) (out : Loop r)
      → ((j k : ℕ) → j ≤ k → cancel j ≡ true → cancel k ≡ true)
      → Result r cancel plan out
      → Returns plan (finish r cancel runner out)
  unfolding finish
  finish-Returns plan runner no_fuel once v = absurd v
  finish-Returns plan runner (threw s) once v = (
    (record (after_loops r runner s) { running = false }, false),
    refl,
    record {
      stopped = refl;
      count_le = omega (arith, v.counted, v.generated_le, v.tail_le);
      blocks = v.blocks;
      complete = λ ok. cc;
      trimmed = λ ok. cc;
    },
  )
  finish-Returns plan runner (ended s) once (v, how) =
      let (plugin, prepared) = teardown r s.plugin in
      (
        (
          record (after_loops r runner s) {
            plugin = plugin;
            plugin_prepared = prepared;
            trimmed = true;
            running = false;
          },
          not (cancel s.polls),
        ),
        refl,
        record {
          stopped = refl;
          count_le = omega (arith, v.counted, v.generated_le, v.tail_le);
          blocks = v.blocks;
          complete = λ ok. elim how [
            | inl (full, tail) ↦ omega (arith, v.counted)
            | inr (k, stop, before) ↦ ground (arith, once k s.polls (omega arith) stop)
          ];
          trimmed = λ ok. refl;
        },
      )

  start-Good :
      (plan : Plan) (p : r.Plugin) (g : r.Generator) → Good r cancel plan 0 (start_pass r p g)
  start-Good plan p g = record {
    generated_le = omega arith;
    tail_le = omega arith;
    counted = refl;
    blocks = tt;
    calls = tt;
    polls_le = omega arith;
  }

  run_prepared-Returns :
      (plan : Plan) (runner : Runner r) (prepared : Bool)
      → 0 < plan.block_size
      → ((j k : ℕ) → j ≤ k → cancel j ≡ true → cancel k ≡ true)
      → runner.appended ≡ []
      → Returns plan (run_prepared r cancel plan runner prepared)
  unfolding run_prepared
  run_prepared-Returns plan runner false p once fresh = (
    (record runner { running = false }, false),
    refl,
    record {
      stopped = refl;
      count_le = rw fresh (omega arith);
      blocks = rw fresh tt;
      complete = λ ok. cc;
      trimmed = λ ok. cc;
    },
  )
  run_prepared-Returns plan runner true p once fresh =
      finish-Returns plan runner _ once
        (both_loops-Result r cancel plan _ p (start-Good plan runner.plugin runner.generator))

  -- The plan that `run` makes.
  abbrev pub plan_for : ℕ → Runner r → Plan
  plan_for fallback runner =
      plan_of runner.block_size (r.get_total_length (begin r runner).0.generator) fallback
        runner.tail_pad_samples

  -- With a generator, a plugin, blocks of one sample at least, and a cancel flag that stays set while
  -- the run lasts, `run` always returns, whatever the plugin throws: it no longer counts as running,
  -- has appended no more samples than the signal and the tail have, in blocks of the block size at
  -- most, and where it reports success it has appended exactly the signal and the tail and trimmed
  -- the result.
  pub run-Returns :
      (fallback : ℕ) (runner : Runner r)
      → runner.has_generator ≡ true
      → runner.has_plugin ≡ true
      → 0 < runner.block_size
      → ((j k : ℕ) → j ≤ k → cancel j ≡ true → cancel k ≡ true)
      → Returns (plan_for fallback runner) (run r cancel fallback runner)
  unfolding run begin plan_of
  run-Returns fallback runner gen plug p once =
      let both : runner.has_generator && runner.has_plugin ≡ true = ground arith in
      rw both (
        run_prepared-Returns (plan_for fallback runner) (begin r runner).0 (begin r runner).1 p once
          refl)
