-- ===== src/Sweep.antt =====
-- SweepRunner::run of source/capture/SweepRunner.{h,cpp}: one measurement pass, block by block. The
-- generator, the plugin and the audio blocks are a parameter; a call into the plugin may throw. What
-- goes into the CaptureBuffer and to the callbacks is a list of calls. `cancelled` is set by other
-- threads: `cancel k` is what its k-th reading gives.
pub mod Loops
pub mod Tail
pub mod Run
mod Tests
use Prim.Native.Nat.{max}
use plugin_lab.Prelude.{
  ℕ, zero, suc, ◌+◌, ◌-◌, ◌/◌, ◌%◌, ◌≤◌, Bool, true, false, not, ◌&&◌, List, [], ◌∷◌, ◌++◌, Option,
  none, some, ltb, ◌==◌, min, if◌then◌else◌,
}
use plugin_lab.Prelude.Int.{ℤ, pos, negsuc}

-- `false` and `none` stand for an exception, which leaves the plugin in some state.
pub record Rig : Type 1 where
  pub Plugin : Type 0
  pub Generator : Type 0
  pub Block : Type 0
  pub release_resources : Plugin → Plugin × Bool
  pub set_non_realtime : Bool → Plugin → Plugin × Bool
  pub prepare_to_play : Plugin → Plugin × Bool
  pub process_block : Plugin → Block → Plugin × Option Block
  pub prepare_and_reset : Generator → Generator
  pub get_total_length : Generator → ℤ
  pub generate : Generator → ℕ → Generator × Block
  pub silence : Block

-- One call of CaptureBuffer::append.
pub record Append (B : Type 0) : Type 0 where
  pub dry : B
  pub wet : B
  pub num_samples : ℕ

-- What the loops work with: lengths in samples.
pub record Plan : Type 0 where
  pub block_size : ℕ
  pub total_length : ℕ
  pub tail_target : ℕ
  pub report_interval : ℕ

-- `int64_t`, where the generator knows its length; else ten seconds.
pub total_length_of : ℤ → ℕ → ℕ
total_length_of (negsuc _) fallback = fallback
total_length_of (pos zero) fallback = fallback
total_length_of (pos (suc n)) fallback = suc n

-- juce::jmax (0, tailPadSamples)
pub tail_target_of : ℤ → ℕ
tail_target_of (negsuc _) = 0
tail_target_of (pos n) = n

pub plan_of : ℕ → ℤ → ℕ → ℤ → Plan
unfolding total_length_of tail_target_of
plan_of block_size length fallback tail_pad = record {
  block_size = block_size;
  total_length = total_length_of length fallback;
  tail_target = tail_target_of tail_pad;
  report_interval = max 1 (total_length_of length fallback / 100);
}

module _ (r : Rig) where
  open r use {Plugin, Generator, Block}

  pub record Pass : Type 0 where
    pub plugin : Plugin
    pub generator : Generator
    pub samples_generated : ℕ
    pub tail_samples : ℕ
    pub polls : ℕ
    pub appended : List (Append Block)
    pub progress_calls : List ℕ
    pub block_calls : List ℕ

  pub data Loop : Type 0 where
    ended threw : Pass → Loop
    no_fuel : Loop

  -- How many samples of the block are appended: those generated and, as far as the tail wants them,
  -- the padding behind them.
  pub tail_from_block : Plan → Pass → ℕ → ℕ
  tail_from_block plan s num_to_generate =
      if ltb s.tail_samples plan.tail_target
      then min (plan.tail_target - s.tail_samples) (plan.block_size - num_to_generate)
      else 0

  -- The body of the first loop behind a block that the plugin has processed. The block callback gets
  -- the samples done so far, of `total_length + tail_target`.
  pub record_signal : Plan → Pass → ℕ → Block → Block → Pass
  unfolding tail_from_block
  record_signal plan s num_to_generate dry wet =
      let tail = tail_from_block plan s num_to_generate in
      let generated = s.samples_generated + num_to_generate in
      record s {
        samples_generated = generated;
        tail_samples = s.tail_samples + tail;
        appended =
            s.appended
            ++ (record { dry = dry; wet = wet; num_samples = num_to_generate + tail } ∷ []);
        progress_calls =
            if generated % plan.report_interval == 0
            then s.progress_calls ++ (generated ∷ [])
            else s.progress_calls;
        block_calls = s.block_calls ++ ((generated + (s.tail_samples + tail)) ∷ []);
      }

  pub signal_round : Plan → Pass → Loop
  unfolding record_signal
  signal_round plan s =
      let n = min plan.block_size (plan.total_length - s.samples_generated) in
      let (generator, dry) = r.generate s.generator n in
      let (plugin, wet) = r.process_block s.plugin dry in
      let next = record s { generator = generator; plugin = plugin } in
      elim wet [ none ↦ threw next | some block ↦ ended (record_signal plan next n dry block) ]

  pub record_tail : Plan → Pass → ℕ → Block → Pass
  record_tail plan s n wet = record s {
    tail_samples = s.tail_samples + n;
    appended = s.appended ++ (record { dry = r.silence; wet = wet; num_samples = n } ∷ []);
    block_calls = s.block_calls ++ ((s.samples_generated + (s.tail_samples + n)) ∷ []);
  }

  pub tail_round : Plan → Pass → Loop
  unfolding record_tail
  tail_round plan s =
      let n = min plan.block_size (plan.tail_target - s.tail_samples) in
      let (plugin, wet) = r.process_block s.plugin r.silence in
      let next = record s { plugin = plugin } in
      elim wet [ none ↦ threw next | some block ↦ ended (record_tail plan next n block) ]

  -- `while (more && ! cancelled) round`
  pub loop : (ℕ → Bool) → (Pass → Bool) → (Pass → Loop) → ℕ → Pass → Loop
  loop cancel more round zero s = no_fuel
  loop cancel more round (suc fuel) s = elim (more s) [
    | false ↦ ended s
    | true ↦
        let polled = record s { polls = suc s.polls } in
        elim (cancel s.polls) [
          | true ↦ ended polled
          | false ↦ elim (round polled) [
            | ended next ↦ loop cancel more round fuel next
            | threw next ↦ threw next
            | no_fuel ↦ no_fuel
          ]
        ]
  ]

  abbrev pub more_signal : Plan → Pass → Bool
  more_signal plan s = ltb s.samples_generated plan.total_length

  abbrev pub more_tail : Plan → Pass → Bool
  more_tail plan s = ltb s.tail_samples plan.tail_target

  -- A round of either loop moves on by a sample at least.
  pub both_loops : (ℕ → Bool) → Plan → Pass → Loop
  both_loops cancel plan s =
      elim (loop cancel (more_signal plan) (signal_round plan) (suc plan.total_length) s) [
        | ended mid ↦ loop cancel (more_tail plan) (tail_round plan) (suc plan.tail_target) mid
        | threw next ↦ threw next
        | no_fuel ↦ no_fuel
      ]

  pub record Runner : Type 0 where
    pub block_size : ℕ
    pub tail_pad_samples : ℤ
    pub has_generator : Bool
    pub has_plugin : Bool
    pub running : Bool
    pub plugin_prepared : Bool
    pub plugin : Plugin
    pub generator : Generator
    pub appended : List (Append Block)
    pub trimmed : Bool
    pub progress_calls : List ℕ
    pub block_calls : List ℕ

  -- The first `try` block.
  pub prepare_plugin : Bool → Plugin → Plugin × Bool
  prepare_plugin prepared plugin =
      let (p, released) = if prepared then r.release_resources plugin else (plugin, true) in
      let (p1, set) = r.set_non_realtime true p in
      let (p2, played) = r.prepare_to_play p1 in
      if released then if set then (p2, played) else (p1, false) else (p, false)

  -- The last `try` block, which finds `pluginPrepared` set, and the flag that it leaves.
  pub teardown : Plugin → Plugin × Bool
  teardown plugin =
      let (p, released) = r.release_resources plugin in
      if released then ((r.set_non_realtime false p).0, false) else (p, true)

  abbrev pub start_pass : Plugin → Generator → Pass
  start_pass plugin generator = record {
    plugin = plugin;
    generator = generator;
    samples_generated = 0;
    tail_samples = 0;
    polls = 0;
    appended = [];
    progress_calls = [];
    block_calls = [];
  }

  -- What the loops leave in the runner.
  abbrev pub after_loops : Runner → Pass → Runner
  after_loops runner s = record runner {
    plugin_prepared = true;
    plugin = s.plugin;
    generator = s.generator;
    appended = s.appended;
    trimmed = false;
    progress_calls = s.progress_calls;
    block_calls = s.block_calls;
  }

  pub finish : (ℕ → Bool) → Runner → Loop → Option (Runner × Bool)
  unfolding teardown
  finish cancel runner no_fuel = none
  finish cancel runner (threw s) = some (record (after_loops runner s) { running = false }, false)
  finish cancel runner (ended s) =
      let (plugin, prepared) = teardown s.plugin in
      some (
        record (after_loops runner s) {
          plugin = plugin;
          plugin_prepared = prepared;
          trimmed = true;
          running = false;
        },
        not (cancel s.polls),
      )

  pub run_prepared : (ℕ → Bool) → Plan → Runner → Bool → Option (Runner × Bool)
  unfolding both_loops finish
  run_prepared cancel plan runner false = some (record runner { running = false }, false)
  run_prepared cancel plan runner true =
      finish cancel runner (both_loops cancel plan (start_pass runner.plugin runner.generator))

  -- The runner when the loops begin.
  pub begin : Runner → Runner × Bool
  unfolding prepare_plugin
  begin runner =
      let (plugin, prepared) = prepare_plugin runner.plugin_prepared runner.plugin in
      (
        record runner {
          running = true;
          plugin = plugin;
          generator = r.prepare_and_reset runner.generator;
          appended = [];
          trimmed = false;
        },
        prepared,
      )

  -- `fallback` is the length of ten seconds; `none` would be a loop
  -- without an end.
  pub run : (ℕ → Bool) → ℕ → Runner → Option (Runner × Bool)
  unfolding run_prepared begin
  run cancel fallback runner =
      let begun = begin runner in
      let length = r.get_total_length begun.0.generator in
      let plan = plan_of runner.block_size length fallback runner.tail_pad_samples in
      if runner.has_generator && runner.has_plugin
      then run_prepared cancel plan begun.0 begun.1
      else some (runner, false)
