-- ===== src/Sweep/Tail.antt =====
-- The tail loop of SweepRunner::run (source/capture/SweepRunner.cpp), and both loops together.
use plugin_lab.Prelude.{
  ℕ, suc, ◌+◌, ◌-◌, ◌≤◌, ◌<◌, ◌≡◌, refl, ◌⊎◌, inl, inr, Bool, true, false, List, [], ◌∷◌, arith,
  All-append, Option-cases, min,
}
use plugin_lab.Sweep.{
  Rig, Append, Plan, Pass, Loop, ended, threw, no_fuel, record_tail, signal_round, tail_round, loop,
  more_signal, more_tail, both_loops,
}
use plugin_lab.Sweep.Loops.{
  sample_count-append, Leaves, Moves, polled, loop_rule, Good, moved-Good, signal-Moves,
}

module _ (r : Rig) (cancel : ℕ → Bool) where
  -- The tail loop leaves the number of generated samples alone.
  abbrev GoodTail : Plan → ℕ → ℕ → Pass r → Type 0
  GoodTail plan generated lower s = Good r cancel plan lower s × (s.samples_generated ≡ generated)

  record_tail-Good :
      (plan : Plan) (lower : ℕ) (s : Pass r) (wet : r.Block)
      → 0 < plan.block_size
      → Good r cancel plan lower s
      → s.tail_samples < plan.tail_target
      → let n = min plan.block_size (plan.tail_target - s.tail_samples) in
        let next = record_tail r plan s n wet in
        Good r cancel plan lower next
        × (plan.tail_target - next.tail_samples < plan.tail_target - s.tail_samples)
  unfolding record_tail
  record_tail-Good plan lower s wet p v m =
      let n : ℕ = min plan.block_size (plan.tail_target - s.tail_samples) in
      let added : List (Append r.Block) =
        record { dry = r.silence; wet = wet; num_samples = n } ∷ [] in
      let done : ℕ = s.samples_generated + (s.tail_samples + n) in
      (
        record {
          generated_le = v.generated_le;
          tail_le = omega arith;
          counted = omega (arith, sample_count-append s.appended added, v.counted);
          blocks = All-append _ s.appended added v.blocks (omega arith, tt);
          calls =
              All-append _ s.block_calls (done ∷ []) v.calls (omega (arith, v.generated_le), tt);
          polls_le = v.polls_le;
        },
        omega arith,
      )

  tail-Moves :
      (plan : Plan) (generated lower : ℕ) (s : Pass r)
      → 0 < plan.block_size
      → GoodTail plan generated lower s
      → more_tail r plan s ≡ true
      → Moves r cancel
          (GoodTail plan generated lower)
          (λ t. plan.tail_target - t.tail_samples)
          (polled r cancel s)
          (tail_round r plan (polled r cancel s))
  unfolding tail_round
  tail-Moves plan generated lower s p (v, same) m =
      let (plugin, wet) = r.process_block s.plugin r.silence in
      let next : Pass r = record s { polls = suc s.polls; plugin = plugin } in
      let good : Good r cancel plan lower next =
        moved-Good r cancel plan lower s plugin s.generator (suc s.polls) v (omega arith) in
      elim (Option-cases wet) [
        | inl thrown ↦ rw (thrown, tail_round) (good, same)
        | inr (block, e) ↦
            let (kept, less) = record_tail-Good plan lower next block p good (ground arith) in
            rw (e, tail_round) ((kept, same), less, omega arith)
      ]

  -- After both loops: all is as planned, or a cancel was read, or the plugin threw.
  abbrev pub Result : Plan → Loop r → Type 0
  Result plan (ended s) =
      Good r cancel plan 0 s
      × (((s.samples_generated ≡ plan.total_length) × (s.tail_samples ≡ plan.tail_target))
          ⊎ ((k : ℕ) × (cancel k ≡ true) × (k < s.polls)))
  Result plan (threw s) = Good r cancel plan 0 s
  Result plan no_fuel = ⊥

  from_start :
      (plan : Plan) (lower : ℕ) (s : Pass r) → Good r cancel plan lower s → Good r cancel plan 0 s
  from_start plan lower s v = record {
    generated_le = v.generated_le;
    tail_le = v.tail_le;
    counted = v.counted;
    blocks = v.blocks;
    calls = v.calls;
    polls_le = omega arith;
  }

  -- How the signal loop has ended.
  abbrev SignalEnd : Plan → Pass r → Type 0
  SignalEnd plan mid =
      (more_signal r plan mid ≡ false) ⊎ ((k : ℕ) × (cancel k ≡ true) × (k < mid.polls))

  tail_Result :
      (plan : Plan) (mid : Pass r) (out : Loop r)
      → mid.samples_generated ≤ plan.total_length
      → SignalEnd plan mid
      → Leaves r cancel (GoodTail plan mid.samples_generated mid.polls) (more_tail r plan) out
      → Result plan out
  tail_Result plan mid (ended s) le end ((v, same), inr (k, stop, before)) =
      (from_start plan mid.polls s v, inr (k, stop, before))
  tail_Result plan mid (ended s) le (inr (k, stop, before)) ((v, same), inl done) =
      (from_start plan mid.polls s v, inr (k, stop, omega (arith, v.polls_le)))
  tail_Result plan mid (ended s) le (inl full) ((v, same), inl done) =
      (from_start plan mid.polls s v, inl (ground arith, ground (arith, v.tail_le)))
  tail_Result plan mid (threw s) le end (v, same) = from_start plan mid.polls s v
  tail_Result plan mid no_fuel le end leaves = leaves

  tail_loop-Result :
      (plan : Plan) (mid : Pass r)
      → 0 < plan.block_size
      → Good r cancel plan 0 mid
      → SignalEnd plan mid
      → Result plan
          (loop r cancel (more_tail r plan) (tail_round r plan) (suc plan.tail_target) mid)
  tail_loop-Result plan mid p v end =
      let start : Good r cancel plan mid.polls mid = record {
        generated_le = v.generated_le;
        tail_le = v.tail_le;
        counted = v.counted;
        blocks = v.blocks;
        calls = v.calls;
        polls_le = omega arith;
      } in
      tail_Result plan mid _ v.generated_le end (
        loop_rule r cancel (GoodTail plan mid.samples_generated mid.polls)
          (λ t. plan.tail_target - t.tail_samples) (more_tail r plan) (tail_round r plan)
          (λ s g. (
            moved-Good r cancel plan mid.polls s s.plugin s.generator (suc s.polls) g.0
                (omega arith),
            g.1,
          ))
          (λ s. refl) (λ s g m. tail-Moves plan mid.samples_generated mid.polls s p g m)
          (suc plan.tail_target) mid (omega arith) (start, refl))

  both_Result :
      (plan : Plan) (out : Loop r)
      → 0 < plan.block_size
      → Leaves r cancel (Good r cancel plan 0) (more_signal r plan) out
      → Result plan (elim out [
        | ended mid ↦
            loop r cancel (more_tail r plan) (tail_round r plan) (suc plan.tail_target) mid
        | threw next ↦ threw next
        | no_fuel ↦ no_fuel
      ])
  both_Result plan (ended mid) p leaves = tail_loop-Result plan mid p leaves.0 leaves.1
  both_Result plan (threw s) p leaves = leaves
  both_Result plan no_fuel p leaves = leaves

  -- With blocks of one sample at least, both loops end.
  pub both_loops-Result :
      (plan : Plan) (s : Pass r)
      → 0 < plan.block_size
      → Good r cancel plan 0 s
      → Result plan (both_loops r cancel plan s)
  unfolding both_loops
  both_loops-Result plan s p v = both_Result plan _ p (
      loop_rule r cancel (Good r cancel plan 0) (λ t. plan.total_length - t.samples_generated)
        (more_signal r plan) (signal_round r plan)
        (λ t g. moved-Good r cancel plan 0 t t.plugin t.generator (suc t.polls) g (omega arith))
        (λ t. refl) (λ t g m. signal-Moves r cancel plan 0 t p g m) (suc plan.total_length) s
        (omega arith) v)
