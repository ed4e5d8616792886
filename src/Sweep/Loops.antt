-- ===== src/Sweep/Loops.antt =====
-- The two loops of SweepRunner::run (source/capture/SweepRunner.cpp) end, and what they append.
use plugin_lab.Prelude.{
  ℕ, zero, suc, ◌+◌, ◌-◌, ◌≤◌, ◌<◌, ◌≡◌, ◌⊎◌, inl, inr, Bool, true, false, List, [], ◌∷◌, ◌++◌,
  arith, All, All-append, Bool-cases, Option-cases, min,
}
use plugin_lab.Sweep.{
  Rig, Append, Plan, Pass, Loop, ended, threw, no_fuel, tail_from_block, record_signal,
  signal_round, loop, more_signal,
}

-- The samples that are appended in all.
abbrev pub sample_count : {B : Type 0} → List (Append B) → ℕ
sample_count [] = 0
sample_count (a ∷ as') = a.num_samples + sample_count as'

pub sample_count-append :
    {B : Type 0} (xs ys : List (Append B))
    → sample_count (xs ++ ys) ≡ sample_count xs + sample_count ys
sample_count-append [] ys = omega arith
sample_count-append (x ∷ xs) ys = omega (arith, sample_count-append xs ys)

module _ (r : Rig) (cancel : ℕ → Bool) where
  abbrev pub polled : Pass r → Pass r
  polled s = record s { polls = suc s.polls }

  -- What a loop leaves: it has ended by its test, or because of a cancel that was read; `P` holds
  -- there, and `Q` if the plugin threw.
  abbrev pub Leaves : (Pass r → Type 0) → (Pass r → Bool) → Loop r → Type 0
  Leaves P more (ended s) = P s × ((more s ≡ false) ⊎ ((k : ℕ) × (cancel k ≡ true) × (k < s.polls)))
  Leaves P more (threw s) = P s
  Leaves P more no_fuel = ⊥

  -- What a round leaves.
  abbrev pub Moves : (Pass r → Type 0) → (Pass r → ℕ) → Pass r → Loop r → Type 0
  Moves P measure s (ended next) = P next × (measure next < measure s) × (s.polls ≤ next.polls)
  Moves P measure s (threw next) = P next
  Moves P measure s no_fuel = ⊥

  after_round :
      (P : Pass r → Type 0) (measure : Pass r → ℕ) (more : Pass r → Bool) (round : Pass r → Loop r)
      (fuel : ℕ) (s : Pass r) (out : Loop r)
      → measure s ≤ fuel
      → Moves P measure s out
      → ((next : Pass r)
          → measure next < fuel
          → P next
          → Leaves P more (loop r cancel more round fuel next))
      → Leaves P more (elim out [
        | ended next ↦ loop r cancel more round fuel next
        | threw next ↦ threw next
        | no_fuel ↦ no_fuel
      ])
  after_round P measure more round fuel s (ended next) h moves ih =
      ih next (omega (arith, moves.1)) moves.0
  after_round P measure more round fuel s (threw next) h moves ih = moves
  after_round P measure more round fuel s no_fuel h moves ih = absurd moves

  pub loop_rule :
      (P : Pass r → Type 0) (measure : Pass r → ℕ) (more : Pass r → Bool) (round : Pass r → Loop r)
      → ((s : Pass r) → P s → P (polled s))
      → ((s : Pass r) → measure (polled s) ≡ measure s)
      → ((s : Pass r) → P s → more s ≡ true → Moves P measure (polled s) (round (polled s)))
      → (fuel : ℕ) (s : Pass r) → measure s < fuel
      → P s
      → Leaves P more (loop r cancel more round fuel s)
  unfolding loop
  loop_rule P measure more round poll same keep zero s h v = elim h [ ]
  loop_rule P measure more round poll same keep (suc fuel) s h v = elim (Bool-cases (more s)) [
    | inr done ↦ rw (done, loop) (v, inl done)
    | inl goes_on ↦ elim (Bool-cases (cancel s.polls)) [
      | inl stop ↦ rw (goes_on, loop, stop) (poll s v, inr (s.polls, stop, omega arith))
      | inr clear ↦
          rw (goes_on, loop, clear)
            (after_round P measure more round fuel (polled s) (round (polled s))
              (omega (arith, same s)) (keep s v goes_on)
              (loop_rule P measure more round poll same keep fuel))
    ]
  ]

  -- What holds of a pass between two rounds. `lower` polls were made before.
  pub record Good (plan : Plan) (lower : ℕ) (s : Pass r) : Type 0 where
    pub generated_le : s.samples_generated ≤ plan.total_length
    pub tail_le : s.tail_samples ≤ plan.tail_target
    pub counted : sample_count s.appended ≡ s.samples_generated + s.tail_samples
    pub blocks : All (λ a. a.num_samples ≤ plan.block_size) s.appended
    pub calls : All (λ c. c ≤ plan.total_length + plan.tail_target) s.block_calls
    pub polls_le : lower ≤ s.polls

  -- The plugin, the generator and the polls are free.
  pub moved-Good :
      (plan : Plan) (lower : ℕ) (s : Pass r) (p : r.Plugin) (g : r.Generator) (polls : ℕ)
      → Good plan lower s
      → s.polls ≤ polls
      → Good plan lower (record s { plugin = p; generator = g; polls = polls })
  moved-Good plan lower s p g polls v h = record {
    generated_le = v.generated_le;
    tail_le = v.tail_le;
    counted = v.counted;
    blocks = v.blocks;
    calls = v.calls;
    polls_le = omega (arith, v.polls_le);
  }

  tail_from_block_le :
      (plan : Plan) (lower : ℕ) (s : Pass r) (n : ℕ)
      → Good plan lower s
      → n ≤ plan.block_size
      → (s.tail_samples + tail_from_block r plan s n ≤ plan.tail_target)
        × (n + tail_from_block r plan s n ≤ plan.block_size)
  unfolding tail_from_block
  tail_from_block_le plan lower s n v h = ground arith

  record_signal-Good :
      (plan : Plan) (lower : ℕ) (s : Pass r) (dry wet : r.Block)
      → 0 < plan.block_size
      → Good plan lower s
      → s.samples_generated < plan.total_length
      → let n = min plan.block_size (plan.total_length - s.samples_generated) in
        let next = record_signal r plan s n dry wet in
        Good plan lower next
        × (plan.total_length - next.samples_generated < plan.total_length - s.samples_generated)
  unfolding record_signal
  record_signal-Good plan lower s dry wet p v m =
      let n : ℕ = min plan.block_size (plan.total_length - s.samples_generated) in
      let tail : ℕ = tail_from_block r plan s n in
      let limits : (s.tail_samples + tail ≤ plan.tail_target) × (n + tail ≤ plan.block_size) =
        tail_from_block_le plan lower s n v (omega arith) in
      let added : List (Append r.Block) =
        record { dry = dry; wet = wet; num_samples = n + tail } ∷ [] in
      let done : ℕ = s.samples_generated + n + (s.tail_samples + tail) in
      (
        record {
          generated_le = omega arith;
          tail_le = limits.0;
          counted = omega (arith, sample_count-append s.appended added, v.counted);
          blocks = All-append _ s.appended added v.blocks (limits.1, tt);
          calls = All-append _ s.block_calls (done ∷ []) v.calls (omega (arith, limits.0), tt);
          polls_le = v.polls_le;
        },
        omega arith,
      )

  pub signal-Moves :
      (plan : Plan) (lower : ℕ) (s : Pass r)
      → 0 < plan.block_size
      → Good plan lower s
      → more_signal r plan s ≡ true
      → Moves
          (Good plan lower)
          (λ t. plan.total_length - t.samples_generated)
          (polled s)
          (signal_round r plan (polled s))
  unfolding signal_round
  signal-Moves plan lower s p v m =
      let n : ℕ = min plan.block_size (plan.total_length - s.samples_generated) in
      let (generator, dry) = r.generate s.generator n in
      let (plugin, wet) = r.process_block s.plugin dry in
      let next : Pass r = record (polled s) { generator = generator; plugin = plugin } in
      let good : Good plan lower next =
        moved-Good plan lower s plugin generator (suc s.polls) v (omega arith) in
      elim (Option-cases wet) [
        | inl thrown ↦ rw (thrown, signal_round) good
        | inr (block, e) ↦
            let (kept, less) = record_signal-Good plan lower next dry block p good (ground arith) in
            rw (e, signal_round) (kept, less, omega arith)
      ]
