-- ===== src/Signal/Burst/Tests.antt =====
-- A burst of two samples and a gap of one, at the levels 5 and 7, in blocks of two and four samples.
use plugin_lab.Prelude.{ℕ, [], ◌∷◌, ◌++◌, ◌≡◌, refl, arith}
use plugin_lab.Signal.Burst.{Tone, ToneBurst, reset, generate}
use plugin_lab.Signal.Burst.Reference.{generate_blocks}

abbrev flat : Tone
flat = record { Sample = ℕ; Level = ℕ; silence = 0; tone = λ level n. level }

abbrev two_bursts : ToneBurst flat
two_bursts = record {
  burst_len = 2;
  gap_len = 1;
  levels = 5 ∷ 7 ∷ [];
  current_sample = 9;
  current_burst_index = 1;
  position_in_burst = 1;
}

after_the_bursts : (generate flat 8 (reset flat two_bursts)).0 ≡ 5 ∷ 5 ∷ 0 ∷ 7 ∷ 7 ∷ 0 ∷ 0 ∷ 0 ∷ []
unfolding generate reset
after_the_bursts = refl

generate_blocks_example :
    let first = generate flat 2 (reset flat two_bursts) in
    first.0 ++ (generate flat 4 first.1).0 ≡ 5 ∷ 5 ∷ 0 ∷ 7 ∷ 7 ∷ 0 ∷ []
generate_blocks_example = generate_blocks flat two_bursts 2 4 (omega arith) refl
