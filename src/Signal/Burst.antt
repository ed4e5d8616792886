-- ===== src/Signal/Burst.antt =====
-- source/signal/ToneBurst.cpp: bursts of a tone, one for each level, each with a gap after it. The
-- lengths of burst and gap are what `generate` truncates them to, in samples; a block is the list of its
-- samples, which all channels share.
pub mod Reference
mod Tests
use plugin_lab.Prelude.{
  ℕ, zero, suc, ◌+◌, ◌*◌, ltb, leb, Bool, List, [], ◌∷◌, Option, none, some, length, get_elem?,
  if◌then◌else◌,
}

-- A sample of the tone at a level, by the number of the sample since the reset.
pub record Tone : Type 1 where
  pub Sample : Type 0
  pub Level : Type 0
  pub silence : Sample
  pub tone : Level → ℕ → Sample

module _ (o : Tone) where
  open o use {Sample, Level}

  pub record ToneBurst : Type 0 where
    pub burst_len : ℕ
    pub gap_len : ℕ
    pub levels : List Level
    pub current_sample : ℕ
    pub current_burst_index : ℕ
    pub position_in_burst : ℕ

  unfoldable pub reset : ToneBurst → ToneBurst
  reset b = record b { current_sample = 0; current_burst_index = 0; position_in_burst = 0 }

  -- The position in the bursts after one more sample.
  unfoldable pub advance : ToneBurst → ToneBurst
  advance b =
      if leb (b.burst_len + b.gap_len) (suc b.position_in_burst)
      then record b {
        position_in_burst = 0;
        current_burst_index = suc b.current_burst_index;
        current_sample = suc b.current_sample;
      }
      else record b {
        position_in_burst = suc b.position_in_burst;
        current_sample = suc b.current_sample;
      }

  -- One sample of generate.
  unfoldable pub next_sample : ToneBurst → Sample × ToneBurst
  unfolding advance
  next_sample b = elim (get_elem? b.levels b.current_burst_index) [
    | none ↦ (o.silence, record b { current_sample = suc b.current_sample })
    | some level ↦ (
      if ltb b.position_in_burst b.burst_len then o.tone level b.current_sample else o.silence,
      advance b,
    )
  ]

  unfoldable pub generate : ℕ → ToneBurst → List Sample × ToneBurst
  unfolding next_sample
  generate zero b = ([], b)
  generate (suc n) b = let (x, c) = next_sample b in let (xs, d) = generate n c in (x ∷ xs, d)
