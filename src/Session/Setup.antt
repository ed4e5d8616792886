-- ===== src/Session/Setup.antt =====
-- The test signals that run of source/capture/MeasurementSession.cpp sets up, with what is set on the
-- generators. A `double` is a number of the decimals that the code writes; what a constructor of a
-- generator presets and the code leaves is not listed.
use plugin_lab.Prelude.{ℕ, Bool, false, String, List, [], ◌∷◌, Option, none, some, if◌then◌else◌}
use plugin_lab.Commands.Desk.{Json}
use plugin_lab.Session.{
  Kind, frequency_response, harmonic_analysis, compression_curve, gr_timeline, Source, signal, file,
  noise, dynamic,
}

-- setADSR, in seconds but for the level of the sustain.
pub record Adsr (R : Type 0) : Type 0 where
  pub attack : R
  pub decay : R
  pub sustain : R
  pub release : R

-- setFrequencyRange, setDuration and setAmplitude of a SineSweep.
pub record Swept (R : Type 0) : Type 0 where
  pub low_hz : R
  pub high_hz : R
  pub duration_sec : R
  pub amplitude : R

pub data Setup (R : Type 0) : Type 0 where
  sine_sweep : Swept R → Setup R
  mls : (length : ℕ) → (amplitude : R) → Setup R
  sequential_tone : (segment_sec amplitude : R) → (frequencies : List R) → Setup R
  tone_burst : (frequency : R) → Setup R
  file_playback : (path : String) → Setup R
  noise_generator : (is_pink : Bool) → (duration_sec amplitude : R) → (seed : ℕ) → Setup R
  enveloped_sweep : Swept R → Adsr R → (speed : R) → Setup R

-- The fields of the session that run reads for its signal.
pub record Signals (R : Type 0) : Type 0 where
  pub freq_excitation_mls : Bool
  pub freq_mls_length : ℕ
  pub file_path : String
  pub noise_is_pink : Bool
  pub noise_duration : R
  pub noise_seed : ℕ
  pub dynamic_amplitude : R
  pub dynamic_speed : R
  pub dynamic_carrier_start_hz : R
  pub dynamic_adsr : Adsr R

module _ (j : Json) where
  -- What a session begins with.
  abbrev pub default_signals : Signals j.Real
  default_signals = record {
    freq_excitation_mls = false;
    freq_mls_length = 16383;
    file_path = "";
    noise_is_pink = false;
    noise_duration = j.decimal "2.0";
    noise_seed = 3031717;
    dynamic_amplitude = j.decimal "0.5";
    dynamic_speed = j.decimal "1.0";
    dynamic_carrier_start_hz = j.decimal "10000.0";
    dynamic_adsr = record {
      attack = j.decimal "0.02";
      decay = j.decimal "0.1";
      sustain = j.decimal "0.8";
      release = j.decimal "0.2";
    };
  }

  -- kFundamentals
  abbrev pub fundamentals : List j.Real
  fundamentals =
      j.decimal "100.0"
      ∷ j.decimal "200.0"
      ∷ j.decimal "400.0"
      ∷ j.decimal "800.0"
      ∷ j.decimal "1600.0"
      ∷ j.decimal "3200.0"
      ∷ j.decimal "6400.0"
      ∷ j.decimal "12800.0"
      ∷ []

  unfoldable pub signal_setup : Signals j.Real → Kind → Option (Setup j.Real)
  signal_setup s frequency_response = some (
      if s.freq_excitation_mls
      then mls s.freq_mls_length (j.decimal "0.5")
      else sine_sweep (record {
        low_hz = j.decimal "20.0";
        high_hz = j.decimal "20000.0";
        duration_sec = j.decimal "5.0";
        amplitude = j.decimal "0.5";
      }))
  signal_setup s harmonic_analysis =
      some (sequential_tone (j.decimal "3.0") (j.decimal "0.4") fundamentals)
  signal_setup s compression_curve = some (tone_burst (j.decimal "1000.0"))
  signal_setup s gr_timeline = none

  -- `exists` says whether the file is there.
  unfoldable pub make_setup : Signals j.Real → Source → Kind → Bool → Option (Setup j.Real)
  unfolding signal_setup
  make_setup s signal kind exists = signal_setup s kind
  make_setup s file kind exists = if exists then some (file_playback s.file_path) else none
  make_setup s noise kind exists =
      some (noise_generator s.noise_is_pink s.noise_duration (j.decimal "0.3") s.noise_seed)
  make_setup s dynamic kind exists = some (
      enveloped_sweep
        (record {
          low_hz = s.dynamic_carrier_start_hz;
          high_hz = j.decimal "20000.0";
          duration_sec = j.decimal "2.0";
          amplitude = s.dynamic_amplitude;
        })
        s.dynamic_adsr s.dynamic_speed)
