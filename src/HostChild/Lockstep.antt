-- ===== src/HostChild/Lockstep.antt =====
-- The test signals of the child's program are those of source/capture/MeasurementSession.cpp.
use text.Mathlib.Text.{◌==◌ as str_eq}
use text.Mathlib.TextEquality.{eq_iff}
use plugin_lab.Prelude.{
  Bool, true, String, Option, none, some, ◌≡◌, refl, sym, ap, ◌∙◌, arith, if-intro,
}
use plugin_lab.Commands.Desk.{Json}
use plugin_lab.Session.{Kind, frequency_response, harmonic_analysis, compression_curve, gr_timeline}
use plugin_lab.Session.Setup.{Signals, default_signals, make_setup}
use plugin_lab.Commands.Fields.{parse_kind}
use plugin_lab.Commands.Dataset.{battery_source}
use plugin_lab.HostChild.{child_generator}

-- The name of a type in the protocol.
abbrev kind_text : Kind → String
kind_text frequency_response = "frequency_response"
kind_text harmonic_analysis = "harmonic"
kind_text compression_curve = "compression"
kind_text gr_timeline = "gr_timeline"

abbrev text_or_empty : Option Kind → String
text_or_empty none = ""
text_or_empty (some kind) = kind_text kind

parse_kind-text :
    (text : String) (kind : Kind) → parse_kind text ≡ some kind → text ≡ kind_text kind
unfolding parse_kind
parse_kind-text text kind =
    let Means : Option Kind → Type 0 = λ o. o ≡ some kind → text ≡ kind_text kind in
    let found : (k : Kind) → str_eq text (kind_text k) ≡ true → Means (some k) =
      λ k same e. (eq_iff text (kind_text k)).0 same ∙ ap text_or_empty e in
    if-intro Means _ _ _ (found frequency_response) (λ _.
      if-intro Means _ _ _ (found harmonic_analysis) (λ _.
        if-intro Means _ _ _ (found compression_curve)
          (λ _. if-intro Means _ _ _ (found gr_timeline) (λ _ bad. absurd (ground (arith, bad))))))

module _ (j : Json) where
  -- The session's settings for its signal that the child's program does not know are the presets.
  pub record IsPreset (s : Signals j.Real) : Type 0 where
    pub mls_length : s.freq_mls_length ≡ (default_signals j).freq_mls_length
    pub amplitude : s.dynamic_amplitude ≡ (default_signals j).dynamic_amplitude
    pub speed : s.dynamic_speed ≡ (default_signals j).dynamic_speed
    pub start : s.dynamic_carrier_start_hz ≡ (default_signals j).dynamic_carrier_start_hz
    pub adsr : s.dynamic_adsr ≡ (default_signals j).dynamic_adsr

  setup_of_text :
      (s : Signals j.Real) (kind : Kind) (exists : Bool)
      → IsPreset s
      → make_setup j s (battery_source kind) kind exists
        ≡ some (child_generator j (kind_text kind) s.freq_excitation_mls)
  unfolding child_generator make_setup
  setup_of_text s frequency_response exists preset = rw preset.mls_length refl
  setup_of_text s harmonic_analysis exists preset = refl
  setup_of_text s compression_curve exists preset = refl
  setup_of_text s gr_timeline exists preset =
      rw (preset.amplitude, preset.speed, preset.start, preset.adsr) refl

  -- For each measurement type that the protocol knows, the child sets up the very generator that a
  -- session sets up for that type, with its frequencies, durations, amplitudes and envelope, where the
  -- source is the one that the type is measured with (dynamic for the timeline of gain reduction, else
  -- signal), both use the same excitation, and the length of the MLS and the settings of the dynamic
  -- source are the session's presets.
  pub child_generator_lem :
      (s : Signals j.Real) (type : String) (kind : Kind) (exists : Bool)
      → parse_kind type ≡ some kind
      → IsPreset s
      → make_setup j s (battery_source kind) kind exists
        ≡ some (child_generator j type s.freq_excitation_mls)
  child_generator_lem s type kind exists e preset =
      setup_of_text s kind exists preset
      ∙ ap (λ t. some (child_generator j t s.freq_excitation_mls))
          (sym (parse_kind-text type kind e))
