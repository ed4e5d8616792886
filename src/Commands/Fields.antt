-- ===== src/Commands/Fields.antt =====
-- The fields of a command, as source/ipc/CommandParser.cpp checks them and puts them into the session.
use text.Mathlib.Text.{◌==◌ as str_eq}
use plugin_lab.Prelude.{
  ℕ, ◌-◌, ◌%◌, ◌^◌, Bool, true, false, not, ◌||◌, ◌&&◌, String, List, [], ◌∷◌, Option, none, some,
  if◌then◌else◌,
}
use plugin_lab.Prelude.Int.{ℤ, pos, negsuc}
use plugin_lab.Host.{Host}
use plugin_lab.Session.{
  Kind, frequency_response, harmonic_analysis, compression_curve, gr_timeline, Source, signal, file,
  noise, dynamic,
}
use plugin_lab.Commands.Action.{Action, pure, gets, need, ◌>>=◌, ◌>>◌, refuse_if, modify}
use plugin_lab.Commands.Desk.{Json, Config, Desk, Parser}

unfoldable pub parse_source : String → Option Source
parse_source text =
    if str_eq text "signal"
    then some signal
    else if str_eq text "file"
    then some file
    else if str_eq text "noise"
    then some noise
    else if str_eq text "dynamic"
    then some dynamic
    else none

-- The names of Protocol::MeasureType.
unfoldable pub parse_kind : String → Option Kind
parse_kind text =
    if str_eq text "frequency_response"
    then some frequency_response
    else if str_eq text "harmonic"
    then some harmonic_analysis
    else if str_eq text "compression"
    then some compression_curve
    else if str_eq text "gr_timeline"
    then some gr_timeline
    else none

-- `static_cast<uint32_t>` of an `int64_t`
abbrev wrap_32 : ℤ → ℕ
wrap_32 (pos n) = n % 2 ^ 32
wrap_32 (negsuc n) = 2 ^ 32 - 1 - n % 2 ^ 32

abbrev pub default_to : String → String → String
default_to default text = if str_eq text "" then default else text

module _ (j : Json) where
  open j use {Var, Object, Real}

  -- isFiniteNumber
  unfoldable pub finite_number : Var → Option Real
  finite_number v = elim (j.number_of v) [
    | none ↦ none
    | some x ↦ if j.is_finite x then some x else none
  ]

  abbrev max_noise_duration_sec : Real
  max_noise_duration_sec = j.decimal "3600.0"

  -- A finite number between two bounds.
  unfoldable pub number_within : Real → Real → Var → Option Real
  unfolding finite_number
  number_within low high v = elim (finite_number v) [
    | none ↦ none
    | some x ↦ if j.is_less x low || j.is_less high x then none else some x
  ]

  numbers_within : Real → Real → List Var → Option (List Real)
  unfolding number_within
  numbers_within low high [] = some []
  numbers_within low high (v ∷ vs) =
      let rest = numbers_within low high vs in
      elim (number_within low high v) [
        | none ↦ none
        | some x ↦ elim rest [ none ↦ none | some xs ↦ some (x ∷ xs) ]
      ]

  -- A JSON array of such numbers that is not empty.
  unfoldable pub number_array : Real → Real → Var → Option (List Real)
  unfolding numbers_within
  number_array low high v = elim (j.items_of v) [
    | none ↦ none
    | some [] ↦ none
    | some (x ∷ xs) ↦ numbers_within low high (x ∷ xs)
  ]

  module _ (h : Host) (d : Desk j h) where
    abbrev pub Command : Type 0 → Type 0
    Command A = Action (Parser j h d) A

    -- A setter of the session.
    abbrev pub configure : (Config j → Config j) → Command (Unit {0})
    configure f =
        modify (λ s. record s { session = elim s.session [ none ↦ none | some c ↦ some (f c) ] })

    unfoldable pub configure_file : Object → Command (Unit {0})
    configure_file obj = do
      let path = j.to_text (j.get obj "path")
      refuse_if "path required" (str_eq path "")
      exists ← gets (λ s. d.file_exists s.world path)
      refuse_if "file not found" (not exists)
      configure (λ c. record c { input_file = path })

    -- The type of the noise, and whether it is a known one.
    abbrev noise_type : String → Option Bool
    noise_type text =
        if str_eq text "pink"
        then some true
        else if str_eq text "" || str_eq text "white"
        then some false
        else none

    -- A finite number, or the default where the field is missing.
    abbrev pub optional_number : Object → String → Real → String → Command Real
    optional_number obj name default error =
        if j.has obj name then need error (finite_number (j.get obj name)) else pure default

    unfoldable pub configure_noise : Object → Command (Unit {0})
    unfolding finite_number
    configure_noise obj = do
      is_pink ← need "unknown noise type" (noise_type (j.to_text (j.get obj "noise_type")))
      duration ← optional_number obj "duration" (j.decimal "2.0") "invalid duration"
      refuse_if "invalid duration" (
          j.has obj "duration"
          && (not (j.is_less (j.decimal "0.0") duration)
              || j.is_less max_noise_duration_sec duration))
      seed ← optional_number obj "seed" (j.decimal "3031717.0") "invalid seed"
      configure (λ c. record c {
        noise_is_pink = is_pink;
        noise_duration = duration;
        noise_seed = wrap_32 (j.to_integer seed);
      })

    unfoldable pub carrier_field : Object → Command (Unit {0})
    unfolding finite_number
    carrier_field obj =
        if j.has obj "carrier_freq"
        then need "invalid carrier_freq" (finite_number (j.get obj "carrier_freq"))
          >>= (λ hertz. configure (λ c. record c { carrier_freq = hertz }))
        else pure tt

    unfoldable pub configure_dynamic : Object → Command (Unit {0})
    unfolding finite_number carrier_field
    configure_dynamic obj = do
      carrier_field obj
      start ←
          optional_number obj "carrier_start_hz" (j.decimal "10000.0") "invalid carrier_start_hz"
      configure (λ c. record c { carrier_start = start })

    unfoldable pub configure_session_source : Object → Source → Command (Unit {0})
    unfolding configure_file configure_noise configure_dynamic
    configure_session_source obj signal = pure tt
    configure_session_source obj file = configure_file obj
    configure_session_source obj noise = configure_noise obj
    configure_session_source obj dynamic = configure_dynamic obj

    -- resolveExportPath, with the default path of the command.
    unfoldable pub resolve_export_path : Object → Source → String → String
    resolve_export_path obj file default =
        default_to (d.default_path default) (j.to_text (j.get obj "export_path"))
    resolve_export_path obj _ default =
        default_to (d.default_path default) (j.to_text (j.get obj "path"))

    unfoldable pub wav_path_for : String → String
    wav_path_for path =
        if d.ends_with path ".json" then d.with_extension path ".wav" else d.append path ".wav"
