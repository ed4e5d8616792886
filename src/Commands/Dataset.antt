-- ===== src/Commands/Dataset.antt =====
-- The commands dataset, exportWav and exportData of source/ipc/CommandParser.cpp.
pub mod Battery
pub mod Sweeps
pub mod Contents
use text.Mathlib.Text.{◌==◌ as str_eq}
use plugin_lab.Prelude.{
  ℕ, suc, ◌==◌, Bool, true, false, not, ◌||◌, ◌&&◌, String, List, [], ◌∷◌, map, Option, none, some,
  if◌then◌else◌,
}
use plugin_lab.Host.{Host}
use plugin_lab.Session.{
  Kind, frequency_response, harmonic_analysis, compression_curve, gr_timeline, Source, signal,
  dynamic,
}
use plugin_lab.Commands.Action.{
  ok, err, pure, gets, need, step, attempt, ◌>>=◌, ◌>>◌, refuse_if, modify,
}
use plugin_lab.Commands.Desk.{Json, Desk}
use plugin_lab.Commands.Fields.{
  parse_kind, default_to, finite_number, number_array, Command, configure, configure_session_source,
  wav_path_for,
}
use plugin_lab.Commands.Measure.{
  Answer, after_run, is_gr_timeline, is_frequency_response, is_signal, is_empty, is_none,
  need_session, need_plugin, run_and_analyze, write_export, keep_results, parse_scan_kind,
  find_param_by_stable_id, run_scan_engine,
}

-- The source that each type of the battery is measured with.
abbrev pub battery_source : Kind → Source
battery_source gr_timeline = dynamic
battery_source _ = signal

-- The names of all given types, if they are known.
unfoldable pub parse_kinds : List String → Option (List Kind)
unfolding parse_kind
parse_kinds [] = some []
parse_kinds (text ∷ texts) =
    let rest = parse_kinds texts in
    elim (parse_kind text) [
      | none ↦ none
      | some k ↦ elim rest [ none ↦ none | some ks ↦ some (k ∷ ks) ]
    ]

abbrev whole_battery : List Kind
whole_battery = frequency_response ∷ harmonic_analysis ∷ compression_curve ∷ gr_timeline ∷ []

abbrev pub mls_of : Option Bool → Bool
mls_of none = false
mls_of (some b) = b

-- Frequency responses are skipped where the excitation is not known.
abbrev pub skips : Option Bool → Kind → Bool
skips excitation kind = is_frequency_response kind && is_none excitation

abbrev pub same_kind : Kind → Kind → Bool
same_kind frequency_response frequency_response = true
same_kind harmonic_analysis harmonic_analysis = true
same_kind compression_curve compression_curve = true
same_kind gr_timeline gr_timeline = true
same_kind _ _ = false

-- The answer: which types have succeeded, in the order of the protocol, the scan and the family.
pub record Report : Type 0 where
  pub types : List (Kind × Bool)
  pub scan : Bool
  pub compression_family : Bool

module _ (j : Json) (h : Host) (d : Desk j h) where
  open j use {Object}

  -- The types that have succeeded, with their results; the newest first.
  abbrev pub Battery : Type 0
  Battery = List (Kind × d.Analysis)

  -- `ok` of the table's entry.
  unfoldable pub succeeded : Kind → Battery → Bool
  succeeded kind [] = false
  succeeded kind ((k, analysis) ∷ rest) = same_kind kind k || succeeded kind rest

  -- One type of the battery.
  unfoldable pub run_type : Object → Bool → Kind → Command j h d d.Analysis
  unfolding run_and_analyze configure_session_source
  run_type obj use_mls kind = do
    let source = battery_source kind
    configure_session_source j h d obj source
    configure j h d (λ c. record c { source = source; kind = kind })
    configure j h d (λ c. record c {
      freq_excitation_mls = if is_frequency_response kind then use_mls else c.freq_excitation_mls;
    })
    analysis ← run_and_analyze j h d source
    c ← need_session j h d "no session or plugin"
    p ← need_plugin j h d "no session or plugin"
    context ← gets (λ s. d.context_of p c source s.world)
    keep_results j h d c.kind source analysis context
    pure analysis

  -- The loop over the types; `excitation` is none where the field is not known.
  unfoldable pub run_battery : Object → Option Bool → List Kind → Battery → Command j h d Battery
  unfolding run_type
  run_battery obj excitation [] done = pure done
  run_battery obj excitation (kind ∷ kinds) done =
      let skip = skips excitation kind in
      let use_mls = mls_of excitation in
      let next = run_battery obj excitation kinds in
      let measured =
        attempt (run_type obj use_mls kind)
        >>= (λ r. elim r [ ok analysis ↦ next ((kind, analysis) ∷ done) | err e ↦ next done ]) in
      if skip then next done else measured

  -- The fields of the scan block: the type, the parameter and the values.
  unfoldable pub scan_fields : Object → h.Plugin → Option (Kind × (String × List j.Real))
  unfolding number_array
  scan_fields obj p =
      let id = j.to_text (j.get obj "param_id") in
      let values = number_array j (j.decimal "0.0") (j.decimal "1.0") (j.get obj "values") in
      if str_eq id "" || is_none (find_param_by_stable_id (h.parameters p) id)
      then none
      else elim values [
        | none ↦ none
        | some vs ↦ elim (parse_scan_kind j h d (j.to_text (j.get obj "type"))) [
          | none ↦ none
          | some kind ↦ some (kind, (id, vs))
        ]
      ]

  -- A sweep that has entries and was not cancelled.
  abbrev pub whole_sweep : d.Sweep × (ℕ × Bool) → Option d.Sweep
  whole_sweep (sweep, (count, cancelled)) = if (count == 0) || cancelled then none else some sweep

  abbrev pub field_object : Object → String → Option Object
  field_object obj name = j.object_of (j.get obj name)

  unfoldable pub run_scan_block : Object → Command j h d (Option d.Sweep)
  unfolding scan_fields run_scan_engine
  run_scan_block obj = elim (field_object obj "scan") [
    | none ↦ pure none
    | some block ↦ do
      p ← need_plugin j h d "no session or plugin"
      elim (scan_fields block p) [
        | none ↦ pure none
        | some (kind, (id, values)) ↦ do
          configure j h d (λ c. record c { source = signal; kind = kind })
          out ← run_scan_engine j h d kind id values
          pure (whole_sweep out)
      ]
  ]

  unfoldable pub all_finite : List j.Var → Option (List j.Real)
  unfolding finite_number
  all_finite [] = some []
  all_finite (v ∷ vs) =
      let rest = all_finite vs in
      elim (finite_number j v) [
        | none ↦ none
        | some x ↦ elim rest [ none ↦ none | some xs ↦ some (x ∷ xs) ]
      ]

  -- An array of finite numbers, or the default where there is no field.
  abbrev pub numbers_or : List j.Real → j.Var → Option (List j.Real)
  numbers_or default v = if j.is_void v then some default else elim (j.items_of v) [
    | none ↦ none
    | some [] ↦ none
    | some (x ∷ xs) ↦ all_finite (x ∷ xs)
  ]

  -- CompressionFamily::measure
  unfoldable pub run_family : List j.Real → List j.Real → Command j h d (d.Sweep × (ℕ × Bool))
  unfolding after_run
  run_family levels speeds = do
    c ← need_session j h d "no session or plugin"
    p ← need_plugin j h d "no session or plugin"
    step (λ s.
        let (w, (q, (settings, out))) = d.measure_family c levels speeds p s.world in
        (out, record (after_run j h d q w s) { session = some settings }))

  unfoldable pub run_family_block : Object → Command j h d (Option d.Sweep)
  unfolding run_family
  run_family_block obj = elim (field_object obj "compression_family") [
    | none ↦ pure none
    | some block ↦
        elim (numbers_or (j.decimal "-12.0" ∷ j.decimal "0.0" ∷ []) (j.get block "levels_db")) [
          | none ↦ pure none
          | some levels ↦
              elim (numbers_or (j.decimal "0.5" ∷ j.decimal "1.0" ∷ j.decimal "2.0" ∷ [])
                (j.get block "speeds")) [
                  | none ↦ pure none
                  | some speeds ↦ do out ← run_family levels speeds; pure (whole_sweep out)
                ]
        ]
  ]

  abbrev pub report_of : Battery → Option d.Sweep → Option d.Sweep → Report
  report_of battery scan family = record {
    types = map (λ k. (k, succeeded k battery)) whole_battery;
    scan = not (is_none scan);
    compression_family = not (is_none family);
  }

  -- The excitation of the whole dataset.
  abbrev pub dataset_excitation : Object → Option Bool
  dataset_excitation obj =
      let text = default_to "sweep" (j.to_text (j.get obj "excitation")) in
      if str_eq text "mls" then some true else if str_eq text "sweep" then some false else none

  abbrev pub requested_types : Object → Option (List Kind)
  requested_types obj = elim (j.items_of (j.get obj "types")) [
    | none ↦ some whole_battery
    | some items ↦ parse_kinds (map j.to_text items)
  ]

  -- runDataset
  unfoldable pub run_dataset : Object → List Kind → String → Command j h d Report
  unfolding run_battery run_scan_block run_family_block succeeded write_export
  run_dataset obj kinds path = do
    battery ← run_battery obj (dataset_excitation obj) kinds []
    scan ← run_scan_block obj
    family ← run_family_block obj
    refuse_if "all measurements failed" (is_empty battery && (is_none scan && is_none family))
    refuse_if "invalid path" (str_eq path "")
    c ← need_session j h d "no session or plugin"
    p ← need_plugin j h d "no session or plugin"
    let source = if succeeded gr_timeline battery then dynamic else signal
    context ← gets (λ s. d.context_of p c source s.world)
    modify (λ s. record s { world = d.create_parent path s.world })
    write_export j h d path (d.dataset_json battery scan family context)
    pure (report_of battery scan family)

  unfoldable pub dataset : Object → Command j h d Report
  unfolding parse_kinds run_dataset wav_path_for
  dataset obj = do
    need_session j h d "no session or plugin"
    need_plugin j h d "no session or plugin"
    kinds ← need "unknown measure type" (requested_types obj)
    let use_mls = mls_of (dataset_excitation obj)
    let path = j.to_text (j.get obj "path")
    configure j h d
        (λ c. record c { freq_excitation_mls = use_mls; flush_path = wav_path_for j h d path })
    run_dataset obj kinds path

  unfoldable pub export_wav : Object → Command j h d Answer
  unfolding wav_path_for
  export_wav obj = do
    need_session j h d "no session"
    recorded ← gets (λ s. d.recorded_samples s.world)
    refuse_if "no measurement result" (recorded == 0)
    let path = j.to_text (j.get obj "path")
    refuse_if "path required" (str_eq path "")
    written ← step (λ s.
        let (w, good) = d.export_wav (wav_path_for j h d path) s.world in
        (good, record s { world = w }))
    refuse_if "wav export failed" (not written)
    pure (wav_path_for j h d path)

  -- The JSON of the last results: raw captures as they are, all else as a dataset of one type.
  abbrev pub last_json : Kind × (Source × (d.Analysis × d.Context)) → String
  last_json (kind, (source, (analysis, context))) =
      if not (is_signal source) && not (is_gr_timeline kind)
      then d.results_json kind source analysis context
      else d.dataset_json ((kind, analysis) ∷ []) none none context

  unfoldable pub export_data : Object → Command j h d Answer
  unfolding write_export
  export_data obj = do
    let path = j.to_text (j.get obj "path")
    refuse_if "invalid path" (str_eq path "")
    last ← gets (λ s. s.last)
    results ← need "no measurement result" last
    modify (λ s. record s { world = d.create_parent path s.world })
    write_export j h d path (last_json results)
    pure path
