-- ===== src/Commands/Measure.antt =====
-- The commands measure, scan and exportData of source/ipc/CommandParser.cpp.
pub mod Routing
pub mod Results
use text.Mathlib.Text.{◌==◌ as str_eq}
use plugin_lab.Prelude.{
  ℕ, suc, ◌==◌, Bool, true, false, not, ◌&&◌, String, List, [], ◌∷◌, map, Option, none, some,
  if◌then◌else◌,
}
use plugin_lab.Timeline.{audio_processor_parameter_changed}
use plugin_lab.Timeline.Recording.{notify_all}
use plugin_lab.Host.{Host, Parameter, find_param}
use plugin_lab.Session.{Kind, frequency_response, gr_timeline, Source, signal}
use plugin_lab.Commands.Action.{ok, pure, refuse, gets, need, step, ◌>>=◌, ◌>>◌, refuse_if, modify}
use plugin_lab.Commands.Desk.{Json, Config, ChildRequest, Desk, Parser}
use plugin_lab.Commands.Fields.{
  parse_source, parse_kind, default_to, number_array, Command, configure, configure_session_source,
  resolve_export_path, wav_path_for,
}

-- findParamByStableId
unfoldable pub find_param_by_stable_id : List Parameter → String → Option ℕ
unfolding find_param
find_param_by_stable_id params id = find_param params id

abbrev pub is_gr_timeline : Kind → Bool
is_gr_timeline gr_timeline = true
is_gr_timeline _ = false

abbrev pub is_frequency_response : Kind → Bool
is_frequency_response frequency_response = true
is_frequency_response _ = false

abbrev pub is_signal : Source → Bool
is_signal signal = true
is_signal _ = false

abbrev pub is_empty : {A : Type 0} → List A → Bool
is_empty [] = true
is_empty (x ∷ xs) = false

abbrev pub is_none : {A : Type 0} → Option A → Bool
is_none none = true
is_none (some _) = false

-- The data of an answer that is not an error, as far as it is used: the path of the export.
abbrev pub Answer : Type 0
Answer = String

module _ (j : Json) (h : Host) (d : Desk j h) where
  open j use {Object}

  abbrev pub need_session : String → Command j h d (Config j)
  need_session e s = need e s.session s

  abbrev pub need_plugin : String → Command j h d h.Plugin
  need_plugin e s = need e s.plugin s

  -- What a measurement in this process leaves: it is counted, and a recorder that listens has heard of
  -- the parameters it has set.
  unfoldable pub after_run : h.Plugin → d.World → Parser j h d → Parser j h d
  unfolding audio_processor_parameter_changed
  after_run q w s = record s {
    plugin = some q;
    world = w;
    host_runs = suc s.host_runs;
    timeline = elim s.timeline.attached [
      | none ↦ s.timeline
      | some _ ↦ notify_all s.timeline (d.heard s.world w)
    ];
  }

  -- session->run() for the plugin, which counts as a measurement in this process.
  unfoldable pub run_session : Command j h d Bool
  unfolding after_run
  run_session s = elim s.session [
    | none ↦ (ok false, s)
    | some c ↦ elim s.plugin [
      | none ↦ (ok false, s)
      | some p ↦ let (w, (q, good)) = d.run_session c p s.world in (ok good, after_run q w s)
    ]
  ]

  -- runAndAnalyze
  unfoldable pub run_and_analyze : Source → Command j h d d.Analysis
  unfolding run_session
  run_and_analyze source = do
    good ← run_session
    refuse_if "measurement failed" (not good)
    c ← need_session "measurement failed"
    refuse_if "gr_timeline requires a non-signal source" (is_signal source && is_gr_timeline c.kind)
    p ← need_plugin "measurement failed"
    gets (λ s. d.analyse c p s.world)

  -- The results that exportData finds, with their context.
  abbrev pub keep_results : Kind → Source → d.Analysis → d.Context → Command j h d (Unit {0})
  keep_results kind source analysis context =
      modify (λ s. record s { last = some (kind, (source, (analysis, context))) })

  unfoldable pub write_export : String → String → Command j h d (Unit {0})
  write_export path json = do
    written ←
        step (λ s. let (w, good) = d.write_file path json s.world in (good, record s { world = w }))
    refuse_if "export write failed" (not written)

  -- runMeasurement
  unfoldable pub run_measurement : Source → String → Command j h d Answer
  unfolding run_and_analyze write_export
  run_measurement source path = do
    analysis ← run_and_analyze source
    c ← need_session "no session or plugin"
    p ← need_plugin "no session or plugin"
    context ← gets (λ s. d.context_of p c source s.world)
    keep_results c.kind source analysis context
    write_export path (d.results_json c.kind source analysis context)
    pure path

  -- runChildMeasurement
  unfoldable pub run_child_measurement : Kind → String → Command j h d Answer
  unfolding write_export wav_path_for
  run_child_measurement kind path = do
    c ← need_session "no session or plugin"
    let request : ChildRequest = record {
      kind = kind;
      use_mls = c.freq_excitation_mls;
      export_path = path;
      wav_path = wav_path_for j h d path;
    }
    outcome ← step (λ s. let (w, o) = d.ask_child request s.world in (o, record s { world = w }))
    refuse_if outcome.1 (not outcome.0)
    json ← gets (λ s. d.analyse_child request s.world)
    text ← need "child measurement failed" json
    write_export outcome.1 text
    pure outcome.1

  -- Is the plugin, or else the child's path, in the blacklist: then the child measures.
  unfoldable pub routes_to_child : Parser j h d → Bool
  routes_to_child s = elim s.plugin [
    | some p ↦ d.is_blacklisted s.world (d.identifier_of p)
    | none ↦ not (str_eq s.child_measure_path "") && d.is_blacklisted s.world s.child_measure_path
  ]

  -- The excitation: for frequency responses the field, for all else a sweep. The error leaves out the
  -- text of the field.
  unfoldable pub excitation_field : Object → Kind → Command j h d (Unit {0})
  excitation_field obj kind =
      let text = default_to "sweep" (j.to_text (j.get obj "excitation")) in
      if not (is_frequency_response kind)
      then configure j h d (λ c. record c { freq_excitation_mls = false })
      else if str_eq text "mls"
      then configure j h d (λ c. record c { freq_excitation_mls = true })
      else if str_eq text "sweep"
      then configure j h d (λ c. record c { freq_excitation_mls = false })
      else refuse "unknown excitation"

  -- The part of measure that checks the fields and sets up the session: the type, the source and the
  -- path of the export.
  unfoldable pub prepare_measure : Object → Bool → Command j h d (Kind × (Source × String))
  unfolding parse_source parse_kind configure_session_source excitation_field resolve_export_path
      wav_path_for
  prepare_measure obj to_child = do
    source ←
        need "unknown source" (parse_source (default_to "signal" (j.to_text (j.get obj "source"))))
    kind ←
        need "unknown measure type"
          (parse_kind (default_to "frequency_response" (j.to_text (j.get obj "type"))))
    configure j h d (λ c. record c { kind = kind })
    refuse_if "gr_timeline requires a non-signal source"
        (is_gr_timeline kind && (is_signal source && not to_child))
    configure_session_source j h d obj source
    excitation_field obj kind
    configure j h d (λ c. record c { source = source })
    let path =
        resolve_export_path j h d obj source (
          if is_signal source then "pluginlab_freq_response.json" else "pluginlab_raw_capture.json")
    configure j h d (λ c. record c { flush_path = wav_path_for j h d path })
    pure (kind, (source, path))

  -- measure, once it is known who measures.
  unfoldable pub measure_by : Object → Bool → Command j h d Answer
  unfolding prepare_measure run_measurement run_child_measurement
  measure_by obj to_child = do
    s ← gets (λ s. s)
    refuse_if "no session or plugin" (is_none s.plugin && not to_child)
    refuse_if "child measurement not configured" (to_child && not s.child_is_configured)
    plan ← prepare_measure obj to_child
    if to_child then run_child_measurement plan.0 plan.1.1 else run_measurement plan.1.0 plan.1.1

  unfoldable pub measure : Object → Command j h d Answer
  unfolding routes_to_child measure_by
  measure obj = do
    need_session "no session or plugin"
    to_child ← gets routes_to_child
    measure_by obj to_child

  -- scan: the parameter is found by its id, and the values are from 0 to 1.
  abbrev scan_kind : Kind → Option Kind
  scan_kind gr_timeline = none
  scan_kind kind = some kind

  abbrev pub parse_scan_kind : String → Option Kind
  parse_scan_kind text = elim (parse_kind (default_to "frequency_response" text)) [
    | none ↦ none
    | some k ↦ scan_kind k
  ]

  -- ScanEngine::run
  unfoldable pub run_scan_engine :
      Kind → String → List j.Real → Command j h d (d.Sweep × (ℕ × Bool))
  unfolding after_run
  run_scan_engine kind id values = do
    c ← need_session "no session or plugin"
    p ← need_plugin "no session or plugin"
    step (λ s.
        let (w, (q, (settings, out))) = d.scan c kind id (map d.value_of values) p s.world in
        (out, record (after_run q w s) { session = some settings }))

  unfoldable pub scan : Object → Command j h d Answer
  unfolding parse_kind parse_source number_array configure_session_source resolve_export_path
      wav_path_for run_scan_engine write_export
  scan obj = do
    need_session "no session or plugin"
    p ← need_plugin "no session or plugin"
    kind ← need "unknown measure type" (parse_scan_kind (j.to_text (j.get obj "type")))
    let id = j.to_text (j.get obj "param_id")
    refuse_if "param_id required" (str_eq id "")
    need "parameter not found" (find_param_by_stable_id (h.parameters p) id)
    items ← need "values array required" (j.items_of (j.get obj "values"))
    refuse_if "values array required" (is_empty items)
    values ←
        need "values out of range (0..1)"
          (number_array j (j.decimal "0.0") (j.decimal "1.0") (j.get obj "values"))
    source ←
        need "unknown source" (parse_source (default_to "signal" (j.to_text (j.get obj "source"))))
    configure_session_source j h d obj source
    configure j h d (λ c. record c { freq_excitation_mls = false; source = source })
    let path = resolve_export_path j h d obj source "pluginlab_scan.json"
    configure j h d (λ c. record c { flush_path = wav_path_for j h d path })
    out ← run_scan_engine kind id values
    refuse_if "scan failed" (out.1.0 == 0)
    c ← need_session "no session or plugin"
    q ← need_plugin "no session or plugin"
    context ← gets (λ s. d.context_of q c source s.world)
    write_export path (d.sweep_json out.0 context)
    pure path
