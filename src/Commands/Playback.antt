-- ===== src/Commands/Playback.antt =====
-- The commands recordTimeline, stopTimeline and playTimeline of source/ipc/CommandParser.cpp.
pub mod Recorder
pub mod Guard
use text.Mathlib.Text.{◌==◌ as str_eq}
use plugin_lab.Prelude.{
  ℕ, suc, Bool, false, not, ◌||◌, ◌&&◌, String, List, [], ◌∷◌, Option, none, some, if◌then◌else◌,
}
use plugin_lab.Host.{Host}
use plugin_lab.Session.{frequency_response, signal}
use plugin_lab.Timeline.{TimelineEvent, is_recording, start_recording, stop_recording}
use plugin_lab.Commands.Action.{
  Result, ok, err, Action, pure, gets, need, step, ◌>>=◌, ◌>>◌, refuse_if, modify,
}
use plugin_lab.Commands.Desk.{Json, Desk, Parser}
use plugin_lab.Commands.Fields.{finite_number, number_within, Command, configure, wav_path_for}
use plugin_lab.Commands.Measure.{
  Answer, after_run, need_session, need_plugin, is_none, write_export,
}

module _ (j : Json) (h : Host) (d : Desk j h) where
  open j use {Object}

  unfoldable pub record_timeline : Command j h d (Unit {0})
  unfolding is_recording start_recording
  record_timeline = do
    p ← need_plugin j h d "no plugin loaded"
    recording ← gets (λ s. is_recording s.timeline)
    refuse_if "already recording" recording
    modify (λ s. record s {
      timeline = start_recording s.timeline (some (d.address_of p)) (d.now s.world);
    })

  -- The answer is the path and the events, of which the number is reported.
  unfoldable pub stop_timeline : Object → Command j h d (String × List (TimelineEvent h.Value))
  unfolding is_recording stop_recording
  stop_timeline obj = do
    recording ← gets (λ s. is_recording s.timeline)
    refuse_if "not recording" (not recording)
    let path = j.to_text (j.get obj "path")
    refuse_if "path required" (str_eq path "")
    events ←
        step
          (λ s. let (t, events) = stop_recording s.timeline in (events, record s { timeline = t }))
    written ← step (λ s.
        let (w, good) = d.write_file path (d.timeline_json events) s.world in
        (good, record s { world = w }))
    refuse_if "timeline export failed" (not written)
    pure (path, events)

  -- One event of a timeline file.
  unfoldable pub parse_event : j.Var → Option (TimelineEvent h.Value)
  unfolding finite_number number_within
  parse_event v = elim (j.object_of v) [
    | none ↦ none
    | some obj ↦ elim (finite_number j (j.get obj "time_ms")) [
      | none ↦ none
      | some time ↦ elim (number_within j (j.decimal "0.0") (j.decimal "1.0") (j.get obj "value")) [
        | none ↦ none
        | some value ↦ some (record {
          time_ms = j.to_integer time;
          param_id = j.to_text (j.get obj "param_id");
          value_normalized = d.value_of value;
        })
      ]
    ]
  ]

  unfoldable pub parse_events : List j.Var → Option (List (TimelineEvent h.Value))
  unfolding parse_event
  parse_events [] = some []
  parse_events (v ∷ vs) =
      let rest = parse_events vs in
      elim (parse_event v) [
        | none ↦ none
        | some e ↦ elim rest [ none ↦ none | some es ↦ some (e ∷ es) ]
      ]

  unfoldable pub parse_timeline : String → Option (List (TimelineEvent h.Value))
  unfolding parse_events
  parse_timeline text = elim (j.parse text) [
    | none ↦ none
    | some obj ↦ elim (j.items_of (j.get obj "events")) [
      | none ↦ none
      | some items ↦ parse_events items
    ]
  ]

  -- The field `rate`: 1 where it is missing, and positive.
  unfoldable pub rate_field : Object → Option j.Real
  unfolding finite_number
  rate_field obj =
      if not (j.has obj "rate")
      then some (j.decimal "1.0")
      else elim (finite_number j (j.get obj "rate")) [
        | none ↦ none
        | some rate ↦ if j.is_less (j.decimal "0.0") rate then some rate else none
      ]

  -- setTimelinePlayback, and session->run() with it.
  unfoldable pub run_playback : List (TimelineEvent h.Value) → j.Real → Command j h d Bool
  unfolding after_run
  run_playback events rate = do
    c ← need_session j h d "no session or plugin"
    p ← need_plugin j h d "no session or plugin"
    step (λ s.
        let (w, (q, good)) = d.run_playback c events rate p s.world in
        (good, after_run j h d q w s))

  -- What playTimeline checks before it changes anything: the events, the rate and the path.
  unfoldable pub check_play :
      Object → Command j h d (List (TimelineEvent h.Value) × (j.Real × String))
  unfolding is_recording rate_field parse_timeline
  check_play obj = do
    need_session j h d "no session or plugin"
    need_plugin j h d "no session or plugin"
    recording ← gets (λ s. is_recording s.timeline)
    refuse_if "stop recording first" recording
    let path = j.to_text (j.get obj "path")
    refuse_if "path required" (str_eq path "")
    exists ← gets (λ s. d.file_exists s.world path)
    refuse_if "file not found" (not exists)
    rate ← need "invalid rate" (rate_field obj)
    text ← gets (λ s. d.load_text s.world path)
    events ← need "invalid timeline json" (parse_timeline text)
    pure (events, (rate, path))

  unfoldable pub play_timeline : Object → Command j h d Answer
  unfolding check_play run_playback write_export wav_path_for
  play_timeline obj = do
    plan ← check_play obj
    configure j h d
        (λ c. record c { kind = frequency_response; source = signal; freq_excitation_mls = false })
    let play_path = d.play_path plan.1.1
    good ← run_playback plan.0 plan.1.0
    refuse_if "measurement failed" (not good)
    written ← step (λ s.
        let (w, good) = d.export_wav (wav_path_for j h d play_path) s.world in
        (good, record s { world = w }))
    refuse_if "wav export failed" (not written)
    samples ← gets (λ s. d.recorded_samples s.world)
    write_export j h d play_path (d.play_json plan.1.1 plan.1.0 samples)
    pure play_path
