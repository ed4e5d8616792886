-- ===== src/Commands/Runs.antt =====
-- Runs of the commands of source/ipc/CommandParser.cpp on the plugin, the session and the files of
-- Commands/Samples.
use plugin_lab.Prelude.{ℕ, ◌%◌, ◌^◌, true, false, String, List, [], ◌∷◌, none, some, ◌≡◌, refl}
use plugin_lab.Host.Knobs.{two_knobs, two_knobs-IsHost}
use plugin_lab.Session.{frequency_response, harmonic_analysis, compression_curve, gr_timeline}
use plugin_lab.Prelude.Int.{pos}
use plugin_lab.Prelude.Sort.{stable_sort}
use plugin_lab.Timeline.{Notification, time_of, is_recording}
use plugin_lab.Timeline.Recording.{accepted}
use plugin_lab.Commands.Action.{ok, ◌>>=◌}
use plugin_lab.Commands.Keeps.{Refuses}
use plugin_lab.Commands.Desk.{Description, Parser}
use plugin_lab.Commands.Samples.{
  Field, words, number, texts, field_in, small_json, small_desk, exact_texts, parser_with,
}
use plugin_lab.Commands.Measure.{measure, prepare_measure, routes_to_child}
use plugin_lab.Commands.Measure.Routing.{kept, all_but_session, measure_routes, measure-Refuses}
use plugin_lab.Commands.Measure.Results.{Results, measured_json, export_data-measure}
use plugin_lab.Commands.Dataset.{last_json, export_data, run_battery, Report}
use plugin_lab.Commands.Dataset.Battery.{Ends, run_battery-Ends}
use plugin_lab.Commands.Control.{load_plugin, set_param}
use plugin_lab.Commands.Control.Addressing.{IsAnswer, load_plugin-IsAnswer}
use plugin_lab.Commands.Control.Setting.{IsOutcome, set_param-IsOutcome}
use plugin_lab.Commands.Playback.{stop_timeline, play_timeline}
use plugin_lab.Commands.Playback.Recorder.{IsStop, recorded, stop_timeline-recorded}
use plugin_lab.Commands.Router.{handle_object}
use plugin_lab.Commands.Router.Safety.{handle_object_lem}

abbrev Obj : Type 0
Obj = String → Field

abbrev healthy : Parser small_json two_knobs small_desk
healthy = parser_with (1, 2)

abbrev blacklisted : Parser small_json two_knobs small_desk
blacklisted = parser_with (9, 2)

abbrev measure_object : Obj
measure_object =
    field_in (("cmd", words "measure") ∷ ("type", words "harmonic") ∷ ("path", words "a.json") ∷ [])

measure_run : (measure small_json two_knobs small_desk measure_object healthy).0 ≡ ok "a.json"
unfolding measure ◌>>=◌
measure_run = refl

measure_routes_example :
    kept small_json two_knobs small_desk
      (measure small_json two_knobs small_desk measure_object blacklisted).1
    ≡ kept small_json two_knobs small_desk blacklisted
unfolding routes_to_child
measure_routes_example =
    measure_routes small_json two_knobs small_desk measure_object blacklisted refl

-- A frequency response with an excitation that is not known.
abbrev wrong_object : Obj
wrong_object = field_in (("cmd", words "measure") ∷ ("excitation", words "noise") ∷ [])

measure-Refuses_example :
    Refuses
      (all_but_session small_json two_knobs small_desk)
      (measure small_json two_knobs small_desk wrong_object)
      healthy
unfolding prepare_measure routes_to_child ◌>>=◌
measure-Refuses_example =
    measure-Refuses small_json two_knobs small_desk wrong_object healthy "unknown excitation" refl

abbrev export_object : Obj
export_object = field_in (("cmd", words "exportData") ∷ ("path", words "b.json") ∷ [])

export_data-measure_example :
    let measured = measure small_json two_knobs small_desk measure_object healthy in
    let exported = export_data small_json two_knobs small_desk export_object measured.1 in
    (results : Results small_json two_knobs small_desk) × ((exported.1.last ≡ some results)
      × (((w : List String) × (small_desk.write_file "a.json"
                (measured_json small_json two_knobs small_desk results)
                w
              ≡ (measured.1.world, true)))
          × ((w : List String) × (small_desk.write_file "b.json"
                  (last_json small_json two_knobs small_desk results)
                  w
                ≡ (exported.1.world, true)))))
unfolding measure export_data routes_to_child ◌>>=◌
export_data-measure_example =
    export_data-measure small_json two_knobs small_desk measure_object export_object healthy
      "a.json" "b.json" refl refl refl

abbrev dataset_object : Obj
dataset_object = field_in (
    ("cmd", words "dataset")
    ∷ ("types", texts ("harmonic" ∷ "compression" ∷ []))
    ∷ ("path", words "d.json")
    ∷ [])

abbrev two_types : Report
two_types = record {
  types =
      (frequency_response, false)
      ∷ (harmonic_analysis, true)
      ∷ (compression_curve, true)
      ∷ (gr_timeline, false)
      ∷ [];
  scan = false;
  compression_family = false;
}

run_battery-Ends_example :
    Ends small_json two_knobs small_desk dataset_object none
      (frequency_response ∷ harmonic_analysis ∷ [])
      []
      healthy
      (run_battery small_json two_knobs small_desk dataset_object none
        (frequency_response ∷ harmonic_analysis ∷ [])
        []
        healthy)
run_battery-Ends_example =
    run_battery-Ends small_json two_knobs small_desk dataset_object none
      (frequency_response ∷ harmonic_analysis ∷ []) [] healthy

abbrev equalizer : Description
equalizer = record { file_or_identifier = "/p/eq.vst3"; name = "EQ"; plugin_format_name = "VST3" }

abbrev other : Description
other = record { file_or_identifier = "/p/comp.vst3"; name = "Comp"; plugin_format_name = "VST3" }

load_plugin-IsAnswer_example :
    IsAnswer exact_texts
      (other ∷ equalizer ∷ [])
      ("/p/bad.vst3" ∷ [])
      "EQ"
      (load_plugin exact_texts (other ∷ equalizer ∷ []) ("/p/bad.vst3" ∷ []) "EQ")
load_plugin-IsAnswer_example =
    load_plugin-IsAnswer exact_texts (other ∷ equalizer ∷ []) ("/p/bad.vst3" ∷ []) "EQ"

abbrev set_object : Obj
set_object =
    field_in (("cmd", words "setParam") ∷ ("param_id", words "mix") ∷ ("value", number 4) ∷ [])

set_run :
    (set_param exact_texts small_json two_knobs small_desk set_object healthy).1.plugin
    ≡ some (1, 4)
unfolding set_param ◌>>=◌
set_run = refl

set_param-IsOutcome_example :
    IsOutcome exact_texts small_json two_knobs small_desk set_object healthy
      (set_param exact_texts small_json two_knobs small_desk set_object healthy)
set_param-IsOutcome_example =
    set_param-IsOutcome exact_texts small_json two_knobs small_desk set_object two_knobs-IsHost
      healthy

abbrev stop_object : Obj
stop_object = field_in (("cmd", words "stopTimeline") ∷ ("path", words "full") ∷ [])

-- A knob is turned while the recorder listens.
abbrev turned : List (Notification ℕ)
turned =
    record {
      processor = some (two_knobs.parameters (1, 2));
      parameter_index = pos 1;
      new_value = 6;
      now_ms = 80;
    }
    ∷ []

stop_timeline-recorded_example :
    IsStop small_json two_knobs small_desk stop_object
      (healthy.world)
      (stable_sort time_of (accepted (small_desk.now healthy.world % 2 ^ 32) turned))
      (stop_timeline small_json two_knobs small_desk stop_object
        (recorded small_json two_knobs small_desk healthy turned))
unfolding is_recording
stop_timeline-recorded_example =
    stop_timeline-recorded small_json two_knobs small_desk stop_object healthy (1, 2) turned refl
      refl refl

abbrev play_object : Obj
play_object = field_in (("cmd", words "playTimeline") ∷ ("path", words "two events") ∷ [])

play_run : (play_timeline small_json two_knobs small_desk play_object healthy).0 ≡ ok "two events"
unfolding play_timeline ◌>>=◌
play_run = refl

handle_object_lem_example :
    (handle_object exact_texts small_json two_knobs small_desk measure_object
      blacklisted).1.host_runs
    ≡ 0
unfolding routes_to_child
handle_object_lem_example =
    handle_object_lem exact_texts small_json two_knobs small_desk measure_object blacklisted refl
