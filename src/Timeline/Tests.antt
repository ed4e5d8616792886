-- ===== src/Timeline/Tests.antt =====
-- Runs of the timeline of source/capture/ParameterTimeline.cpp, and its theorems at inputs.
use plugin_lab.Prelude.{
  ℕ, String, ◌%◌, ◌^◌, ◌≡◌, refl, true, false, List, [], ◌∷◌, none, some, arith, set, get_or,
}
use plugin_lab.Prelude.Int.{pos}
use plugin_lab.Prelude.Sort.{stable_sort}
use plugin_lab.Host.{Host, Parameter, find_param}
use plugin_lab.Timeline.{
  TimelineEvent, ParameterTimeline, Rates, Notification, time_of, is_recording, start_recording,
  stop_recording, play, apply_events_up_to,
}
use plugin_lab.Timeline.Playback.{apply_events_up_to-due}
use plugin_lab.Timeline.Recording.{notify_all, accepted, recording_session}

-- Two parameters, "gain" and "mix"; a plugin is the list of their values.
abbrev bench_params : List Parameter
bench_params =
    record { hosted = true; param_id = "gain" } ∷ record { hosted = true; param_id = "mix" } ∷ []

abbrev bench : Host
bench = record {
  Plugin = List ℕ;
  Value = ℕ;
  parameters = λ _. bench_params;
  get_value = λ p i. get_or p i 0;
  set_value = λ p i v. set p i v;
}

-- Whole rates, rounded down.
abbrev whole_rates : Rates
whole_rates = record { Rate = ℕ; is_positive = λ _. false; rounded_quotient = λ t _. t }

abbrev event : ℕ → String → ℕ → TimelineEvent ℕ
event t id v = record { time_ms = pos t; param_id = id; value_normalized = v }

abbrev given : List (TimelineEvent ℕ)
given = event 20 "mix" 7 ∷ event 10 "gain" 5 ∷ event 20 "none" 1 ∷ []

abbrev idle : ParameterTimeline ℕ
idle = record {
  recorded_plugin = none;
  attached = none;
  record_start_ms = 0;
  recorded_events = [];
  playback_events = event 10 "gain" 5 ∷ event 20 "mix" 7 ∷ event 30 "gone" 1 ∷ [];
  playback_cursor = 0;
}

plays_in_time : (apply_events_up_to bench idle (pos 20) (some (0 ∷ 0 ∷ []))).1 ≡ 2
unfolding apply_events_up_to play find_param
plays_in_time = refl

apply_events_up_to-due_example :
    (apply_events_up_to bench idle (pos 20) (some (0 ∷ 0 ∷ []))).2 ≡ some (5 ∷ 7 ∷ [])
unfolding play find_param
apply_events_up_to-due_example =
    (apply_events_up_to-due bench idle (pos 20) (some (0 ∷ 0 ∷ [])) (omega arith)).1

abbrev turned : Notification ℕ
turned = record {
  processor = some bench_params;
  parameter_index = pos 1;
  new_value = 9;
  now_ms = 107;
}

recording_session_example :
    (stop_recording (notify_all (start_recording idle (some 1) 100) (turned ∷ []))).1
    ≡ stable_sort time_of (accepted (100 % 2 ^ 32) (turned ∷ []))
unfolding is_recording
recording_session_example = (recording_session idle 1 100 (turned ∷ []) refl).0
