-- ===== src/Timeline/Recording.antt =====
-- Recording a timeline: startRecording, the listener's callback and stopRecording of
-- source/capture/ParameterTimeline.cpp, as calls that follow one another (each takes `recMutex`).
use mathlib.Core.List.{append-nil, append_assoc}
use plugin_lab.Prelude.{
  sym, inl, inr, Option-cases, ℕ, ◌+◌, ◌%◌, ◌^◌, ◌<◌, ◌≡◌, refl, false, List, [], ◌∷◌, ◌++◌, Option,
  none, some, arith,
}
use plugin_lab.Prelude.Int.{pos}
use plugin_lab.Prelude.Sort.{stable_sort}
use plugin_lab.Timeline.{
  TimelineEvent, ParameterTimeline, Notification, time_of, stamp, elapsed_ms, is_recording,
  start_recording, stop_recording, changed_param, audio_processor_parameter_changed,
}

-- The stamp of an event is the time since the start of the recording, also where the 32-bit counter
-- has wrapped in between, as long as less than 2^32 ms have passed.
elapsed_ms_wraps :
    (start passed : ℕ)
    → passed < 2 ^ 32
    → elapsed_ms ((start + passed) % 2 ^ 32) (start % 2 ^ 32) ≡ pos passed
unfolding elapsed_ms
elapsed_ms_wraps start passed h = ground arith

pub data Call (V : Type 0) : Type 0 where
  start : Option ℕ → ℕ → Call V
  notify : Notification V → Call V
  stop : Call V

module _ {V : Type 0} where
  pub step : ParameterTimeline V → Call V → ParameterTimeline V
  step t (start plugin now) = start_recording t plugin now
  step t (notify n) = audio_processor_parameter_changed t n
  step t stop = (stop_recording t).0

  abbrev pub notify_all : ParameterTimeline V → List (Notification V) → ParameterTimeline V
  notify_all t [] = t
  notify_all t (n ∷ ns) = notify_all (audio_processor_parameter_changed t n) ns

  -- What the notifications come to, with no recorder.
  abbrev pub accepted : ℕ → List (Notification V) → List (TimelineEvent V)
  accepted began [] = []
  accepted began (n ∷ ns) = elim (changed_param n) [
    | none ↦ accepted began ns
    | some id ↦ stamp began id n ∷ accepted began ns
  ]

  pub notify_all_lem :
      (t : ParameterTimeline V) (plugin : ℕ) (ns : List (Notification V))
      → t.recorded_plugin ≡ some plugin
      → let out = notify_all t ns in
        (out.recorded_events ≡ t.recorded_events ++ accepted t.record_start_ms ns)
        × (out.recorded_plugin ≡ some plugin)
        × (out.attached ≡ t.attached)
  unfolding audio_processor_parameter_changed
  notify_all_lem t plugin [] h = (sym (append-nil _), h, refl)
  notify_all_lem t plugin (n ∷ ns) h = elim (Option-cases (changed_param n)) [
    | inl e ↦ ground (arith, e, notify_all_lem t plugin ns h)
    | inr (id, e) ↦
        let event : List (TimelineEvent V) = stamp t.record_start_ms id n ∷ [] in
        let next : ParameterTimeline V = record t {
          recorded_events = t.recorded_events ++ event;
        } in
        ground (
          arith,
          e,
          notify_all_lem next plugin ns h,
          append_assoc t.recorded_events event (accepted t.record_start_ms ns),
        )
  ]

  -- A listener is attached to the recorded plugin, and to no other one.
  abbrev pub IsLinked : ParameterTimeline V → Type 0
  IsLinked t = t.attached ≡ t.recorded_plugin

  -- Every call keeps the registration of the listener in step with the recorded plugin, so no
  -- listener is left on a plugin that is not being recorded.
  step-IsLinked : (t : ParameterTimeline V) (c : Call V) → IsLinked t → IsLinked (step t c)
  unfolding step start_recording stop_recording audio_processor_parameter_changed
  step-IsLinked t (start none now) h = h
  step-IsLinked t (start (some p) now) h = ground arith
  step-IsLinked t (notify n) h = ground arith
  step-IsLinked t stop h = ground arith

  -- From a timeline that records nothing: starting on a plugin, any notifications, and stopping
  -- return the accepted notifications as stamped, sorted by time and stably, and leave a timeline
  -- that records nothing, with no listener attached and no event kept. Stopping once more returns
  -- no events.
  pub recording_session :
      (t : ParameterTimeline V) (plugin now : ℕ) (ns : List (Notification V))
      → is_recording t ≡ false
      → let out = stop_recording (notify_all (start_recording t (some plugin) now) ns) in
        (out.1 ≡ stable_sort time_of (accepted (now % 2 ^ 32) ns))
        × (is_recording out.0 ≡ false)
        × (out.0.attached ≡ none)
        × ((stop_recording out.0).1 ≡ [])
  unfolding start_recording stop_recording is_recording stable_sort
  recording_session t plugin now ns h =
      let begun : ParameterTimeline V = record t {
        recorded_events = [];
        recorded_plugin = some plugin;
        record_start_ms = now % 2 ^ 32;
        attached = some plugin;
      } in
      ground (arith, notify_all_lem begun plugin ns refl)
