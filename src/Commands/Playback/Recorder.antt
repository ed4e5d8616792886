-- ===== src/Commands/Playback/Recorder.antt =====
-- The recorder under the commands recordTimeline and stopTimeline.
use mathlib.Core.Path.{subst}
use text.Mathlib.Text.{◌==◌ as str_eq}
use plugin_lab.Prelude.{
  ℕ, ◌%◌, ◌^◌, true, false, not, String, List, none, some, ◌≡◌, refl, ap, sym, arith, if◌then◌else◌,
}
use plugin_lab.Prelude.Sort.{stable_sort}
use plugin_lab.Host.{Host}
use plugin_lab.Timeline.{
  Notification, TimelineEvent, ParameterTimeline, time_of, is_recording, start_recording,
  stop_recording,
}
use plugin_lab.Timeline.Recording.{notify_all, notify_all_lem, accepted, recording_session}
use plugin_lab.Commands.Action.{Result, ok, err, need}
use plugin_lab.Commands.Desk.{Json, Desk, Parser}
use plugin_lab.Commands.Steps.{refuse-intro, gets-intro, step-intro, bind-intro}
use plugin_lab.Commands.Playback.{record_timeline, stop_timeline}

module _ (j : Json) (h : Host) (d : Desk j h) where
  -- The parser after recordTimeline and what the plugin's listener is then told.
  abbrev pub recorded : Parser j h d → List (Notification h.Value) → Parser j h d
  recorded s ns =
      let begun : Parser j h d = (record_timeline j h d s).1 in
      record begun { timeline = notify_all begun.timeline ns }

  -- Against the world before: a file of these events, or an error where it cannot be written; and nothing is being recorded any
  -- more, so that the same command is refused and changes nothing.
  pub record IsStop (obj : j.Object) (before : d.World) (events : List (TimelineEvent h.Value))
      (out : Result (String × List (TimelineEvent h.Value)) × Parser j h d) : Type 0 where
    pub world_after :
        out.1.world
        ≡ (d.write_file (j.to_text (j.get obj "path")) (d.timeline_json events) before).0
    pub answer : out.0 ≡ (
        if (d.write_file (j.to_text (j.get obj "path")) (d.timeline_json events) before).1
        then ok (j.to_text (j.get obj "path"), events)
        else err "timeline export failed")
    pub is_over : is_recording out.1.timeline ≡ false
    pub no_listener : out.1.timeline.attached ≡ none
    pub again : stop_timeline j h d obj out.1 ≡ (err "not recording", out.1)

  record_timeline_lem :
      (s : Parser j h d) (p : h.Plugin)
      → s.plugin ≡ some p
      → is_recording s.timeline ≡ false
      → record_timeline j h d s ≡ (
        ok tt,
        record s { timeline = start_recording s.timeline (some (d.address_of p)) (d.now s.world) },
      )
  unfolding record_timeline
  record_timeline_lem s p loaded quiet =
      let begun : Parser j h d = record s {
        timeline = start_recording s.timeline (some (d.address_of p)) (d.now s.world);
      } in
      let P : Result (Unit {0}) × Parser j h d → Type 0 = λ o. o ≡ (ok tt, begun) in
      bind-intro P _ _ s s p
        (ap {B = Result h.Plugin × Parser j h d} (λ o. need "no plugin loaded" o s) loaded)
        (gets-intro P _ _ s (
          refuse-intro P _ (is_recording s.timeline) _ s (λ on. absurd (ground (arith, on, quiet)))
            (λ off. refl)))

  -- A second stopTimeline.
  stop_timeline-again :
      (obj : j.Object) (s : Parser j h d)
      → is_recording s.timeline ≡ false
      → stop_timeline j h d obj s ≡ (err "not recording", s)
  unfolding stop_timeline
  stop_timeline-again obj s quiet =
      let P : Result (String × List (TimelineEvent h.Value)) × Parser j h d → Type 0 =
        λ o. o ≡ (err "not recording", s) in
      gets-intro P _ _ s (
        refuse-intro P _ (not (is_recording s.timeline)) _ s (λ _. refl)
          (λ on. absurd (ground (arith, on, quiet))))

  stop_timeline-IsStop :
      (obj : j.Object) (s : Parser j h d)
      → is_recording s.timeline ≡ true
      → str_eq (j.to_text (j.get obj "path")) "" ≡ false
      → is_recording (stop_recording s.timeline).0 ≡ false
      → (stop_recording s.timeline).0.attached ≡ none
      → IsStop obj s.world (stop_recording s.timeline).1 (stop_timeline j h d obj s)
  unfolding stop_timeline
  stop_timeline-IsStop obj s on named over alone =
      let path : String = j.to_text (j.get obj "path") in
      let events : List (TimelineEvent h.Value) = (stop_recording s.timeline).1 in
      let (w, good) = d.write_file path (d.timeline_json events) s.world in
      let next : Parser j h d = record s { timeline = (stop_recording s.timeline).0; world = w } in
      let P : Result (String × List (TimelineEvent h.Value)) × Parser j h d → Type 0 =
        IsStop obj s.world events in
      let stopped : (r : Result (String × List (TimelineEvent h.Value)))
          → r ≡ (if good then ok (path, events) else err "timeline export failed")
          → P (r, next) =
        λ r e. record {
          world_after = refl;
          answer = e;
          is_over = over;
          no_listener = alone;
          again = stop_timeline-again obj next over;
        } in
      gets-intro P _ _ s (
        refuse-intro P _ (not (is_recording s.timeline)) _ s
          (λ off. absurd (ground (arith, on, off)))
          (λ _.
            refuse-intro P _ (str_eq path "") _ s (λ empty. absurd (ground (arith, named, empty)))
              (λ _. step-intro P _ _ s (
                step-intro P _ _ _ (
                  refuse-intro P _ (not good) _ next (λ e. stopped _ (ground (arith, e)))
                    (λ e. stopped _ (ground (arith, e))))))))

  -- With a plugin and no recording going on: recordTimeline starts one, and after any notifications
  -- stopTimeline with a path writes those that count to the file, as events stamped with the time since
  -- the start and sorted by it, stably; it answers the path and these events, or, where they cannot be
  -- written, an error. In both cases nothing is being recorded any more, no listener is left, and the
  -- same command once more is refused and changes nothing.
  pub stop_timeline-recorded :
      (obj : j.Object) (s : Parser j h d) (p : h.Plugin) (ns : List (Notification h.Value))
      → s.plugin ≡ some p
      → is_recording s.timeline ≡ false
      → str_eq (j.to_text (j.get obj "path")) "" ≡ false
      → IsStop obj s.world
          (stable_sort time_of (accepted (d.now s.world % 2 ^ 32) ns))
          (stop_timeline j h d obj (recorded s ns))
  unfolding is_recording start_recording
  stop_timeline-recorded obj s p ns loaded quiet named =
      let now : ℕ = d.now s.world in
      let begun : ParameterTimeline h.Value =
        start_recording s.timeline (some (d.address_of p)) now in
      let told : Parser j h d = record s { timeline = notify_all begun ns } in
      let same : recorded s ns ≡ told =
        ap {B = Parser j h d} (λ o. record o.1 { timeline = notify_all o.1.timeline ns })
          (record_timeline_lem s p loaded quiet) in
      let (events, over, alone, _) = recording_session s.timeline (d.address_of p) now ns quiet in
      let started : begun.recorded_plugin ≡ some (d.address_of p) = ground (arith, quiet) in
      let (_, plugin, _) = notify_all_lem begun (d.address_of p) ns started in
      let on : is_recording told.timeline ≡ true = ground (arith, plugin) in
      let stopped = stop_timeline-IsStop obj told on named over alone in
      subst
        (λ t.
          IsStop obj s.world (stable_sort time_of (accepted (now % 2 ^ 32) ns))
            (stop_timeline j h d obj t))
        (sym same)
        (subst (λ es. IsStop obj s.world es (stop_timeline j h d obj told)) events stopped)
