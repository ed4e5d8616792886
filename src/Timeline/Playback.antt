-- ===== src/Timeline/Playback.antt =====
-- Playback of a timeline: setPlayback and applyEventsUpTo of source/capture/ParameterTimeline.cpp.
use plugin_lab.Prelude.{
  ℕ, ◌+◌, ◌≡◌, refl, ◌∙◌, false, List, [], ◌∷◌, map, Perm, Option, drop, arith, All, filter, not,
  drop-add,
}
use plugin_lab.Prelude.Int.{ℤ, ◌≤ℤ◌, leb_ℤ}
use plugin_lab.Prelude.Sort.{
  IsSorted, has_key, stable_sort-IsSorted, stable_sort-perm, stable_sort_stable,
}
use plugin_lab.Host.{Host}
use plugin_lab.Timeline.{
  TimelineEvent, ParameterTimeline, Rates, time_of, scaled, set_playback, play, apply_loop,
  apply_events_up_to,
}

module _ (h : Host) where
  open h use {Plugin, Value}

  abbrev due : ℤ → List (TimelineEvent Value) → List (TimelineEvent Value)
  due now = filter λ e. leb_ℤ e.time_ms now

  -- The events one after the other, with no clock.
  abbrev pub play_all : Option Plugin → List (TimelineEvent Value) → ℕ × Option Plugin
  play_all plugin [] = (0, plugin)
  play_all plugin (e ∷ es) =
      let (n, next) = play h plugin e in let (m, last) = play_all next es in (n + m, last)

  apply_loop-split :
      (t u : ℤ) (plugin : Option Plugin) (es : List (TimelineEvent Value))
      → t ≤ℤ u
      → let first = apply_loop h t plugin es in
        let second = apply_loop h u first.plugin (drop first.passed es) in
        let both = apply_loop h u plugin es in
        (both.passed ≡ first.passed + second.passed)
        × (both.applied ≡ first.applied + second.applied)
        × (both.plugin ≡ second.plugin)
  unfolding apply_loop
  apply_loop-split t u plugin [] le = ground arith
  apply_loop-split t u plugin (e ∷ es) le =
      ground (arith, apply_loop-split t u (play h plugin e).1 es le)

  none_due :
      (now : ℤ) (k : ℤ) (es : List (TimelineEvent Value))
      → leb_ℤ k now ≡ false
      → All (λ y. k ≤ℤ y.time_ms) es
      → (due now es ≡ []) × (filter (λ e. not (leb_ℤ e.time_ms now)) es ≡ es)
  none_due now k [] later v = (refl, refl)
  none_due now k (e ∷ es) later v = ground (arith, none_due now k es later v.1)

  apply_loop-due :
      (now : ℤ) (plugin : Option Plugin) (es : List (TimelineEvent Value))
      → IsSorted time_of es
      → let out = apply_loop h now plugin es in
        (out.applied ≡ (play_all plugin (due now es)).0)
        × (out.plugin ≡ (play_all plugin (due now es)).1)
        × (drop out.passed es ≡ filter (λ e. not (leb_ℤ e.time_ms now)) es)
  unfolding apply_loop
  apply_loop-due now plugin [] v = ground arith
  apply_loop-due now plugin (e ∷ es) v =
      ground (arith, apply_loop-due now (play h plugin e).1 es v.1, none_due now e.time_ms es)

  -- A call of applyEventsUpTo on a sorted timeline sets the parameters of exactly the pending events
  -- that are due, in order, counts those whose parameter exists, and leaves exactly the events that
  -- are not due pending; nothing else of the timeline changes.
  pub apply_events_up_to-due :
      (t : ParameterTimeline Value) (now : ℤ) (plugin : Option Plugin)
      → IsSorted time_of (drop t.playback_cursor t.playback_events)
      → let pending = drop t.playback_cursor t.playback_events in
        let out = apply_events_up_to h t now plugin in
        (out.1 ≡ (play_all plugin (due now pending)).0)
        × (out.2 ≡ (play_all plugin (due now pending)).1)
        × (drop out.0.playback_cursor out.0.playback_events
            ≡ filter (λ e. not (leb_ℤ e.time_ms now)) pending)
        × (out.0 ≡ record t { playback_cursor = out.0.playback_cursor })
  unfolding apply_events_up_to
  apply_events_up_to-due t now plugin v =
      let pending = drop t.playback_cursor t.playback_events in
      let (count, effect, left) = apply_loop-due now plugin pending v in
      (
        count,
        effect,
        drop-add t.playback_cursor (apply_loop h now plugin pending).passed t.playback_events
            ∙ left,
        refl,
      )

  -- Polling at a time and then at a later one has the effect of polling at the later time alone: the
  -- same cursor, the same plugin, and together the same count. No order of the events is needed.
  apply_events_up_to-twice :
      (t : ParameterTimeline Value) (now later : ℤ) (plugin : Option Plugin)
      → now ≤ℤ later
      → let first = apply_events_up_to h t now plugin in
        let second = apply_events_up_to h first.0 later first.2 in
        let both = apply_events_up_to h t later plugin in
        (second.0 ≡ both.0) × (first.1 + second.1 ≡ both.1) × (second.2 ≡ both.2)
  unfolding apply_events_up_to
  apply_events_up_to-twice t now later plugin le =
      let pending = drop t.playback_cursor t.playback_events in
      ground (
        arith,
        apply_loop-split now later plugin pending le,
        drop-add t.playback_cursor (apply_loop h now plugin pending).passed t.playback_events,
      )

module _ (r : Rates) {V : Type 0} where
  -- setPlayback puts the cursor at the start of the scaled events, sorted by time and stably: the
  -- same events as often, and those of one time in the order in which they were given.
  set_playback_sorts :
      (t : ParameterTimeline V) (events : List (TimelineEvent V)) (rate : r.Rate)
      → let out = set_playback r t events rate in
        let input = map (scaled r rate) events in
        (out.playback_cursor ≡ 0)
        × IsSorted time_of out.playback_events
        × Perm out.playback_events input
        × ((k : ℤ)
            → filter (has_key time_of k) out.playback_events ≡ filter (has_key time_of k) input)
  unfolding set_playback
  set_playback_sorts t events rate =
      let input = map (scaled r rate) events in
      (
        refl,
        stable_sort-IsSorted time_of input,
        stable_sort-perm time_of input,
        λ k. stable_sort_stable time_of k input,
      )
