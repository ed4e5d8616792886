-- ===== src/Timeline.antt =====
-- source/capture/ParameterTimeline.{h,cpp}: recording and playback of parameter automation.
-- A plugin pointer that is only stored and compared is a number; the plugin that playback drives is
-- a value of `Host`. Times are `int64_t` milliseconds, far from its bounds, so integers; the
-- millisecond counter is a `uint32_t` and wraps.
pub mod Playback
pub mod Recording
mod Tests
use text.Mathlib.Text.{◌==◌ as str_eq}
use plugin_lab.Prelude.{
  ℕ, suc, ◌+◌, ◌-◌, ◌%◌, ◌^◌, Bool, true, false, not, ◌||◌, String, List, [], ◌∷◌, ◌++◌, map,
  Option, none, some, drop, get_elem?, if◌then◌else◌,
}
use plugin_lab.Prelude.Int.{ℤ, pos, negsuc, leb_ℤ}
use plugin_lab.Prelude.Sort.{stable_sort}
use plugin_lab.Host.{Host, Parameter, find_param}

pub record TimelineEvent (V : Type 0) : Type 0 where
  pub time_ms : ℤ
  pub param_id : String
  pub value_normalized : V

-- `attached` is the processor with which this listener is registered.
pub record ParameterTimeline (V : Type 0) : Type 0 where
  pub recorded_plugin : Option ℕ
  pub attached : Option ℕ
  pub record_start_ms : ℕ
  pub recorded_events : List (TimelineEvent V)
  pub playback_events : List (TimelineEvent V)
  pub playback_cursor : ℕ

-- The arithmetic of `double` that setPlayback does with a rate: `rate > 0.0`, and
-- `int64_t (std::round (double (ms) / rate))`.
pub record Rates : Type 1 where
  pub Rate : Type 0
  pub is_positive : Rate → Bool
  pub rounded_quotient : ℤ → Rate → ℤ

-- One call of audioProcessorParameterChanged: the parameters of the processor (none for a null
-- pointer), the index, the value, and the millisecond counter.
pub record Notification (V : Type 0) : Type 0 where
  pub processor : Option (List Parameter)
  pub parameter_index : ℤ
  pub new_value : V
  pub now_ms : ℕ

-- `removeListener` on `to_detach`, if that is not null.
abbrev pub detach : Option ℕ → Option ℕ → Option ℕ
detach none listening = listening
detach (some _) listening = none

-- `uint32_t` subtraction of the two readings of the counter.
unfoldable pub elapsed_ms : ℕ → ℕ → ℤ
elapsed_ms now start = pos ((now % 2 ^ 32 + 2 ^ 32 - start % 2 ^ 32) % 2 ^ 32)

module _ {V : Type 0} where
  abbrev pub time_of : TimelineEvent V → ℤ
  time_of e = e.time_ms

  unfoldable pub is_recording : ParameterTimeline V → Bool
  is_recording t = elim t.recorded_plugin [ none ↦ false | some _ ↦ true ]

  unfoldable pub start_recording : ParameterTimeline V → Option ℕ → ℕ → ParameterTimeline V
  unfolding is_recording
  start_recording t none now = t
  start_recording t (some plugin) now = if is_recording t then t else record t {
    recorded_events = [];
    recorded_plugin = some plugin;
    record_start_ms = now % 2 ^ 32;
    attached = some plugin;
  }

  unfoldable pub stop_recording : ParameterTimeline V → ParameterTimeline V × List (TimelineEvent V)
  stop_recording t = (
    record t {
      attached = detach t.recorded_plugin t.attached;
      recorded_plugin = none;
      recorded_events = [];
    },
    stable_sort time_of t.recorded_events,
  )

  -- The parameter of a notification, if it is in range, hosted and has an id.
  unfoldable pub changed_param : Notification V → Option String
  changed_param n = elim n.processor [
    | none ↦ none
    | some params ↦ elim n.parameter_index [
      | negsuc _ ↦ none
      | pos i ↦ elim (get_elem? params i) [
        | none ↦ none
        | some param ↦
            if not param.hosted || str_eq param.param_id "" then none else some param.param_id
      ]
    ]
  ]

  abbrev pub stamp : ℕ → String → Notification V → TimelineEvent V
  stamp start id n = record {
    time_ms = elapsed_ms n.now_ms start;
    param_id = id;
    value_normalized = n.new_value;
  }

  unfoldable pub audio_processor_parameter_changed :
      ParameterTimeline V → Notification V → ParameterTimeline V
  audio_processor_parameter_changed t n = elim (changed_param n) [
    | none ↦ t
    | some id ↦ elim t.recorded_plugin [
      | none ↦ t
      | some _ ↦ record t {
        recorded_events = t.recorded_events ++ (stamp t.record_start_ms id n ∷ []);
      }
    ]
  ]

module _ (r : Rates) {V : Type 0} where
  abbrev pub scaled : r.Rate → TimelineEvent V → TimelineEvent V
  scaled rate e =
      if r.is_positive rate then record e { time_ms = r.rounded_quotient e.time_ms rate } else e

  unfoldable pub set_playback :
      ParameterTimeline V → List (TimelineEvent V) → r.Rate → ParameterTimeline V
  set_playback t events rate = record t {
    playback_events = stable_sort time_of (map (scaled rate) events);
    playback_cursor = 0;
  }

module _ (h : Host) where
  open h use {Plugin, Value, parameters, set_value}

  -- What a run of the loop of applyEventsUpTo does: the events it passes, the events it counts, and
  -- the plugin.
  pub record Applied : Type 0 where
    pub passed : ℕ
    pub applied : ℕ
    pub plugin : Option Plugin

  -- The body of the loop: a null plugin and a missing parameter are skipped.
  unfoldable pub play : Option Plugin → TimelineEvent Value → ℕ × Option Plugin
  play none e = (0, none)
  play (some p) e = elim (find_param (parameters p) e.param_id) [
    | none ↦ (0, some p)
    | some i ↦ (1, some (set_value p i e.value_normalized))
  ]

  -- The loop, over the events from the cursor on.
  unfoldable pub apply_loop : ℤ → Option Plugin → List (TimelineEvent Value) → Applied
  apply_loop now plugin [] = record { passed = 0; applied = 0; plugin = plugin }
  apply_loop now plugin (e ∷ es) = elim (leb_ℤ e.time_ms now) [
    | false ↦ record { passed = 0; applied = 0; plugin = plugin }
    | true ↦
        let (n, next) = play plugin e in
        let rest = apply_loop now next es in
        record { passed = suc rest.passed; applied = n + rest.applied; plugin = rest.plugin }
  ]

  unfoldable pub apply_events_up_to :
      ParameterTimeline Value → ℤ → Option Plugin → ParameterTimeline Value × ℕ × Option Plugin
  unfolding apply_loop
  apply_events_up_to t now plugin =
      let out = apply_loop now plugin (drop t.playback_cursor t.playback_events) in
      (record t { playback_cursor = t.playback_cursor + out.passed }, out.applied, out.plugin)
