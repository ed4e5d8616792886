-- ===== src/Session.antt =====
-- MeasurementSession of source/capture/MeasurementSession.cpp: the choice of the test signal, and the
-- playback of a parameter timeline during one run, with the restoration of the parameters after it.
-- What the runner does between two calls of the block callback is a parameter of the model.
pub mod Setup
mod Restore
mod Tests
use text.Mathlib.Text.{◌==◌ as str_eq}
use plugin_lab.Prelude.{
  ℕ, Bool, true, false, ◌||◌, not, ◌==◌, String, List, [], ◌∷◌, ◌++◌, length, Option, none, some,
  if◌then◌else◌,
}
use plugin_lab.Prelude.Int.{ℤ}
use plugin_lab.Host.{Parameter, Host, find_param}
use plugin_lab.Timeline.{TimelineEvent, ParameterTimeline, Rates, set_playback, apply_events_up_to}

-- MeasurementSession::Type
pub data Kind : Type 0 where
  frequency_response harmonic_analysis compression_curve gr_timeline : Kind

pub data Source : Type 0 where
  signal file noise dynamic : Source

-- The generator that run makes, as far as its class goes.
pub data Generator : Type 0 where
  mls sine_sweep sequential_tone tone_burst file_playback noise_generator enveloped_sweep :
      Generator

-- The two switches of run: is the excitation an MLS, and does the file exist.
unfoldable pub make_generator : Source → Kind → Bool → Bool → Option Generator
make_generator signal frequency_response use_mls exists = some (if use_mls then mls else sine_sweep)
make_generator signal harmonic_analysis use_mls exists = some sequential_tone
make_generator signal compression_curve use_mls exists = some tone_burst
make_generator signal gr_timeline use_mls exists = none
make_generator file kind use_mls exists = if exists then some file_playback else none
make_generator noise kind use_mls exists = some noise_generator
make_generator dynamic kind use_mls exists = some enveloped_sweep

module _ (h : Host) where
  pub record Session : Type 0 where
    pub plugin : Option h.Plugin
    pub kind : Kind
    pub source : Source
    pub freq_excitation_mls : Bool
    pub timeline : ParameterTimeline h.Value
    pub timeline_active : Bool
    pub timeline_restore : List (String × h.Value)

  -- juce::StringArray::contains
  pub contains : List String → String → Bool
  contains [] id = false
  contains (x ∷ xs) id = str_eq x id || contains xs id

  -- The loop of setTimelinePlayback over the events.
  pub snapshot_loop :
      h.Plugin → List String → List (TimelineEvent h.Value) → List (String × h.Value)
  unfolding contains
  snapshot_loop p seen [] = []
  snapshot_loop p seen (e ∷ es) =
      let skipped = snapshot_loop p seen es in
      let rest = snapshot_loop p (seen ++ (e.param_id ∷ [])) es in
      if contains seen e.param_id then skipped else elim (find_param (h.parameters p) e.param_id) [
        | none ↦ rest
        | some i ↦ (e.param_id, h.get_value p i) ∷ rest
      ]

  pub set_timeline_playback :
      (r : Rates) → List (TimelineEvent h.Value) → r.Rate → Session → Session
  unfolding snapshot_loop
  set_timeline_playback r events rate s =
      let timeline = set_playback r s.timeline events rate in
      record s {
        timeline = timeline;
        timeline_active = true;
        timeline_restore = elim s.plugin [
          | none ↦ []
          | some p ↦ snapshot_loop p [] timeline.playback_events
        ];
      }

  -- restoreParamValue
  unfoldable pub restore_param_value : h.Plugin → String × h.Value → h.Plugin
  restore_param_value p (id, value) = elim (find_param (h.parameters p) id) [
    | none ↦ p
    | some i ↦ h.set_value p i value
  ]

  pub restore_loop : List (String × h.Value) → h.Plugin → h.Plugin
  unfolding restore_param_value
  restore_loop [] p = p
  restore_loop (entry ∷ entries) p = restore_loop entries (restore_param_value p entry)

  -- One block of the runner: what becomes of the plugin, and when its callback is made.
  pub record Block : Type 0 where
    pub process : h.Plugin → h.Plugin
    pub elapsed_ms : ℤ

  -- A run in progress, with the calls of playbackProgressCallback.
  pub record Play : Type 0 where
    pub plugin : Option h.Plugin
    pub timeline : ParameterTimeline h.Value
    pub reported : List (ℕ × (ℕ × ℤ))

  abbrev pub processed : Block → Option h.Plugin → Option h.Plugin
  processed block none = none
  processed block (some p) = some (block.process p)

  -- A block, and the block callback.
  pub play_block : Bool → Block → Play → Play
  play_block active block s =
      let s1 : Play = record s { plugin = processed block s.plugin } in
      let (timeline, applied, plugin) =
        apply_events_up_to h s1.timeline block.elapsed_ms s1.plugin in
      if active
      then record {
        plugin = plugin;
        timeline = timeline;
        reported =
            if timeline.playback_cursor == s1.timeline.playback_cursor
            then s1.reported
            else s1.reported
              ++ ((timeline.playback_cursor, (length timeline.playback_events, block.elapsed_ms))
                  ∷ []);
      }
      else s1

  pub play_blocks : Bool → List Block → Play → Play
  unfolding play_block
  play_blocks active [] s = s
  play_blocks active (block ∷ blocks) s = play_blocks active blocks (play_block active block s)

  abbrev pub restored : Bool → List (String × h.Value) → Option h.Plugin → Option h.Plugin
  restored true entries (some p) = some (restore_loop entries p)
  restored true entries none = none
  restored false entries plugin = plugin

  -- run, once there is a generator; `ok` is what the runner returns.
  pub play : Session → List Block → Bool → Option Generator → Session × Bool
  unfolding play_blocks restore_loop
  play s blocks ok none = (record s { timeline_active = false }, false)
  play s blocks ok (some generator) =
      let out =
        play_blocks s.timeline_active blocks
          (record { plugin = s.plugin; timeline = s.timeline; reported = [] }) in
      (
        record s {
          plugin = restored s.timeline_active s.timeline_restore out.plugin;
          timeline = out.timeline;
          timeline_active = false;
        },
        ok,
      )

  pub run : Session → Bool → List Block → Bool → Session × Bool
  unfolding play make_generator
  run s exists blocks ok = elim s.plugin [
    | none ↦ (record s { timeline_active = false }, false)
    | some _ ↦ play s blocks ok (make_generator s.source s.kind s.freq_excitation_mls exists)
  ]
