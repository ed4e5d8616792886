-- ===== src/Commands/Desk.antt =====
-- What source/ipc/CommandParser.cpp works with: JUCE's JSON values, the plugin, the session, the
-- child's orchestrator and the files, and its own members.
use plugin_lab.Prelude.{ℕ, Bool, String, List, Option}
use plugin_lab.Prelude.Int.{ℤ}
use plugin_lab.Host.{Host}
use plugin_lab.Timeline.{ParameterTimeline, TimelineEvent, Notification}
use plugin_lab.Session.{Kind, Source}

-- juce::var and juce::DynamicObject. `number_of` is there for a double and for the integers;
-- `decimal` is the number that a literal of the program stands for.
pub record Json : Type 1 where
  pub Var : Type 0
  pub Object : Type 0
  pub Real : Type 0
  pub parse : String → Option Object
  pub get : Object → String → Var
  pub has : Object → String → Bool
  pub is_void : Var → Bool
  pub to_text : Var → String
  pub number_of : Var → Option Real
  pub items_of : Var → Option (List Var)
  pub object_of : Var → Option Object
  pub is_finite : Real → Bool
  pub is_less : Real → Real → Bool
  pub to_integer : Real → ℤ
  pub decimal : String → Real

-- juce::PluginDescription
pub record Description : Type 0 where
  pub file_or_identifier : String
  pub name : String
  pub plugin_format_name : String

-- The settings of the session that commands change.
pub record Config (j : Json) : Type 0 where
  pub kind : Kind
  pub source : Source
  pub freq_excitation_mls : Bool
  pub input_file : String
  pub noise_is_pink : Bool
  pub noise_duration : j.Real
  pub noise_seed : ℕ
  pub carrier_freq : j.Real
  pub carrier_start : j.Real
  pub flush_path : String

-- ChildMeasureContract::ChildMeasureRequest
pub record ChildRequest : Type 0 where
  pub kind : Kind
  pub use_mls : Bool
  pub export_path : String
  pub wav_path : String

-- The plugin and everything outside. `run_session` is MeasurementSession::run, `scan` ScanEngine::run
-- with the session's settings, the number of its entries and whether it was cancelled, `measure_family`
-- CompressionFamily::measure likewise, `run_playback` setTimelinePlayback with run(), `ask_child` the orchestrator, which gives the path for the
-- export, or the text of an error; `analyse_child` gives the JSON of the child's WAV file, if it could
-- be read. `is_blacklisted` says no without a plugin manager, and `known_plugins`, the
-- list of plugins with the blacklist, is none without one. `heard` is what a listener of the
-- plugin is told between two moments. `post_load` posts the callback that loads
-- a plugin, if it is set.
pub record Desk (j : Json) (h : Host) : Type 1 where
  pub World : Type 0
  pub Analysis : Type 0
  pub Context : Type 0
  pub Sweep : Type 0
  pub value_of : j.Real → h.Value
  pub display_name : h.Plugin → ℕ → String
  pub identifier_of : h.Plugin → String
  pub is_blacklisted : World → String → Bool
  pub file_exists : World → String → Bool
  pub load_text : World → String → String
  pub run_session : Config j → h.Plugin → World → World × (h.Plugin × Bool)
  pub analyse : Config j → h.Plugin → World → Analysis
  pub recorded_samples : World → ℕ
  pub context_of : h.Plugin → Config j → Source → World → Context
  pub scan :
      Config j
      → Kind
      → String
      → List h.Value
      → h.Plugin
      → World
      → World × (h.Plugin × (Config j × (Sweep × (ℕ × Bool))))
  pub measure_family :
      Config j
      → List j.Real
      → List j.Real
      → h.Plugin
      → World
      → World × (h.Plugin × (Config j × (Sweep × (ℕ × Bool))))
  pub run_playback :
      Config j
      → List (TimelineEvent h.Value)
      → j.Real
      → h.Plugin
      → World
      → World × (h.Plugin × Bool)
  pub ask_child : ChildRequest → World → World × (Bool × String)
  pub analyse_child : ChildRequest → World → Option String
  pub results_json : Kind → Source → Analysis → Context → String
  pub sweep_json : Sweep → Context → String
  pub dataset_json : List (Kind × Analysis) → Option Sweep → Option Sweep → Context → String
  pub timeline_json : List (TimelineEvent h.Value) → String
  pub play_json : String → j.Real → ℕ → String
  pub heard : World → World → List (Notification h.Value)
  pub address_of : h.Plugin → ℕ
  pub now : World → ℕ
  pub known_plugins : World → Option (List Description × List String)
  pub post_load : Description → World → World
  pub scan_status : World → String
  pub request_cancel : World → World
  pub create_parent : String → World → World
  pub write_file : String → String → World → World × Bool
  pub export_wav : String → World → World × Bool
  pub append : String → String → String
  pub ends_with : String → String → Bool
  pub with_extension : String → String → String
  pub play_path : String → String
  pub default_path : String → String

-- Of the members of CommandParser: the plugin and the session, which other threads may set to null
-- between commands, the child's path and whether its callback is set, the last results, and the
-- recorder. `host_runs` counts the measurements in this process; it is there for the theorems.
pub record Parser (j : Json) (h : Host) (d : Desk j h) : Type 0 where
  pub plugin : Option h.Plugin
  pub session : Option (Config j)
  pub child_measure_path : String
  pub child_is_configured : Bool
  pub last : Option (Kind × (Source × (d.Analysis × d.Context)))
  pub timeline : ParameterTimeline h.Value
  pub world : d.World
  pub host_runs : ℕ
