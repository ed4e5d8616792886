-- ===== src/Commands/Samples.antt =====
-- Small values for the runs of the commands: JSON values with numbers and texts, in which a tenth is 1,
-- and a world that is the list of what was done in it.
use text.Mathlib.Text.{◌==◌ as str_eq}
use plugin_lab.Prelude.{
  ℕ, ◌==◌, ltb, Bool, true, false, not, String, List, [], ◌∷◌, map, Option, none, some,
  if◌then◌else◌,
}
use plugin_lab.Prelude.Int.{pos}
use plugin_lab.Host.Knobs.{two_knobs}
use plugin_lab.Session.{Kind, frequency_response, signal}
use plugin_lab.Timeline.{ParameterTimeline}
use plugin_lab.Commands.Desk.{Json, Config, Desk, Parser}
use plugin_lab.Commands.Control.{Texts}

pub data Field : Type 0 where
  missing : Field
  words : String → Field
  number : ℕ → Field
  texts : List String → Field
  events : List (ℕ × (String × ℕ)) → Field
  event : ℕ → String → ℕ → Field

abbrev pub field_in : List (String × Field) → String → Field
field_in [] name = missing
field_in ((key, value) ∷ rest) name = if str_eq key name then value else field_in rest name

abbrev is_missing : Field → Bool
is_missing missing = true
is_missing _ = false

abbrev text_of : Field → String
text_of (words t) = t
text_of _ = ""

abbrev number_in : Field → Option ℕ
number_in (number n) = some n
number_in _ = none

abbrev items_in : Field → Option (List Field)
items_in (texts ts) = some (map words ts)
items_in (events es) = some (map (λ e. event e.0 e.1.0 e.1.1) es)
items_in _ = none

abbrev object_in : Field → Option (String → Field)
object_in (event time id value) =
    some
      (field_in (("time_ms", number time) ∷ ("param_id", words id) ∷ ("value", number value) ∷ []))
object_in _ = none

abbrev pub small_json : Json
small_json = record {
  Var = Field;
  Object = String → Field;
  Real = ℕ;
  parse = λ t.
      if str_eq t "two events"
      then some (field_in (("events", events ((0, ("gain", 3)) ∷ (5, ("mix", 9)) ∷ [])) ∷ []))
      else none;
  get = λ obj name. obj name;
  has = λ obj name. not (is_missing (obj name));
  is_void = is_missing;
  to_text = text_of;
  number_of = number_in;
  items_of = items_in;
  object_of = object_in;
  is_finite = λ n. not (n == 999);
  is_less = ltb;
  to_integer = pos;
  decimal = λ t.
      if str_eq t "1.0"
      then 10
      else if str_eq t "2.0"
      then 20
      else if str_eq t "3600.0"
      then 36000
      else 0;
}

abbrev plain_config : Config small_json
plain_config = record {
  kind = frequency_response;
  source = signal;
  freq_excitation_mls = false;
  input_file = "";
  noise_is_pink = false;
  noise_duration = 20;
  noise_seed = 0;
  carrier_freq = 0;
  carrier_start = 0;
  flush_path = "";
}

-- A plugin whose first parameter is 9 is blacklisted; a file named full cannot be written; of the types,
-- all but the timeline of gain reduction succeed.
abbrev pub small_desk : Desk small_json two_knobs
small_desk = record {
  World = List String;
  Analysis = Kind;
  Context = ℕ;
  Sweep = ℕ;
  value_of = λ n. n;
  display_name = λ p i. if i == 0 then "Gain" else "Mix";
  identifier_of = λ p. if p.0 == 9 then "bad" else "good";
  is_blacklisted = λ w id. str_eq id "bad";
  file_exists = λ w path. str_eq path "two events";
  load_text = λ w path. path;
  run_session = λ c p w. ("run" ∷ w, (p, true));
  analyse = λ c p w. c.kind;
  recorded_samples = λ w. 100;
  context_of = λ p c source w. 0;
  scan = λ c kind id values p w. ("scan" ∷ w, (p, (c, (1, (1, false)))));
  measure_family = λ c levels speeds p w. ("family" ∷ w, (p, (c, (1, (1, false)))));
  run_playback = λ c es rate p w. ("play" ∷ w, (p, true));
  ask_child = λ request w. ("child" ∷ w, (true, "child.json"));
  analyse_child = λ request w. some "{}";
  results_json = λ kind source analysis context. "results";
  sweep_json = λ sweep context. "sweep";
  dataset_json = λ battery scan family context. "dataset";
  timeline_json = λ es. "timeline";
  play_json = λ path rate samples. "played";
  heard = λ w v. [];
  address_of = λ p. 7;
  now = λ w. 50;
  known_plugins = λ w. some (
    record { file_or_identifier = "/p/eq.vst3"; name = "Vendor EQ"; plugin_format_name = "VST3" }
        ∷ [],
    [],
  );
  post_load = λ p w. p.name ∷ w;
  scan_status = λ w. "done";
  request_cancel = λ w. "cancel" ∷ w;
  create_parent = λ path w. w;
  write_file = λ path json w. (path ∷ w, not (str_eq path "full"));
  export_wav = λ path w. (path ∷ w, true);
  append = λ a b. a;
  ends_with = λ a b. false;
  with_extension = λ a b. a;
  play_path = λ a. a;
  default_path = λ a. a;
}

abbrev pub exact_texts : Texts
exact_texts = record {
  contains = str_eq;
  equals_ignore_case = str_eq;
  contains_ignore_case = str_eq;
  file_stem = λ path. path;
}

abbrev idle_timeline : ParameterTimeline ℕ
idle_timeline = record {
  recorded_plugin = none;
  attached = none;
  record_start_ms = 0;
  recorded_events = [];
  playback_events = [];
  playback_cursor = 0;
}

abbrev pub parser_with : ℕ × ℕ → Parser small_json two_knobs small_desk
parser_with knobs = record {
  plugin = some knobs;
  session = some plain_config;
  child_measure_path = "";
  child_is_configured = true;
  last = none;
  timeline = idle_timeline;
  world = [];
  host_runs = 0;
}
