-- ===== src/Commands/Control.antt =====
-- The commands loadPlugin, setParam and getParams of source/ipc/CommandParser.cpp.
pub mod Addressing
pub mod Setting
use text.Mathlib.Text.{◌==◌ as str_eq}
use plugin_lab.Prelude.{
  ℕ, suc, ◌==◌, Bool, not, ◌||◌, ◌&&◌, String, List, [], ◌∷◌, map, filter, Option, none, some,
  if◌then◌else◌,
}
use plugin_lab.Prelude.Int.{pos}
use plugin_lab.Timeline.{ParameterTimeline, audio_processor_parameter_changed}
use plugin_lab.Host.{Host, Parameter, find_param}
use plugin_lab.Commands.Action.{Result, ok, err, Action, pure, need, ◌>>=◌, ◌>>◌, refuse_if, modify}
use plugin_lab.Commands.Desk.{Json, Description, Desk, Parser}
use plugin_lab.Commands.Fields.{finite_number, number_within, Command}
use plugin_lab.Commands.Measure.{need_plugin}

-- juce::String and juce::File: `contains`, `equalsIgnoreCase`, `containsIgnoreCase` and
-- `getFileNameWithoutExtension`.
pub record Texts : Type 0 where
  pub contains : String → String → Bool
  pub equals_ignore_case : String → String → Bool
  pub contains_ignore_case : String → String → Bool
  pub file_stem : String → String

-- What loadPlugin answers: the plugin that it passes to the callback, whether that is a blacklisted
-- one, or the names among which the request does not decide.
pub data Loading : Type 0 where
  loads : Description → Loading
  loads_blacklisted : Description → Loading
  ambiguous : List String → Loading
  not_found : Loading

abbrev pub find_first : {A : Type 0} → (A → Bool) → List A → Option A
find_first f [] = none
find_first f (x ∷ xs) = if f x then some x else find_first f xs

abbrev pub name_of : Description → String
name_of d = d.name

module _ (texts : Texts) where
  -- Levels 1 and 2: the identifier, the name or the name of the file.
  unfoldable pub is_direct_hit : String → Description → Bool
  is_direct_hit path d =
      str_eq d.file_or_identifier path
      || (texts.equals_ignore_case d.name path
          || texts.equals_ignore_case (texts.file_stem d.file_or_identifier) path)

  -- Level 3: one is a part of the other.
  unfoldable pub is_candidate : String → Description → Bool
  is_candidate path d =
      texts.contains_ignore_case d.name path
      || (texts.contains_ignore_case (texts.file_stem d.file_or_identifier) path
          || (not (str_eq d.name "") && texts.contains_ignore_case path d.name))

  unfoldable pub is_blacklist_hit : String → String → Bool
  is_blacklist_hit path entry =
      str_eq entry path || texts.equals_ignore_case (texts.file_stem entry) path

  -- The description that is made up for a blacklisted path.
  abbrev pub blacklisted_description : String → Description
  blacklisted_description entry = record {
    file_or_identifier = entry;
    name = texts.file_stem entry;
    plugin_format_name = "VST3";
  }

  unfoldable pub load_blacklisted : List String → String → Loading
  unfolding is_blacklist_hit
  load_blacklisted blacklist path = elim (find_first (is_blacklist_hit path) blacklist) [
    | none ↦ not_found
    | some entry ↦ loads_blacklisted (blacklisted_description entry)
  ]

  unfoldable pub load_fuzzy : List Description → List String → String → Loading
  unfolding is_candidate load_blacklisted
  load_fuzzy types blacklist path = elim (filter (is_candidate path) types) [
    | [] ↦ load_blacklisted blacklist path
    | only ∷ [] ↦ loads only
    | first ∷ second ∷ rest ↦ ambiguous (map name_of (first ∷ second ∷ rest))
  ]

  -- loadPlugin for a path that is not empty, with the known plugins and the blacklist.
  unfoldable pub load_plugin : List Description → List String → String → Loading
  unfolding is_direct_hit load_fuzzy
  load_plugin types blacklist path = elim (find_first (is_direct_hit path) types) [
    | some d ↦ loads d
    | none ↦ load_fuzzy types blacklist path
  ]

  module _ (j : Json) (h : Host) (d : Desk j h) where
    open j use {Object}

    -- The first parameter from `i` on whose name equals or contains the given one.
    find_named : h.Plugin → ℕ → List Parameter → String → Option ℕ
    find_named p i [] name = none
    find_named p i (q ∷ qs) name =
        let label = d.display_name p i in
        if str_eq label name || texts.contains label name
        then some i
        else find_named p (suc i) qs name

    unfoldable pub resolve_param : h.Plugin → String → String → Option ℕ
    unfolding find_param find_named
    resolve_param p id name =
        if str_eq id ""
        then find_named p 0 (h.parameters p) name
        else find_param (h.parameters p) id

    -- The recorder hears of a change if it listens to the plugin.
    unfoldable pub notify :
        h.Plugin → ℕ → h.Value → ℕ → ParameterTimeline h.Value → ParameterTimeline h.Value
    unfolding audio_processor_parameter_changed
    notify p i value now timeline = elim timeline.attached [
      | none ↦ timeline
      | some a ↦
          if a == d.address_of p
          then audio_processor_parameter_changed timeline (record {
            processor = some (h.parameters p);
            parameter_index = pos i;
            new_value = value;
            now_ms = now;
          })
          else timeline
    ]

    -- The answer names the parameter and the value.
    unfoldable pub set_param : Object → Command j h d (String × j.Real)
    unfolding finite_number resolve_param notify
    set_param obj = do
      p ← need_plugin j h d "no plugin loaded"
      let id = j.to_text (j.get obj "param_id")
      let name = j.to_text (j.get obj "name")
      value ← need "missing or invalid value" (finite_number j (j.get obj "value"))
      refuse_if "value out of range (0..1)"
          (j.is_less value (j.decimal "0.0") || j.is_less (j.decimal "1.0") value)
      i ← need "parameter not found" (resolve_param p id name)
      modify (λ s. record s {
        plugin = some (h.set_value p i (d.value_of value));
        timeline = notify p i (d.value_of value) (d.now s.world) s.timeline;
      })
      pure (if str_eq id "" then name else d.display_name p i, value)

-- One entry of getParams.
pub record ParamInfo (h : Host) : Type 0 where
  pub index : ℕ
  pub name : String
  pub value : h.Value
  pub param_id : String

module _ (j : Json) (h : Host) (d : Desk j h) where
  param_infos : h.Plugin → ℕ → List Parameter → List (ParamInfo h)
  param_infos p i [] = []
  param_infos p i (q ∷ qs) =
      record {
        index = i;
        name = d.display_name p i;
        value = h.get_value p i;
        param_id = if q.hosted then q.param_id else "";
      }
      ∷ param_infos p (suc i) qs

  unfoldable pub get_params : Command j h d (List (ParamInfo h))
  unfolding param_infos
  get_params = do p ← need_plugin j h d "no plugin loaded"; pure (param_infos p 0 (h.parameters p))
