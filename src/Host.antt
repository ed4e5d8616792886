-- ===== src/Host.antt =====
-- What source/capture uses of a hosted plugin (juce::AudioPluginInstance). The plugin
-- and JUCE's parameter objects are not part of the repository, so they are a parameter of the model:
-- a parameter object is named by its index in `getParameters()`.
pub mod Knobs
use text.Mathlib.Text.{◌==◌ as str_eq}
use plugin_lab.Prelude.{
  ℕ, suc, Bool, ◌&&◌, String, List, [], ◌∷◌, Option, none, some, ◌≡◌, ◌≢◌, if◌then◌else◌,
}

-- `hosted` says whether the `dynamic_cast` to HostedAudioProcessorParameter succeeds.
pub record Parameter : Type 0 where
  pub hosted : Bool
  pub param_id : String

pub record Host : Type 1 where
  pub Plugin : Type 0
  pub Value : Type 0
  pub parameters : Plugin → List Parameter
  pub get_value : Plugin → ℕ → Value
  pub set_value : Plugin → ℕ → Value → Plugin

-- The search of `findParam`, from index `i` on.
unfoldable pub find_from : ℕ → List Parameter → String → Option ℕ
find_from i [] id = none
find_from i (p ∷ ps) id =
    if p.hosted && str_eq p.param_id id then some i else find_from (suc i) ps id

-- ParameterTimeline::findParam: the first hosted parameter with the id.
unfoldable pub find_param : List Parameter → String → Option ℕ
unfolding find_from
find_param ps id = find_from 0 ps id

-- What is relied on in the plugin's parameters: setting one leaves the others and their number
-- as they are, and a value that a parameter has reported is reported again when it is set.
pub record IsHost (h : Host) : Type 0 where
  pub parameters-set_value :
      (p : h.Plugin) (i : ℕ) (v : h.Value) → h.parameters (h.set_value p i v) ≡ h.parameters p
  pub get_value-set_value_self :
      (p q : h.Plugin) (i : ℕ) → h.get_value (h.set_value p i (h.get_value q i)) i ≡ h.get_value q i
  pub get_value-set_value_ne :
      (p : h.Plugin) (i k : ℕ) (v : h.Value)
      → i ≢ k
      → h.get_value (h.set_value p i v) k ≡ h.get_value p k
