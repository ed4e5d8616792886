-- ===== src/Plugins/Laws.antt =====
-- What the plugin manager of source/host/PluginManager.cpp relies on in JUCE's strings and lists.
use mathlib.Core.List.{Memᴰ}
use plugin_lab.Prelude.{ℕ, ◌≡◌, true, List, ◌++◌, take}
use plugin_lab.Prelude.Int.{pos}
use plugin_lab.Plugins.{Text, Description, Juce}

pub record IsJuce (j : Juce) : Type 0 where
  pub is_equal_refl : (a : Text) → j.is_equal a a ≡ true
  pub eq_of_is_equal : (a b : Text) → j.is_equal a b ≡ true → a ≡ b
  pub is_same_refl : (d : Description) → j.is_same d d ≡ true
  pub starts_with_append : (a b : Text) → j.starts_with (a ++ b) a ≡ true
  pub index_of_some :
      (a p : Text) (i : ℕ) → j.index_of a p ≡ pos i → (rest : Text) × (a ≡ take i a ++ (p ++ rest))
  pub add_to_list_self : (a : Text) (xs : List Text) → Memᴰ a (j.add_to_list a xs)
  pub add_to_list_keeps : (a b : Text) (xs : List Text) → Memᴰ b xs → Memᴰ b (j.add_to_list a xs)
