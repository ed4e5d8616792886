-- ===== src/Commands/Control/Setting.antt =====
-- What setParam changes.
use plugin_lab.Prelude.{ℕ, Bool, false, ◌||◌, String, some, inl, inr, ◌≡◌, ◌≢◌, ◌⊎◌, refl}
use plugin_lab.Host.{Host, IsHost}
use plugin_lab.Commands.Action.{Result, err}
use plugin_lab.Commands.Desk.{Json, Desk, Parser}
use plugin_lab.Commands.Fields.{finite_number}
use plugin_lab.Commands.Steps.{need-intro, field-intro, refuse-intro, modify-intro}
use plugin_lab.Commands.Control.{Texts, resolve_param, notify, set_param}

module _ (texts : Texts) (j : Json) (h : Host) (d : Desk j h) (obj : j.Object) where
  abbrev out_of_range : j.Real → Bool
  out_of_range v = j.is_less v (j.decimal "0.0") || j.is_less (j.decimal "1.0") v

  -- The parameter of the plugin which the command names has been set to the command's value, and all
  -- others report what they did. Else only the recorder has heard of it.
  pub record SetsOne (s t : Parser j h d) : Type 0 where
    pub before : h.Plugin
    pub after : h.Plugin
    pub index : ℕ
    pub value : j.Real
    pub was_loaded : s.plugin ≡ some before
    pub is_meant :
        resolve_param texts j h d before
          (j.to_text (j.get obj "param_id"))
          (j.to_text (j.get obj "name"))
        ≡ some index
    pub is_number : finite_number j (j.get obj "value") ≡ some value
    pub in_range : out_of_range value ≡ false
    pub is_next : t ≡ record s {
      plugin = some after;
      timeline = notify texts j h d before index (d.value_of value) (d.now s.world) s.timeline;
    }
    pub is_set : after ≡ h.set_value before index (d.value_of value)
    pub parameters_kept : h.parameters after ≡ h.parameters before
    pub others_kept : (k : ℕ) → index ≢ k → h.get_value after k ≡ h.get_value before k

  abbrev pub IsOutcome : (s : Parser j h d) → Result (String × j.Real) × Parser j h d → Type 0
  IsOutcome s (r, t) = ((e : String) × ((r ≡ err e) × (t ≡ s))) ⊎ SetsOne s t

  -- For a plugin in which setting a parameter changes no other one and not the list of parameters, and
  -- which reports a value that it has reported before again when it is set: setParam either refuses and
  -- leaves everything as it is, or it sets the one parameter that it means to its value, a number from 0
  -- to 1, and tells the recorder; all others keep their values.
  pub set_param-IsOutcome :
      IsHost h → (s : Parser j h d) → IsOutcome s (set_param texts j h d obj s)
  unfolding set_param
  set_param-IsOutcome host s =
      field-intro (IsOutcome s) _ (λ t. t.plugin) _ s (λ _. inl (_, (refl, refl)))
        (λ p loaded.
          need-intro (IsOutcome s) _ (finite_number j (j.get obj "value")) _ s
            (λ _. inl (_, (refl, refl)))
            (λ v number.
              refuse-intro (IsOutcome s) _ (out_of_range v) _ s (λ _. inl (_, (refl, refl)))
                (λ range.
                  need-intro (IsOutcome s) _ (resolve_param texts j h d p _ _) _ s
                    (λ _. inl (_, (refl, refl)))
                    (λ i meant. modify-intro (IsOutcome s) _ _ s (
                      inr (record {
                        before = p;
                        after = h.set_value p i (d.value_of v);
                        index = i;
                        value = v;
                        was_loaded = loaded;
                        is_meant = meant;
                        is_number = number;
                        in_range = range;
                        is_next = refl;
                        is_set = refl;
                        parameters_kept = host.parameters-set_value p i (d.value_of v);
                        others_kept = λ k ne. host.get_value-set_value_ne p i k (d.value_of v) ne;
                      }))))))
