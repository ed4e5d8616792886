-- ===== src/Commands/Measure/Routing.antt =====
-- Who measures: a blacklisted plugin is measured by the child, whatever the command says, and a
-- command with a wrong field is measured by nobody.
use text.Mathlib.Text.{◌==◌ as str_eq}
use plugin_lab.Prelude.{
  ℕ, Bool, true, not, String, Option, none, some, inl, inr, Option-cases, ◌≡◌, refl, ◌∙◌, ap, arith,
}
use plugin_lab.Host.{Host}
use plugin_lab.Session.{Kind, Source, signal, file, noise, dynamic}
use plugin_lab.Timeline.{ParameterTimeline}
use plugin_lab.Commands.Action.{Result, err, gets, need, ◌>>=◌}
use plugin_lab.Commands.Desk.{Json, Config, Desk, Parser}
use plugin_lab.Commands.Fields.{
  default_to, Command, configure, configure_file, configure_noise, carrier_field, optional_number,
  configure_dynamic, configure_session_source,
}
use plugin_lab.Commands.Measure.{
  Answer, is_frequency_response, measure, measure_by, prepare_measure, excitation_field,
  run_child_measurement, write_export, routes_to_child,
}
use plugin_lab.Commands.Keeps.{
  Refuses, cast-Refuses, bind-Refuses-first, bind-Refuses-then, Keeps, bind-Keeps, need-Keeps,
  if-Keeps,
}

module _ (j : Json) (h : Host) (d : Desk j h) where
  -- What does not see the settings of the session is not changed by setting them.
  module _ {F : Type 0} (f : Parser j h d → F)
      (blind : (s : Parser j h d) (c : Option (Config j))
        → f (record s { session = c }) ≡ f s) where
    abbrev leaf :
        {A : Type 0} {m : Command j h d A} → ((s : Parser j h d) → f (m s).1 ≡ f s) → Keeps f m
    leaf e = record { keeps = e }

    abbrev idle : {A : Type 0} {r : Parser j h d → Result A} → Keeps f (λ s. (r s, s))
    idle = record { keeps = λ s. refl }

    abbrev sets : {c : Config j → Config j} → Keeps f (configure j h d c)
    sets = record { keeps = λ s. blind s _ }

    optional_number-Keeps :
        (obj : j.Object) (name : String) (default : j.Real) (error : String)
        → Keeps f (optional_number j h d obj name default error)
    optional_number-Keeps obj name default error = leaf (λ s. ground arith)

    pub configure_session_source-Keeps :
        (obj : j.Object) (source : Source) → Keeps f (configure_session_source j h d obj source)
    unfolding configure_session_source configure_file configure_noise configure_dynamic
        carrier_field
    configure_session_source-Keeps obj signal = idle
    configure_session_source-Keeps obj file =
        bind-Keeps idle (λ _. bind-Keeps idle (λ _. bind-Keeps idle (λ _. sets)))
    configure_session_source-Keeps obj noise = bind-Keeps (need-Keeps _ _) (λ _.
        bind-Keeps (optional_number-Keeps _ _ _ _)
          (λ _. bind-Keeps idle (λ _. bind-Keeps (optional_number-Keeps _ _ _ _) (λ _. sets))))
    configure_session_source-Keeps obj dynamic =
        bind-Keeps
          (if-Keeps (j.has obj "carrier_freq") (bind-Keeps (need-Keeps _ _) (λ _. sets)) idle)
          (λ _. bind-Keeps (optional_number-Keeps _ _ _ _) (λ _. sets))

    excitation_field-Keeps :
        (obj : j.Object) (kind : Kind) → Keeps f (excitation_field j h d obj kind)
    unfolding excitation_field
    excitation_field-Keeps obj kind =
        let text : String = default_to "sweep" (j.to_text (j.get obj "excitation")) in
        if-Keeps (not (is_frequency_response kind)) sets
          (if-Keeps (str_eq text "mls") sets (if-Keeps (str_eq text "sweep") sets idle))

    prepare_measure-Keeps :
        (obj : j.Object) (to_child : Bool) → Keeps f (prepare_measure j h d obj to_child)
    unfolding prepare_measure
    prepare_measure-Keeps obj to_child = bind-Keeps (need-Keeps _ _) (λ source.
        bind-Keeps (need-Keeps _ _) (λ kind. bind-Keeps sets (λ _. bind-Keeps idle (λ _.
          bind-Keeps (configure_session_source-Keeps obj source) (λ _.
            bind-Keeps (excitation_field-Keeps obj kind)
              (λ _. bind-Keeps sets (λ _. bind-Keeps sets (λ _. idle))))))))

  -- What a measurement in this process would change, and what the child's leaves as it is.
  pub record Kept : Type 0 where
    pub host_runs : ℕ
    pub plugin : Option h.Plugin
    pub last : Option (Kind × (Source × (d.Analysis × d.Context)))
    pub timeline : ParameterTimeline h.Value

  abbrev pub kept : Parser j h d → Kept
  kept s = record {
    host_runs = s.host_runs;
    plugin = s.plugin;
    last = s.last;
    timeline = s.timeline;
  }

  run_child_measurement-Keeps :
      (kind : Kind) (path : String) → Keeps kept (run_child_measurement j h d kind path)
  unfolding run_child_measurement write_export ◌>>=◌
  run_child_measurement-Keeps kind path = record { keeps = λ s. ground arith }

  measure_by_child-Keeps : (obj : j.Object) → Keeps kept (measure_by j h d obj true)
  unfolding measure_by
  measure_by_child-Keeps obj =
      bind-Keeps (record { keeps = λ s. refl })
        (λ s.
          bind-Keeps (record { keeps = λ s. refl })
            (λ _.
              bind-Keeps (record { keeps = λ s. refl })
                (λ _.
                  bind-Keeps (prepare_measure-Keeps kept (λ s c. refl) obj true)
                    (λ plan. run_child_measurement-Keeps plan.0 plan.1.1))))

  -- measure, by whether there is a session.
  abbrev from_session : j.Object → Option (Config j) → Command j h d Answer
  from_session obj o =
      need "no session or plugin" o
      >>= (λ _. ◌>>=◌ (gets (routes_to_child j h d)) (measure_by j h d obj))

  pub measure_session :
      (obj : j.Object) (s : Parser j h d) (c : Config j)
      → s.session ≡ some c
      → measure j h d obj s ≡ measure_by j h d obj (routes_to_child j h d s) s
  unfolding measure ◌>>=◌
  measure_session obj s c e = ap (λ o. from_session obj o s) e

  pub measure_no_session :
      (obj : j.Object) (s : Parser j h d)
      → s.session ≡ none
      → measure j h d obj s ≡ (err "no session or plugin", s)
  unfolding measure ◌>>=◌
  measure_no_session obj s e = ap (λ o. from_session obj o s) e

  -- A plugin that is in the blacklist is not measured in this process, whatever the command says and
  -- whether it succeeds: no measurement is run here, and the plugin, the last results and the recorder
  -- stay as they are.
  pub measure_routes :
      (obj : j.Object) (s : Parser j h d)
      → routes_to_child j h d s ≡ true
      → kept (measure j h d obj s).1 ≡ kept s
  measure_routes obj s e = elim (Option-cases s.session) [
    | inl missing ↦ ap (λ r. kept r.1) (measure_no_session obj s missing)
    | inr (c, there) ↦
        ap (λ r. kept r.1) (measure_session obj s c there)
        ∙ ap (λ b. kept (measure_by j h d obj b s).1) e
        ∙ (measure_by_child-Keeps obj).keeps s
  ]

  -- All but the settings of the session, and that few others are changed by it.
  abbrev pub all_but_session : Parser j h d → Kept × d.World
  all_but_session s = (kept s, s.world)

  measure_by-Refuses :
      (obj : j.Object) (b : Bool) (s : Parser j h d) (e : String)
      → (prepare_measure j h d obj b s).0 ≡ err e
      → Refuses all_but_session (measure_by j h d obj b) s
  unfolding measure_by
  measure_by-Refuses obj b s e failed =
      let keeps : Keeps all_but_session (prepare_measure j h d obj b) =
        prepare_measure-Keeps all_but_session (λ s c. refl) obj b in
      bind-Refuses-then (record { keeps = λ s. refl })
        (λ _.
          bind-Refuses-then (record { keeps = λ s. refl })
            (λ _.
              bind-Refuses-then (record { keeps = λ s. refl })
                (λ _.
                  bind-Refuses-first _
                    (record { error = e; is_error = failed; same = keeps.keeps s }))))

  -- If measure refuses a field of the command, nothing is measured, neither here nor in the child: the
  -- answer is an error, and only settings of the session have changed.
  pub measure-Refuses :
      (obj : j.Object) (s : Parser j h d) (e : String)
      → (prepare_measure j h d obj (routes_to_child j h d s) s).0 ≡ err e
      → Refuses all_but_session (measure j h d obj) s
  measure-Refuses obj s e failed = elim (Option-cases s.session) [
    | inl missing ↦
        cast-Refuses {n = λ s. (err "no session or plugin", s)} (measure_no_session obj s missing)
          (record { error = _; is_error = refl; same = refl })
    | inr (c, there) ↦
        cast-Refuses {n = measure_by j h d obj (routes_to_child j h d s)}
          (measure_session obj s c there)
          (measure_by-Refuses obj (routes_to_child j h d s) s e failed)
  ]
