-- ===== src/Commands/Router/Safety.antt =====
-- Which commands measure in this process.
use text.Mathlib.Text.{◌==◌ as str_eq}
use plugin_lab.Prelude.{
  ℕ, Bool, true, false, not, ◌||◌, ◌&&◌, String, List, [], ◌∷◌, ◌++◌, Option, none, some, inl, inr,
  Bool-cases, ◌≡◌, refl, ap, ◌∙◌, All, All-append, All-map, if-intro, arith,
}
use plugin_lab.Host.{Host}
use plugin_lab.Commands.Action.{Result, ok, err, need, ◌>>=◌}
use plugin_lab.Commands.Desk.{Json, Desk, Parser}
use plugin_lab.Commands.Fields.{Command}
use plugin_lab.Commands.Measure.{measure, write_export, routes_to_child}
use plugin_lab.Commands.Measure.Routing.{measure_routes}
use plugin_lab.Commands.Dataset.{export_wav, export_data}
use plugin_lab.Commands.Control.{
  Texts, Loading, loads, loads_blacklisted, ambiguous, not_found, set_param, get_params,
}
use plugin_lab.Commands.Playback.{record_timeline, stop_timeline}
use plugin_lab.Commands.Keeps.{Keeps, bind-Keeps, need-Keeps}
use plugin_lab.Commands.Router.{
  Reply, exported, answering, dispatch_load, load_command, scan_status_command, choose, measuring,
  controlling, handle_object,
}

module _ (texts : Texts) (j : Json) (h : Host) (d : Desk j h) where
  abbrev runs : Parser j h d → ℕ
  runs s = s.host_runs

  abbrev idle :
      {A : Type 0} {m : Command j h d A}
      → ((s : Parser j h d) → runs (m s).1 ≡ runs s)
      → Keeps runs m
  idle e = record { keeps = e }

  need_same :
      {A : Type 0} (e : String) (o : Option A) (s : Parser j h d) → runs (need e o s).1 ≡ runs s
  need_same e none s = refl
  need_same e (some a) s = refl

  write_export-Keeps : (path json : String) → Keeps runs (write_export j h d path json)
  unfolding write_export
  write_export-Keeps path json = bind-Keeps (idle (λ s. refl)) (λ _. idle (λ s. refl))

  dispatch_load-Keeps : (l : Loading) → Keeps runs (dispatch_load texts j h d l)
  unfolding dispatch_load
  dispatch_load-Keeps (loads p) = bind-Keeps (idle (λ s. refl)) (λ _. idle (λ s. refl))
  dispatch_load-Keeps (loads_blacklisted p) = bind-Keeps (idle (λ s. refl)) (λ _. idle (λ s. refl))
  dispatch_load-Keeps (ambiguous names) = idle (λ s. refl)
  dispatch_load-Keeps not_found = idle (λ s. refl)

  set_param-Keeps : (obj : j.Object) → Keeps runs (set_param texts j h d obj)
  unfolding set_param
  set_param-Keeps obj = bind-Keeps (idle (λ s. need_same _ s.plugin s)) (λ p.
      bind-Keeps (need-Keeps _ _) (λ value. bind-Keeps (idle (λ s. refl)) (λ _.
        bind-Keeps (need-Keeps _ _) (λ i. bind-Keeps (idle (λ s. refl)) (λ _. idle (λ s. refl))))))

  get_params-Keeps : Keeps runs (get_params j h d)
  unfolding get_params
  get_params-Keeps = bind-Keeps (idle (λ s. need_same _ s.plugin s)) (λ p. idle (λ s. refl))

  export_wav-Keeps : (obj : j.Object) → Keeps runs (export_wav j h d obj)
  unfolding export_wav
  export_wav-Keeps obj = bind-Keeps (idle (λ s. need_same _ s.session s)) (λ _.
      bind-Keeps (idle (λ s. refl)) (λ _. bind-Keeps (idle (λ s. refl)) (λ _.
        bind-Keeps (idle (λ s. refl)) (λ _.
          bind-Keeps (idle (λ s. refl))
            (λ _. bind-Keeps (idle (λ s. refl)) (λ _. idle (λ s. refl)))))))

  export_data-Keeps : (obj : j.Object) → Keeps runs (export_data j h d obj)
  unfolding export_data
  export_data-Keeps obj = bind-Keeps (idle (λ s. refl)) (λ _. bind-Keeps (idle (λ s. refl)) (λ _.
      bind-Keeps (need-Keeps _ _) (λ _.
        bind-Keeps (idle (λ s. refl))
          (λ _. bind-Keeps (write_export-Keeps _ _) (λ _. idle (λ s. refl))))))

  record_timeline-Keeps : Keeps runs (record_timeline j h d)
  unfolding record_timeline
  record_timeline-Keeps = bind-Keeps (idle (λ s. need_same _ s.plugin s)) (λ p.
      bind-Keeps (idle (λ s. refl)) (λ _. bind-Keeps (idle (λ s. refl)) (λ _. idle (λ s. refl))))

  stop_timeline-Keeps : (obj : j.Object) → Keeps runs (stop_timeline j h d obj)
  unfolding stop_timeline
  stop_timeline-Keeps obj = bind-Keeps (idle (λ s. refl)) (λ _. bind-Keeps (idle (λ s. refl)) (λ _.
      bind-Keeps (idle (λ s. refl)) (λ _. bind-Keeps (idle (λ s. refl)) (λ _.
        bind-Keeps (idle (λ s. refl))
          (λ _. bind-Keeps (idle (λ s. refl)) (λ _. idle (λ s. refl)))))))

  load_command-Keeps : (obj : j.Object) → Keeps runs (load_command texts j h d obj)
  unfolding load_command
  load_command-Keeps obj = bind-Keeps (idle (λ s. refl)) (λ _.
      bind-Keeps (idle (λ s. refl))
        (λ known. bind-Keeps (need-Keeps _ _) (λ lists. dispatch_load-Keeps _)))

  scan_status-Keeps : Keeps runs (scan_status_command texts j h d)
  unfolding scan_status_command
  scan_status-Keeps =
      bind-Keeps (idle (λ s. refl)) (λ _. bind-Keeps (need-Keeps _ _) (λ _. idle (λ s. refl)))

  answering-Keeps :
      {A : Type 0} (f : A → Reply texts j h d) {m : Command j h d A}
      → Keeps runs m
      → Keeps runs (answering texts j h d f m)
  answering-Keeps f k = bind-Keeps k (λ _. idle (λ s. refl))

  -- The commands that do not measure.
  controlling-Keeps :
      (obj : j.Object) → All (λ entry. Keeps runs (entry.1)) (controlling texts j h d obj)
  controlling-Keeps obj = (
    scan_status-Keeps,
    (
      load_command-Keeps obj,
      (
        answering-Keeps _ (set_param-Keeps obj),
        (
          answering-Keeps _ get_params-Keeps,
          (
            bind-Keeps (idle (λ s. refl)) (λ _. idle (λ s. refl)),
            (
              answering-Keeps _ (export_wav-Keeps obj),
              (
                answering-Keeps _ (export_data-Keeps obj),
                (
                  answering-Keeps _ record_timeline-Keeps,
                  (answering-Keeps _ (stop_timeline-Keeps obj), tt),
                ),
              ),
            ),
          ),
        ),
      ),
    ),
  )

  -- A command that the table chooses keeps the count if every entry with its name does.
  choose_lem :
      (entries : List (String × Command j h d (Reply texts j h d))) (cmd : String)
      (s : Parser j h d)
      → All (λ entry. str_eq cmd entry.0 ≡ true → runs (entry.1 s).1 ≡ runs s) entries
      → runs (choose texts j h d entries cmd s).1 ≡ runs s
  choose_lem [] cmd s all = refl
  choose_lem ((name, handler) ∷ rest) cmd s all =
      if-intro {A = Command j h d (Reply texts j h d)} (λ m. runs (m s).1 ≡ runs s)
        (str_eq cmd name) handler (choose texts j h d rest cmd) all.0
        (λ _. choose_lem rest cmd s all.1)

  -- Does the command measure in this process: all that measure do, but measure for a blacklisted plugin.
  abbrev measures_here : String → Parser j h d → Bool
  measures_here cmd s =
      (str_eq cmd "measure" && not (routes_to_child j h d s))
      || (str_eq cmd "scan" || (str_eq cmd "dataset" || str_eq cmd "playTimeline"))

  answering_same :
      {A : Type 0} (f : A → Reply texts j h d) (m : Command j h d A) (s : Parser j h d)
      → runs (answering texts j h d f m s).1 ≡ runs (m s).1
  unfolding ◌>>=◌
  answering_same f m s =
      elim (m s).0
        as (λ o.
          runs
            (elim o as (λ _. Result (Reply texts j h d) × Parser j h d) [
              | ok a ↦ (ok (f a), (m s).1)
              | err e ↦ (err e, (m s).1)
            ]).1
          ≡ runs (m s).1) [ ok a ↦ refl | err e ↦ refl ]

  routed :
      (s : Parser j h d) (cmd : String)
      → measures_here cmd s ≡ false
      → str_eq cmd "measure" ≡ true
      → routes_to_child j h d s ≡ true
  routed s cmd e same = elim (Bool-cases (routes_to_child j h d s)) [
    | inl there ↦ there
    | inr here ↦ absurd (ground (arith, e, same, here))
  ]

  measuring_lem :
      (obj : j.Object) (cmd : String) (s : Parser j h d)
      → measures_here cmd s ≡ false
      → All
          (λ entry. str_eq cmd entry.0 ≡ true → runs (entry.1 s).1 ≡ runs s)
          (measuring texts j h d obj)
  unfolding ◌>>=◌
  measuring_lem obj cmd s e = (
    λ same.
        answering_same exported (measure j h d obj) s
        ∙ ap (λ k. k.host_runs) (measure_routes j h d obj s (routed s cmd e same)),
    (
      λ same. absurd (ground (arith, e, same)),
      (λ same. absurd (ground (arith, e, same)), (λ same. absurd (ground (arith, e, same)), tt)),
    ),
  )

  -- A command starts no measurement in this process, unless it is scan, dataset or playTimeline, or
  -- measure for a plugin that is not blacklisted.
  pub handle_object_lem :
      (obj : j.Object) (s : Parser j h d)
      → measures_here (j.to_text (j.get obj "cmd")) s ≡ false
      → (handle_object texts j h d obj s).1.host_runs ≡ s.host_runs
  unfolding handle_object
  handle_object_lem obj s e =
      let cmd : String = j.to_text (j.get obj "cmd") in
      choose_lem (measuring texts j h d obj ++ controlling texts j h d obj) cmd s (
        All-append (λ entry. str_eq cmd entry.0 ≡ true → runs (entry.1 s).1 ≡ runs s)
          (measuring texts j h d obj) (controlling texts j h d obj) (measuring_lem obj cmd s e)
          (All-map (λ entry. Keeps runs entry.1)
            (λ entry. str_eq cmd entry.0 ≡ true → runs (entry.1 s).1 ≡ runs s)
            (controlling texts j h d obj) (λ entry keeps _. keeps.keeps s) (controlling-Keeps obj)))
