-- ===== src/Commands/Measure/Results.antt =====
-- The results of a measurement and the command exportData.
use text.Mathlib.Text.{◌==◌ as str_eq}
use plugin_lab.Prelude.{
  Bool, true, false, String, Option, some, inl, inr, Option-cases, Bool-cases, ◌≡◌, sym, ◌∙◌, ap,
  arith,
}
use plugin_lab.Host.{Host}
use plugin_lab.Session.{Kind, Source}
use plugin_lab.Commands.Action.{ok, err, need, pure, refuse_if, modify, gets, ◌>>=◌, ◌>>◌}
use plugin_lab.Commands.Desk.{Json, Desk, Parser}
use plugin_lab.Commands.Fields.{Command}
use plugin_lab.Commands.Measure.{
  Answer, keep_results, measure, measure_by, run_measurement, write_export, routes_to_child,
}
use plugin_lab.Commands.Dataset.{last_json, export_data}
use plugin_lab.Commands.Measure.Routing.{measure_session, measure_no_session}
use plugin_lab.Commands.Ensures.{Ensures, bind-Ensures}

module _ (j : Json) (h : Host) (d : Desk j h) where
  abbrev pub Results : Type 0
  Results = Kind × (Source × (d.Analysis × d.Context))

  -- What measure writes of results.
  abbrev pub measured_json : Results → String
  measured_json (kind, (source, (analysis, context))) = d.results_json kind source analysis context

  -- The last results are kept, and writing them to the path has succeeded.
  pub record IsExported (path : Answer) (s : Parser j h d) : Type 0 where
    pub results : Results
    pub before : d.World
    pub are_last : s.last ≡ some results
    pub is_written : d.write_file path (measured_json results) before ≡ (s.world, true)

  -- An export that succeeds has written its text, and changes nothing else.
  pub write_export_ok :
      {A : Type 0} (path json : String) (value : A) (s : Parser j h d) (answer : A)
      → let out = (write_export j h d path json >> pure value) s in
        out.0 ≡ ok answer
        → (answer ≡ value)
          × ((d.write_file path json s.world ≡ (out.1.world, true))
              × ((out.1.last ≡ s.last) × (out.1.host_runs ≡ s.host_runs)))
  unfolding write_export ◌>>=◌
  write_export_ok path json value s answer =
      let (w, good) = d.write_file path json s.world in
      elim (Bool-cases good) [
        | inl e ↦ λ a. ground (arith, e, a, ap {B = d.World × Bool} (λ b. (w, b)) e)
        | inr e ↦ λ a. ground (arith, e, a)
      ]

  keep_results-Ensures :
      (kind : Kind) (source : Source) (analysis : d.Analysis) (context : d.Context) (path : String)
      → Ensures
          (keep_results j h d kind source analysis context
            >> (write_export j h d path (d.results_json kind source analysis context) >> pure path))
          (λ answer s. (answer ≡ path) × IsExported path s)
  unfolding ◌>>=◌
  keep_results-Ensures kind source analysis context path = record {
    ensures = λ s answer e.
        let results : Results = (kind, (source, (analysis, context))) in
        let (same, (written, (last, _))) =
          write_export_ok path (measured_json results) path (record s { last = some results })
            answer e in
        (
          same,
          record { results = results; before = s.world; are_last = last; is_written = written },
        );
  }

  run_measurement-Ensures :
      (source : Source) (path : String)
      → Ensures
          (run_measurement j h d source path)
          (λ answer s. (answer ≡ path) × IsExported path s)
  unfolding run_measurement
  run_measurement-Ensures source path = bind-Ensures _ _ (λ analysis. bind-Ensures _ _ (λ c.
      bind-Ensures _ _ (λ p.
        bind-Ensures _ _ (λ context. keep_results-Ensures c.kind source analysis context path))))

  measure_by-Ensures :
      (obj : j.Object) → Ensures (measure_by j h d obj false) (λ answer s. IsExported answer s)
  unfolding measure_by
  measure_by-Ensures obj = bind-Ensures _ _ (λ s. bind-Ensures _ _ (λ _. bind-Ensures _ _ (λ _.
      bind-Ensures _ _ (λ plan. record {
        ensures = λ s answer e.
            let out = (run_measurement-Ensures plan.1.0 plan.1.1).ensures s answer e in
            rw out.0 out.1;
      }))))

  -- A measurement in this process that answers ok keeps its results, and has written them to the path
  -- that it answers.
  measure-IsExported :
      (obj : j.Object) (s : Parser j h d) (path : Answer)
      → routes_to_child j h d s ≡ false
      → (measure j h d obj s).0 ≡ ok path
      → IsExported path (measure j h d obj s).1
  measure-IsExported obj s path e good = elim (Option-cases s.session) [
    | inl missing ↦ absurd (
        let bad : err "no session or plugin" ≡ ok path =
          sym (ap (λ o. o.0) (measure_no_session j h d obj s missing)) ∙ good in
        ground (arith, bad))
    | inr (c, there) ↦
        let same : measure j h d obj s ≡ measure_by j h d obj false s =
          measure_session j h d obj s c there ∙ ap (λ b. measure_by j h d obj b s) e in
        rw same ((measure_by-Ensures obj).ensures s path (sym (ap (λ o. o.0) same) ∙ good))
  ]

  -- exportData for a path that is not empty, by the last results.
  abbrev from_last : String → Option Results → Command j h d Answer
  from_last path last = need "no measurement result" last >>= (λ results.
      modify (λ s. record s { world = d.create_parent path s.world })
      >>= (λ _. ◌>>=◌ (write_export j h d path (last_json j h d results)) (λ _. pure path)))

  abbrev checked : String → Bool → Command j h d Answer
  checked path is_empty =
      refuse_if "invalid path" is_empty >>= (λ _. ◌>>=◌ (gets (λ s. s.last)) (from_last path))

  export_data_last :
      (obj : j.Object) (s : Parser j h d) (results : Results) (answer : Answer)
      → s.last ≡ some results
      → let out = export_data j h d obj s in
        out.0 ≡ ok answer
        → (out.1.last ≡ some results)
          × ((w : d.World) × (d.write_file answer (last_json j h d results) w
                ≡ (out.1.world, true)))
  unfolding export_data ◌>>=◌
  export_data_last obj s results answer last =
      let path : String = j.to_text (j.get obj "path") in
      elim (Bool-cases (str_eq path "")) [
        | inl e ↦ λ good. absurd (
            let bad : err "invalid path" ≡ ok answer =
              sym (ap (λ b. (checked path b s).0) e) ∙ good in
            ground (arith, bad))
        | inr e ↦
            let same : export_data j h d obj s ≡ from_last path (some results) s =
              ap (λ b. checked path b s) e ∙ ap (λ o. from_last path o s) last in
            λ good.
              let out =
                write_export_ok path (last_json j h d results) path
                  (record s { world = d.create_parent path s.world }) answer
                  (sym (ap (λ o. o.0) same) ∙ good) in
              (
                ap (λ o. o.1.last) same ∙ out.1.1.0 ∙ last,
                (
                  d.create_parent path s.world,
                  rw (out.0)
                      (out.1.0 ∙ ap {B = d.World × Bool} (λ o. (o.1.world, true)) (sym same)),
                ),
              )
      ]

  -- exportData after a measurement in this process that answered ok, where nothing came in between:
  -- the two write their texts of the same results, which stay the last ones.
  pub export_data-measure :
      (obj obj' : j.Object) (s : Parser j h d) (path path' : Answer)
      → routes_to_child j h d s ≡ false
      → let measured = measure j h d obj s in
        let exported = export_data j h d obj' measured.1 in
        measured.0 ≡ ok path
        → exported.0 ≡ ok path'
        → (results : Results) × ((exported.1.last ≡ some results)
            × (((w : d.World) × (d.write_file path (measured_json results) w
                    ≡ (measured.1.world, true)))
                × ((w : d.World) × (d.write_file path' (last_json j h d results) w
                      ≡ (exported.1.world, true)))))
  export_data-measure obj obj' s path path' e good good' =
      let kept = measure-IsExported obj s path e good in
      let again =
        export_data_last obj' (measure j h d obj s).1 kept.results path' kept.are_last good' in
      (kept.results, (again.0, ((kept.before, kept.is_written), again.1)))
