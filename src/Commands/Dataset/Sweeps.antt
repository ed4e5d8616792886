-- ===== src/Commands/Dataset/Sweeps.antt =====
-- The scan and the compression family of the command dataset.
use plugin_lab.Prelude.{
  ℕ, ◌==◌, Bool, true, false, String, List, [], ◌∷◌, map, Option, none, some, ◌≡◌, refl, arith, ap,
  ◌∙◌, inl, inr, Bool-cases,
}
use plugin_lab.Host.{Host}
use plugin_lab.Session.{Kind, signal}
use plugin_lab.Commands.Action.{Result, ok, err, Action, pure}
use plugin_lab.Commands.Desk.{Json, Config, Desk, Parser}
use plugin_lab.Commands.Measure.{run_scan_engine}
use plugin_lab.Commands.Steps.{option-intro, field-intro, modify-intro, run-intro}
use plugin_lab.Commands.Dataset.{
  run_scan_block, run_family, run_family_block, scan_fields, whole_sweep, field_object, numbers_or,
}

module _ (j : Json) (h : Host) (d : Desk j h) where
  -- The sweep of a scan of the plugin as it is, with an entry at least and not cancelled.
  pub record IsScan (s : Parser j h d) (sweep : d.Sweep) : Type 0 where
    pub settings : Config j
    pub plugin : h.Plugin
    pub kind : Kind
    pub id : String
    pub values : List j.Real
    pub count : ℕ
    pub had_session : s.session ≡ some settings
    pub had_plugin : s.plugin ≡ some plugin
    pub is_result :
        (d.scan
          (record settings { source = signal; kind = kind })
          kind
          id
          (map d.value_of values)
          plugin
          s.world).1.1.1
        ≡ (sweep, (count, false))
    pub has_entries : (count == 0) ≡ false

  pub record IsFamily (s : Parser j h d) (sweep : d.Sweep) : Type 0 where
    pub settings : Config j
    pub plugin : h.Plugin
    pub levels : List j.Real
    pub speeds : List j.Real
    pub count : ℕ
    pub had_session : s.session ≡ some settings
    pub had_plugin : s.plugin ≡ some plugin
    pub is_result :
        (d.measure_family settings levels speeds plugin s.world).1.1.1 ≡ (sweep, (count, false))
    pub has_entries : (count == 0) ≡ false

  -- A result, where there is one, has the property.
  abbrev Found : (d.Sweep → Type 0) → Result (Option d.Sweep) × Parser j h d → Type 0
  Found P out = (sweep : d.Sweep) → out.0 ≡ ok (some sweep) → P sweep

  no_sweep : (P : d.Sweep → Type 0) (t : Parser j h d) → Found P (ok none, t)
  no_sweep P t sweep bad = absurd (ground (arith, bad))

  no_result : (P : d.Sweep → Type 0) (e : String) (t : Parser j h d) → Found P (err e, t)
  no_result P e t sweep bad = absurd (ground (arith, bad))

  -- A sweep counts if it has entries and was not cancelled.
  whole_sweep_lem :
      (out : d.Sweep × (ℕ × Bool)) (sweep : d.Sweep)
      → whole_sweep j h d out ≡ some sweep
      → (out ≡ (sweep, (out.1.0, false))) × ((out.1.0 == 0) ≡ false)
  whole_sweep_lem (swept, (count, true)) sweep e = absurd (ground (arith, e))
  whole_sweep_lem (swept, (count, false)) sweep e = elim (Bool-cases (count == 0)) [
    | inl empty ↦ absurd (ground (arith, e, empty))
    | inr full ↦ (ground (arith, e, full), full)
  ]

  -- What the result of an engine is, if it has one.
  abbrev Swept :
      (Config j → h.Plugin → d.World → d.Sweep × (ℕ × Bool))
      → Parser j h d
      → Result (d.Sweep × (ℕ × Bool)) × Parser j h d
      → Type 0
  Swept f s out =
      (a : d.Sweep × (ℕ × Bool))
      → out.0 ≡ ok a
      → (c : Config j) × (p : h.Plugin) × (s.session ≡ some c)
        × (s.plugin ≡ some p)
        × (f c p s.world ≡ a)

  run_scan_engine-Swept :
      (kind : Kind) (id : String) (values : List j.Real) (s : Parser j h d)
      → Swept
          (λ c p w. (d.scan c kind id (map d.value_of values) p w).1.1.1)
          s
          (run_scan_engine j h d kind id values s)
  unfolding run_scan_engine
  run_scan_engine-Swept kind id values s =
      let P : Result (d.Sweep × (ℕ × Bool)) × Parser j h d → Type 0 =
        Swept (λ c p w. (d.scan c kind id (map d.value_of values) p w).1.1.1) s in
      field-intro P _ (λ t. t.session) _ s (λ _ a bad. absurd (ground (arith, bad)))
        (λ c session.
          field-intro P _ (λ t. t.plugin) _ s (λ _ a bad. absurd (ground (arith, bad)))
            (λ p loaded a e. (c, p, session, loaded, ground (arith, e))))

  run_family-Swept :
      (levels speeds : List j.Real) (s : Parser j h d)
      → Swept
          (λ c p w. (d.measure_family c levels speeds p w).1.1.1)
          s
          (run_family j h d levels speeds s)
  unfolding run_family
  run_family-Swept levels speeds s =
      let P : Result (d.Sweep × (ℕ × Bool)) × Parser j h d → Type 0 =
        Swept (λ c p w. (d.measure_family c levels speeds p w).1.1.1) s in
      field-intro P _ (λ t. t.session) _ s (λ _ a bad. absurd (ground (arith, bad)))
        (λ c session.
          field-intro P _ (λ t. t.plugin) _ s (λ _ a bad. absurd (ground (arith, bad)))
            (λ p loaded a e. (c, p, session, loaded, ground (arith, e))))

  -- Settings that a setter has left.
  set_settings :
      (f : Config j → Config j) (o : Option (Config j)) (c : Config j)
      → elim o as (λ _. Option (Config j)) [ none ↦ none | some x ↦ some (f x) ] ≡ some c
      → (x : Config j) × (o ≡ some x) × (f x ≡ c)
  set_settings f none c e = absurd (ground (arith, e))
  set_settings f (some x) c e = (x, refl, ground (arith, e))

  pub run_scan_block-IsScan :
      (obj : j.Object) (s : Parser j h d) → Found (IsScan s) (run_scan_block j h d obj s)
  unfolding run_scan_block
  run_scan_block-IsScan obj s =
      let P : Result (Option d.Sweep) × Parser j h d → Type 0 = Found (IsScan s) in
      option-intro {B = Action (Parser j h d) (Option d.Sweep)} (λ m. P (m s))
        (field_object j h d obj "scan") _ _ (λ _. no_sweep _ s)
        (λ block _.
          field-intro P _ (λ t. t.plugin) _ s (λ _. no_result _ _ s)
            (λ p loaded.
              option-intro {B = Action (Parser j h d) (Option d.Sweep)} (λ m. P (m s))
                (scan_fields j h d block p) _ _ (λ _. no_sweep _ s)
                (λ f _. modify-intro P _ _ s (
                  run-intro P (run_scan_engine j h d f.0 f.1.0 f.1.1) _ _ (λ e t _. no_result _ e t)
                    (λ out t same sweep e.
                      let (c', p', session, there, result) =
                        run_scan_engine-Swept f.0 f.1.0 f.1.1 _ out (ap (λ o. o.0) same) in
                      let (c, before, set) =
                        set_settings (λ c. record c { source = signal; kind = f.0 }) s.session c'
                          session in
                      let (whole, some_entry) = whole_sweep_lem out sweep (ground (arith, e)) in
                      record {
                        settings = c;
                        plugin = p';
                        kind = f.0;
                        id = f.1.0;
                        values = f.1.1;
                        count = out.1.0;
                        had_session = before;
                        had_plugin = there;
                        is_result =
                            ap (λ x. (d.scan x f.0 f.1.0 (map d.value_of f.1.1) p' s.world).1.1.1)
                              set
                            ∙ result
                            ∙ whole;
                        has_entries = some_entry;
                      })))))

  pub run_family_block-IsFamily :
      (obj : j.Object) (s : Parser j h d) → Found (IsFamily s) (run_family_block j h d obj s)
  unfolding run_family_block
  run_family_block-IsFamily obj s =
      let P : Result (Option d.Sweep) × Parser j h d → Type 0 = Found (IsFamily s) in
      let Block : Type 0 = Action (Parser j h d) (Option d.Sweep) in
      option-intro {B = Block} (λ m. P (m s)) (field_object j h d obj "compression_family") _ _
        (λ _. no_sweep _ s)
        (λ block _.
          option-intro {B = Block} (λ m. P (m s))
            (numbers_or j h d (j.decimal "-12.0" ∷ j.decimal "0.0" ∷ []) (j.get block "levels_db"))
            _ _ (λ _. no_sweep _ s)
            (λ levels _.
              option-intro {B = Block} (λ m. P (m s))
                (numbers_or j h d (j.decimal "0.5" ∷ j.decimal "1.0" ∷ j.decimal "2.0" ∷ [])
                  (j.get block "speeds"))
                _ _ (λ _. no_sweep _ s)
                (λ speeds _.
                  run-intro P (run_family j h d levels speeds) (λ out. pure (whole_sweep j h d out))
                    s (λ e t _. no_result _ e t)
                    (λ out t same sweep e.
                      let (c, p, session, there, result) =
                        run_family-Swept levels speeds s out (ap (λ o. o.0) same) in
                      let (whole, some_entry) = whole_sweep_lem out sweep (ground (arith, e)) in
                      record {
                        settings = c;
                        plugin = p;
                        levels = levels;
                        speeds = speeds;
                        count = out.1.0;
                        had_session = session;
                        had_plugin = there;
                        is_result = result ∙ whole;
                        has_entries = some_entry;
                      }))))
