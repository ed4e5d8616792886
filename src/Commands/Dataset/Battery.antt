-- ===== src/Commands/Dataset/Battery.antt =====
-- The battery of the command dataset: the types are measured one after the other, and one that fails
-- does not end it.
use plugin_lab.Prelude.{Bool, true, false, String, List, [], ◌∷◌, Option, ◌≡◌, refl, if-intro}
use plugin_lab.Host.{Host}
use plugin_lab.Session.{Kind}
use plugin_lab.Commands.Action.{Result, ok, err, ◌>>=◌}
use plugin_lab.Commands.Desk.{Json, Desk, Parser}
use plugin_lab.Commands.Fields.{Command}
use plugin_lab.Commands.Dataset.{Battery, run_type, run_battery, mls_of, skips}

module _ (j : Json) (h : Host) (d : Desk j h) (obj : j.Object) where
  -- A battery from a state to a state: each type is skipped, or is measured with or without success.
  pub data Runs (excitation : Option Bool)
      : List Kind → Battery j h d → Parser j h d → Battery j h d → Parser j h d → Type 0 where
    finished : {battery : Battery j h d} {s : Parser j h d} → Runs excitation [] battery s battery s
    skipped :
        {kind : Kind} {kinds : List Kind} {done last : Battery j h d} {s t : Parser j h d}
        → skips excitation kind ≡ true
        → Runs excitation kinds done s last t
        → Runs excitation (kind ∷ kinds) done s last t
    measured :
        {kind : Kind} {kinds : List Kind} {done last : Battery j h d} {s m t : Parser j h d}
        {analysis : d.Analysis}
        → skips excitation kind ≡ false
        → run_type j h d obj (mls_of excitation) kind s ≡ (ok analysis, m)
        → Runs excitation kinds ((kind, analysis) ∷ done) m last t
        → Runs excitation (kind ∷ kinds) done s last t
    failed :
        {kind : Kind} {kinds : List Kind} {done last : Battery j h d} {s m t : Parser j h d}
        {e : String}
        → skips excitation kind ≡ false
        → run_type j h d obj (mls_of excitation) kind s ≡ (err e, m)
        → Runs excitation kinds done m last t
        → Runs excitation (kind ∷ kinds) done s last t

  -- The battery comes to its end from every state, whatever its types do.
  pub record Ends (excitation : Option Bool) (kinds : List Kind) (done : Battery j h d)
      (s : Parser j h d) (out : Result (Battery j h d) × Parser j h d) : Type 0 where
    pub last : Battery j h d
    pub is_ok : out.0 ≡ ok last
    pub runs : Runs excitation kinds done s last out.1

  abbrev continued :
      Option Bool
      → List Kind
      → Battery j h d
      → Kind
      → Result d.Analysis
      → Parser j h d
      → Result (Battery j h d) × Parser j h d
  continued excitation kinds done kind (ok analysis) s =
      run_battery j h d obj excitation kinds ((kind, analysis) ∷ done) s
  continued excitation kinds done kind (err e) s = run_battery j h d obj excitation kinds done s

  after_type :
      (excitation : Option Bool) (kinds : List Kind) (done : Battery j h d) (kind : Kind)
      (s : Parser j h d) (r : Result d.Analysis) (m : Parser j h d)
      → ((b : Battery j h d) (t : Parser j h d)
          → Ends excitation kinds b t (run_battery j h d obj excitation kinds b t))
      → skips excitation kind ≡ false
      → run_type j h d obj (mls_of excitation) kind s ≡ (r, m)
      → Ends excitation (kind ∷ kinds) done s (continued excitation kinds done kind r m)
  after_type excitation kinds done kind s (ok analysis) m rest e same =
      let next = rest ((kind, analysis) ∷ done) m in
      record { last = next.last; is_ok = next.is_ok; runs = measured e same next.runs }
  after_type excitation kinds done kind s (err error) m rest e same =
      let next = rest done m in
      record { last = next.last; is_ok = next.is_ok; runs = failed e same next.runs }

  -- Each type of the battery is skipped, or measured from where the one before it has left off, and the
  -- types that succeed are in the result; no failure ends the battery.
  pub run_battery-Ends :
      (excitation : Option Bool) (kinds : List Kind) (done : Battery j h d) (s : Parser j h d)
      → Ends excitation kinds done s (run_battery j h d obj excitation kinds done s)
  unfolding run_battery ◌>>=◌
  run_battery-Ends excitation [] done s = record { last = done; is_ok = refl; runs = finished }
  run_battery-Ends excitation (kind ∷ kinds) done s =
      let out : Result d.Analysis × Parser j h d = run_type j h d obj (mls_of excitation) kind s in
      let rest : (b : Battery j h d) (t : Parser j h d)
          → Ends excitation kinds b t (run_battery j h d obj excitation kinds b t) =
        run_battery-Ends excitation kinds in
      if-intro {A = Command j h d (Battery j h d)}
        (λ m. Ends excitation (kind ∷ kinds) done s (m s)) (skips excitation kind) _ _
        (λ e.
          let next = rest done s in
          record { last = next.last; is_ok = next.is_ok; runs = skipped e next.runs })
        (λ e.
          elim out.0
              as (λ r.
                (m : Parser j h d)
                → run_type j h d obj (mls_of excitation) kind s ≡ (r, m)
                → Ends excitation (kind ∷ kinds) done s
                    (continued excitation kinds done kind r m)) [
                      | ok analysis ↦ λ m same.
                          after_type excitation kinds done kind s (ok analysis) m rest e same
                      | err error ↦ λ m same.
                          after_type excitation kinds done kind s (err error) m rest e same
                    ]
            out.1 refl)
