-- ===== src/Scan.antt =====
-- ScanEngine of source/scan/ScanEngine.cpp: one measurement for each value of a parameter. What the
-- measurement session and the analysis do is a parameter of the model; both may throw.
mod Restore
mod WriteBack
mod Family
mod Tests
use plugin_lab.Prelude.{
  ℕ, zero, suc, ◌+◌, Bool, true, false, ◌||◌, String, List, [], ◌∷◌, ◌++◌, Option, none, some,
  length, if◌then◌else◌,
}
use plugin_lab.Host.{Parameter, Host, find_param}

-- How MeasurementSession::run ends.
pub data Verdict : Type 0 where
  measured failed threw : Verdict

-- What a scan uses beside the plugin. `settle` is the message loop that runs for 20 ms on the message
-- thread, and nothing on another; `analyse` is MeasurementAnalysis::analyzeByType, with the latency,
-- where `none` is an exception; `is_cancelled` says whether cancel() is called between the checks of
-- the flag before this round and the one before, from outside or by the progress callback.
pub record Bench (h : Host) : Type 1 where
  pub Session : Type 0
  pub Kind : Type 0
  pub Analysis : Type 0
  pub set_measurement_type : Kind → Session → Session
  pub measure : Session → h.Plugin → Session × (h.Plugin × Verdict)
  pub analyse : Session → ℕ → Option Analysis
  pub latency_samples : h.Plugin → ℕ
  pub name_of : h.Plugin → ℕ → String
  pub text_of : h.Plugin → ℕ → h.Value → String
  pub settle : h.Plugin → h.Plugin
  pub is_cancelled : ℕ → Bool

module _ (h : Host) (b : Bench h) where
  pub record Entry : Type 0 where
    pub param_value : h.Value
    pub param_value_text : String
    pub latency_samples : ℕ
    pub analysis : b.Analysis

  pub record Result : Type 0 where
    pub param_id : String
    pub param_name : Option String
    pub values : List h.Value
    pub family : List Entry
    pub cancelled : Bool

  -- The engine in the course of a scan, with the result so far and the calls of `progress`.
  pub record State : Type 0 where
    pub plugin : h.Plugin
    pub session : b.Session
    pub cancelled : Bool
    pub result : Result
    pub reported : List (ℕ × ℕ)

  -- snapshotParams, from the parameter `i` on
  pub snapshot_loop : ℕ → List Parameter → h.Plugin → List h.Value
  snapshot_loop i [] p = []
  snapshot_loop i (x ∷ xs) p = h.get_value p i ∷ snapshot_loop (suc i) xs p

  pub snapshot_params : h.Plugin → List h.Value
  unfolding snapshot_loop
  snapshot_params p = snapshot_loop 0 (h.parameters p) p

  -- restoreParams, likewise, up to the end of the shorter list
  pub restore_loop : ℕ → List h.Value → List Parameter → h.Plugin → h.Plugin
  restore_loop i [] xs p = p
  restore_loop i (v ∷ vs) [] p = p
  restore_loop i (v ∷ vs) (x ∷ xs) p = restore_loop (suc i) vs xs (h.set_value p i v)

  pub restore_params : h.Plugin → List h.Value → h.Plugin
  unfolding restore_loop
  restore_params p saved = restore_loop 0 saved (h.parameters p) p

  -- The end of a round, after its measurement: the entry, if nothing has failed.
  pub conclude_round : ℕ → ℕ → ℕ → h.Value → State → Verdict → Option b.Analysis → State × Verdict
  conclude_round index total round value s measured none = (s, threw)
  conclude_round index total round value s measured (some analysis) =
      let entry : Entry = record {
        param_value = value;
        param_value_text = b.text_of s.plugin index value;
        latency_samples = b.latency_samples s.plugin;
        analysis = analysis;
      } in
      (
        record s {
          result = record s.result { family = s.result.family ++ (entry ∷ []) };
          reported = s.reported ++ ((round + 1, total) ∷ []);
        },
        measured,
      )
  conclude_round index total round value s failed analysed = (s, failed)
  conclude_round index total round value s threw analysed = (s, threw)

  -- A round: what it leaves, and how its measurement and analysis have ended.
  pub round_of : b.Kind → ℕ → ℕ → ℕ → h.Value → State → State × Verdict
  unfolding conclude_round
  round_of kind index total round value s =
      let session = b.set_measurement_type kind s.session in
      let (session1, (plugin1, verdict)) =
        b.measure session (b.settle (h.set_value s.plugin index value)) in
      conclude_round index total round value (record s { plugin = plugin1; session = session1 })
        verdict (b.analyse session1 (b.latency_samples plugin1))

  -- The rounds; `false`: by an exception.
  pub rounds : b.Kind → ℕ → ℕ → ℕ → List h.Value → State → State × Bool
  unfolding round_of
  rounds kind index total round [] s = (s, true)
  rounds kind index total round (value ∷ values) s =
      let s1 : State = record s { cancelled = s.cancelled || b.is_cancelled round } in
      let (s2, verdict) = round_of kind index total round value s1 in
      let rest = rounds kind index total (round + 1) values s2 in
      if s1.cancelled
      then (record s1 { result = record s1.result { cancelled = true } }, true)
      else elim verdict [ measured ↦ rest | failed ↦ (s2, true) | threw ↦ (s2, false) ]

  pub record Engine : Type 0 where
    pub plugin : Option h.Plugin
    pub session : Option b.Session
    pub cancelled : Bool

  pub cancel : Engine → Engine
  cancel e = record e { cancelled = true }

  abbrev pub empty_result : String → Result
  empty_result param_id = record {
    param_id = param_id;
    param_name = none;
    values = [];
    family = [];
    cancelled = false;
  }

  abbrev pub start_state : String → List h.Value → ℕ → h.Plugin → b.Session → State
  start_state param_id values index plugin session = record {
    plugin = plugin;
    session = session;
    cancelled = false;
    result = record (empty_result param_id) {
      param_name = some (b.name_of plugin index);
      values = values;
    };
    reported = [];
  }

  -- The scan of a parameter that has been found, under the guard that restores all parameters.
  pub guarded : b.Kind → String → List h.Value → ℕ → h.Plugin → b.Session → State × Bool
  unfolding snapshot_params rounds restore_params
  guarded kind param_id values index plugin session =
      let saved = snapshot_params plugin in
      let (s, returns) =
        rounds kind index (length values) 0 values
          (start_state param_id values index plugin session) in
      (record s { plugin = restore_params s.plugin saved }, returns)

  -- The part of run that follows the search for the parameter.
  pub scan_param :
      b.Kind
      → String
      → List h.Value
      → Engine
      → h.Plugin
      → b.Session
      → Option ℕ
      → Engine × Option Result
  unfolding guarded
  scan_param kind param_id values e plugin session none = (e, some (empty_result param_id))
  scan_param kind param_id values e plugin session (some index) =
      let (s, returns) = guarded kind param_id values index plugin session in
      (
        record { plugin = some s.plugin; session = some s.session; cancelled = s.cancelled },
        if returns then some s.result else none,
      )

  -- run; the result is `none` where an exception leaves it.
  pub run : b.Kind → String → List h.Value → Engine → Engine × Option Result
  unfolding scan_param
  run kind param_id values e = elim e.plugin [
    | none ↦ (e, some (empty_result param_id))
    | some plugin ↦ elim e.session [
      | none ↦ (e, some (empty_result param_id))
      | some session ↦
          scan_param kind param_id values e plugin session
            (find_param (h.parameters plugin) param_id)
    ]
  ]
