-- ===== src/HostChild.antt =====
-- source/child/PluginHostChild.cpp: the program that hosts a plugin out of process. It reads requests
-- from its standard input and writes responses and progress lines to its standard output.
pub mod Serve
pub mod Lockstep
pub mod Waiting
mod Tests
use text.Mathlib.Text.{◌==◌ as str_eq}
use plugin_lab.Prelude.{
  ℕ, zero, suc, ◌+◌, ◌-◌, ◌%◌, ◌^◌, leb, Bool, true, false, not, ◌||◌, ◌&&◌, String, List, [], ◌∷◌,
  ◌++◌, Option, none, some, if◌then◌else◌,
}
use plugin_lab.Host.{Host, Parameter}
use plugin_lab.Session.{restore_param_value}
use plugin_lab.Session.Setup.{Setup, mls, sine_sweep, sequential_tone, tone_burst, enveloped_sweep}
use plugin_lab.Commands.Action.{
  Result, ok, err, Action, pure, refuse, gets, need, step, ◌>>=◌, ◌>>◌, refuse_if, modify,
}
use plugin_lab.Commands.Desk.{Json}

-- The answers that are not errors.
pub data Answer (h : Host) : Type 0 where
  acknowledged : Answer h
  started : ℕ → Answer h
  loaded : String → Answer h
  measured : String → String → h.Plugin → Answer h
  snapshot : List (String × h.Value) → Answer h

-- What run() comes to: an exception, a failure, or a capture.
pub data Outcome : Type 0 where
  threw failed captured : Outcome

-- How the loading of a plugin ends, as far as the fuel goes.
pub data Wait : Type 0 where
  created timed_out out_of_fuel : Wait

-- What the program uses of JUCE and of the sweep runner. `find_types` gives the names of the plugins in
-- a file, or none for an exception, and `create` starts to make the first of them and says whether it
-- threw; `wait` waits at most 20 ms for it, `pump` handles messages for as long, and `now_ms` reads the
-- 32-bit counter. `run` is SweepRunner::run with the number of its progress reports.
pub record Program (j : Json) (h : Host) : Type 1 where
  pub World : Type 0
  pub has_format : Bool
  pub process_id : ℕ
  pub trim : String → String
  pub find_types : String → World → World × Option (List String)
  pub create : String → j.Var → j.Var → World → World × Bool
  pub wait : World → World × Bool
  pub pump : World → World
  pub now_ms : World → ℕ
  pub instance_of : World → Option h.Plugin
  pub run :
      Setup j.Real → j.Var → j.Var → String → h.Plugin → World → World × (h.Plugin × (ℕ × Outcome))
  pub limited_value : j.Var → h.Value

-- A line of the standard output.
pub data Line (h : Host) : Type 0 where
  progress : Line h
  response : Result (Answer h) → Line h

pub record Child (j : Json) (h : Host) (d : Program j h) : Type 0 where
  pub plugin : Option h.Plugin
  pub stop_requested : Bool
  pub output : List (Line h)
  pub world : d.World

-- The generator of a type, with what is set on it; the second argument says whether the excitation is
-- an MLS.
unfoldable pub child_generator : (j : Json) → String → Bool → Setup j.Real
child_generator j type use_mls =
    if str_eq type "harmonic"
    then sequential_tone (j.decimal "3.0") (j.decimal "0.4") (
        j.decimal "100.0"
        ∷ j.decimal "200.0"
        ∷ j.decimal "400.0"
        ∷ j.decimal "800.0"
        ∷ j.decimal "1600.0"
        ∷ j.decimal "3200.0"
        ∷ j.decimal "6400.0"
        ∷ j.decimal "12800.0"
        ∷ [])
    else if str_eq type "compression"
    then tone_burst (j.decimal "1000.0")
    else if str_eq type "gr_timeline"
    then enveloped_sweep
        (record {
          low_hz = j.decimal "10000.0";
          high_hz = j.decimal "20000.0";
          duration_sec = j.decimal "2.0";
          amplitude = j.decimal "0.5";
        })
        (record {
          attack = j.decimal "0.02";
          decay = j.decimal "0.1";
          sustain = j.decimal "0.8";
          release = j.decimal "0.2";
        })
        (j.decimal "1.0")
    else if use_mls
    then mls 16383 (j.decimal "0.5")
    else sine_sweep (record {
      low_hz = j.decimal "20.0";
      high_hz = j.decimal "20000.0";
      duration_sec = j.decimal "5.0";
      amplitude = j.decimal "0.5";
    })

abbrev is_measure_type : String → Bool
is_measure_type type =
    str_eq type "frequency_response"
    || (str_eq type "harmonic" || (str_eq type "compression" || str_eq type "gr_timeline"))

abbrev load_timeout_ms : ℕ
load_timeout_ms = 30000

abbrev first_of : {A : Type 0} → List A → Option A
first_of [] = none
first_of (x ∷ xs) = some x

abbrev pub progress_lines : {h : Host} → ℕ → List (Line h)
progress_lines zero = []
progress_lines (suc n) = progress ∷ progress_lines n

module _ (j : Json) (h : Host) (d : Program j h) where
  open j use {Object}

  abbrev pub Handler : Type 0 → Type 0
  Handler A = Action (Child j h d) A

  abbrev pub print : List (Line h) → Handler (Unit {0})
  print lines = modify (λ s. record s { output = s.output ++ lines })

  abbrev pub advance : {A : Type 0} → (d.World → d.World × A) → Handler A
  advance f = step (λ s. let (w, a) = f s.world in (a, record s { world = w }))

  -- `nowMs - lastProgressMs >= 500` in `uint32_t`
  abbrev pub is_due : ℕ → ℕ → Bool
  is_due now last = leb 500 ((now % 2 ^ 32 + 2 ^ 32 - last % 2 ^ 32) % 2 ^ 32)

  -- The loop of handleLoad that waits for the plugin, on fuel.
  unfoldable pub wait_created : ℕ → ℕ → ℕ → Handler Wait
  wait_created zero last deadline = pure out_of_fuel
  wait_created (suc n) last deadline =
      let next = wait_created n in
      advance d.wait >>= (λ done. gets (λ s. d.now_ms s.world) >>= (λ now.
        if done
        then pure created
        else if leb deadline now
        then pure timed_out
        else print (if is_due now last then progress ∷ [] else []) >>= (λ _.
          modify (λ s. record s { world = d.pump s.world })
          >>= (λ _. next (if is_due now last then now else last) deadline))))

  -- What becomes of the instance that was made; the reason that JUCE gives for a failure is left out of
  -- the error.
  unfoldable pub take_instance : String → Wait → Handler (Answer h)
  take_instance name created = do
    instance ← gets (λ s. d.instance_of s.world)
    p ← need "load failed" instance
    modify (λ s. record s { plugin = some p })
    pure (loaded name)
  take_instance name timed_out = refuse "load timeout"
  take_instance name out_of_fuel = refuse "load timeout"

  unfoldable pub handle_load : ℕ → Object → Handler (Answer h)
  unfolding wait_created take_instance
  handle_load fuel obj = do
    let path = j.to_text (j.get obj "path")
    refuse_if "path required" (str_eq path "")
    refuse_if "no VST3 format" (not d.has_format)
    found ← advance (d.find_types path)
    types ← need "load failed" found
    name ← need "plugin not found" (first_of types)
    crashed ← advance (d.create path (j.get obj "sample_rate") (j.get obj "block_size"))
    refuse_if "load failed" crashed
    now ← gets (λ s. d.now_ms s.world)
    wait ← wait_created fuel now ((now + load_timeout_ms) % 2 ^ 32)
    take_instance name wait

  -- The field `excitation`: a sweep where it is missing.
  abbrev excitation_of : Object → String
  excitation_of obj =
      let field = j.get obj "excitation" in if j.is_void field then "sweep" else j.to_text field

  abbrev is_excitation : String → Bool
  is_excitation text = str_eq text "sweep" || str_eq text "mls"

  -- The answer after the run.
  abbrev pub conclude : String → String → h.Plugin → Outcome → Handler (Answer h)
  conclude path wav p threw = refuse "measurement failed"
  conclude path wav p failed = refuse "measurement failed"
  conclude path wav p captured = pure (measured path wav p)

  unfoldable pub handle_measure : Object → Handler (Answer h)
  unfolding child_generator
  handle_measure obj = do
    let type = j.to_text (j.get obj "type")
    refuse_if "unknown measure type" (not (is_measure_type type))
    let path = j.to_text (j.get obj "export_path")
    refuse_if "path required" (str_eq path "")
    plugin ← gets (λ s. s.plugin)
    p ← need "measurement failed" plugin
    let excitation = excitation_of obj
    refuse_if "unknown excitation" (not (is_excitation excitation))
    let wav = j.to_text (j.get obj "wav_path")
    let generator = child_generator j type (str_eq excitation "mls")
    out ← advance (d.run generator (j.get obj "sample_rate") (j.get obj "block_size") wav p)
    modify (λ s. record s { plugin = some out.0 })
    print (progress_lines out.1.0)
    conclude path wav out.0 out.1.1

  -- The hosted parameters that have an id, from index `i` on.
  snapshot_from : h.Plugin → ℕ → List Parameter → List (String × h.Value)
  snapshot_from p i [] = []
  snapshot_from p i (q ∷ qs) =
      let rest = snapshot_from p (suc i) qs in
      if not q.hosted || str_eq q.param_id "" then rest else (q.param_id, h.get_value p i) ∷ rest

  unfoldable pub handle_snapshot_params : Handler (Answer h)
  unfolding snapshot_from
  handle_snapshot_params = do
    plugin ← gets (λ s. s.plugin)
    p ← need "no plugin loaded" plugin
    pure (snapshot (snapshot_from p 0 (h.parameters p)))

  -- One entry of restore_params: no object, no id or no value is passed over.
  restore_item : h.Plugin → j.Var → h.Plugin
  unfolding restore_param_value
  restore_item p item = elim (j.object_of item) [
    | none ↦ p
    | some obj ↦
        let id = j.to_text (j.get obj "id") in
        let value = j.get obj "value" in
        if str_eq id "" || j.is_void value
        then p
        else restore_param_value h p (id, d.limited_value value)
  ]

  restore_items : h.Plugin → List j.Var → h.Plugin
  unfolding restore_item
  restore_items p [] = p
  restore_items p (item ∷ items) = restore_items (restore_item p item) items

  unfoldable pub handle_restore_params : Object → Handler (Answer h)
  unfolding restore_items
  handle_restore_params obj = do
    items ← need "params required" (j.items_of (j.get obj "params"))
    plugin ← gets (λ s. s.plugin)
    p ← need "no plugin loaded" plugin
    modify (λ s. record s { plugin = some (restore_items p items) })
    pure acknowledged

  unfoldable pub dispatch : ℕ → Object → String → Handler (Answer h)
  unfolding handle_load handle_measure handle_snapshot_params handle_restore_params
  dispatch fuel obj cmd =
      if str_eq cmd "start"
      then pure (started d.process_id)
      else if str_eq cmd "load"
      then handle_load fuel obj
      else if str_eq cmd "heartbeat"
      then pure acknowledged
      else if str_eq cmd "measure"
      then handle_measure obj
      else if str_eq cmd "snapshot_params"
      then handle_snapshot_params
      else if str_eq cmd "restore_params"
      then handle_restore_params obj
      else if str_eq cmd "stop"
      then modify (λ s. record s { stop_requested = true }) >> pure acknowledged
      else refuse "unknown cmd"

  unfoldable pub handle_command : ℕ → String → Handler (Answer h)
  unfolding dispatch
  handle_command fuel request = elim (j.parse request) [
    | none ↦ refuse "invalid JSON"
    | some obj ↦ dispatch fuel obj (j.to_text (j.get obj "cmd"))
  ]

  -- One request of main: its answer is the next line.
  unfoldable pub respond : ℕ → String → Child j h d → Child j h d
  unfolding handle_command
  respond fuel request s =
      let (r, t) = handle_command fuel request s in
      record t { output = t.output ++ (response r ∷ []) }

  -- The loop of main over the lines of the standard input.
  unfoldable pub serve : ℕ → List String → Child j h d → Child j h d
  unfolding respond
  serve fuel [] s = s
  serve fuel (line ∷ lines) s =
      let request = d.trim line in
      let t = respond fuel request s in
      if str_eq request ""
      then serve fuel lines s
      else if t.stop_requested
      then t
      else serve fuel lines t
