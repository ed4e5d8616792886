-- ===== src/Measure.antt =====
-- ChildMeasureOrchestrator of source/host/ChildMeasureOrchestrator.{h,cpp}: one measurement through a
-- fresh child process. The coordinator is an interface: each call changes a world in which the other
-- threads run as well. JUCE's JSON and string search are parameters. A step that returns from run()
-- early stops the chain of steps.
pub mod Gate
pub mod Wait
mod Tests
use text.Mathlib.Text.{◌==◌ as str_eq}
use Prim.Native.String.{◌++◌ as str_append}
use plugin_lab.Prelude.{
  ℕ, zero, suc, ◌+◌, ◌-◌, ◌%◌, ◌^◌, Bool, true, false, not, ◌||◌, ◌&&◌, String, Option, none, some,
  ltb, leb, if◌then◌else◌,
}

-- ChildMeasureRequest; a `double` is only passed on.
pub record Request (F : Type 0) : Type 0 where
  pub type : String
  pub excitation : String
  pub sample_rate : F
  pub block_size : ℕ
  pub export_path : String
  pub wav_path : String

-- What run() asks of the coordinator, the clock, and JUCE: `result_of` is the parsed result of a line
-- that is a JSON object, `error_of` the "error" of one, or nothing.
pub record Setting : Type 1 where
  pub World : Type 0
  pub Real : Type 0
  pub Result : Type 0
  pub reset_cancel : World → World
  pub is_cancel_requested : World → World × Bool
  pub crash_count : World → World × ℕ
  pub is_running : World → World × Bool
  pub stop : World → World
  pub restart : World → World × Bool
  pub send_line : String → World → World × Bool
  pub pop_line : World → World × String
  pub last_snapshot : World → World × String
  pub millisecond_counter : World → World × ℕ
  pub contains : String → String → Bool
  pub load_request : String → String
  pub measure_request : Request Real → String
  pub result_of : String → Option Result
  pub error_of : String → String

pub data Outcome (R : Type 0) : Type 0 where
  failure : String → Outcome R
  success : R → Outcome R

abbrev pub crashed_text : String
crashed_text = "child process crashed (restarting)"

abbrev pub failed_text : String
failed_text = "child measurement failed"

abbrev pub max_child_crashes : ℕ
max_child_crashes = 3

pub is_known_type : String → Bool
is_known_type type =
    str_eq type "frequency_response"
    || (str_eq type "harmonic" || (str_eq type "compression" || str_eq type "gr_timeline"))

pub unknown_type_text : String → String
unknown_type_text type =
    str_append "child measurement not implemented for type '" (str_append type "'")

module _ (g : Setting) where
  open g use {World, Result}

  -- A step goes on with a value, or run() returns with an error.
  pub data Flow (A : Type 0) : Type 0 where
    next : World → A → Flow A
    returned : World → String → Flow A
    no_fuel : Flow A

  abbrev pub Step : Type 0 → Type 0
  Step A = World → Flow A

  infixl 5 ◌>>=◌
  abbrev pub ◌>>=◌ : {A B : Type 0} → Step A → (A → Step B) → Step B
  m >>= f = λ w. elim (m w) [
    | next w' a ↦ f a w'
    | returned w' text ↦ returned w' text
    | no_fuel ↦ no_fuel
  ]

  -- failedOutcome
  pub failed : {A : Type 0} → String → ℕ → Step A
  failed message baseline w =
      let (w', count) = g.crash_count w in
      returned w' (if ltb baseline count then crashed_text else message)

  -- childOrGenericError
  pub child_or_generic_error : {A : Type 0} → String → ℕ → Step A
  unfolding failed
  child_or_generic_error line baseline w =
      if not (str_eq (g.error_of line) "")
      then returned w (g.error_of line)
      else failed failed_text baseline w

  -- cancelledOutcome, if a cancel has been requested.
  pub check_cancel : Step Unit
  check_cancel w =
      let (w', cancelled) = g.is_cancel_requested w in
      if cancelled then returned (g.stop w') "cancelled" else next w' tt

  -- The loop of waitForLine: the line that it comes back with, if any. A round ends the wait, or the
  -- next one begins.
  pub data Round : Type 0 where
    ends : World → Option String → Round
    again : World → Round

  pub look_at : String → World → String → Round
  look_at needle w line =
      if g.contains line "\"progress\""
      then again w
      else if g.contains line needle || g.contains line "\"ok\":false"
      then ends w (some line)
      else again w

  pub wait_round : String → ℕ → ℕ → World → Round
  unfolding look_at
  wait_round needle deadline baseline w =
      let (w1, now) = g.millisecond_counter w in
      let (w2, cancelled) = g.is_cancel_requested w1 in
      let (w3, line) = g.pop_line w2 in
      let (w4, count) = g.crash_count w3 in
      if not (ltb now deadline)
      then ends w1 none
      else if cancelled
      then ends w2 none
      else if not (str_eq line "")
      then look_at needle w3 line
      else if ltb baseline count
      then ends w4 none
      else again w4

  pub wait_loop : ℕ → String → ℕ → ℕ → World → Option (World × Option String)
  unfolding wait_round
  wait_loop zero needle deadline baseline w = none
  wait_loop (suc fuel) needle deadline baseline w = elim (wait_round needle deadline baseline w) [
    | ends w' line ↦ some (w', line)
    | again w' ↦ wait_loop fuel needle deadline baseline w'
  ]

  pub wait_for_line : ℕ → String → ℕ → ℕ → World → Option (World × Option String)
  unfolding wait_loop
  wait_for_line fuel needle timeout baseline w =
      let (w', now) = g.millisecond_counter w in
      wait_loop fuel needle ((now + timeout) % 2 ^ 32) baseline w'

  -- waitForLine and what run() does with its answer, the same in all four places.
  pub await_line : ℕ → String → ℕ → ℕ → Step String
  unfolding wait_for_line check_cancel failed child_or_generic_error
  await_line fuel needle timeout baseline w = elim (wait_for_line fuel needle timeout baseline w) [
    | none ↦ no_fuel
    | some (w', none) ↦ (check_cancel >>= λ _. failed failed_text baseline) w'
    | some (w', some line) ↦
        if g.contains line "\"ok\":true"
        then next w' line
        else child_or_generic_error line baseline w'
  ]

  pub send : String → ℕ → Step Unit
  unfolding failed
  send line baseline w =
      let (w', ok) = g.send_line line w in if ok then next w' tt else failed failed_text baseline w'

  pub fresh_child : ℕ → Step Unit
  unfolding failed
  fresh_child baseline w =
      let (w1, running) = g.is_running w in
      let (w2, ok) = g.restart (if running then g.stop w1 else w1) in
      if ok then next w2 tt else failed failed_text baseline w2

  -- restore_params, if there is a snapshot.
  pub restore : ℕ → ℕ → Step Unit
  unfolding send await_line
  restore fuel baseline w =
      let (w', snapshot) = g.last_snapshot w in
      let request =
        str_append "{\"cmd\":\"restore_params\",\"params\":" (str_append snapshot "}") in
      if str_eq snapshot ""
      then next w' tt
      else (send request baseline >>= λ _.
            await_line fuel "\"ok\":" 5000 baseline >>= λ _ w2. next w2 tt)
          w'

  -- What run() does behind its two gates, for its baseline.
  pub sequence : ℕ → String → ℕ → ℕ → Request g.Real → Step Result
  unfolding check_cancel fresh_child send await_line restore failed
  sequence fuel plugin_path timeout baseline request = check_cancel >>= λ _.
      fresh_child baseline >>= λ _. check_cancel >>= λ _.
      send "{\"cmd\":\"start\"}" baseline >>= λ _. await_line fuel "\"pid\"" 5000 baseline >>= λ _.
      check_cancel >>= λ _. send (g.load_request plugin_path) baseline >>= λ _.
      await_line fuel "\"name\"" 40000 baseline >>= λ _. check_cancel >>= λ _.
      restore fuel baseline >>= λ _. check_cancel >>= λ _.
      send (g.measure_request request) baseline >>= λ _.
      await_line fuel "\"samples\"" timeout baseline >>= λ line w. elim (g.result_of line) [
        | none ↦ failed failed_text baseline w
        | some result ↦ next w result
      ]

  -- The end of run(): the world, `crashBaseline`, and the outcome; `none` if the fuel is gone.
  pub conclude : ℕ → Flow Result → Option (World × ℕ × Outcome Result)
  conclude baseline no_fuel = none
  conclude baseline (returned w text) = some (w, baseline, failure text)
  conclude baseline (next w result) =
      let (w', count) = g.crash_count w in some (w', count, success result)

  pub run : ℕ → String → ℕ → ℕ → Request g.Real → World → Option (World × ℕ × Outcome Result)
  unfolding sequence conclude
  run fuel plugin_path timeout baseline request w =
      let w1 = g.reset_cancel w in
      let (w2, count) = g.crash_count w1 in
      if not (is_known_type request.type)
      then some (w1, baseline, failure (unknown_type_text request.type))
      else if leb max_child_crashes (count - baseline)
      then some (w2, baseline, failure crashed_text)
      else conclude baseline (sequence fuel plugin_path timeout baseline request w2)
