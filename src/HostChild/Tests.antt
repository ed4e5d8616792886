-- ===== src/HostChild/Tests.antt =====
-- Runs of source/child/PluginHostChild.cpp: a plugin that takes a second to load.
use text.Mathlib.Text.{◌==◌ as str_eq}
use plugin_lab.Prelude.{
  ℕ, ◌+◌, leb, true, false, String, [], ◌∷◌, Option, none, some, ◌≡◌, refl, if◌then◌else◌,
}
use plugin_lab.Host.Knobs.{two_knobs}
use plugin_lab.Session.{harmonic_analysis, signal}
use plugin_lab.Session.Setup.{Signals, default_signals, make_setup}
use plugin_lab.Commands.Action.{ok, ◌>>=◌}
use plugin_lab.Commands.Desk.{Json}
use plugin_lab.Commands.Fields.{parse_kind}
use plugin_lab.Commands.Samples.{Field, words, field_in, small_json}
use plugin_lab.HostChild.{
  Program, Child, captured, loaded, acknowledged, progress, response, child_generator, wait_created,
  serve,
}
use plugin_lab.HostChild.Lockstep.{child_generator_lem}
use plugin_lab.HostChild.Waiting.{IsWait, wait_created-IsWait}

abbrev request_fields : String → Option (String → Field)
request_fields t =
    if str_eq t "load"
    then some (field_in (("cmd", words "load") ∷ ("path", words "/p/eq.vst3") ∷ []))
    else if str_eq t "stop"
    then some (field_in (("cmd", words "stop") ∷ []))
    else none

abbrev request_json : Json
request_json = record small_json { parse = request_fields }

-- The clock is the world; each round takes 40 ms.
abbrev slow_program : Program request_json two_knobs
slow_program = record {
  World = ℕ;
  has_format = true;
  process_id = 4;
  trim = λ t. t;
  find_types = λ path w. (w, some ("EQ" ∷ []));
  create = λ path rate size w. (w, false);
  wait = λ w. (w + 20, leb 1000 w);
  pump = λ w. w + 20;
  now_ms = λ w. w;
  instance_of = λ w. some (3, 4);
  run = λ generator rate size wav p w. (w, (p, (2, captured)));
  limited_value = λ v. 0;
}

abbrev fresh : Child request_json two_knobs slow_program
fresh = record { plugin = none; stop_requested = false; output = []; world = 0 }

-- One progress line while the plugin loads, and nothing after the stop.
serve_run :
    (serve request_json two_knobs slow_program 40 ("" ∷ "load" ∷ "stop" ∷ "load" ∷ []) fresh).output
    ≡ progress ∷ response (ok (loaded "EQ")) ∷ response (ok acknowledged) ∷ []
unfolding serve ◌>>=◌
serve_run = refl

wait_created-IsWait_example :
    IsWait request_json two_knobs slow_program 30000 40 fresh.world
      (wait_created request_json two_knobs slow_program 40 0 30000 fresh).0
wait_created-IsWait_example =
    wait_created-IsWait request_json two_knobs slow_program 40 0 30000 fresh

-- A session with other noise.
abbrev loud : Signals request_json.Real
loud = record (default_signals request_json) { noise_seed = 1 }

child_generator_lem_example :
    make_setup request_json loud signal harmonic_analysis true
    ≡ some (child_generator request_json "harmonic" false)
unfolding parse_kind
child_generator_lem_example =
    child_generator_lem request_json loud "harmonic" harmonic_analysis true refl
      (record { mls_length = refl; amplitude = refl; speed = refl; start = refl; adsr = refl })
