-- ===== src/Measure/Tests.antt =====
-- The theorems on source/host/ChildMeasureOrchestrator.cpp at inputs.
use plugin_lab.Prelude.{ℕ, ◌+◌, ◌≡◌, refl, true, false, [], ◌∷◌, none, some, arith}
use plugin_lab.Measure.{Request, Setting, failure, crashed_text, is_known_type, run}
use plugin_lab.Measure.Gate.{
  Call, IsCounting, run_all, LeavesBaseline, run-LeavesBaseline, gate_is_final,
}

record Clock : Type 0 where
  ms : ℕ
  crashes : ℕ

-- A child that starts and then says nothing; a poll takes 200 ms.
abbrev quiet : Setting
quiet = record {
  World = Clock;
  Real = ℕ;
  Result = ℕ;
  reset_cancel = λ w. w;
  is_cancel_requested = λ w. (w, false);
  crash_count = λ w. (w, w.crashes);
  is_running = λ w. (w, false);
  stop = λ w. w;
  restart = λ w. (w, true);
  send_line = λ t w. (w, true);
  pop_line = λ w. (record w { ms = w.ms + 200 }, "");
  last_snapshot = λ w. (w, "");
  millisecond_counter = λ w. (w, w.ms);
  contains = λ t u. false;
  load_request = λ p. p;
  measure_request = λ q. q.type;
  result_of = λ t. none;
  error_of = λ t. "";
}

abbrev harmonic : Request ℕ
harmonic = record {
  type = "harmonic";
  excitation = "sweep";
  sample_rate = 48000;
  block_size = 512;
  export_path = "";
  wav_path = "";
}

abbrev at : ℕ → ℕ → Clock
at ms crashes = record { ms = ms; crashes = crashes }

run-LeavesBaseline_example : LeavesBaseline quiet 1 (run quiet 30 "plugin" 100 1 harmonic (at 7 1))
run-LeavesBaseline_example = run-LeavesBaseline quiet 30 "plugin" 100 1 harmonic (at 7 1)

quiet-IsCounting : IsCounting quiet
quiet-IsCounting = record {
  count = λ w. w.crashes;
  reads = λ w. refl;
  reading = λ w. omega arith;
  resetting = λ w. omega arith;
}

abbrev call : Call ℕ
call = record { fuel = 30; plugin_path = "plugin"; timeout = 100; request = harmonic }

harmonic_known : is_known_type "harmonic" ≡ true
unfolding is_known_type
harmonic_known = refl

gate_is_final_example :
    run_all quiet (call ∷ call ∷ []) 1 (at 7 4)
    ≡ some (failure crashed_text ∷ failure crashed_text ∷ [])
unfolding quiet-IsCounting
gate_is_final_example =
    gate_is_final quiet quiet-IsCounting (call ∷ call ∷ []) 1 (at 7 4)
      (harmonic_known, (harmonic_known, tt)) (omega arith)
