-- ===== src/Scan/Tests.antt =====
-- Runs of source/scan/ScanEngine.cpp on a plugin with two parameters, which a measurement changes.
use plugin_lab.Prelude.{ℕ, suc, ◌+◌, ◌≡◌, refl, true, false, List, [], ◌∷◌, map, some, arith}
use plugin_lab.Host.{find_param, find_from}
use plugin_lab.Host.Knobs.{get_at, two_knobs, two_knobs-IsHost}
use plugin_lab.Scan.{Bench, Engine, Result, Verdict, measured, threw, run}
use plugin_lab.Scan.Restore.{IsBench, run-restores}
use plugin_lab.Scan.Family.{run_complete}

-- A bench whose measurements end in this way, and turn the second knob.
abbrev bench_with : Verdict → Bench two_knobs
bench_with verdict = record {
  Session = ℕ;
  Kind = ℕ;
  Analysis = ℕ;
  set_measurement_type = λ kind s. s;
  measure = λ s p. (suc s, ((p.0, 99), verdict));
  analyse = λ s n. some (s + n);
  latency_samples = λ p. 64;
  name_of = λ p i. "Gain";
  text_of = λ p i v. "dB";
  settle = λ p. p;
  is_cancelled = λ k. false;
}

bench_with-IsBench : (verdict : Verdict) → IsBench two_knobs (bench_with verdict)
bench_with-IsBench verdict = record {
  parameters-settle = λ p. refl;
  parameters-measure = λ s p. refl;
}

-- cancel() has been called before the scan begins.
abbrev engine_with : (verdict : Verdict) → Engine two_knobs (bench_with verdict)
engine_with verdict = record { plugin = some (5, 6); session = some 0; cancelled = true }

abbrev family_of : Result two_knobs (bench_with measured) → List ℕ
family_of r = map (λ x. x.param_value) r.family

run-restores_example :
    (q : ℕ × ℕ) × (((run two_knobs
          (bench_with threw)
          0
          "gain"
          (1 ∷ 2 ∷ [])
          (engine_with threw)).0.plugin
        ≡ some q)
      × ((two_knobs.parameters q ≡ two_knobs.parameters (5, 6)) × (get_at q 1 ≡ 6)))
run-restores_example =
    run-restores two_knobs (bench_with threw) two_knobs-IsHost (bench_with-IsBench threw) 0 "gain"
      (1 ∷ 2 ∷ []) (engine_with threw) (5, 6) 1 refl (omega arith)

run_complete_example :
    (r : Result two_knobs (bench_with measured)) × (((run two_knobs
          (bench_with measured)
          0
          "gain"
          (1 ∷ 2 ∷ [])
          (engine_with measured)).1
        ≡ some r)
      × ((family_of r ≡ 1 ∷ 2 ∷ []) × (r.cancelled ≡ false)))
unfolding find_param find_from
run_complete_example =
    run_complete two_knobs (bench_with measured) 0 "gain" (1 ∷ 2 ∷ []) (engine_with measured) (5, 6)
      0 0 refl refl refl (λ s p. refl) (λ s n. (s + n, refl)) (λ k. refl)
