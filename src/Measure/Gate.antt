-- ===== src/Measure/Gate.antt =====
-- The crash gate of source/host/ChildMeasureOrchestrator.cpp, over several runs.
use plugin_lab.Prelude.{
  ℕ, ◌+◌, ◌-◌, ◌≤◌, map, ◌≡◌, refl, true, not, String, List, [], ◌∷◌, Option, none, some, arith,
  leb, All, if◌then◌else◌, if-intro,
}
use plugin_lab.Measure.{
  Request, Setting, Outcome, failure, success, crashed_text, max_child_crashes, is_known_type, Flow,
  next, returned, no_fuel, sequence, conclude, unknown_type_text, run,
}

-- What one call of run() gets.
pub record Call (F : Type 0) : Type 0 where
  pub fuel : ℕ
  pub plugin_path : String
  pub timeout : ℕ
  pub request : Request F

-- The counter of crashes only grows.
pub record IsCounting (g : Setting) : Type 0 where
  pub count : g.World → ℕ
  pub reads : (w : g.World) → (g.crash_count w).1 ≡ count w
  pub reading : (w : g.World) → count w ≤ count (g.crash_count w).0
  pub resetting : (w : g.World) → count w ≤ count (g.reset_cancel w)

module _ (g : Setting) where
  -- Calls of run() by one orchestrator, one after the other, with their outcomes.
  abbrev pub run_all : List (Call g.Real) → ℕ → g.World → Option (List (Outcome g.Result))
  run_all [] baseline w = some []
  run_all (c ∷ cs) baseline w = elim (run g c.fuel c.plugin_path c.timeout baseline c.request w) [
    | none ↦ none
    | some (w', baseline', o) ↦ elim (run_all cs baseline' w') [
      | none ↦ none
      | some os ↦ some (o ∷ os)
    ]
  ]

  -- What a run leaves: behind a failure the baseline that it began with, behind a success the crash
  -- count that it has read last.
  abbrev pub LeavesBaseline : ℕ → Option (g.World × ℕ × Outcome g.Result) → Type 0
  LeavesBaseline baseline none = Unit
  LeavesBaseline baseline (some (w, baseline', failure text)) = baseline' ≡ baseline
  LeavesBaseline baseline (some (w, baseline', success result)) =
      (last : g.World) × (g.crash_count last ≡ (w, baseline'))

  conclude-LeavesBaseline :
      (baseline : ℕ) (flow : Flow g g.Result) → LeavesBaseline baseline (conclude g baseline flow)
  unfolding conclude
  conclude-LeavesBaseline baseline no_fuel = tt
  conclude-LeavesBaseline baseline (next w result) = (w, refl)
  conclude-LeavesBaseline baseline (returned w text) = refl

  -- On every path through a run, errors and cancels included, a failure leaves the baseline of the
  -- crash gate as it was, and a success sets it to the crash count that is read at the end.
  pub run-LeavesBaseline :
      (fuel : ℕ) (path : String) (timeout baseline : ℕ) (request : Request g.Real) (w : g.World)
      → LeavesBaseline baseline (run g fuel path timeout baseline request w)
  unfolding run
  run-LeavesBaseline fuel path timeout baseline request w =
      let w2 = (g.crash_count (g.reset_cancel w)).0 in
      let full = leb max_child_crashes ((g.crash_count (g.reset_cancel w)).1 - baseline) in
      let rest = conclude g baseline (sequence g fuel path timeout baseline request w2) in
      let refusal : Option (g.World × ℕ × Outcome g.Result) =
        some (w2, baseline, failure crashed_text) in
      if-intro (LeavesBaseline baseline) (not (is_known_type request.type))
        (some (g.reset_cancel w, baseline, failure (unknown_type_text request.type)))
        (if full then refusal else rest) (λ e. refl)
        (λ e.
          if-intro (LeavesBaseline baseline) full refusal rest (λ e'. refl)
            (λ e'. conclude-LeavesBaseline baseline _))

  -- The gate of one run.
  refused :
      (v : IsCounting g) (c : Call g.Real) (baseline : ℕ) (w : g.World)
      → is_known_type c.request.type ≡ true
      → max_child_crashes + baseline ≤ v.count w
      → run g c.fuel c.plugin_path c.timeout baseline c.request w
        ≡ some ((g.crash_count (g.reset_cancel w)).0, baseline, failure crashed_text)
  unfolding run
  refused v c baseline w known three =
      let more : max_child_crashes + baseline ≤ (g.crash_count (g.reset_cancel w)).1 =
        omega (arith, v.reads (g.reset_cancel w), v.resetting w) in
      let closed : leb max_child_crashes ((g.crash_count (g.reset_cancel w)).1 - baseline) ≡ true =
        ground (arith, more) in
      rw (known, closed) refl

  -- Once three crashes have come since the last success, every later run of a known type is refused
  -- with the crash error, for ever: nothing that run() does then can reopen the gate.
  pub gate_is_final :
      (v : IsCounting g) (cs : List (Call g.Real)) (baseline : ℕ) (w : g.World)
      → All (λ c. is_known_type c.request.type ≡ true) cs
      → max_child_crashes + baseline ≤ v.count w
      → run_all cs baseline w ≡ some (map (λ c. failure crashed_text) cs)
  gate_is_final v [] baseline w known three = refl
  gate_is_final v (c ∷ cs) baseline w known three =
      let w' = (g.crash_count (g.reset_cancel w)).0 in
      let later : max_child_crashes + baseline ≤ v.count w' =
        omega (arith, three, v.resetting w, v.reading (g.reset_cancel w)) in
      rw
        (
          refused v c baseline w known.0 three,
          run_all,
          gate_is_final v cs baseline w' known.1 later,
        )
        refl
