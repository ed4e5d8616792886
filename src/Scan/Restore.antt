-- ===== src/Scan/Restore.antt =====
-- The guard of source/scan/ScanEngine.cpp that restores the parameters of the plugin.
use mathlib.Core.Path.{subst}
use plugin_lab.Prelude.{
  ℕ, suc, ◌+◌, ◌≤◌, ◌<◌, ◌≡◌, refl, sym, ap, ◌∙◌, Bool, true, false, ◌||◌, String, List, [], ◌∷◌,
  length, Option, none, some, ◌⊎◌, inl, inr, arith, if-intro, Option-cases,
}
use plugin_lab.Host.{IsHost, Parameter, Host, find_param}
use plugin_lab.Scan.{
  Bench, Engine, State, Verdict, measured, failed, threw, snapshot_loop, snapshot_params,
  restore_loop, restore_params, conclude_round, round_of, rounds, guarded, scan_param, start_state,
  run,
}

-- A measurement may change the values of parameters, but not their number.
pub record IsBench (h : Host) (b : Bench h) : Type 0 where
  pub parameters-settle : (p : h.Plugin) → h.parameters (b.settle p) ≡ h.parameters p
  pub parameters-measure :
      (s : b.Session) (p : h.Plugin) → h.parameters (b.measure s p).1.0 ≡ h.parameters p

module _ (h : Host) (b : Bench h) (laws : IsHost h) where
  restore_loop-below :
      (i k : ℕ) (vs : List h.Value) (xs : List Parameter) (p : h.Plugin)
      → k < i
      → h.get_value (restore_loop h b i vs xs p) k ≡ h.get_value p k
  unfolding restore_loop
  restore_loop-below i k [] xs p below = refl
  restore_loop-below i k (v ∷ vs) [] p below = refl
  restore_loop-below i k (v ∷ vs) (x ∷ xs) p below =
      restore_loop-below (suc i) k vs xs (h.set_value p i v) (omega arith)
      ∙ laws.get_value-set_value_ne p i k v (λ e. absurd (omega (arith, e, below)))

  i-cases : (i k : ℕ) → i ≤ k → (i ≡ k) ⊎ (suc i ≤ k)
  i-cases i k lo = ground arith

  -- Restoring what was in `q`, from parameter `i` on.
  restore_loop-restores :
      (i k : ℕ) (xs : List Parameter) (p q : h.Plugin)
      → i ≤ k
      → k < i + length xs
      → h.get_value (restore_loop h b i (snapshot_loop h b i xs q) xs p) k ≡ h.get_value q k
  unfolding restore_loop snapshot_loop
  restore_loop-restores i k [] p q lo hi = absurd (omega (arith, lo, hi))
  restore_loop-restores i k (x ∷ xs) p q lo hi = elim (i-cases i k lo) [
    | inl here ↦
        restore_loop-below (suc i) k (snapshot_loop h b (suc i) xs q) xs _ (omega (arith, here))
        ∙ subst (λ n. h.get_value (h.set_value p i (h.get_value q i)) n ≡ h.get_value q n) here
            (laws.get_value-set_value_self p q i)
    | inr later ↦
        restore_loop-restores (suc i) k xs (h.set_value p i (h.get_value q i)) q later
          (omega (arith, hi))
  ]

  conclude_round-plugin :
      (index total round : ℕ) (value : h.Value) (s : State h b) (verdict : Verdict)
      (analysed : Option b.Analysis)
      → (conclude_round h b index total round value s verdict analysed).0.plugin ≡ s.plugin
  unfolding conclude_round
  conclude_round-plugin index total round value s measured none = refl
  conclude_round-plugin index total round value s measured (some a) = refl
  conclude_round-plugin index total round value s failed analysed = refl
  conclude_round-plugin index total round value s threw analysed = refl

  module _ (bench : IsBench h b) (kind : b.Kind) (index total : ℕ) where
    parameters-round_of :
        (round : ℕ) (value : h.Value) (s : State h b)
        → h.parameters (round_of h b kind index total round value s).0.plugin
          ≡ h.parameters s.plugin
    unfolding round_of
    parameters-round_of round value s =
        ap h.parameters (conclude_round-plugin index total round value _ _ _)
        ∙ bench.parameters-measure _ _
        ∙ bench.parameters-settle _
        ∙ laws.parameters-set_value s.plugin index value

    parameters-rounds :
        (round : ℕ) (values : List h.Value) (s : State h b)
        → h.parameters (rounds h b kind index total round values s).0.plugin ≡ h.parameters s.plugin
    unfolding rounds
    parameters-rounds round [] s = refl
    parameters-rounds round (value ∷ values) s =
        let s1 : State h b = record s { cancelled = s.cancelled || b.is_cancelled round } in
        let (s2, verdict) = round_of h b kind index total round value s1 in
        let kept : h.parameters s2.plugin ≡ h.parameters s.plugin =
          parameters-round_of round value s1 in
        let Kept : State h b × Bool → Type 0 =
          λ x. h.parameters x.0.plugin ≡ h.parameters s.plugin in
        if-intro Kept s1.cancelled _ _ (λ _. refl)
          (λ _.
            elim verdict
              as (λ v. Kept (elim v [
                | measured ↦ rounds h b kind index total (round + 1) values s2
                | failed ↦ (s2, true)
                | threw ↦ (s2, false)
              ])) [
                | measured ↦ parameters-rounds (round + 1) values s2 ∙ kept
                | failed ↦ kept
                | threw ↦ kept
              ])

  restores-parameters :
      (i : ℕ) (vs : List h.Value) (xs : List Parameter) (p : h.Plugin)
      → h.parameters (restore_loop h b i vs xs p) ≡ h.parameters p
  unfolding restore_loop
  restores-parameters i [] xs p = refl
  restores-parameters i (v ∷ vs) [] p = refl
  restores-parameters i (v ∷ vs) (x ∷ xs) p =
      restores-parameters (suc i) vs xs (h.set_value p i v) ∙ laws.parameters-set_value p i v

  guarded-restores :
      (bench : IsBench h b) (kind : b.Kind) (id : String) (values : List h.Value) (index : ℕ)
      (p : h.Plugin) (session : b.Session) (k : ℕ)
      → k < length (h.parameters p)
      → h.get_value (guarded h b kind id values index p session).0.plugin k ≡ h.get_value p k
  unfolding guarded restore_params snapshot_params
  guarded-restores bench kind id values index p session k inside =
      let start = start_state h b id values index p session in
      let s = (rounds h b kind index (length values) 0 values start).0 in
      let same = parameters-rounds bench kind index (length values) 0 values start in
      subst
        (λ xs.
          h.get_value (restore_loop h b 0 (snapshot_loop h b 0 (h.parameters p) p) xs s.plugin) k
          ≡ h.get_value p k)
        (sym same)
        (restore_loop-restores 0 k (h.parameters p) s.plugin p (omega arith)
          (omega (arith, inside)))

  guarded-parameters :
      (bench : IsBench h b) (kind : b.Kind) (id : String) (values : List h.Value) (index : ℕ)
      (p : h.Plugin) (session : b.Session)
      → h.parameters (guarded h b kind id values index p session).0.plugin ≡ h.parameters p
  unfolding guarded restore_params
  guarded-parameters bench kind id values index p session =
      restores-parameters 0 (snapshot_params h b p)
        (h.parameters
          (rounds h b kind index (length values) 0 values
            (start_state h b id values index p session)).0.plugin)
        _
      ∙ parameters-rounds bench kind index (length values) 0 values
          (start_state h b id values index p session)

  -- For a plugin in which setting a parameter changes no other one, and which reports a value that it
  -- has reported before again when it is set, and for measurements that leave the plugin's list of
  -- parameters as it is: however a scan ends, an exception of the measurement, of the analysis and a
  -- cancellation included, the plugin has the same list of parameters, and each reports the value that
  -- it did before.
  pub run-restores :
      (bench : IsBench h b) (kind : b.Kind) (id : String) (values : List h.Value) (e : Engine h b)
      (p : h.Plugin) (k : ℕ)
      → e.plugin ≡ some p
      → k < length (h.parameters p)
      → (q : h.Plugin) × (((run h b kind id values e).0.plugin ≡ some q)
          × ((h.parameters q ≡ h.parameters p) × (h.get_value q k ≡ h.get_value p k)))
  unfolding run scan_param
  run-restores bench kind id values e p k loaded inside = elim (Option-cases e.session) [
    | inl idle ↦ (p, (rw (loaded, idle) refl, (refl, refl)))
    | inr (session, on) ↦ elim (Option-cases (find_param (h.parameters p) id)) [
      | inl missing ↦ (p, (rw (loaded, on, missing) refl, (refl, refl)))
      | inr (index, found) ↦ (
        (guarded h b kind id values index p session).0.plugin,
        (
          rw (loaded, on, found) refl,
          (
            guarded-parameters bench kind id values index p session,
            guarded-restores bench kind id values index p session k inside,
          ),
        ),
      )
    ]
  ]
