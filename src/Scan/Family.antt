-- ===== src/Scan/Family.antt =====
-- The family of results that source/scan/ScanEngine.cpp collects.
use mathlib.Core.Path.{subst}
use mathlib.Core.List.{append-nil, append_assoc, map-append}
use plugin_lab.Prelude.{
  ℕ, ◌+◌, ◌≡◌, ◌≢◌, refl, sym, ap, ◌∙◌, Bool, true, false, ◌||◌, String, List, [], ◌∷◌, ◌++◌, map,
  length, Option, none, some, inl, inr, if-intro, Option-cases,
}
use plugin_lab.Host.{Host, find_param}
use plugin_lab.Scan.{
  Bench, Engine, Result, State, Entry, Verdict, measured, failed, threw, conclude_round, round_of,
  rounds, guarded, scan_param, start_state, run, empty_result,
}

module _ (h : Host) (b : Bench h) where
  abbrev values_of : List (Entry h b) → List h.Value
  values_of es = map (λ e. e.param_value) es

  -- The entries belong to the first of the values, in order, and a scan is marked as cancelled only
  -- if values are left.
  pub record IsFamily (r : Result h b) : Type 0 where
    pub left : List h.Value
    pub values_eq : r.values ≡ map (λ e. e.param_value) r.family ++ left
    pub cancelled_early : r.cancelled ≡ true → left ≢ []

  abbrev done_in : Verdict → h.Value → List h.Value
  done_in measured value = value ∷ []
  done_in _ value = []

  record IsNext (s : State h b) (value : h.Value) (x : State h b × Verdict) : Type 0 where
    values_same : x.0.result.values ≡ s.result.values
    flag_same : x.0.cancelled ≡ s.cancelled
    cancelled_same : x.0.result.cancelled ≡ s.result.cancelled
    family_next : values_of x.0.result.family ≡ values_of s.result.family ++ done_in x.1 value

  conclude_round-IsNext :
      (index total round : ℕ) (value : h.Value) (s : State h b) (verdict : Verdict)
      (analysed : Option b.Analysis)
      → IsNext s value (conclude_round h b index total round value s verdict analysed)
  unfolding conclude_round
  conclude_round-IsNext index total round value s measured none = record {
    values_same = refl;
    flag_same = refl;
    cancelled_same = refl;
    family_next = sym (append-nil _);
  }
  conclude_round-IsNext index total round value s measured (some a) = record {
    values_same = refl;
    flag_same = refl;
    cancelled_same = refl;
    family_next = map-append (λ e. e.param_value) s.result.family _;
  }
  conclude_round-IsNext index total round value s failed analysed = record {
    values_same = refl;
    flag_same = refl;
    cancelled_same = refl;
    family_next = sym (append-nil _);
  }
  conclude_round-IsNext index total round value s threw analysed = record {
    values_same = refl;
    flag_same = refl;
    cancelled_same = refl;
    family_next = sym (append-nil _);
  }

  conclude_round-measured :
      (index total round : ℕ) (value : h.Value) (s : State h b) (verdict : Verdict)
      (analysed : Option b.Analysis) (a : b.Analysis)
      → verdict ≡ measured
      → analysed ≡ some a
      → (conclude_round h b index total round value s verdict analysed).1 ≡ measured
  unfolding conclude_round
  conclude_round-measured index total round value s verdict analysed a e f = rw (e, f) refl

  measured-ne-failed : measured ≢ failed
  measured-ne-failed e = cc e

  measured-ne-threw : measured ≢ threw
  measured-ne-threw e = cc e

  -- Before a round: these values are still to come, and the scan has not been cancelled.
  abbrev IsBefore : List h.Value → State h b → Type 0
  IsBefore values s =
      (s.result.values ≡ values_of s.result.family ++ values) × (s.result.cancelled ≡ false)

  module _ (kind : b.Kind) (index total : ℕ) where
    round_of-IsNext :
        (round : ℕ) (value : h.Value) (s : State h b)
        → IsNext s value (round_of h b kind index total round value s)
    unfolding round_of
    round_of-IsNext round value s = record {
      values_same = (conclude_round-IsNext index total round value _ _ _).values_same;
      flag_same = (conclude_round-IsNext index total round value _ _ _).flag_same;
      cancelled_same = (conclude_round-IsNext index total round value _ _ _).cancelled_same;
      family_next = (conclude_round-IsNext index total round value _ _ _).family_next;
    }

    stopped-IsFamily :
        (value : h.Value) (values : List h.Value) (s t : State h b) (verdict : Verdict)
        → IsBefore (value ∷ values) s
        → IsNext s value (t, verdict)
        → done_in verdict value ≡ []
        → IsFamily t.result
    stopped-IsFamily value values s t verdict before n nothing = record {
      left = value ∷ values;
      values_eq =
          n.values_same
          ∙ before.0
          ∙ ap (λ vs. vs ++ (value ∷ values))
              (sym (
                n.family_next ∙ ap (λ vs. values_of s.result.family ++ vs) nothing ∙ append-nil _));
      cancelled_early = λ on. cc (on, n.cancelled_same, before.1);
    }

    rounds-IsFamily :
        (round : ℕ) (values : List h.Value) (s : State h b)
        → IsBefore values s
        → IsFamily (rounds h b kind index total round values s).0.result
    unfolding rounds
    rounds-IsFamily round [] s before = record {
      left = [];
      values_eq = before.0;
      cancelled_early = λ on. cc (on, before.1);
    }
    rounds-IsFamily round (value ∷ values) s before =
        let s1 : State h b = record s { cancelled = s.cancelled || b.is_cancelled round } in
        let (s2, verdict) = round_of h b kind index total round value s1 in
        let n = round_of-IsNext round value s1 in
        let IsGood : State h b × Bool → Type 0 = λ x. IsFamily x.0.result in
        if-intro IsGood s1.cancelled _ _
          (λ _. record {
            left = value ∷ values;
            values_eq = before.0;
            cancelled_early = λ on e. cc e;
          })
          (λ _.
            elim verdict
                as (λ v.
                  IsNext s1 value (s2, v)
                  → IsGood (elim v [
                    | measured ↦ rounds h b kind index total (round + 1) values s2
                    | failed ↦ (s2, true)
                    | threw ↦ (s2, false)
                  ])) [
                    | measured ↦ λ m. rounds-IsFamily (round + 1) values s2 (
                      m.values_same
                          ∙ before.0
                          ∙ sym (append_assoc (values_of s1.result.family) (value ∷ []) values)
                          ∙ ap (λ vs. vs ++ values) (sym m.family_next),
                      m.cancelled_same ∙ before.1,
                    )
                    | failed ↦ λ m. stopped-IsFamily value values s1 s2 failed before m refl
                    | threw ↦ λ m. stopped-IsFamily value values s1 s2 threw before m refl
                  ]
              n)

    -- The rounds where nothing fails and nobody cancels.
    module _ (measures : (s : b.Session) (p : h.Plugin) → (b.measure s p).1.1 ≡ measured)
        (analyses : (s : b.Session) (n : ℕ) → (a : b.Analysis) × (b.analyse s n ≡ some a))
        (quiet : (k : ℕ) → b.is_cancelled k ≡ false) where
      round_of-measured :
          (round : ℕ) (value : h.Value) (s : State h b)
          → (round_of h b kind index total round value s).1 ≡ measured
      unfolding round_of conclude_round
      round_of-measured round value s =
          let session = b.set_measurement_type kind s.session in
          let (session1, (plugin1, verdict)) =
            b.measure session (b.settle (h.set_value s.plugin index value)) in
          let (a, eq) = analyses session1 (b.latency_samples plugin1) in
          conclude_round-measured index total round value _ verdict _ a (measures _ _) eq

      rounds_complete :
          (round : ℕ) (values : List h.Value) (s : State h b)
          → s.cancelled ≡ false
          → s.result.cancelled ≡ false
          → let x = rounds h b kind index total round values s in
            (x.1 ≡ true)
            × ((values_of x.0.result.family ≡ values_of s.result.family ++ values)
                × (x.0.result.cancelled ≡ false))
      unfolding rounds
      rounds_complete round [] s clear before = (refl, (sym (append-nil _), before))
      rounds_complete round (value ∷ values) s clear before =
          let s1 : State h b = record s { cancelled = s.cancelled || b.is_cancelled round } in
          let (s2, verdict) = round_of h b kind index total round value s1 in
          let n = round_of-IsNext round value s1 in
          let goes_on : s1.cancelled ≡ false = rw (clear) (quiet round) in
          let IsWhole : State h b × Bool → Type 0 = λ x.
            (x.1 ≡ true)
            × ((values_of x.0.result.family ≡ values_of s.result.family ++ (value ∷ values))
                × (x.0.result.cancelled ≡ false)) in
          if-intro IsWhole s1.cancelled _ _ (λ on. absurd (cc (on, goes_on)))
            (λ _.
              elim verdict
                  as (λ v.
                    verdict ≡ v
                    → IsNext s1 value (s2, v)
                    → IsWhole (elim v [
                      | measured ↦ rounds h b kind index total (round + 1) values s2
                      | failed ↦ (s2, true)
                      | threw ↦ (s2, false)
                    ])) [
                      | measured ↦ λ _ m.
                          let (returned, (all, uncut)) =
                            rounds_complete (round + 1) values s2 (m.flag_same ∙ goes_on)
                              (m.cancelled_same ∙ before) in
                          (
                            returned,
                            (
                              all
                                  ∙ ap (λ vs. vs ++ values) m.family_next
                                  ∙ append_assoc (values_of s1.result.family) (value ∷ []) values,
                              uncut,
                            ),
                          )
                      | failed ↦ λ e m.
                          absurd (measured-ne-failed (sym (round_of-measured round value s1) ∙ e))
                      | threw ↦ λ e m.
                          absurd (measured-ne-threw (sym (round_of-measured round value s1) ∙ e))
                    ]
                refl n)

  abbrev Holds : (Result h b → Type 0) → Option (Result h b) → Type 0
  Holds P none = Unit
  Holds P (some r) = P r

  run-Holds :
      (kind : b.Kind) (id : String) (values : List h.Value) (e : Engine h b)
      → Holds IsFamily (run h b kind id values e).1
  unfolding run scan_param guarded
  run-Holds kind id values e =
      let idle_family : IsFamily (empty_result h b id) = record {
        left = [];
        values_eq = refl;
        cancelled_early = λ on. cc on;
      } in
      elim (Option-cases e.plugin) [
        | inl unloaded ↦ rw (unloaded) idle_family
        | inr (p, loaded) ↦ elim (Option-cases e.session) [
          | inl idle ↦ rw (loaded, idle) idle_family
          | inr (session, on) ↦ elim (Option-cases (find_param (h.parameters p) id)) [
            | inl missing ↦ rw (loaded, on, missing) idle_family
            | inr (index, found) ↦
                rw (loaded, on, found)
                  (let (s, returns) = guarded h b kind id values index p session in
                    if-intro (Holds IsFamily) returns (some s.result) none
                      (λ _.
                        rounds-IsFamily kind index (length values) 0 values
                          (start_state h b id values index p session) (refl, refl))
                      (λ _. tt))
          ]
        ]
      ]

  -- Whatever result a scan returns, its entries belong to the first of the values that it lists, in
  -- order and without gaps, and it is marked as cancelled only if values are left without an entry.
  run-IsFamily :
      (kind : b.Kind) (id : String) (values : List h.Value) (e : Engine h b) (r : Result h b)
      → (run h b kind id values e).1 ≡ some r
      → IsFamily r
  run-IsFamily kind id values e r eq = subst (Holds IsFamily) eq (run-Holds kind id values e)

  -- If the parameter is found, every measurement and analysis succeeds, and nobody cancels while the
  -- scan runs, then the scan returns a result with one entry for every value, in order, that is not
  -- marked as cancelled, whether or not cancel() was called before it began.
  pub run_complete :
      (kind : b.Kind) (id : String) (values : List h.Value) (e : Engine h b) (p : h.Plugin)
      (session : b.Session) (index : ℕ)
      → e.plugin ≡ some p
      → e.session ≡ some session
      → find_param (h.parameters p) id ≡ some index
      → ((s : b.Session) (q : h.Plugin) → (b.measure s q).1.1 ≡ measured)
      → ((s : b.Session) (n : ℕ) → (a : b.Analysis) × (b.analyse s n ≡ some a))
      → ((k : ℕ) → b.is_cancelled k ≡ false)
      → (r : Result h b) × (((run h b kind id values e).1 ≡ some r)
          × ((map (λ x. x.param_value) r.family ≡ values) × (r.cancelled ≡ false)))
  unfolding run scan_param guarded
  run_complete kind id values e p session index loaded on found measures analyses quiet =
      let (s, returns) = guarded h b kind id values index p session in
      let (returned, (all, uncut)) =
        rounds_complete kind index (length values) measures analyses quiet 0 values
          (start_state h b id values index p session) refl refl in
      (s.result, (rw (loaded, on, found, returned) refl, (all, uncut)))
