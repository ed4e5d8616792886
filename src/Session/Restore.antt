-- ===== src/Session/Restore.antt =====
-- After the playback of a timeline, source/capture/MeasurementSession.cpp restores the parameters.
pub mod Playing
use mathlib.Core.Path.{subst}
use mathlib.Core.List.{Memᴰ}
use mathlib.Core.List.Memᴰ
use text.Mathlib.Text.{◌==◌ as str_eq}
use text.Mathlib.TextEquality.{eq_iff}
use plugin_lab.Prelude.{
  ℕ, ◌≡◌, ◌≢◌, refl, sym, ap, ◌∙◌, Bool, true, false, ◌||◌, ◌==◌, ==_iff, String, List, [], ◌∷◌,
  ◌++◌, Option, none, some, ◌⊎◌, inl, inr, if-intro, Option-cases, Bool-cases, All, drop,
}
use plugin_lab.Prelude.Int.{ℤ, leb_ℤ}
use plugin_lab.Host.{Host, IsHost, find_param}
use plugin_lab.Timeline.{
  TimelineEvent, Rates, set_playback, play as play_event, apply_loop, apply_events_up_to,
}
use plugin_lab.Session.{
  Session, Block, Play, Generator, make_generator, contains, snapshot_loop, set_timeline_playback,
  restore_param_value, restore_loop, processed, play_block, play_blocks, restored, play, run,
}

-- A plugin does not change the number or the names of its parameters while it processes a block.
abbrev pub KeepsParameters : (h : Host) → Block h → Type 0
KeepsParameters h block = (p : h.Plugin) → h.parameters (block.process p) ≡ h.parameters p

some-inj : (i k : ℕ) → some i ≡ some k → i ≡ k
some-inj i k e = cc e

none-ne-some : (k : ℕ) → none ≢ some k
none-ne-some k e = cc e

nat-cases : (i k : ℕ) → (i ≡ k) ⊎ (i ≢ k)
nat-cases i k = elim (Bool-cases (i == k)) [
  | inl e ↦ inl ((==_iff i k).0 e)
  | inr e ↦ inr (λ eq. cc ((==_iff i k).1 eq, e))
]

module _ (h : Host) (laws : IsHost h) (p0 : h.Plugin) where
  abbrev Found : String → ℕ → Type 0
  Found id k = find_param (h.parameters p0) id ≡ some k

  -- The value is the one that `p0` has for the parameter.
  abbrev pub IsFrom : String × h.Value → Type 0
  IsFrom (id, v) = (k : ℕ) → Found id k → v ≡ h.get_value p0 k

  -- Some entry is for the parameter `k`.
  abbrev pub Hit : List (String × h.Value) → ℕ → Type 0
  Hit entries k = (x : String × h.Value) × (Memᴰ x entries × Found x.0 k)

  pub snapshot_loop-IsFrom :
      (seen : List String) (es : List (TimelineEvent h.Value))
      → All IsFrom (snapshot_loop h p0 seen es)
  unfolding snapshot_loop
  snapshot_loop-IsFrom seen [] = tt
  snapshot_loop-IsFrom seen (e ∷ es) =
      if-intro (All IsFrom) (contains h seen e.param_id) _ _ (λ _. snapshot_loop-IsFrom seen es)
        (λ _. elim (Option-cases (find_param (h.parameters p0) e.param_id)) [
          | inl missing ↦ rw (missing) (snapshot_loop-IsFrom (seen ++ (e.param_id ∷ [])) es)
          | inr (i, at) ↦ rw (at) (
            λ k other. ap (h.get_value p0) (some-inj i k (sym at ∙ other)),
            snapshot_loop-IsFrom (seen ++ (e.param_id ∷ [])) es,
          )
        ])

  contains-append :
      (seen : List String) (x id : String)
      → contains h (seen ++ (x ∷ [])) id ≡ true
      → (contains h seen id ≡ true) ⊎ (x ≡ id)
  unfolding contains
  contains-append [] x id e = elim (Bool-cases (str_eq x id)) [
    | inl same ↦ inr ((eq_iff x id).0 same)
    | inr other ↦ absurd (cc (e, ap (λ b. b || false) other))
  ]
  contains-append (y ∷ ys) x id e = elim (Bool-cases (str_eq y id)) [
    | inl same ↦ inl (ap (λ b. b || contains h ys id) same)
    | inr other ↦
        elim (contains-append ys x id
          (sym (ap (λ b. b || contains h (ys ++ (x ∷ [])) id) other) ∙ e)) [
            | inl known ↦ inl (ap (λ b. b || contains h ys id) other ∙ known)
            | inr same ↦ inr same
          ]
  ]

  pub snapshot_loop-Hit :
      (seen : List String) (es : List (TimelineEvent h.Value)) (e : TimelineEvent h.Value) (k : ℕ)
      → Memᴰ e es
      → Found e.param_id k
      → Hit (snapshot_loop h p0 seen es) k ⊎ (contains h seen e.param_id ≡ true)
  unfolding snapshot_loop
  snapshot_loop-Hit seen [] e k m at = absurd (Memᴰ.not-nil m)
  snapshot_loop-Hit seen (x ∷ es) e k m at =
      let Good : List (String × h.Value) → Type 0 =
        λ out. Hit out k ⊎ (contains h seen e.param_id ≡ true) in
      if-intro Good (contains h seen x.param_id) _ _
        (λ known. elim (Memᴰ.cases_cons m) [
          | inl here ↦ inr (subst (λ n. contains h seen n.param_id ≡ true) (sym here) known)
          | inr later ↦ snapshot_loop-Hit seen es e k later at
        ])
        (λ new.
          let rest = snapshot_loop h p0 (seen ++ (x.param_id ∷ [])) es in
          let at_x : e.param_id ≡ x.param_id → Found x.param_id k =
            λ eq. subst (λ id. Found id k) eq at in
          elim (Option-cases (find_param (h.parameters p0) x.param_id)) [
            | inl missing ↦
                let never : e.param_id ≡ x.param_id → ⊥ =
                  λ eq. none-ne-some k (sym missing ∙ at_x eq) in
                rw (missing) (elim (Memᴰ.cases_cons m) as (λ _. Good rest) [
                  | inl here ↦ absurd (never (ap (λ n. n.param_id) here))
                  | inr later ↦
                      elim (snapshot_loop-Hit (seen ++ (x.param_id ∷ [])) es e k later at) [
                        | inl hit ↦ inl hit
                        | inr known ↦ elim (contains-append seen x.param_id e.param_id known) [
                          | inl before ↦ inr before
                          | inr same ↦ absurd (never (sym same))
                        ]
                      ]
                ])
            | inr (i, at_i) ↦
                let entry : String × h.Value = (x.param_id, h.get_value p0 i) in
                let first : e.param_id ≡ x.param_id → Good (entry ∷ rest) =
                  λ eq. inl (entry, (Memᴰ.head refl, at_x eq)) in
                rw (at_i) (elim (Memᴰ.cases_cons m) as (λ _. Good (entry ∷ rest)) [
                  | inl here ↦ first (ap (λ n. n.param_id) here)
                  | inr later ↦
                      elim (snapshot_loop-Hit (seen ++ (x.param_id ∷ [])) es e k later at) [
                        | inl (y, (n, f)) ↦ inl (y, (Memᴰ.tail n, f))
                        | inr known ↦ elim (contains-append seen x.param_id e.param_id known) [
                          | inl before ↦ inr before
                          | inr same ↦ first (sym same)
                        ]
                      ]
                ])
          ])

  restore_missing :
      (p : h.Plugin) (id : String) (v : h.Value)
      → find_param (h.parameters p) id ≡ none
      → restore_param_value h p (id, v) ≡ p
  unfolding restore_param_value
  restore_missing p id v e =
      ap (λ o. elim o as (λ _. h.Plugin) [ none ↦ p | some i ↦ h.set_value p i v ]) e

  restore_found :
      (p : h.Plugin) (id : String) (v : h.Value) (i : ℕ)
      → find_param (h.parameters p) id ≡ some i
      → restore_param_value h p (id, v) ≡ h.set_value p i v
  unfolding restore_param_value
  restore_found p id v i e =
      ap (λ o. elim o as (λ _. h.Plugin) [ none ↦ p | some n ↦ h.set_value p n v ]) e

  -- An entry for another parameter is not the one that hits.
  Hit-later :
      (x : String × h.Value) (entries : List (String × h.Value)) (p : h.Plugin) (k : ℕ)
      → Hit (x ∷ entries) k ⊎ (h.get_value p k ≡ h.get_value p0 k)
      → ¬ Found x.0 k
      → Hit entries k ⊎ (h.get_value p k ≡ h.get_value p0 k)
  Hit-later x entries p k (inl (y, (m, at))) other = elim (Memᴰ.cases_cons m) [
    | inl here ↦ absurd (other (subst (λ z. Found z.0 k) here at))
    | inr later ↦ inl (y, (later, at))
  ]
  Hit-later x entries p k (inr e) other = inr e

  pub restore_loop-restores :
      (entries : List (String × h.Value)) (p : h.Plugin) (k : ℕ)
      → All IsFrom entries
      → h.parameters p ≡ h.parameters p0
      → Hit entries k ⊎ (h.get_value p k ≡ h.get_value p0 k)
      → h.get_value (restore_loop h entries p) k ≡ h.get_value p0 k
  unfolding restore_loop restore_param_value
  restore_loop-restores [] p k from same (inl (x, (m, at))) = absurd (Memᴰ.not-nil m)
  restore_loop-restores [] p k from same (inr e) = e
  restore_loop-restores ((id, v) ∷ entries) p k from same hit =
      let Done : h.Plugin → Type 0 =
        λ q. h.get_value (restore_loop h entries q) k ≡ h.get_value p0 k in
      elim (Option-cases (find_param (h.parameters p0) id)) [
        | inl missing ↦
            let at_p : find_param (h.parameters p) id ≡ none =
              ap (λ xs. find_param xs id) same ∙ missing in
            subst Done (sym (restore_missing p id v at_p)) (
              restore_loop-restores entries p k from.1 same
                (Hit-later (id, v) entries p k hit (λ at. none-ne-some k (sym missing ∙ at))))
        | inr (i, at_i) ↦
            let at_p : find_param (h.parameters p) id ≡ some i =
              ap (λ xs. find_param xs id) same ∙ at_i in
            subst Done (sym (restore_found p id v i at_p)) (
              restore_loop-restores entries (h.set_value p i v) k from.1
                (laws.parameters-set_value p i v ∙ same)
                (elim (nat-cases i k) [
                  | inl eq ↦ inr (
                      ap (λ w. h.get_value (h.set_value p i w) k) (from.0 i at_i)
                      ∙ subst
                          (λ n.
                            h.get_value (h.set_value p i (h.get_value p0 i)) n ≡ h.get_value p0 n)
                          eq (laws.get_value-set_value_self p p0 i))
                  | inr ne ↦
                      elim (Hit-later (id, v) entries p k hit
                        (λ at. ne (some-inj i k (sym at_i ∙ at)))) [
                          | inl later ↦ inl later
                          | inr e ↦ inr (laws.get_value-set_value_ne p i k v ne ∙ e)
                        ]
                ]))
      ]

  -- The plugin has the parameters of `p0`.
  abbrev pub IsLike : Option h.Plugin → Type 0
  IsLike o = (p : h.Plugin) × ((o ≡ some p) × (h.parameters p ≡ h.parameters p0))
