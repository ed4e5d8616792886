-- ===== src/Plugins/Dedupe/Covers.antt =====
-- dedupeKnownPlugins of source/host/PluginManager.cpp loses no bundle, and what it leaves.
use mathlib.Core.Path.{subst}
use mathlib.Core.List.{append_assoc, Memᴰ}
use mathlib.Core.List.Memᴰ
use plugin_lab.Prelude.{
  ◌≡◌, refl, sym, ap, ◌∙◌, ◌↔◌, inl, inr, true, false, not, List, [], ◌∷◌, ◌++◌, map, filter-keep,
  filter-drop, All, All-append, All-split, if-intro, Bool-cases,
}
use plugin_lab.Plugins.{
  Text, Description, Juce, remove_type, is_inner, inner_keys, is_dropped, dedupe_loop, dedupe,
}
use plugin_lab.Plugins.Laws.{IsJuce}
use plugin_lab.Plugins.Dedupe.{
  Distinct, key, keep, IsDeduped, dropped-cases, keep-Unique, keep-subset, keep-outer, Covered,
}

module _ (j : Juce) (laws : IsJuce j) where
  -- The entry at the front counts as kept.
  Covered-shift :
      (kept : List Text) (d : Description) (out : List Description) (k : Text)
      → Covered j laws kept (d ∷ out) k ↔ Covered j laws (kept ++ (key j d ∷ [])) out k
  Covered-shift kept d out k = (
    λ c. elim c [
      | inl m ↦ inl (Memᴰ.append_left (key j d ∷ []) m)
      | inr (e, (m, eq)) ↦ elim (Memᴰ.cases_cons m) [
        | inl same ↦ inl (Memᴰ.append_right kept (Memᴰ.head (sym eq ∙ ap (λ f. key j f) same)))
        | inr later ↦ inr (e, (later, eq))
      ]
    ],
    λ c. elim c [
      | inl m ↦ elim (Memᴰ.append_cases kept m) [
        | inl old ↦ inl old
        | inr new ↦ elim (Memᴰ.cases_cons new) [
          | inl eq ↦ inr (d, (Memᴰ.head refl, sym eq))
          | inr none_left ↦ absurd (Memᴰ.not-nil none_left)
        ]
      ]
      | inr (e, (m, eq)) ↦ inr (e, (Memᴰ.tail m, eq))
    ],
  )

  keep-covers :
      (inner kept : List Text) (ds : List Description) (d : Description)
      → Memᴰ d ds
      → (is_inner j d ≡ false
          → Memᴰ (key j d) inner
          → Covered j laws kept (keep j inner kept ds) (key j d))
      → Covered j laws kept (keep j inner kept ds) (key j d)
  unfolding keep
  keep-covers inner kept [] d m = absurd (Memᴰ.not-nil m)
  keep-covers inner kept (x ∷ ds) d (Memᴰ.head eq) =
      if-intro
        (λ out.
          (is_inner j d ≡ false → Memᴰ (key j d) inner → Covered j laws kept out (key j d))
          → Covered j laws kept out (key j d))
        (is_dropped j inner kept x) (keep j inner kept ds)
        (x ∷ keep j inner (kept ++ (key j x ∷ [])) ds)
        (λ gone alt. elim (dropped-cases j laws inner kept x gone) [
          | inl m ↦ inl (Memᴰ.cast (ap (λ f. key j f) eq) m)
          | inr (outer, m) ↦ alt (ap (is_inner j) eq ∙ outer) (Memᴰ.cast (ap (λ f. key j f) eq) m)
        ])
        (λ stays alt. inr (x, (Memᴰ.head refl, ap (λ f. key j f) (sym eq))))
  keep-covers inner kept (x ∷ ds) d (Memᴰ.tail m) =
      if-intro
        (λ out.
          (is_inner j d ≡ false → Memᴰ (key j d) inner → Covered j laws kept out (key j d))
          → Covered j laws kept out (key j d))
        (is_dropped j inner kept x) (keep j inner kept ds)
        (x ∷ keep j inner (kept ++ (key j x ∷ [])) ds) (λ gone. keep-covers inner kept ds d m)
        (λ stays alt.
          let shift = Covered-shift kept x (keep j inner (kept ++ (key j x ∷ [])) ds) (key j d) in
          shift.1
            (keep-covers inner (kept ++ (key j x ∷ [])) ds d m (λ outer k. shift.0 (alt outer k))))

  -- Of a list without duplicates removeType takes one entry.
  remove_none :
      (d : Description) (ds : List Description)
      → All (λ e. (j.is_same e d ≡ false) × (j.is_same d e ≡ false)) ds
      → remove_type j d ds ≡ ds
  unfolding remove_type
  remove_none d [] h = refl
  remove_none d (x ∷ xs) h =
      filter-keep (λ e. not (j.is_same e d)) x xs (ap not h.0.0) ∙ ap (◌∷◌ x) (remove_none d xs h.1)

  remove_one :
      (before : List Description) (d : Description) (ds : List Description)
      → Distinct j (before ++ (d ∷ ds))
      → remove_type j d (before ++ (d ∷ ds)) ≡ before ++ ds
  unfolding remove_type Distinct
  remove_one [] d ds h =
      filter-drop (λ e. not (j.is_same e d)) d ds (ap not (laws.is_same_refl d))
      ∙ remove_none d ds h.0
  remove_one (x ∷ before) d ds h =
      let here = (All-split _ before (d ∷ ds) h.0).1.0 in
      filter-keep (λ e. not (j.is_same e d)) x (before ++ (d ∷ ds)) (ap not here.1)
      ∙ ap (◌∷◌ x) (remove_one before d ds h.1)

  Distinct-remove :
      (before : List Description) (d : Description) (ds : List Description)
      → Distinct j (before ++ (d ∷ ds))
      → Distinct j (before ++ ds)
  unfolding Distinct
  Distinct-remove [] d ds h = h.1
  Distinct-remove (x ∷ before) d ds h =
      let (left, right) = All-split _ before (d ∷ ds) h.0 in
      (All-append _ before ds left right.1, Distinct-remove before d ds h.1)

  dedupe_loop-keep :
      (inner kept : List Text) (before ds : List Description)
      → Distinct j (before ++ ds)
      → dedupe_loop j inner kept ds (before ++ ds) ≡ before ++ keep j inner kept ds
  unfolding dedupe_loop keep
  dedupe_loop-keep inner kept before [] h = refl
  dedupe_loop-keep inner kept before (d ∷ ds) h = elim (Bool-cases (is_dropped j inner kept d)) [
    | inl gone ↦
        rw (gone, remove_one before d ds h)
          (dedupe_loop-keep inner kept before ds (Distinct-remove before d ds h))
    | inr stays ↦
        let assoc = append_assoc before (d ∷ []) ds in
        let kept' = kept ++ (key j d ∷ []) in
        rw (stays) (
          ap (dedupe_loop j inner kept' ds) (sym assoc)
          ∙ dedupe_loop-keep inner kept' (before ++ (d ∷ [])) ds (subst (Distinct j) (sym assoc) h)
          ∙ append_assoc before (d ∷ []) (keep j inner kept' ds))
  ]

  mem_of_inner :
      (ds : List Description) (e : Description)
      → Memᴰ e ds
      → is_inner j e ≡ true
      → Memᴰ (key j e) (inner_keys j ds)
  unfolding inner_keys
  mem_of_inner [] e m inner = absurd (Memᴰ.not-nil m)
  mem_of_inner (x ∷ xs) e (Memᴰ.head eq) inner =
      subst (λ ds. Memᴰ (key j e) (map (λ d. key j d) ds))
        (sym (filter-keep (is_inner j) x xs (ap (is_inner j) (sym eq) ∙ inner)))
        (Memᴰ.head (ap (λ d. key j d) eq))
  mem_of_inner (x ∷ xs) e (Memᴰ.tail m) inner = elim (Bool-cases (is_inner j x)) [
    | inl stays ↦
        subst (λ ds. Memᴰ (key j e) (map (λ d. key j d) ds))
          (sym (filter-keep (is_inner j) x xs stays)) (Memᴰ.tail (mem_of_inner xs e m inner))
    | inr gone ↦
        subst (λ ds. Memᴰ (key j e) (map (λ d. key j d) ds))
          (sym (filter-drop (is_inner j) x xs gone)) (mem_of_inner xs e m inner)
  ]

  abbrev InnerOf : List Description → Text → Type 0
  InnerOf ds k = (e : Description) × (Memᴰ e ds × ((is_inner j e ≡ true) × (key j e ≡ k)))

  in_tail : (x : Description) (ds : List Description) (k : Text) → InnerOf ds k → InnerOf (x ∷ ds) k
  in_tail x ds k (e, (m, rest)) = (e, (Memᴰ.tail m, rest))

  InnerOf-mem : (ds : List Description) (k : Text) → Memᴰ k (inner_keys j ds) → InnerOf ds k
  unfolding inner_keys
  InnerOf-mem [] k m = absurd (Memᴰ.not-nil m)
  InnerOf-mem (x ∷ xs) k m = elim (Bool-cases (is_inner j x)) [
    | inl stays ↦
        elim (Memᴰ.cases_cons
          (subst (λ ds. Memᴰ k (map (λ d. key j d) ds)) (filter-keep (is_inner j) x xs stays) m)) [
            | inl eq ↦ (x, (Memᴰ.head refl, (stays, sym eq)))
            | inr later ↦ in_tail x xs k (InnerOf-mem xs k later)
          ]
    | inr gone ↦ in_tail x xs k (
        InnerOf-mem xs k
          (subst (λ ds. Memᴰ k (map (λ d. key j d) ds)) (filter-drop (is_inner j) x xs gone) m))
  ]

  keep-covers_all :
      (types : List Description) (d : Description)
      → Memᴰ d types
      → Covered j laws [] (keep j (inner_keys j types) [] types) (key j d)
  keep-covers_all types d m =
      let inner = inner_keys j types in
      keep-covers inner [] types d m (λ outer k.
        let (e, (n, (is, eq))) = InnerOf-mem types (key j d) k in
        subst (Covered j laws [] (keep j inner [] types)) eq
          (keep-covers inner [] types e n (λ off. absurd (cc (is, off)))))

  -- What dedupeKnownPlugins leaves of a list that has no duplicates for JUCE is deduplicated: no two
  -- entries belong to the same bundle, every entry was there before, every bundle that had an entry
  -- still has one, and an entry that is not an inner one is left only if its bundle has no inner one.
  pub dedupe-IsDeduped :
      (types : List Description) → Distinct j types → IsDeduped j types (dedupe j types)
  unfolding dedupe
  dedupe-IsDeduped types h =
      let inner = inner_keys j types in
      let eq : dedupe_loop j inner [] types types ≡ keep j inner [] types =
        dedupe_loop-keep inner [] [] types h in
      subst (IsDeduped j types) (sym eq) (record {
        unique = keep-Unique j laws inner [] types;
        subset = keep-subset j laws inner [] types;
        covered = λ d m. elim (keep-covers_all types d m) [
          | inl impossible ↦ absurd (Memᴰ.not-nil impossible)
          | inr found ↦ found
        ];
        inner_first = λ d e m n outer is eq.
            keep-outer j laws inner [] types d outer m
              (Memᴰ.cast (sym eq) (mem_of_inner types e n is));
      })
