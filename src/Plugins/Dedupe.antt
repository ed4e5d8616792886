-- ===== src/Plugins/Dedupe.antt =====
-- The clean-up of the list of plugins by dedupeKnownPlugins of source/host/PluginManager.cpp.
pub mod Covers
use mathlib.Core.Path.{subst}
use mathlib.Core.List.{append_assoc, Memᴰ}
use mathlib.Core.List.Memᴰ
use plugin_lab.Prelude.{
  ◌≡◌, ◌≢◌, refl, sym, ap, ◌∙◌, ◌⊎◌, ◌↔◌, inl, inr, Bool, true, false, not, ◌||◌, ◌&&◌, List, [],
  ◌∷◌, ◌++◌, map, filter-keep, filter-drop, All, All-append, All-split, if◌then◌else◌, if-intro,
  Bool-cases,
}
use plugin_lab.Plugins.{
  Text, Description, Juce, any, bundle_key, remove_type, is_inner, has_key, inner_keys, is_dropped,
  dedupe_loop, dedupe,
}
use plugin_lab.Plugins.Laws.{IsJuce}

or_and-true : (a b c : Bool) → (a || (not b && c)) ≡ true → (a ≡ true) ⊎ ((b ≡ false) × (c ≡ true))
or_and-true true b c h = inl refl
or_and-true false true c h = absurd (cc h)
or_and-true false false c h = inr (refl, h)

or_and-false : (a b c : Bool) → (a || (not b && c)) ≡ false → (a ≡ false) × (b ≡ false → c ≡ false)
or_and-false true b c h = absurd (cc h)
or_and-false false true c h = (refl, λ off. absurd (cc off))
or_and-false false false c h = (refl, λ off. h)

module _ (j : Juce) where
  -- No two entries are the same for JUCE, which its own addType sees to.
  unfoldable pub Distinct : List Description → Type 0
  Distinct [] = Unit
  Distinct (d ∷ ds) = All (λ e. (j.is_same e d ≡ false) × (j.is_same d e ≡ false)) ds × Distinct ds

  abbrev pub key : Description → Text
  key d = bundle_key j d.file

  -- The list that the loop leaves, written from the front: an entry stays if it is not dropped.
  pub keep : List Text → List Text → List Description → List Description
  unfolding is_dropped
  keep inner kept [] = []
  keep inner kept (d ∷ ds) =
      let skipped = keep inner kept ds in
      let taken = keep inner (kept ++ (key d ∷ [])) ds in
      if is_dropped j inner kept d then skipped else d ∷ taken

  -- No two entries belong to one bundle.
  pub Unique : List Description → Type 0
  Unique [] = Unit
  Unique (d ∷ ds) = All (λ e. bundle_key j e.file ≢ bundle_key j d.file) ds × Unique ds

  -- Every bundle once, none lost, and by its inner entry if it has one.
  pub record IsDeduped (types out : List Description) : Type 0 where
    pub unique : Unique out
    pub subset : (d : Description) → Memᴰ d out → Memᴰ d types
    pub covered :
        (d : Description)
        → Memᴰ d types
        → (e : Description) × (Memᴰ e out × (bundle_key j e.file ≡ bundle_key j d.file))
    pub inner_first :
        (d e : Description)
        → Memᴰ d out
        → Memᴰ e types
        → is_inner j d ≡ false
        → is_inner j e ≡ true
        → bundle_key j e.file ≢ bundle_key j d.file

  module _ (laws : IsJuce j) where
    mem_of_has_key : (k : Text) (ks : List Text) → has_key j k ks ≡ true → Memᴰ k ks
    unfolding has_key any
    mem_of_has_key k [] h = absurd (cc h)
    mem_of_has_key k (x ∷ xs) h = elim (Bool-cases (j.is_equal k x)) [
      | inl here ↦ Memᴰ.head (laws.eq_of_is_equal k x here)
      | inr there ↦
          Memᴰ.tail (mem_of_has_key k xs (sym (ap (λ b. b || any j (j.is_equal k) xs) there) ∙ h))
    ]

    has_key_of_mem : (k : Text) (ks : List Text) → Memᴰ k ks → has_key j k ks ≡ true
    unfolding has_key any
    has_key_of_mem k [] m = elim m [ ]
    has_key_of_mem k (x ∷ xs) (Memᴰ.head e) =
        ap (λ b. b || any j (j.is_equal k) xs) (ap (j.is_equal k) (sym e) ∙ laws.is_equal_refl k)
    has_key_of_mem k (x ∷ xs) (Memᴰ.tail m) = elim (Bool-cases (j.is_equal k x)) [
      | inl here ↦ ap (λ b. b || any j (j.is_equal k) xs) here
      | inr there ↦ ap (λ b. b || any j (j.is_equal k) xs) there ∙ has_key_of_mem k xs m
    ]

    pub dropped-cases :
        (inner kept : List Text) (d : Description)
        → is_dropped j inner kept d ≡ true
        → Memᴰ (key d) kept ⊎ ((is_inner j d ≡ false) × Memᴰ (key d) inner)
    unfolding is_dropped
    dropped-cases inner kept d h =
        elim (or_and-true (has_key j (key d) kept) (is_inner j d) (has_key j (key d) inner) h) [
          | inl e ↦ inl (mem_of_has_key (key d) kept e)
          | inr (outer, e) ↦ inr (outer, mem_of_has_key (key d) inner e)
        ]

    kept-cases :
        (inner kept : List Text) (d : Description)
        → is_dropped j inner kept d ≡ false
        → ¬ Memᴰ (key d) kept × (is_inner j d ≡ false → ¬ Memᴰ (key d) inner)
    unfolding is_dropped
    kept-cases inner kept d h =
        let (e, f) =
          or_and-false (has_key j (key d) kept) (is_inner j d) (has_key j (key d) inner) h in
        (
          λ m. cc (has_key_of_mem (key d) kept m, e),
          λ outer m. cc (has_key_of_mem (key d) inner m, f outer),
        )

    -- No bundle is kept twice.
    keep-fresh :
        (inner kept : List Text) (ds : List Description) (e : Description)
        → Memᴰ e (keep inner kept ds)
        → ¬ Memᴰ (key e) kept
    unfolding keep
    keep-fresh inner kept [] e = λ m. absurd (Memᴰ.not-nil m)
    keep-fresh inner kept (d ∷ ds) e =
        if-intro (λ out. Memᴰ e out → ¬ Memᴰ (key e) kept) (is_dropped j inner kept d)
          (keep inner kept ds) (d ∷ keep inner (kept ++ (key d ∷ [])) ds)
          (λ gone. keep-fresh inner kept ds e)
          (λ stays m k. elim (Memᴰ.cases_cons m) [
            | inl eq ↦ (kept-cases inner kept d stays).0 (Memᴰ.cast (ap (λ f. key f) (sym eq)) k)
            | inr later ↦
                keep-fresh inner (kept ++ (key d ∷ [])) ds e later (Memᴰ.append_left (key d ∷ []) k)
          ])

    All-intro :
        (P : Description → Type 0) (xs : List Description)
        → ((e : Description) → Memᴰ e xs → P e)
        → All P xs
    All-intro P [] f = tt
    All-intro P (x ∷ xs) f = (f x (Memᴰ.head refl), All-intro P xs (λ e m. f e (Memᴰ.tail m)))

    pub keep-Unique : (inner kept : List Text) (ds : List Description) → Unique (keep inner kept ds)
    unfolding keep Unique
    keep-Unique inner kept [] = tt
    keep-Unique inner kept (d ∷ ds) =
        let later = keep inner (kept ++ (key d ∷ [])) ds in
        if-intro Unique (is_dropped j inner kept d) (keep inner kept ds) (d ∷ later)
          (λ gone. keep-Unique inner kept ds)
          (λ stays. (
            All-intro (λ e. key e ≢ key d) later
                (λ e m eq.
                  keep-fresh inner (kept ++ (key d ∷ [])) ds e m
                    (Memᴰ.append_right kept (Memᴰ.head eq))),
            keep-Unique inner (kept ++ (key d ∷ [])) ds,
          ))

    pub keep-subset :
        (inner kept : List Text) (ds : List Description) (e : Description)
        → Memᴰ e (keep inner kept ds)
        → Memᴰ e ds
    unfolding keep
    keep-subset inner kept [] e = λ m. m
    keep-subset inner kept (d ∷ ds) e =
        if-intro (λ out. Memᴰ e out → Memᴰ e (d ∷ ds)) (is_dropped j inner kept d)
          (keep inner kept ds) (d ∷ keep inner (kept ++ (key d ∷ [])) ds)
          (λ gone m. Memᴰ.tail (keep-subset inner kept ds e m))
          (λ stays m. elim (Memᴰ.cases_cons m) [
            | inl eq ↦ Memᴰ.head eq
            | inr later ↦ Memᴰ.tail (keep-subset inner (kept ++ (key d ∷ [])) ds e later)
          ])

    -- An entry that is not an inner one stays only where no inner one has its bundle.
    pub keep-outer :
        (inner kept : List Text) (ds : List Description) (e : Description)
        → is_inner j e ≡ false
        → Memᴰ e (keep inner kept ds)
        → ¬ Memᴰ (key e) inner
    unfolding keep
    keep-outer inner kept [] e outer = λ m. absurd (Memᴰ.not-nil m)
    keep-outer inner kept (d ∷ ds) e outer =
        if-intro (λ out. Memᴰ e out → ¬ Memᴰ (key e) inner) (is_dropped j inner kept d)
          (keep inner kept ds) (d ∷ keep inner (kept ++ (key d ∷ [])) ds)
          (λ gone. keep-outer inner kept ds e outer)
          (λ stays m k. elim (Memᴰ.cases_cons m) [
            | inl eq ↦
                (kept-cases inner kept d stays).1 (ap (is_inner j) (sym eq) ∙ outer)
                  (Memᴰ.cast (ap (λ f. key f) (sym eq)) k)
            | inr later ↦ keep-outer inner (kept ++ (key d ∷ [])) ds e outer later k
          ])

    abbrev pub Covered : List Text → List Description → Text → Type 0
    Covered kept out k =
        Memᴰ k kept ⊎ ((e : Description) × (Memᴰ e out × (bundle_key j e.file ≡ k)))
