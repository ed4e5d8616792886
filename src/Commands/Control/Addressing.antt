-- ===== src/Commands/Control/Addressing.antt =====
-- How loadPlugin finds the plugin that a request means.
use plugin_lab.Prelude.{
  Bool, true, false, String, List, [], ◌∷◌, ◌++◌, map, filter, none, some, inl, inr, Bool-cases,
  ◌≡◌, refl, ap, ◌⊎◌, All,
}
use plugin_lab.Commands.Desk.{Description}
use plugin_lab.Commands.Control.{
  Texts, Loading, loads, loads_blacklisted, ambiguous, not_found, find_first, name_of,
  is_direct_hit, is_candidate, is_blacklist_hit, blacklisted_description, load_blacklisted,
  load_fuzzy, load_plugin,
}

module _ {A : Type 0} (f : A → Bool) where
  abbrev Fails : A → Type 0
  Fails x = f x ≡ false

  -- The element passes, and none before it does.
  pub record IsFirst (xs : List A) (x : A) : Type 0 where
    pub front : List A
    pub back : List A
    pub is_split : xs ≡ front ++ x ∷ back
    pub front_fails : All Fails front
    pub passes : f x ≡ true

  -- The only element that passes.
  pub record IsOnly (xs : List A) (x : A) : Type 0 where
    pub first : IsFirst xs x
    pub back_fails : All Fails (first.back)

  -- Two elements pass.
  pub record HasTwo (xs : List A) : Type 0 where
    pub front : List A
    pub middle : List A
    pub back : List A
    pub one : A
    pub other : A
    pub is_split : xs ≡ front ++ one ∷ middle ++ other ∷ back
    pub one_passes : f one ≡ true
    pub other_passes : f other ≡ true

  abbrev grow_first : {xs : List A} {x : A} (y : A) → Fails y → IsFirst xs x → IsFirst (y ∷ xs) x
  grow_first y e s = record {
    front = y ∷ s.front;
    back = s.back;
    is_split = ap (λ zs. y ∷ zs) s.is_split;
    front_fails = (e, s.front_fails);
    passes = s.passes;
  }

  -- What find_first finds.
  find_first_cases :
      (xs : List A)
      → (All Fails xs × (find_first f xs ≡ none))
        ⊎ ((x : A) × (IsFirst xs x × (find_first f xs ≡ some x)))
  find_first_cases [] = inl (tt, refl)
  find_first_cases (y ∷ xs) = elim (Bool-cases (f y)) [
    | inl e ↦ inr (
      y,
      (record { front = []; back = xs; is_split = refl; front_fails = tt; passes = e }, rw e refl),
    )
    | inr e ↦ elim (find_first_cases xs) [
      | inl (none_passes, found) ↦ inl ((e, none_passes), rw e found)
      | inr (x, (split, found)) ↦ inr (x, (grow_first y e split, rw e found))
    ]
  ]

  abbrev grow_two : {xs : List A} (y : A) → HasTwo xs → HasTwo (y ∷ xs)
  grow_two y s = record {
    front = y ∷ s.front;
    middle = s.middle;
    back = s.back;
    one = s.one;
    other = s.other;
    is_split = ap (λ zs. y ∷ zs) s.is_split;
    one_passes = s.one_passes;
    other_passes = s.other_passes;
  }

  data Filtered (xs : List A) (ys : List A) : Type 0 where
    empty : All Fails xs → ys ≡ [] → Filtered xs ys
    single : (x : A) → IsOnly xs x → ys ≡ x ∷ [] → Filtered xs ys
    several : HasTwo xs → (x y : A) (zs : List A) → ys ≡ x ∷ y ∷ zs → Filtered xs ys

  first_passes : (xs ys : List A) (y : A) → f y ≡ true → Filtered xs ys → Filtered (y ∷ xs) (y ∷ ys)
  first_passes xs ys y e (empty fails none_left) =
      single y
        (record {
          first = record { front = []; back = xs; is_split = refl; front_fails = tt; passes = e };
          back_fails = fails;
        })
        (ap (λ zs. y ∷ zs) none_left)
  first_passes xs ys y e (single x only one_left) =
      several
        (record {
          front = [];
          middle = only.first.front;
          back = only.first.back;
          one = y;
          other = x;
          is_split = ap (λ zs. y ∷ zs) only.first.is_split;
          one_passes = e;
          other_passes = only.first.passes;
        })
        y x [] (ap (λ zs. y ∷ zs) one_left)
  first_passes xs ys y e (several two a b zs left) =
      several (grow_two y two) y a (b ∷ zs) (ap (λ zs. y ∷ zs) left)

  first_fails : (xs ys : List A) (y : A) → Fails y → Filtered xs ys → Filtered (y ∷ xs) ys
  first_fails xs ys y e (empty fails left) = empty (e, fails) left
  first_fails xs ys y e (single x only left) =
      single x (record { first = grow_first y e only.first; back_fails = only.back_fails }) left
  first_fails xs ys y e (several two a b zs left) = several (grow_two y two) a b zs left

  filter_cases : (xs : List A) → Filtered xs (filter f xs)
  filter_cases [] = empty tt refl
  filter_cases (x ∷ xs) = elim (Bool-cases (f x)) [
    | inl e ↦ rw (e, filter) (first_passes xs (filter f xs) x e (filter_cases xs))
    | inr e ↦ rw (e, filter) (first_fails xs (filter f xs) x e (filter_cases xs))
  ]

module _ (texts : Texts) (types : List Description) (blacklist : List String) (path : String) where
  -- What loadPlugin answers: a plugin that is named directly is loaded, and the first of these in the
  -- list, whether by its identifier, its name or the stem of its file; else
  -- the only one that the request is a part of, or that is a part of it; of several, none. The blacklist
  -- is asked last.
  pub data IsAnswer : Loading → Type 0 where
    direct : (d : Description) → IsFirst (is_direct_hit texts path) types d → IsAnswer (loads d)
    fuzzy :
        All (Fails (is_direct_hit texts path)) types
        → (d : Description) → IsOnly (is_candidate texts path) types d
        → IsAnswer (loads d)
    undecided :
        All (Fails (is_direct_hit texts path)) types
        → HasTwo (is_candidate texts path) types
        → (candidates : List Description) → filter (is_candidate texts path) types ≡ candidates
        → IsAnswer (ambiguous (map name_of candidates))
    blacklisted :
        All (Fails (is_direct_hit texts path)) types
        → All (Fails (is_candidate texts path)) types
        → (entry : String) → IsFirst (is_blacklist_hit texts path) blacklist entry
        → IsAnswer (loads_blacklisted (blacklisted_description texts entry))
    unknown :
        All (Fails (is_direct_hit texts path)) types
        → All (Fails (is_candidate texts path)) types
        → All (Fails (is_blacklist_hit texts path)) blacklist
        → IsAnswer not_found

  load_blacklisted-IsAnswer :
      All (Fails (is_direct_hit texts path)) types
      → All (Fails (is_candidate texts path)) types
      → IsAnswer (load_blacklisted texts blacklist path)
  unfolding load_blacklisted
  load_blacklisted-IsAnswer no_hit no_candidate =
      elim (find_first_cases (is_blacklist_hit texts path) blacklist) [
        | inl (fails, found) ↦ rw (found, load_blacklisted) (unknown no_hit no_candidate fails)
        | inr (entry, (first, found)) ↦
            rw (found, load_blacklisted) (blacklisted no_hit no_candidate entry first)
      ]

  load_fuzzy-IsAnswer :
      All (Fails (is_direct_hit texts path)) types
      → IsAnswer (load_fuzzy texts types blacklist path)
  unfolding load_fuzzy
  load_fuzzy-IsAnswer no_hit = elim (filter_cases (is_candidate texts path) types) [
    | empty fails found ↦ rw (found, load_fuzzy) (load_blacklisted-IsAnswer no_hit fails)
    | single d only found ↦ rw (found, load_fuzzy) (fuzzy no_hit d only)
    | several two a b rest found ↦
        rw (found, load_fuzzy) (undecided no_hit two (a ∷ b ∷ rest) found)
  ]

  -- For every list of known plugins, blacklist and request, loadPlugin loads the first plugin of the list
  -- that the request names directly, be it by identifier, by name or by the stem of its file; if there is
  -- none, the only one whose name or stem has the request in it or whose name is in the request; of
  -- several, none, and it answers all their names; and if there is none of these, the first entry of the
  -- blacklist that the request means.
  pub load_plugin-IsAnswer : IsAnswer (load_plugin texts types blacklist path)
  unfolding load_plugin
  load_plugin-IsAnswer = elim (find_first_cases (is_direct_hit texts path) types) [
    | inl (fails, found) ↦ rw (found, load_plugin) (load_fuzzy-IsAnswer fails)
    | inr (d, (first, found)) ↦ rw (found, load_plugin) (direct d first)
  ]
