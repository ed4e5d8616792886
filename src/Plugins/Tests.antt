-- ===== src/Plugins/Tests.antt =====
-- Runs of the models of source/host/PluginManager.cpp, with strings as lists.
use mathlib.Core.List.{Memᴰ}
use plugin_lab.Prelude.{
  ℕ, suc, ◌≡◌, ◌≢◌, refl, sym, ap, ◌∙◌, Bool, true, false, ◌&&◌, List, [], ◌∷◌, ◌++◌, Option, none,
  some, take, ◌==◌, ==_iff, All, if◌then◌else◌, if-intro,
}
use plugin_lab.Prelude.Int.{ℤ, pos, negsuc}
use plugin_lab.Plugins.{
  Text, Description, Juce, Manager, Directory, inner_mark, dedupe, scan_system_directories,
  handle_scan_hang, bundle_key, is_dropped, remove_type, inner_keys, dedupe_loop, has_key, any,
  cache_version,
}
use plugin_lab.Plugins.Laws.{IsJuce}
use plugin_lab.Plugins.Dedupe.{Distinct, IsDeduped}
use plugin_lab.Plugins.Dedupe.Covers.{dedupe-IsDeduped}
use plugin_lab.Plugins.Blacklist.{IsAllowed, scan_system_directories-IsSafe, hung_file_avoided}

abbrev same_text : Text → Text → Bool
same_text [] [] = true
same_text [] (y ∷ ys) = false
same_text (x ∷ xs) [] = false
same_text (x ∷ xs) (y ∷ ys) = (x == y) && same_text xs ys

abbrev begins_with : Text → Text → Bool
begins_with xs [] = true
begins_with [] (y ∷ ys) = false
begins_with (x ∷ xs) (y ∷ ys) = (x == y) && begins_with xs ys

abbrev later : Option ℕ → Option ℕ
later none = none
later (some i) = some (suc i)

abbrev find : Text → Text → Option ℕ
find [] p = if begins_with [] p then some 0 else none
find (x ∷ xs) p = if begins_with (x ∷ xs) p then some 0 else later (find xs p)

abbrev index_from : Option ℕ → ℤ
index_from none = negsuc 0
index_from (some i) = pos i

abbrev is_found : Option ℕ → Bool
is_found none = false
is_found (some i) = true

abbrev lists : Juce
lists = record {
  is_equal = same_text;
  starts_with = begins_with;
  contains = λ a p. is_found (find a p);
  contains_ignore_case = λ a p. is_found (find a p);
  index_of = λ a p. index_from (find a p);
  is_same = λ d e. same_text d.file e.file;
  exists = λ a. true;
  is_directory = λ a. false;
  modification_time = λ a. 7;
  inner_times = λ a. [];
  add_to_list = λ a xs. a ∷ xs;
}

same_text_refl : (a : Text) → same_text a a ≡ true
same_text_refl [] = refl
same_text_refl (x ∷ xs) = ap (λ b. b && same_text xs xs) ((==_iff x x).1 refl) ∙ same_text_refl xs

and-true : (a b : Bool) → (a && b) ≡ true → (a ≡ true) × (b ≡ true)
and-true true b h = (refl, h)
and-true false b h = absurd (cc h)

eq_of_same_text : (a b : Text) → same_text a b ≡ true → a ≡ b
eq_of_same_text [] [] h = refl
eq_of_same_text [] (y ∷ ys) h = absurd (cc h)
eq_of_same_text (x ∷ xs) [] h = absurd (cc h)
eq_of_same_text (x ∷ xs) (y ∷ ys) h =
    let (e, es) = and-true (x == y) (same_text xs ys) h in
    ap (λ n. n ∷ xs) ((==_iff x y).0 e) ∙ ap (◌∷◌ y) (eq_of_same_text xs ys es)

begins_with_append : (a b : Text) → begins_with (a ++ b) a ≡ true
begins_with_append [] b = refl
begins_with_append (x ∷ xs) b =
    ap (λ c. c && begins_with (xs ++ b) xs) ((==_iff x x).1 refl) ∙ begins_with_append xs b

rest_of_begins : (a p : Text) → begins_with a p ≡ true → (rest : Text) × (a ≡ p ++ rest)
rest_of_begins a [] h = (a, refl)
rest_of_begins [] (y ∷ ys) h = absurd (cc h)
rest_of_begins (x ∷ xs) (y ∷ ys) h =
    let (e, es) = and-true (x == y) (begins_with xs ys) h in
    let (rest, eq) = rest_of_begins xs ys es in
    (rest, ap (λ n. n ∷ xs) ((==_iff x y).0 e) ∙ ap (◌∷◌ y) eq)

later-cases : (o : Option ℕ) (i : ℕ) → later o ≡ some i → (k : ℕ) × ((o ≡ some k) × (i ≡ suc k))
later-cases none i h = absurd (cc h)
later-cases (some k) i h = (k, (refl, cc h))

found_at : (a p : Text) (i : ℕ) → find a p ≡ some i → (rest : Text) × (a ≡ take i a ++ (p ++ rest))
found_at [] p i =
    if-intro (λ o. o ≡ some i → (rest : Text) × ([] ≡ take i [] ++ (p ++ rest))) (begins_with [] p)
      (some 0) none
      (λ here h.
        let (rest, eq) = rest_of_begins [] p here in
        let zeroth : 0 ≡ i = cc h in (rest, eq ∙ ap (λ k. take k [] ++ (p ++ rest)) zeroth))
      (λ there h. absurd (cc h))
found_at (x ∷ xs) p i =
    if-intro (λ o. o ≡ some i → (rest : Text) × ((x ∷ xs) ≡ take i (x ∷ xs) ++ (p ++ rest)))
      (begins_with (x ∷ xs) p) (some 0) (later (find xs p))
      (λ here h.
        let (rest, eq) = rest_of_begins (x ∷ xs) p here in
        let zeroth : 0 ≡ i = cc h in (rest, eq ∙ ap (λ k. take k (x ∷ xs) ++ (p ++ rest)) zeroth))
      (λ there h.
        let (k, (at, suc_k)) = later-cases (find xs p) i h in
        let (rest, eq) = found_at xs p k at in
        (rest, ap (◌∷◌ x) eq ∙ ap (λ n. take n (x ∷ xs) ++ (p ++ rest)) (sym suc_k)))

index_from-inj : (o : Option ℕ) (i : ℕ) → index_from o ≡ pos i → o ≡ some i
index_from-inj none i h = absurd (cc h)
index_from-inj (some k) i h = cc h

lists-IsJuce : IsJuce lists
lists-IsJuce = record {
  is_equal_refl = same_text_refl;
  eq_of_is_equal = eq_of_same_text;
  is_same_refl = λ d. same_text_refl d.file;
  starts_with_append = begins_with_append;
  index_of_some = λ a p i e. found_at a p i (index_from-inj (find a p) i e);
  add_to_list_self = λ a xs. Memᴰ.head refl;
  add_to_list_keeps = λ a b xs m. Memᴰ.tail m;
}

abbrev plugin : ℕ → Text → Description
plugin id file = record { name = id ∷ []; file = file; modified = 7; unique_id = id }

abbrev inner_file : Text
inner_file = (1 ∷ []) ++ (inner_mark ++ (2 ∷ []))

abbrev three_types : List Description
three_types = plugin 1 (1 ∷ []) ∷ plugin 2 inner_file ∷ plugin 3 (3 ∷ []) ∷ []

three_types-Distinct : Distinct lists three_types
unfolding Distinct
three_types-Distinct = (((refl, refl), ((refl, refl), tt)), (((refl, refl), tt), (tt, tt)))

-- The bundle's own entry goes, its inner one stays.
dedupe_run : dedupe lists three_types ≡ plugin 2 inner_file ∷ plugin 3 (3 ∷ []) ∷ []
unfolding dedupe dedupe_loop inner_keys is_dropped has_key any remove_type bundle_key
dedupe_run = refl

dedupe-IsDeduped_example : IsDeduped lists three_types (dedupe lists three_types)
dedupe-IsDeduped_example = dedupe-IsDeduped lists lists-IsJuce three_types three_types-Distinct

abbrev hanging : Manager
hanging = record {
  types = three_types;
  blacklist = [];
  scan_running = true;
  scan_aborted = false;
  scan_hang_count = 0;
  current_file = inner_file;
  saved = none;
  scanned = [];
}

abbrev restarted : Manager
restarted = record hanging {
  types = [];
  saved = some (record { version = cache_version; types = three_types; blacklist = (1 ∷ []) ∷ [] });
}

abbrev two_files : Directory lists
two_files = record {
  is_present = true;
  entries =
      record { name = 4 ∷ []; path = some inner_file; update = λ ds. ds; goes_on = true }
      ∷ record { name = 5 ∷ []; path = some (5 ∷ []); update = λ ds. ds; goes_on = true }
      ∷ [];
  vst3_files = [];
}

abbrev absent : Directory lists
absent = record { is_present = false; entries = []; vst3_files = [] }

hung_file_avoided_example :
    All
      (λ e. e.path ≢ some inner_file)
      (scan_system_directories lists two_files absent restarted).scanned
unfolding handle_scan_hang bundle_key
hung_file_avoided_example =
    hung_file_avoided lists lists-IsJuce hanging restarted two_files absent refl refl refl

scan_system_directories-IsSafe_example :
    All
      (IsAllowed lists ((1 ∷ []) ∷ []))
      (scan_system_directories lists two_files absent restarted).scanned
scan_system_directories-IsSafe_example =
    scan_system_directories-IsSafe lists two_files absent restarted
      (record { version = cache_version; types = three_types; blacklist = (1 ∷ []) ∷ [] }) refl refl
      refl
