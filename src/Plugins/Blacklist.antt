-- ===== src/Plugins/Blacklist.antt =====
-- What the blacklist of source/host/PluginManager.cpp keeps from being loaded.
use mathlib.Core.Path.{subst}
use mathlib.Core.List.{Memᴰ, append_assoc}
use mathlib.Core.List.Memᴰ
use plugin_lab.Prelude.{
  zero, suc, ◌≡◌, ◌≢◌, refl, sym, ap, ◌∙◌, inl, inr, Bool, true, false, ◌||◌, List, [], ◌∷◌, ◌++◌,
  none, some, take, ◌==◌, All, All-append, All-map, if◌then◌else◌, if-intro, Bool-cases, arith,
}
use plugin_lab.Prelude.Int.{ℤ, pos, negsuc}
use plugin_lab.Plugins.{
  Text, Description, Juce, Entry, Manager, Cache, Directory, timed_out, inner_mark, any, key_at,
  bundle_key, same_bundle_path, is_blacklisted_name, is_blacklisted_path, is_skipped,
  cache_is_current, update_progress, path_of, scan_loop, scan_directory, scan_system_directories,
  begin_scan, load_cache, save_cache, blacklist_directory, blacklist_unregistered, blacklist_loop,
  add_to_blacklist, handle_scan_hang, load_plugin, cache_version,
}
use plugin_lab.Plugins.Laws.{IsJuce}

module _ (j : Juce) where
  -- Neither the name nor the path is in the blacklist.
  pub IsAllowed : List Text → Entry → Type 0
  IsAllowed blacklist e =
      (is_blacklisted_name j e.name ≡ false)
      × ((path : Text) → e.path ≡ some path → is_blacklisted_path j blacklist path ≡ false)

  -- The blacklist is this one, and nothing in it has been handed to the scanner.
  abbrev IsSafe : List Text → Manager → Type 0
  IsSafe blacklist m = (m.blacklist ≡ blacklist) × All (IsAllowed blacklist) m.scanned

  update_progress-IsSafe :
      (blacklist : List Text) (m : Manager) (file : Text)
      → IsSafe blacklist m
      → IsSafe blacklist (update_progress j m file)
  unfolding update_progress
  update_progress-IsSafe blacklist m file h =
      if-intro (IsSafe blacklist) m.scan_aborted m (record m { current_file = file }) (λ _. h)
        (λ _. h)

  or-false : (a b : Bool) → (a || b) ≡ false → (a ≡ false) × (b ≡ false)
  or-false true b h = absurd (cc h)
  or-false false b h = (refl, h)

  or_third : (a b c : Bool) → c ≡ true → (a || (b || c)) ≡ true
  or_third true b c h = refl
  or_third false true c h = refl
  or_third false false c h = h

  unskipped-IsAllowed :
      (m : Manager) (e : Entry) → is_skipped j m e ≡ false → IsAllowed m.blacklist e
  unfolding is_skipped IsAllowed
  unskipped-IsAllowed m e h =
      let (named, rest) = or-false (is_blacklisted_name j e.name) _ h in
      (
        named,
        λ path eq.
            (or-false (is_blacklisted_path j m.blacklist path) _ (
              subst
                (λ o.
                  (elim o as (λ _. Bool) [
                    | none ↦ false
                    | some p ↦ is_blacklisted_path j m.blacklist p || cache_is_current j m.types p
                  ])
                  ≡ false)
                eq rest)).0,
      )

  scan_loop-IsSafe :
      (blacklist : List Text) (es : List Entry) (m : Manager)
      → IsSafe blacklist m
      → IsSafe blacklist (scan_loop j es m)
  unfolding scan_loop
  scan_loop-IsSafe blacklist [] m h = update_progress-IsSafe blacklist m [] h
  scan_loop-IsSafe blacklist (e ∷ es) m h =
      let m1 = update_progress j m (path_of j e) in
      let h1 = update_progress-IsSafe blacklist m (path_of j e) h in
      let m2 : Manager = record m1 {
        scanned = m1.scanned ++ (e ∷ []);
        types = e.update m1.types;
      } in
      if-intro (IsSafe blacklist) (is_skipped j m1 e) (scan_loop j es m1)
        (if e.goes_on then scan_loop j es m2 else m2)
        (λ skipped. scan_loop-IsSafe blacklist es m1 h1)
        (λ scanned.
          let allowed : IsAllowed blacklist e =
            subst (λ bl. IsAllowed bl e) h1.0 (unskipped-IsAllowed m1 e scanned) in
          let h2 : IsSafe blacklist m2 =
            (h1.0, All-append (IsAllowed blacklist) m1.scanned (e ∷ []) h1.1 (allowed, tt)) in
          if-intro (IsSafe blacklist) e.goes_on (scan_loop j es m2) m2
            (λ _. scan_loop-IsSafe blacklist es m2 h2) (λ _. h2))

  scan_directory-IsSafe :
      (blacklist : List Text) (dir : Directory j) (m : Manager)
      → IsSafe blacklist m
      → IsSafe blacklist (scan_directory j dir m)
  unfolding scan_directory
  scan_directory-IsSafe blacklist dir m h =
      if-intro (IsSafe blacklist) dir.is_present (scan_loop j dir.entries m) m
        (λ _. scan_loop-IsSafe blacklist dir.entries m h) (λ _. h)

  blacklist_loop-scanned :
      (keys : List Text) (m : Manager) → (blacklist_loop j keys m).0.scanned ≡ m.scanned
  unfolding blacklist_loop add_to_blacklist
  blacklist_loop-scanned [] m = refl
  blacklist_loop-scanned (key ∷ keys) m =
      let (m1, added) = blacklist_loop j keys (add_to_blacklist j key m) in
      if-intro (λ x. x.0.scanned ≡ m.scanned)
        (any j (λ d. same_bundle_path j d.file key) m.types
          || is_blacklisted_path j m.blacklist key)
        (blacklist_loop j keys m) (m1, suc added) (λ _. blacklist_loop-scanned keys m)
        (λ _. blacklist_loop-scanned keys (add_to_blacklist j key m))

  blacklist_directory-scanned :
      (dir : Directory j) (m : Manager) → (blacklist_directory j dir m).scanned ≡ m.scanned
  unfolding blacklist_directory blacklist_unregistered save_cache
  blacklist_directory-scanned dir m =
      let (m1, added) = blacklist_loop j dir.vst3_files m in
      if-intro (λ x. x.scanned ≡ m.scanned) dir.is_present
        (if added == 0 then m1 else save_cache j m1 true) m
        (λ _.
          if-intro (λ x. x.scanned ≡ m.scanned) (added == 0) m1 (save_cache j m1 true)
            (λ _. blacklist_loop-scanned dir.vst3_files m)
            (λ _. blacklist_loop-scanned dir.vst3_files m))
        (λ _. refl)

  load_cache-current :
      (m : Manager) (cache : Cache)
      → m.saved ≡ some cache
      → cache.version ≡ cache_version
      → let (m1, loaded) = load_cache j m in
        (loaded ≡ true) × ((m1.blacklist ≡ cache.blacklist) × (m1.scanned ≡ m.scanned))
  unfolding load_cache
  load_cache-current m cache saved current =
      let same : (cache.version == cache_version) ≡ true = ground arith in
      rw (saved, same) (refl, (refl, refl))

  -- With a cache of the current version on the disk, scanSystemDirectories hands no file to the
  -- scanner that the blacklist of the cache has, nor one with a forbidden name, whatever the two
  -- directories hold.
  pub scan_system_directories-IsSafe :
      (system local : Directory j) (m : Manager) (cache : Cache)
      → m.saved ≡ some cache
      → cache.version ≡ cache_version
      → m.scanned ≡ []
      → All (IsAllowed cache.blacklist) (scan_system_directories j system local m).scanned
  unfolding scan_system_directories begin_scan load_cache save_cache
  scan_system_directories-IsSafe system local m cache saved current fresh =
      let m0 = begin_scan j m in
      let (yes', (listed, kept)) = load_cache-current m0 cache saved current in
      let (m1, loaded) = load_cache j m0 in
      let m2 : Manager = if loaded then m1 else record m1 { types = [] } in
      let safe : IsSafe cache.blacklist m2 =
        if-intro (IsSafe cache.blacklist) loaded m1 (record m1 { types = [] })
          (λ _. (listed, subst (All (IsAllowed cache.blacklist)) (sym (kept ∙ fresh)) tt))
          (λ no'. absurd (cc (yes', no'))) in
      let m3 = scan_directory j local (scan_directory j system m2) in
      let scanned =
        scan_directory-IsSafe cache.blacklist local (scan_directory j system m2)
          (scan_directory-IsSafe cache.blacklist system m2 safe) in
      subst (All (IsAllowed cache.blacklist))
        (sym (
          blacklist_directory-scanned local (blacklist_directory j system m3)
          ∙ blacklist_directory-scanned system m3))
        scanned.1

  -- The entry that a file is blacklisted by covers the file.
  module _ (laws : IsJuce j) where
    key_at-same :
        (file : Text) (i : ℤ)
        → j.index_of file inner_mark ≡ i
        → same_bundle_path j (key_at j file i) file ≡ true
    unfolding same_bundle_path
    key_at-same file (negsuc n) e = rw (laws.is_equal_refl file) refl
    key_at-same file (pos zero) e = rw (laws.is_equal_refl file) refl
    key_at-same file (pos (suc i)) e =
        let (rest, split) = laws.index_of_some file inner_mark (suc i) e in
        let bundle = take (suc i) file in
        let inside : j.starts_with file (bundle ++ inner_mark) ≡ true =
          subst (λ f. j.starts_with f (bundle ++ inner_mark) ≡ true)
            (append_assoc bundle inner_mark rest ∙ sym split)
            (laws.starts_with_append (bundle ++ inner_mark) rest) in
        or_third (j.is_equal bundle file) (j.starts_with bundle (file ++ inner_mark)) _ inside

    bundle_key-same : (file : Text) → same_bundle_path j (bundle_key j file) file ≡ true
    unfolding bundle_key
    bundle_key-same file = key_at-same file (j.index_of file inner_mark) refl

    any_of_mem :
        (p : Text → Bool) (a : Text) (xs : List Text) → Memᴰ a xs → p a ≡ true → any j p xs ≡ true
    unfolding any
    any_of_mem p a [] m h = absurd (Memᴰ.not-nil m)
    any_of_mem p a (x ∷ xs) (Memᴰ.head eq) h = ap (λ b. b || any j p xs) (ap p (sym eq) ∙ h)
    any_of_mem p a (x ∷ xs) (Memᴰ.tail m) h = elim (Bool-cases (p x)) [
      | inl here ↦ ap (λ b. b || any j p xs) here
      | inr there ↦ ap (λ b. b || any j p xs) there ∙ any_of_mem p a xs m h
    ]

    -- After a restart with the cache that has the file's bundle in its blacklist.
    blacklisted-avoided :
        (system local : Directory j) (m : Manager) (cache : Cache) (file : Text)
        → m.saved ≡ some cache
        → cache.version ≡ cache_version
        → m.scanned ≡ []
        → Memᴰ (bundle_key j file) cache.blacklist
        → All (λ e. e.path ≢ some file) (scan_system_directories j system local m).scanned
    unfolding is_blacklisted_path IsAllowed
    blacklisted-avoided system local m cache file saved current fresh listed =
        All-map (IsAllowed cache.blacklist) (λ e. e.path ≢ some file) _
          (λ e allowed at. cc (
            allowed.1 file at,
            any_of_mem (λ b. same_bundle_path j b file) (bundle_key j file) cache.blacklist listed
                (bundle_key-same file),
          ))
          (scan_system_directories-IsSafe system local m cache saved current fresh)

    -- A file in which the watchdog has found the scan hanging is not handed to the scanner by the next
    -- start of the program, whatever the directories hold then, if the cache could be written.
    pub hung_file_avoided :
        (m restarted : Manager) (system local : Directory j)
        → restarted.scanned ≡ []
        → j.is_equal m.current_file [] ≡ false
        → restarted.saved ≡ (handle_scan_hang j m true).0.saved
        → All
            (λ e. e.path ≢ some m.current_file)
            (scan_system_directories j system local restarted).scanned
    unfolding handle_scan_hang save_cache add_to_blacklist
    hung_file_avoided m restarted system local fresh known saved =
        blacklisted-avoided system local restarted
          (record {
            version = cache_version;
            types = m.types;
            blacklist = j.add_to_list (bundle_key j m.current_file) m.blacklist;
          })
          m.current_file (saved ∙ rw (known) refl) refl fresh (laws.add_to_list_self _ _)

    -- So is the file of a plugin whose creation has not ended in time.
    pub timed_out_file_avoided :
        (m restarted : Manager) (desc : Description) (system local : Directory j)
        → restarted.scanned ≡ []
        → is_blacklisted_name j desc.name ≡ false
        → restarted.saved ≡ (load_plugin j desc timed_out true m).0.saved
        → All
            (λ e. e.path ≢ some desc.file)
            (scan_system_directories j system local restarted).scanned
    unfolding load_plugin save_cache add_to_blacklist
    timed_out_file_avoided m restarted desc system local fresh known saved =
        blacklisted-avoided system local restarted
          (record {
            version = cache_version;
            types = m.types;
            blacklist = j.add_to_list (bundle_key j desc.file) m.blacklist;
          })
          desc.file (saved ∙ rw (known) refl) refl fresh (laws.add_to_list_self _ _)

  handle_scan_hang-aborted :
      (m : Manager) (ok : Bool) → (handle_scan_hang j m ok).0.scan_aborted ≡ true
  unfolding handle_scan_hang save_cache add_to_blacklist
  handle_scan_hang-aborted m ok =
      let aborted : Manager = record m {
        scan_aborted = true;
        scan_hang_count = suc m.scan_hang_count;
      } in
      let listed = add_to_blacklist j (bundle_key j m.current_file) aborted in
      if-intro (λ x. x.scan_aborted ≡ true) (j.is_equal m.current_file []) aborted
        (save_cache j listed ok) (λ _. refl)
        (λ _.
          if-intro (λ x. x.scan_aborted ≡ true) ok
            (record listed {
              saved = some (record {
                version = cache_version;
                types = listed.types;
                blacklist = listed.blacklist;
              });
            })
            listed (λ _. refl) (λ _. refl))

  -- A scan that the watchdog has given up does not report its progress, until beginScan is called for
  -- the next one: from then on the reports of the old scan's thread are taken as the new scan's.
  abandoned_scan_reports :
      (m : Manager) (ok : Bool) (file : Text)
      → let given_up = (handle_scan_hang j m ok).0 in
        (update_progress j given_up file ≡ given_up)
        × ((update_progress j (begin_scan j given_up) file).current_file ≡ file)
  unfolding update_progress begin_scan
  abandoned_scan_reports m ok file = (rw (handle_scan_hang-aborted m ok) refl, refl)
