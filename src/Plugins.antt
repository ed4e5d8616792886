-- ===== src/Plugins.antt =====
-- PluginManager of source/host/PluginManager.{h,cpp}: the list of known plugins and its clean-up, the
-- blacklist, the scan of a directory with its watchdog, and the loading of a plugin. Texts are lists
-- of characters. JUCE's string search, its plugin scanner and the file system are parameters. The
-- VST3 format is there. Left out are the progress of a scan as a number, with its time stamp, and
-- what JUCE's scanner itself puts into the blacklist from its dead man's pedal.
pub mod Laws
pub mod Dedupe
pub mod Blacklist
mod Tests
use plugin_lab.Prelude.{
  ℕ, zero, suc, ◌+◌, Bool, true, false, not, ◌||◌, ◌&&◌, List, [], ◌∷◌, ◌++◌, map, Option, none,
  some, filter, take, leb, ◌==◌, if◌then◌else◌,
}
use plugin_lab.Prelude.Int.{ℤ, pos, negsuc}

abbrev pub Text : Type 0
Text = List ℕ

-- juce::PluginDescription, as far as it is used.
pub record Description : Type 0 where
  pub name : Text
  pub file : Text
  pub modified : ℕ
  pub unique_id : ℕ

-- What is asked of JUCE and of the file system. `is_same` is PluginDescription::isDuplicateOf, by
-- which removeType finds what it removes; `index_of` is negative if nothing is found; `inner_times`
-- are the modification times of the .vst3 files in a directory; `add_to_list` is the list's own
-- addToBlacklist.
pub record Juce : Type 0 where
  pub is_equal : Text → Text → Bool
  pub starts_with : Text → Text → Bool
  pub contains : Text → Text → Bool
  pub contains_ignore_case : Text → Text → Bool
  pub index_of : Text → Text → ℤ
  pub is_same : Description → Description → Bool
  pub exists : Text → Bool
  pub is_directory : Text → Bool
  pub modification_time : Text → ℕ
  pub inner_times : Text → List ℕ
  pub add_to_list : Text → List Text → List Text

-- "\\Contents", "Contents", and the names that are never scanned or loaded.
abbrev pub inner_mark : Text
inner_mark = 92 ∷ 67 ∷ 111 ∷ 110 ∷ 116 ∷ 101 ∷ 110 ∷ 116 ∷ 115 ∷ []

abbrev pub contents : Text
contents = 67 ∷ 111 ∷ 110 ∷ 116 ∷ 101 ∷ 110 ∷ 116 ∷ 115 ∷ []

abbrev pianoteq : ℕ → Text
pianoteq digit = 80 ∷ 105 ∷ 97 ∷ 110 ∷ 111 ∷ 116 ∷ 101 ∷ 113 ∷ 32 ∷ digit ∷ []

abbrev pub killers : List Text
killers = pianoteq 57 ∷ pianoteq 56 ∷ pianoteq 55 ∷ []

-- What saveCache writes, and loadCache reads.
pub record Cache : Type 0 where
  pub version : ℕ
  pub types : List Description
  pub blacklist : List Text

abbrev pub cache_version : ℕ
cache_version = 1

abbrev pub max_scan_hangs : ℕ
max_scan_hangs = 3

-- One file that the scanner has enumerated: its name, its path if the names are mapped to it, what
-- scanNextFile does to the list of plugins, and whether there is more to scan after it, which there
-- is not after the last file or an exception.
pub record Entry : Type 0 where
  pub name : Text
  pub path : Option Text
  pub update : List Description → List Description
  pub goes_on : Bool

-- `scanned` lists the entries that have been handed to the scanner's scanNextFile, which loads them;
-- it is there for the theorems. `saved` is the cache file.
pub record Manager : Type 0 where
  pub types : List Description
  pub blacklist : List Text
  pub scan_running : Bool
  pub scan_aborted : Bool
  pub scan_hang_count : ℕ
  pub current_file : Text
  pub saved : Option Cache
  pub scanned : List Entry

module _ (j : Juce) where
  pub same_bundle_path : Text → Text → Bool
  same_bundle_path a b =
      j.is_equal a b || (j.starts_with a (b ++ inner_mark) || j.starts_with b (a ++ inner_mark))

  pub any : {A : Type 0} → (A → Bool) → List A → Bool
  any p [] = false
  any p (x ∷ xs) = p x || any p xs

  pub is_blacklisted_name : Text → Bool
  unfolding any
  is_blacklisted_name name = any (j.contains_ignore_case name) killers

  pub is_blacklisted_path : List Text → Text → Bool
  unfolding any same_bundle_path
  is_blacklisted_path blacklist file = any (λ b. same_bundle_path b file) blacklist

  -- The path up to the first "\\Contents", unless it begins with it.
  abbrev pub key_at : Text → ℤ → Text
  key_at file (pos (suc i)) = take (suc i) file
  key_at file _ = file

  pub bundle_key : Text → Text
  bundle_key file = key_at file (j.index_of file inner_mark)

  pub remove_type : Description → List Description → List Description
  remove_type d = filter (λ e. not (j.is_same e d))

  -- cacheIsCurrent: the first entry of the same path decides.
  pub is_fresh : Description → Bool
  unfolding any
  is_fresh d =
      j.modification_time d.file == d.modified
      || (j.is_directory d.file && any (λ t. t == d.modified) (j.inner_times d.file))

  pub cache_is_current : List Description → Text → Bool
  unfolding is_fresh
  cache_is_current [] file = false
  cache_is_current (d ∷ ds) file =
      let rest = cache_is_current ds file in
      if j.is_equal d.file file || j.starts_with d.file (file ++ inner_mark)
      then is_fresh d
      else rest

  -- dedupeKnownPlugins
  abbrev pub is_inner : Description → Bool
  is_inner d = j.contains d.file contents

  pub has_key : Text → List Text → Bool
  unfolding any
  has_key key keys = any (j.is_equal key) keys

  pub inner_keys : List Description → List Text
  unfolding bundle_key
  inner_keys ds = map (λ d. bundle_key d.file) (filter is_inner ds)

  -- Is the entry dropped, where these keys are kept already and these belong to inner entries.
  pub is_dropped : List Text → List Text → Description → Bool
  unfolding has_key bundle_key
  is_dropped inner kept d =
      has_key (bundle_key d.file) kept || (not (is_inner d) && has_key (bundle_key d.file) inner)

  -- The second loop, over the copy that getTypes has made.
  pub dedupe_loop : List Text → List Text → List Description → List Description → List Description
  unfolding is_dropped remove_type
  dedupe_loop inner kept [] types = types
  dedupe_loop inner kept (d ∷ ds) types =
      let removed = dedupe_loop inner kept ds (remove_type d types) in
      let left = dedupe_loop inner (kept ++ (bundle_key d.file ∷ [])) ds types in
      if is_dropped inner kept d then removed else left

  pub dedupe : List Description → List Description
  unfolding dedupe_loop inner_keys
  dedupe types = dedupe_loop (inner_keys types) [] types types

  -- pruneKnownPlugins
  pub prune_loop : List Description → List Description → List Description
  unfolding remove_type is_blacklisted_name
  prune_loop [] types = types
  prune_loop (d ∷ ds) types =
      let removed = prune_loop ds (remove_type d types) in
      let left = prune_loop ds types in
      if not (j.exists d.file) || is_blacklisted_name d.name then removed else left

  pub prune : List Description → List Description
  unfolding prune_loop
  prune types = prune_loop types types

  -- loadCache, of what the file gives if it is a well-formed list.
  pub load_cache : Manager → Manager × Bool
  unfolding dedupe prune
  load_cache m = elim m.saved [
    | none ↦ (m, false)
    | some cache ↦
        if cache.version == cache_version
        then (record m { types = prune (dedupe cache.types); blacklist = cache.blacklist }, true)
        else (m, false)
  ]

  -- saveCache; `ok`: the file has been replaced.
  pub save_cache : Manager → Bool → Manager
  save_cache m ok =
      if ok
      then record m {
        saved = some (record { version = cache_version; types = m.types; blacklist = m.blacklist });
      }
      else m

  pub add_to_blacklist : Text → Manager → Manager
  add_to_blacklist file m = record m { blacklist = j.add_to_list file m.blacklist }

  -- The watchdog's handleScanHang, and whether the limit is reached.
  pub handle_scan_hang : Manager → Bool → Manager × Bool
  unfolding add_to_blacklist save_cache bundle_key
  handle_scan_hang m ok =
      let aborted = record m { scan_aborted = true; scan_hang_count = suc m.scan_hang_count } in
      (
        (if j.is_equal m.current_file []
            then aborted
            else save_cache (add_to_blacklist (bundle_key m.current_file) aborted) ok),
        leb max_scan_hangs (suc m.scan_hang_count),
      )

  pub is_skipped : Manager → Entry → Bool
  unfolding is_blacklisted_name is_blacklisted_path cache_is_current
  is_skipped m e = is_blacklisted_name e.name || elim e.path [
    | none ↦ false
    | some path ↦ is_blacklisted_path m.blacklist path || cache_is_current m.types path
  ]

  abbrev pub path_of : Entry → Text
  path_of e = elim e.path [ none ↦ [] | some path ↦ path ]

  -- updateScanProgress
  pub update_progress : Manager → Text → Manager
  update_progress m file = if m.scan_aborted then m else record m { current_file = file }

  -- The loop of scanDirectory.
  pub scan_loop : List Entry → Manager → Manager
  unfolding is_skipped update_progress
  scan_loop [] m = update_progress m []
  scan_loop (e ∷ es) m =
      let m1 = update_progress m (path_of e) in
      let skipped = scan_loop es m1 in
      let m2 = record m1 { scanned = m1.scanned ++ (e ∷ []); types = e.update m1.types } in
      let rest = scan_loop es m2 in
      if is_skipped m1 e then skipped else (if e.goes_on then rest else m2)

  -- blacklistUnregistered, over the .vst3 entries of a directory.
  pub blacklist_loop : List Text → Manager → Manager × ℕ
  unfolding any same_bundle_path is_blacklisted_path add_to_blacklist
  blacklist_loop [] m = (m, 0)
  blacklist_loop (key ∷ keys) m =
      let known = any (λ d. same_bundle_path d.file key) m.types in
      let next = blacklist_loop keys m in
      let (m1, added) = blacklist_loop keys (add_to_blacklist key m) in
      if known || is_blacklisted_path m.blacklist key then next else (m1, suc added)

  pub blacklist_unregistered : List Text → Bool → Manager → Manager × ℕ
  unfolding blacklist_loop save_cache
  blacklist_unregistered keys ok m =
      let (m1, added) = blacklist_loop keys m in
      (if added == 0 then m1 else save_cache m1 ok, added)

  pub begin_scan : Manager → Manager
  begin_scan m = record m { scan_running = true; scan_aborted = false; current_file = [] }

  -- One directory: what is found in it by the scanner, and its .vst3 entries.
  pub record Directory : Type 0 where
    pub is_present : Bool
    pub entries : List Entry
    pub vst3_files : List Text

  pub scan_directory : Directory → Manager → Manager
  unfolding scan_loop
  scan_directory dir m = if dir.is_present then scan_loop dir.entries m else m

  pub blacklist_directory : Directory → Manager → Manager
  unfolding blacklist_unregistered
  blacklist_directory dir m =
      if dir.is_present then (blacklist_unregistered dir.vst3_files true m).0 else m

  -- scanSystemDirectories, where the cache can be replaced and nothing else throws.
  pub scan_system_directories : Directory → Directory → Manager → Manager
  unfolding begin_scan load_cache scan_directory blacklist_directory dedupe save_cache
  scan_system_directories system local m =
      let m0 = begin_scan m in
      let (m1, loaded) = load_cache m0 in
      let m2 = if loaded then m1 else record m1 { types = [] } in
      let m3 = scan_directory local (scan_directory system m2) in
      let m4 = blacklist_directory local (blacklist_directory system m3) in
      let m5 = save_cache (record m4 { types = dedupe m4.types }) true in
      record m5 { scan_running = false }

  -- How the creation of a plugin ends within the timeout.
  pub data Creation : Type 0 where
    timed_out failed created : Creation

  -- loadPlugin, and whether there is a plugin.
  pub load_plugin : Description → Creation → Bool → Manager → Manager × Bool
  unfolding is_blacklisted_name add_to_blacklist save_cache bundle_key
  load_plugin desc creation ok m =
      if is_blacklisted_name desc.name then (m, false) else elim creation [
        | timed_out ↦ (save_cache (add_to_blacklist (bundle_key desc.file) m) ok, false)
        | failed ↦ (m, false)
        | created ↦ (m, true)
      ]
