-- ===== src/Commands/Dataset/Contents.antt =====
-- What a dataset holds that the command has written.
use mathlib.Core.List.{Memᴰ}
use plugin_lab.Prelude.{true, false, ◌&&◌, List, [], Option, some, ◌≡◌, none, if◌then◌else◌}
use plugin_lab.Host.{Host}
use plugin_lab.Session.{Kind, gr_timeline, dynamic, signal}
use plugin_lab.Commands.Action.{Result, ok}
use plugin_lab.Commands.Desk.{Json, Config, Desk, Parser}
use plugin_lab.Commands.Measure.{is_none, is_empty}
use plugin_lab.Commands.Fields.{wav_path_for}
use plugin_lab.Commands.Dataset.Sweeps.{IsScan, IsFamily}
use plugin_lab.Commands.Dataset.{
  run_scan_block, run_family_block, dataset_excitation, mls_of, Battery, succeeded, Report,
  report_of, requested_types,
}
use plugin_lab.Commands.Dataset.Battery.{Runs}

module _ (j : Json) (h : Host) (d : Desk j h) (obj : j.Object) where
  -- The state in which the battery begins.
  abbrev begun : Parser j h d → Parser j h d
  begun s =
      let path = j.to_text (j.get obj "path") in
      let use_mls = mls_of (dataset_excitation j h d obj) in
      record s {
        session = elim s.session [
          | none ↦ none
          | some c ↦
              some
                (record c { freq_excitation_mls = use_mls; flush_path = wav_path_for j h d path })
        ];
      }

  -- From state to state: the battery, the scan behind it and the family behind that have run, of which
  -- some part was measured. The report says of each type whether it succeeded, only requested types
  -- have, a scan or a family is whole, and the file holds these results with the context of the last
  -- state.
  pub record IsDataset (s : Parser j h d) (report : Report) (t : Parser j h d) : Type 0 where
    pub kinds : List Kind
    pub battery : Battery j h d
    pub scan : Option d.Sweep
    pub family : Option d.Sweep
    pub after_battery : Parser j h d
    pub after_scan : Parser j h d
    pub after_family : Parser j h d
    pub settings : Config j
    pub plugin : h.Plugin
    pub are_requested : requested_types j h d obj ≡ some kinds
    pub ran_battery :
        Runs j h d obj (dataset_excitation j h d obj) kinds [] (begun s) battery after_battery
    pub ran_scan : run_scan_block j h d obj after_battery ≡ (ok scan, after_scan)
    pub ran_family : run_family_block j h d obj after_scan ≡ (ok family, after_family)
    pub scan_is_whole : (sweep : d.Sweep) → scan ≡ some sweep → IsScan j h d after_battery sweep
    pub family_is_whole : (sweep : d.Sweep) → family ≡ some sweep → IsFamily j h d after_scan sweep
    pub has_part : (is_empty battery && (is_none scan && is_none family)) ≡ false
    pub is_requested : (k : Kind) → succeeded j h d k battery ≡ true → Memᴰ k kinds
    pub is_report : report ≡ report_of j h d battery scan family
    pub had_session : after_family.session ≡ some settings
    pub had_plugin : after_family.plugin ≡ some plugin
    pub is_written :
        let source = if succeeded j h d gr_timeline battery then dynamic else signal in
        let path = j.to_text (j.get obj "path") in
        d.write_file path
          (d.dataset_json battery scan family
            (d.context_of plugin settings source after_family.world))
          (d.create_parent path after_family.world)
        ≡ (t.world, true)

  abbrev Answers : Parser j h d → Result Report × Parser j h d → Type 0
  Answers s out = (report : Report) → out.0 ≡ ok report → IsDataset s report out.1
