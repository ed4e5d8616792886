-- ===== src/Session/Tests.antt =====
-- Runs of source/capture/MeasurementSession.cpp on a plugin with two parameters.
use mathlib.Core.List.{Memᴰ}
use plugin_lab.Prelude.{ℕ, ◌≡◌, refl, true, false, List, [], ◌∷◌, none, some}
use plugin_lab.Prelude.Int.{pos}
use plugin_lab.Prelude.Sort.{stable_sort, insert}
use plugin_lab.Host.{find_param, find_from}
use plugin_lab.Host.Knobs.{get_at, two_knobs}
use plugin_lab.Host.Knobs.{two_knobs-IsHost}
use plugin_lab.Timeline.{TimelineEvent, Rates, set_playback}
use plugin_lab.Session.{Session, Block, frequency_response, signal, set_timeline_playback, run}
use plugin_lab.Session.Restore.Playing.{run-restores_played}

abbrev whole_rates : Rates
whole_rates = record { Rate = ℕ; is_positive = λ _. false; rounded_quotient = λ t _. t }

abbrev mix_event : TimelineEvent ℕ
mix_event = record { time_ms = pos 20; param_id = "mix"; value_normalized = 7 }

abbrev given : List (TimelineEvent ℕ)
given = mix_event ∷ record { time_ms = pos 10; param_id = "gain"; value_normalized = 8 } ∷ []

abbrev ready : Session two_knobs
ready = record {
  plugin = some (5, 6);
  kind = frequency_response;
  source = signal;
  freq_excitation_mls = false;
  timeline = record {
    recorded_plugin = none;
    attached = none;
    record_start_ms = 0;
    recorded_events = [];
    playback_events = [];
    playback_cursor = 0;
  };
  timeline_active = false;
  timeline_restore = [];
}

abbrev late_block : Block two_knobs
late_block = record { process = λ p. p; elapsed_ms = pos 30 }

run-restores_played_example :
    (q : ℕ × ℕ) × (((run two_knobs
          (set_timeline_playback two_knobs whole_rates given 1 ready)
          true
          (late_block ∷ [])
          false).0.plugin
        ≡ some q)
      × (get_at q 1 ≡ 6))
unfolding set_playback stable_sort insert find_param find_from
run-restores_played_example =
    run-restores_played two_knobs two_knobs-IsHost (5, 6) whole_rates given 1 ready true
      (late_block ∷ []) false mix_event 1 refl ((λ p. refl), tt) (Memᴰ.tail (Memᴰ.head refl)) refl
