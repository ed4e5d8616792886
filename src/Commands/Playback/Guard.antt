-- ===== src/Commands/Playback/Guard.antt =====
-- What playTimeline checks before it plays.
use mathlib.Core.Path.{subst}
use plugin_lab.Prelude.{
  Bool, suc, not, true, false, ◌||◌, String, List, Option, none, some, inl, inr, ◌≡◌, ◌⊎◌, refl, ap,
  All, if◌then◌else◌,
}
use plugin_lab.Host.{Host}
use plugin_lab.Timeline.{TimelineEvent, is_recording}
use plugin_lab.Commands.Action.{Result, ok, err, pure, need, ◌>>=◌, ◌>>◌}
use plugin_lab.Commands.Desk.{Json, Desk, Config, Parser}
use plugin_lab.Commands.Measure.{Answer, after_run, write_export}
use plugin_lab.Session.{frequency_response, signal}
use plugin_lab.Commands.Keeps.{Refuses, bind-Refuses-first}
use plugin_lab.Commands.Steps.{bind-intro, modify-intro, step-intro, refuse-intro, gets-intro}
use plugin_lab.Commands.Playback.{run_playback, check_play, play_timeline}

module _ (j : Json) (h : Host) (d : Desk j h) where
  open j use {Real}

  -- A finite number from 0 to 1.
  abbrev IsUnit : Real → Type 0
  IsUnit v =
      (j.is_finite v ≡ true)
      × ((j.is_less v (j.decimal "0.0") || j.is_less (j.decimal "1.0") v) ≡ false)

  abbrev IsNormalized : TimelineEvent h.Value → Type 0
  IsNormalized e = (v : Real) × ((e.value_normalized ≡ d.value_of v) × IsUnit v)

  -- A result that is missing, or has a property.
  abbrev IsNoneOr : {A : Type 0} → (A → Type 0) → Option A → Type 0
  IsNoneOr P none = Unit
  IsNoneOr P (some a) = P a

  -- A property of an optional value that says nothing of none.
  abbrev IsNoneOr-some :
      {A : Type 0} (P : A → Type 0) {o : Option A} {a : A} → o ≡ some a → IsNoneOr P o → P a
  IsNoneOr-some P e p = subst (IsNoneOr P) e p

  -- The checks have refused or passed, and have changed nothing; when they pass, no recording is going
  -- on, and the events have values from 0 to 1.
  pub data IsChecked (s : Parser j h d)
      : Result (List (TimelineEvent h.Value) × (Real × String)) × Parser j h d → Type 0 where
    refused : (e : String) → IsChecked s (err e, s)
    passed :
        (events : List (TimelineEvent h.Value)) (rate : Real) (path : String) (settings : Config j)
        (plugin : h.Plugin)
        → s.session ≡ some settings
        → s.plugin ≡ some plugin
        → is_recording s.timeline ≡ false
        → All IsNormalized events
        → IsChecked s (ok (events, (rate, path)), s)

  -- The settings that playTimeline makes.
  abbrev play_settings : Config j → Config j
  play_settings c = record c {
    kind = frequency_response;
    source = signal;
    freq_excitation_mls = false;
  }

  -- Those events were played at that rate: the plugin is the one that the playback has left, which is
  -- one measurement more; and a playback that fails is an error.
  pub record IsPlayed (s : Parser j h d) (settings : Config j) (plugin : h.Plugin)
      (events : List (TimelineEvent h.Value)) (rate : Real) (out : Result Answer × Parser j h d)
      : Type 0 where
    pub plugin_after :
        out.1.plugin ≡ some (d.run_playback (play_settings settings) events rate plugin s.world).1.0
    pub one_run : out.1.host_runs ≡ suc s.host_runs
    pub failure :
        (d.run_playback (play_settings settings) events rate plugin s.world).1.1 ≡ false
        → out.0 ≡ err "measurement failed"

  -- Events with a rate and a path, which the checks have let pass, and which were then played.
  pub record Plays (obj : j.Object) (s : Parser j h d) : Type 0 where
    pub events : List (TimelineEvent h.Value)
    pub rate : Real
    pub path : String
    pub are_checked : check_play j h d obj s ≡ (ok (events, (rate, path)), s)
    pub settings : Config j
    pub plugin : h.Plugin
    pub had_session : s.session ≡ some settings
    pub had_plugin : s.plugin ≡ some plugin
    pub is_played : IsPlayed s settings plugin events rate (play_timeline j h d obj s)
    pub not_recording : is_recording s.timeline ≡ false
    pub are_normalized : All IsNormalized events

  run_playback_lem :
      (events : List (TimelineEvent h.Value)) (rate : Real) (s : Parser j h d) (c : Config j)
      (p : h.Plugin)
      → s.session ≡ some c
      → s.plugin ≡ some p
      → let (w, (q, good)) = d.run_playback c events rate p s.world in
        run_playback j h d events rate s ≡ (ok good, after_run j h d q w s)
  unfolding run_playback
  run_playback_lem events rate s c p session loaded =
      let (w, (q, good)) = d.run_playback c events rate p s.world in
      let P : Result Bool × Parser j h d → Type 0 = λ o. o ≡ (ok good, after_run j h d q w s) in
      bind-intro P _ _ s s c
        (ap {B = Result (Config j) × Parser j h d} (λ o. need "no session or plugin" o s) session)
        (bind-intro P _ _ s s p
          (ap {B = Result h.Plugin × Parser j h d} (λ o. need "no session or plugin" o s) loaded)
          refl)

  -- Writing the answer leaves the plugin and the number of runs.
  write_export_end :
      (P : Result Answer × Parser j h d → Type 0) (path json : String) (s : Parser j h d)
      → ((r : Result Answer) (w : d.World) → P (r, record s { world = w }))
      → P ((write_export j h d path json >> pure path) s)
  unfolding write_export ◌>>=◌
  write_export_end P path json s all =
      let (w, good) = d.write_file path json s.world in
      elim good
        as (λ b.
          P
            (elim (if not b then err "export write failed" else ok tt)
              as (λ _. Result Answer × Parser j h d) [
                | ok a ↦ (ok path, record s { world = w })
                | err e ↦ (err e, record s { world = w })
              ])) [ true ↦ all (ok path) w | false ↦ all (err "export write failed") w ]

  play_timeline-IsPlayed :
      (obj : j.Object) (s : Parser j h d) (events : List (TimelineEvent h.Value)) (rate : Real)
      (path : String) (c : Config j) (p : h.Plugin)
      → check_play j h d obj s ≡ (ok (events, (rate, path)), s)
      → s.session ≡ some c
      → s.plugin ≡ some p
      → IsPlayed s c p events rate (play_timeline j h d obj s)
  unfolding play_timeline after_run write_export
  play_timeline-IsPlayed obj s events rate path c p same session loaded =
      let P : Result Answer × Parser j h d → Type 0 = IsPlayed s c p events rate in
      let configured : Parser j h d = record s {
        session = elim s.session [ none ↦ none | some c ↦ some (play_settings c) ];
      } in
      let (w, (q, good)) = d.run_playback (play_settings c) events rate p s.world in
      let next = after_run j h d q w configured in
      bind-intro P (check_play j h d obj) _ s s (events, (rate, path)) same
        (modify-intro P _ _ s (
          bind-intro P (run_playback j h d events rate) _ configured next good
            (run_playback_lem events rate configured (play_settings c) p (rw session refl) loaded)
            (refuse-intro P _ (not good) _ next
              (λ e. record { plugin_after = refl; one_run = refl; failure = λ _. refl })
              (λ e. step-intro P _ _ next (
                refuse-intro P _ _ _ _
                  (λ _. record { plugin_after = refl; one_run = refl; failure = λ bad. cc })
                  (λ _. gets-intro P _ _ _ (
                    write_export_end P _ _ _ (λ _ _. record {
                      plugin_after = refl;
                      one_run = refl;
                      failure = λ bad. cc;
                    }))))))))

  guarded :
      (obj : j.Object) (s : Parser j h d)
      (out : Result (List (TimelineEvent h.Value) × (Real × String)) × Parser j h d)
      → IsChecked s out
      → check_play j h d obj s ≡ out
      → Refuses (λ s. s) (play_timeline j h d obj) s ⊎ Plays obj s
  unfolding play_timeline
  guarded obj s _ (refused e) same = inl (
      bind-Refuses-first _
        (record { error = e; is_error = ap (λ o. o.0) same; same = ap (λ o. o.1) same }))
  guarded obj s _ (passed events rate path c p session loaded quiet all) same = inr (record {
    events = events;
    rate = rate;
    path = path;
    are_checked = same;
    settings = c;
    plugin = p;
    had_session = session;
    had_plugin = loaded;
    is_played = play_timeline-IsPlayed obj s events rate path c p same session loaded;
    not_recording = quiet;
    are_normalized = all;
  })
