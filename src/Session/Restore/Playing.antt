-- ===== src/Session/Restore/Playing.antt =====
-- The runs of source/capture/MeasurementSession.cpp that play a timeline.
use mathlib.Core.Path.{subst}
use mathlib.Core.List.{Memᴰ}
use plugin_lab.Prelude.{
  ℕ, ◌≡◌, refl, sym, ap, ◌∙◌, Bool, true, false, String, List, [], ◌∷◌, Option, none, some, inl,
  inr, if-intro, Option-cases, Bool-cases, All, drop,
}
use plugin_lab.Prelude.Int.{ℤ, leb_ℤ}
use plugin_lab.Host.{Host, IsHost, find_param}
use plugin_lab.Timeline.{
  TimelineEvent, Rates, set_playback, play as play_event, apply_loop, apply_events_up_to,
}
use plugin_lab.Session.{
  Session, Block, Play, Generator, make_generator, contains, snapshot_loop, set_timeline_playback,
  restore_loop, processed, play_block, play_blocks, restored, play, run,
}
use plugin_lab.Session.Restore.{
  KeepsParameters, IsFrom, Hit, snapshot_loop-IsFrom, snapshot_loop-Hit, restore_loop-restores,
  IsLike,
}

module _ (h : Host) (laws : IsHost h) (p0 : h.Plugin) where
  play_event-IsLike :
      (p : h.Plugin) (e : TimelineEvent h.Value)
      → h.parameters p ≡ h.parameters p0
      → IsLike h laws p0 (play_event h (some p) e).1
  unfolding play_event
  play_event-IsLike p e same = elim (Option-cases (find_param (h.parameters p) e.param_id)) [
    | inl missing ↦ rw (play_event, missing) (p, (refl, same))
    | inr (i, at) ↦
        rw (play_event, at)
          (
            h.set_value p i e.value_normalized,
            (refl, laws.parameters-set_value p i e.value_normalized ∙ same),
          )
  ]

  apply_loop-IsLike :
      (now : ℤ) (o : Option h.Plugin) (es : List (TimelineEvent h.Value))
      → IsLike h laws p0 o
      → IsLike h laws p0 (apply_loop h now o es).plugin
  unfolding apply_loop
  apply_loop-IsLike now o [] like = like
  apply_loop-IsLike now o (e ∷ es) (p, (eq, same)) = elim (Bool-cases (leb_ℤ e.time_ms now)) [
    | inl due ↦
        rw (apply_loop, due)
          (apply_loop-IsLike now (play_event h o e).1 es (
            subst (λ x. IsLike h laws p0 (play_event h x e).1) (sym eq)
              (play_event-IsLike p e same)))
    | inr early ↦ rw (apply_loop, early) (p, (eq, same))
  ]

  play_block-IsLike :
      (active : Bool) (block : Block h) (s : Play h)
      → KeepsParameters h block
      → IsLike h laws p0 s.plugin
      → IsLike h laws p0 (play_block h active block s).plugin
  unfolding play_block apply_events_up_to
  play_block-IsLike active block s keeps (p, (eq, same)) =
      let like : (IsLike h laws p0) (processed h block s.plugin) =
        subst (λ x. IsLike h laws p0 (processed h block x)) (sym eq)
          (block.process p, (refl, keeps p ∙ same)) in
      if-intro {A = Play h} (λ x. IsLike h laws p0 x.plugin) active _ _
        (λ _.
          apply_loop-IsLike block.elapsed_ms _
            (drop s.timeline.playback_cursor s.timeline.playback_events) like)
        (λ _. like)

  play_blocks-IsLike :
      (active : Bool) (blocks : List (Block h)) (s : Play h)
      → All (KeepsParameters h) blocks
      → IsLike h laws p0 s.plugin
      → IsLike h laws p0 (play_blocks h active blocks s).plugin
  unfolding play_blocks
  play_blocks-IsLike active [] s keeps like = like
  play_blocks-IsLike active (block ∷ blocks) s keeps like =
      play_blocks-IsLike active blocks (play_block h active block s) keeps.1
        (play_block-IsLike active block s keeps.0 like)

  play-restores :
      (s : Session h) (blocks : List (Block h)) (ok : Bool) (g : Option Generator) (k : ℕ)
      → s.plugin ≡ some p0
      → s.timeline_active ≡ true
      → All (KeepsParameters h) blocks
      → All (IsFrom h laws p0) s.timeline_restore
      → Hit h laws p0 s.timeline_restore k
      → (q : h.Plugin) × (((play h s blocks ok g).0.plugin ≡ some q)
          × (h.get_value q k ≡ h.get_value p0 k))
  unfolding play
  play-restores s blocks ok none k loaded active keeps from hit = (p0, (loaded, refl))
  play-restores s blocks ok (some g) k loaded active keeps from hit =
      let start : Play h = record { plugin = s.plugin; timeline = s.timeline; reported = [] } in
      let out = play_blocks h s.timeline_active blocks start in
      let (p, (eq, same)) =
        play_blocks-IsLike s.timeline_active blocks start keeps (p0, (loaded, refl)) in
      (
        restore_loop h s.timeline_restore p,
        (
          ap (λ a. restored h a s.timeline_restore out.plugin) active
              ∙ ap (restored h true s.timeline_restore) eq,
          restore_loop-restores h laws p0 s.timeline_restore p k from same (inl hit),
        ),
      )

  run-play :
      (s : Session h) (exists : Bool) (blocks : List (Block h)) (ok : Bool)
      → s.plugin ≡ some p0
      → run h s exists blocks ok
        ≡ play h s blocks ok (make_generator s.source s.kind s.freq_excitation_mls exists)
  unfolding run
  run-play s exists blocks ok loaded =
      ap
        (λ o. elim o as (λ _. Session h × Bool) [
          | none ↦ (record s { timeline_active = false }, false)
          | some _ ↦
              play h s blocks ok (make_generator s.source s.kind s.freq_excitation_mls exists)
        ])
        loaded

  -- For a plugin in which setting a parameter changes no other one, which reports a value that it has
  -- reported before again when it is set, and which keeps its list of parameters while it processes:
  -- after the run that plays a timeline, whether it succeeds, fails or is refused, each parameter that an
  -- event of the timeline names reports the value that it did when the timeline was set.
  pub run-restores_played :
      (r : Rates) (events : List (TimelineEvent h.Value)) (rate : r.Rate) (s : Session h)
      (exists : Bool) (blocks : List (Block h)) (ok : Bool) (e : TimelineEvent h.Value) (k : ℕ)
      → s.plugin ≡ some p0
      → All (KeepsParameters h) blocks
      → Memᴰ e (set_playback r s.timeline events rate).playback_events
      → find_param (h.parameters p0) e.param_id ≡ some k
      → (q : h.Plugin) × (((run h
              (set_timeline_playback h r events rate s)
              exists
              blocks
              ok).0.plugin
            ≡ some q)
          × (h.get_value q k ≡ h.get_value p0 k))
  unfolding set_timeline_playback contains
  run-restores_played r events rate s exists blocks ok e k loaded keeps m at =
      let s1 = set_timeline_playback h r events rate s in
      let es = (set_playback r s.timeline events rate).playback_events in
      let saved : s1.timeline_restore ≡ snapshot_loop h p0 [] es =
        ap
          (λ o. elim o as (λ _. List (String × h.Value)) [
            | none ↦ []
            | some p ↦ snapshot_loop h p [] es
          ])
          loaded in
      let hit : (Hit h laws p0) (snapshot_loop h p0 [] es) k =
        elim (snapshot_loop-Hit h laws p0 [] es e k m at) [
          | inl found_one ↦ found_one
          | inr seen ↦ absurd (cc seen)
        ] in
      subst (λ x. (q : h.Plugin) × ((x.0.plugin ≡ some q) × (h.get_value q k ≡ h.get_value p0 k)))
        (sym (run-play s1 exists blocks ok loaded))
        (play-restores s1 blocks ok _ k loaded refl keeps
          (subst (All (IsFrom h laws p0)) (sym saved) (snapshot_loop-IsFrom h laws p0 [] es))
          (subst (λ entries. Hit h laws p0 entries k) (sym saved) hit))
