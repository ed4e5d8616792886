-- ===== src/Capture/Memory.antt =====
-- Which samples of source/capture/AudioBuffer.cpp are in memory, and which of them in the file.
pub mod Append
use mathlib.Core.List.{append-nil, append_assoc, map-append}
use plugin_lab.Prelude.{
  ℕ, zero, suc, ◌+◌, ◌-◌, ◌≤◌, ◌<◌, ◌≡◌, refl, sym, ap, ◌∙◌, Bool, true, false, not, ◌||◌, ◌&&◌,
  List, [], ◌∷◌, ◌++◌, map, none, some, length, length-append, take, drop, take-append-drop,
  take-length, leb, ltb, ◌==◌, arith, if◌then◌else◌, if-intro,
}
use plugin_lab.Wav.Writer.{Frame, RateFields, wav_header, data_bytes}
use plugin_lab.Capture.Stream.{Disk}
use plugin_lab.Capture.{
  Samples, Block, Capture, moments, cleared, pcm_of, patch_header, open_stream, add_frames,
  flush_frames, flush, grow, append,
}

module _ (d : Disk) (v : Samples) where
  -- Since the last clear, `acc` has been recorded. The mirror is the samples up to the last flush, and
  -- the file has not been opened before the first.
  pub record IsLog (s : Capture d v) (acc : List (Frame v.Sample)) : Type 0 where
    pub frames_eq : s.frames ≡ acc
    pub total_eq : s.total_samples ≡ length acc
    pub flushed_le : s.last_flushed ≤ s.total_samples
    pub opened :
        s.flush_failed ≡ false
        → s.stream_open ≡ true
        → (rate : RateFields) × (s.mirror ≡ some (rate, map (pcm_of d v) (take s.last_flushed acc)))
    pub unopened : s.flush_failed ≡ false → s.stream_open ≡ false → s.last_flushed ≡ 0

  -- What the file has, and the frames that come behind it.
  whole_log :
      (s : Capture d v) (acc : List (Frame v.Sample))
      → IsLog s acc
      → map (pcm_of d v) (take s.last_flushed acc)
          ++ map (pcm_of d v) (drop s.last_flushed s.frames)
        ≡ map (pcm_of d v) (take s.total_samples acc)
  whole_log s acc h =
      ap
        (λ fs.
          map (pcm_of d v) (take s.last_flushed acc) ++ map (pcm_of d v) (drop s.last_flushed fs))
        h.frames_eq
      ∙ sym (map-append (pcm_of d v) (take s.last_flushed acc) (drop s.last_flushed acc))
      ∙ ap (map (pcm_of d v)) (take-append-drop s.last_flushed acc)
      ∙ sym (ap (map (pcm_of d v)) (take-length s.total_samples acc h.total_eq))

  flush_frames-IsLog :
      (s : Capture d v) (acc : List (Frame v.Sample))
      → s.stream_open ≡ true
      → IsLog s acc
      → IsLog (flush_frames d v s) acc
        × ((flush_frames d v s).flush_failed ≡ false
            → (flush_frames d v s).last_flushed ≡ s.total_samples)
  unfolding flush_frames
  flush_frames-IsLog s acc on h =
      let fs = map (pcm_of d v) (drop s.last_flushed s.frames) in
      let size = s.wav_data_bytes + length (data_bytes fs) in
      let (w1, ok) = d.write (data_bytes fs) s.disk in
      let (w2, patched) = patch_header d v size w1 in
      let Flushed : Capture d v → Type 0 =
        λ t. IsLog t acc × (t.flush_failed ≡ false → t.last_flushed ≡ s.total_samples) in
      if-intro Flushed ok
        (record s {
          wav_data_bytes = size;
          last_flushed = s.total_samples;
          disk = d.flush w2;
          flush_failed = s.flush_failed || not patched;
          mirror = add_frames d v s.mirror fs;
        })
        (record s { disk = w1; flush_failed = true })
        (λ yes. (
          record {
            frames_eq = h.frames_eq;
            total_eq = h.total_eq;
            flushed_le = omega arith;
            opened = λ unset on'.
                let before : s.flush_failed ≡ false = ground (arith, unset) in
                let (rate, e) = h.opened before on in
                (
                  rate,
                  ap (λ m. add_frames d v m fs) e ∙ ap (λ gs. some (rate, gs)) (whole_log s acc h),
                );
            unopened = λ unset off. cc (on, off);
          },
          λ unset. refl,
        ))
        (λ no. (
          record {
            frames_eq = h.frames_eq;
            total_eq = h.total_eq;
            flushed_le = h.flushed_le;
            opened = λ unset. cc;
            unopened = λ unset. cc;
          },
          λ unset. cc,
        ))

  open_stream-IsLog :
      (s : Capture d v) (acc : List (Frame v.Sample))
      → s.flush_failed ≡ false
      → IsLog s acc
      → let (s1, ok) = open_stream d v s in
        IsLog s1 acc
        × (s1.total_samples ≡ s.total_samples)
        × (ok ≡ true → s1.stream_open ≡ true)
        × (ok ≡ false → s1.flush_failed ≡ true)
  unfolding open_stream
  open_stream-IsLog s acc clean h =
      let (w, ok) = d.open_file (d.delete_file s.disk) in
      let (w1, headed) = d.write (wav_header s.num_channels s.rate 0) w in
      let Opened : Capture d v × Bool → Type 0 = λ x.
        IsLog x.0 acc
        × (x.0.total_samples ≡ s.total_samples)
        × (x.1 ≡ true → x.0.stream_open ≡ true)
        × (x.1 ≡ false → x.0.flush_failed ≡ true) in
      let fresh : Capture d v × Bool = (
        record s {
          disk = w1;
          flush_failed = s.flush_failed || not headed;
          stream_open = true;
          wav_data_bytes = 0;
          mirror = some (s.rate, []);
        },
        true,
      ) in
      let lost : Capture d v × Bool =
        (record s { disk = w; flush_failed = true; mirror = none }, false) in
      if-intro Opened s.stream_open (s, true) (if ok then fresh else lost)
        (λ on. (h, refl, λ e. on, λ e. cc e))
        (λ off.
          if-intro Opened ok fresh lost
            (λ yes. (
              record {
                frames_eq = h.frames_eq;
                total_eq = h.total_eq;
                flushed_le = h.flushed_le;
                opened = λ unset on. (
                  s.rate,
                  ap (λ k. some (s.rate, map (pcm_of d v) (take k acc)))
                      (sym (h.unopened clean off)),
                );
                unopened = λ unset e. cc e;
              },
              refl,
              λ e. refl,
              λ e. cc e,
            ))
            (λ no. (
              record {
                frames_eq = h.frames_eq;
                total_eq = h.total_eq;
                flushed_le = h.flushed_le;
                opened = λ unset. cc;
                unopened = λ unset. cc;
              },
              refl,
              λ e. cc e,
              λ e. refl,
            )))

  -- With flushing enabled, a flush that does not fail leaves nothing to flush.
  pub flush-IsLog :
      (s : Capture d v) (acc : List (Frame v.Sample))
      → IsLog s acc
      → let out = flush d v s in
        IsLog out acc
        × (s.flush_enabled ≡ true → out.flush_failed ≡ false → out.last_flushed ≡ length acc)
  unfolding flush
  flush-IsLog s acc h =
      let (opened, ok) = open_stream d v s in
      let Flushed : Capture d v → Type 0 = λ t.
        IsLog t acc
        × (s.flush_enabled ≡ true → t.flush_failed ≡ false → t.last_flushed ≡ length acc) in
      if-intro Flushed (not s.flush_enabled || s.flush_failed) s _
        (λ e. (h, λ on clean. ground (arith, e, on, clean)))
        (λ e.
          let clean : s.flush_failed ≡ false = ground (arith, e) in
          let (h1, same, on, failed) = open_stream-IsLog s acc clean h in
          if-intro Flushed (leb s.total_samples s.last_flushed) s _
            (λ none_new. (h, λ enabled unset. ground (arith, none_new, h.flushed_le, h.total_eq)))
            (λ some_new.
              if-intro Flushed ok (flush_frames d v opened) opened
                (λ yes.
                  let (h2, all) = flush_frames-IsLog opened acc (on yes) h1 in
                  (h2, λ enabled unset. all unset ∙ same ∙ h.total_eq))
                (λ no. (h1, λ enabled unset. cc (failed no, unset)))))

  -- What append and flush leave alone.
  abbrev pub settings : Capture d v → ℕ × ℕ × Bool × ℕ
  settings s = (s.num_channels, s.capacity, s.flush_enabled, s.flush_interval)

  pub settings-flush : (s : Capture d v) → settings (flush d v s) ≡ settings s
  unfolding flush flush_frames open_stream
  settings-flush s =
      let (opened, ok) = open_stream d v s in
      let Same : Capture d v → Type 0 = λ t. settings t ≡ settings s in
      let SameOf : Capture d v × Bool → Type 0 = λ x. settings x.0 ≡ settings s in
      let same : Same opened =
        if-intro SameOf s.stream_open _ _ (λ e. refl)
          (λ e.
            if-intro SameOf (d.open_file (d.delete_file s.disk)).1 _ _ (λ e'. refl) (λ e'. refl)) in
      if-intro Same (not s.flush_enabled || s.flush_failed) s _ (λ e. refl)
        (λ e.
          if-intro Same (leb s.total_samples s.last_flushed) s _ (λ e'. refl)
            (λ e'.
              if-intro Same ok (flush_frames d v opened) opened
                (λ yes. if-intro Same _ _ _ (λ e''. same) (λ e''. same)) (λ no. same)))
