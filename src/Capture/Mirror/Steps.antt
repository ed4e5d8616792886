-- ===== src/Capture/Mirror/Steps.antt =====
-- Every step of source/capture/AudioBuffer.cpp keeps the mirror file in step.
use mathlib.Core.List.{append_assoc, append-nil}
use plugin_lab.Prelude.{
  ℕ, ◌+◌, ◌≡◌, refl, sym, ap, ◌∙◌, Bool, true, false, not, ◌||◌, List, [], ◌∷◌, ◌++◌, map, Option,
  none, some, length, length-append, drop, leb, ltb, ◌==◌, arith, if◌then◌else◌, if-intro,
}
use plugin_lab.Prelude.Int.{ℤ}
use plugin_lab.Wav.Writer.{Frame, RateFields, wav_header, data_bytes, length-wav_header}
use plugin_lab.Capture.Stream.{Disk, IsDisk, overwrite}
use plugin_lab.Capture.{
  Samples, Block, Capture, pcm_of, patch_header, open_stream, add_frames, flush_frames, flush,
  finalise_wav, clear, grow, moments, append, trim, prepare, set_sample_rate, Call, appends, trims,
  clears, prepares, sets_rate, step, run,
}
use plugin_lab.Capture.Mirror.{
  overwrite_end, data_bytes-append, length-patched_header, patch_header-Holds, IsMirrored, IsGood,
  unfailed, closed, finalise_wav-IsGood, written,
}

module _ (d : Disk) (q : IsDisk d) (v : Samples) where
  written-IsMirrored :
      (s : Capture d v) (m : Option (RateFields × List (Frame ℤ)))
      → let fs = map (pcm_of d v) (drop s.last_flushed s.frames) in
        let (w1, ok) = d.write (data_bytes fs) s.disk in
        s.stream_open ≡ true
        → IsMirrored d q v s m
        → ok ≡ true
        → (patch_header d v (s.wav_data_bytes + length (data_bytes fs)) w1).1 ≡ true
        → IsMirrored d q v (written d q v s) (add_frames d v m fs)
  written-IsMirrored s none on h ok patched = h
  written-IsMirrored s (some (rate, gs)) on (holds, rest) ok patched =
      let fs = map (pcm_of d v) (drop s.last_flushed s.frames) in
      let (counted, there) = rest on in
      let n = s.num_channels in
      let size = s.wav_data_bytes + length (data_bytes fs) in
      let whole = length-patched_header n (length (data_bytes gs)) rate (data_bytes gs) in
      let end : q.position s.disk ≡ length (q.content s.disk) =
        there ∙ sym whole ∙ sym (ap length holds) in
      let w1 = (d.write (data_bytes fs) s.disk).0 in
      let grown : q.content w1
          ≡ wav_header n rate (length (data_bytes gs)) ++ data_bytes (gs ++ fs) =
        (q.content-write (data_bytes fs) s.disk (omega (arith, end)) ok).0
        ∙ overwrite_end (q.position s.disk) (data_bytes fs) (q.content s.disk) end
        ∙ ap (λ c. c ++ data_bytes fs) holds
        ∙ append_assoc (wav_header n rate (length (data_bytes gs))) (data_bytes gs) (data_bytes fs)
        ∙ ap (◌++◌ (wav_header n rate (length (data_bytes gs)))) (sym (data_bytes-append gs fs)) in
      let (held, stands) =
        patch_header-Holds d q v n (length (data_bytes gs)) size rate (data_bytes (gs ++ fs)) w1
          grown patched in
      let sized : size ≡ length (data_bytes (gs ++ fs)) = omega (
        arith,
        counted,
        ap length (data_bytes-append gs fs),
        length-append (data_bytes gs) (data_bytes fs),
      ) in
      let w2 = (patch_header d v size w1).0 in
      (
        (q.content-flush w2).0
            ∙ held
            ∙ ap (λ k. wav_header n rate k ++ data_bytes (gs ++ fs)) sized,
        λ e. (sized, (q.content-flush w2).1 ∙ stands ∙ ap (λ k. 44 + k) sized),
      )

  flush_frames-IsGood :
      (s : Capture d v) → s.stream_open ≡ true → IsGood d q v s → IsGood d q v (flush_frames d v s)
  unfolding flush_frames
  flush_frames-IsGood s on good =
      let fs = map (pcm_of d v) (drop s.last_flushed s.frames) in
      let (w1, ok) = d.write (data_bytes fs) s.disk in
      if-intro (IsGood d q v) ok (written d q v s) (record s { disk = w1; flush_failed = true })
        (λ wrote unset.
          let (before, patched) = unfailed d q v s.flush_failed _ unset in
          written-IsMirrored s s.mirror on (good before) wrote patched)
        (λ lost unset. cc unset)

  open_stream-IsGood :
      (s : Capture d v)
      → s.flush_failed ≡ false
      → IsGood d q v s
      → let (s1, ok) = open_stream d v s in IsGood d q v s1 × (ok ≡ true → s1.stream_open ≡ true)
  unfolding open_stream wav_header
  open_stream-IsGood s clean good =
      let (w, ok) = d.open_file (d.delete_file s.disk) in
      let header = wav_header s.num_channels s.rate 0 in
      let (w1, headed) = d.write header w in
      let Opened : Capture d v × Bool → Type 0 =
        λ x. IsGood d q v x.0 × (x.1 ≡ true → x.0.stream_open ≡ true) in
      let fresh : Capture d v × Bool = (
        record s {
          disk = w1;
          flush_failed = s.flush_failed || not headed;
          stream_open = true;
          wav_data_bytes = 0;
          mirror = some (s.rate, []);
        },
        true,
      ) in
      let lost : Capture d v × Bool =
        (record s { disk = w; flush_failed = true; mirror = none }, false) in
      if-intro Opened s.stream_open (s, true) (if ok then fresh else lost) (λ on. (good, λ e. on))
        (λ off.
          if-intro Opened ok fresh lost
            (λ opened. (
              λ unset.
                  let (before, wrote) = unfailed d q v s.flush_failed headed unset in
                  let (empty, start) = q.open_file-delete_file s.disk opened in
                  let (holds, stands) = q.content-write header w (omega (arith, start)) wrote in
                  (
                    holds
                        ∙ ap (λ p. overwrite p header (q.content w)) start
                        ∙ overwrite_end 0 header (q.content w) (sym (ap length empty))
                        ∙ ap (λ c. c ++ header) empty
                        ∙ sym (append-nil header),
                    λ e. (
                      refl,
                      stands
                          ∙ ap (λ p. p + length header) start
                          ∙ length-wav_header s.num_channels s.rate 0,
                    ),
                  ),
              λ e. refl,
            ))
            (λ closed_. (λ unset. cc, λ e. cc e)))

  flush-IsGood : (s : Capture d v) → IsGood d q v s → IsGood d q v (flush d v s)
  unfolding flush
  flush-IsGood s good =
      let (opened, ok) = open_stream d v s in
      if-intro (IsGood d q v) (not s.flush_enabled || s.flush_failed) s _ (λ e. good)
        (λ enabled.
          let clean : s.flush_failed ≡ false = ground (arith, enabled) in
          let (good1, on) = open_stream-IsGood s clean good in
          if-intro (IsGood d q v) (leb s.total_samples s.last_flushed) s _ (λ e. good)
            (λ e.
              if-intro (IsGood d q v) ok (flush_frames d v opened) opened
                (λ yes. flush_frames-IsGood opened (on yes) good1) (λ no. good1)))

  finalise_wav-closes : (s : Capture d v) → (finalise_wav d v s).stream_open ≡ false
  unfolding finalise_wav
  finalise_wav-closes s =
      if-intro (λ t. t.stream_open ≡ false) s.stream_open (closed d q v s) s (λ on. refl)
        (λ off. off)

  forgotten-IsMirrored :
      (s : Capture d v) (m : Option (RateFields × List (Frame ℤ)))
      → s.stream_open ≡ false
      → IsMirrored d q v s m
      → IsMirrored d q v (record s { wav_data_bytes = 0 }) m
  forgotten-IsMirrored s none off h = h
  forgotten-IsMirrored s (some (rate, fs)) off h = (h.0, λ on. cc)

  clear-IsGood : (s : Capture d v) → IsGood d q v s → IsGood d q v (clear d v s)
  unfolding clear
  clear-IsGood s good unset =
      let s1 = finalise_wav d v (flush d v s) in
      let good1 = finalise_wav-IsGood d q v (flush d v s) (flush-IsGood s good) in
      let off = finalise_wav-closes (flush d v s) in
      if-intro (IsMirrored d q v (record s1 { wav_data_bytes = 0 })) s1.flush_failed none s1.mirror
        (λ failed. off) (λ clean. forgotten-IsMirrored s1 s1.mirror off (good1 clean))

  pub trim-IsGood : (s : Capture d v) → IsGood d q v s → IsGood d q v (trim d v s)
  unfolding trim
  trim-IsGood s good = finalise_wav-IsGood d q v (flush d v s) (flush-IsGood s good)

  grow-IsGood :
      (s : Capture d v) (required : ℕ) → IsGood d q v s → IsGood d q v (grow d v s required)
  unfolding grow
  grow-IsGood s required good =
      if-intro (IsGood d q v) (ltb s.capacity required) _ s (λ e. good) (λ e. good)

  pub append-IsGood :
      (s : Capture d v) (block : Block d v) (n : ℕ)
      → IsGood d q v s
      → IsGood d q v (append d v s block n)
  unfolding append
  append-IsGood s block n good =
      let new = moments d v s.num_channels n block.dry block.wet in
      let grown = grow d v s (s.total_samples + length new) in
      let s1 : Capture d v = record grown {
        frames = grown.frames ++ new;
        total_samples = s.total_samples + length new;
      } in
      let good1 : (IsGood d q v) s1 = grow-IsGood s (s.total_samples + length new) good in
      if-intro (IsGood d q v) (length new == 0) s _ (λ e. good)
        (λ e.
          if-intro (IsGood d q v) _ (flush d v s1) s1 (λ e'. flush-IsGood s1 good1) (λ e'. good1))

  step-IsGood : (s : Capture d v) (c : Call d v) → IsGood d q v s → IsGood d q v (step d v s c)
  unfolding step prepare set_sample_rate
  step-IsGood s (appends block n) good = append-IsGood s block n good
  step-IsGood s trims good = trim-IsGood s good
  step-IsGood s clears good = clear-IsGood s good
  step-IsGood s (prepares initial_size) good = clear-IsGood s good
  step-IsGood s (sets_rate rate interval) good = good

  -- After every history of prepare, clear, append, trim and setSampleRate on a buffer, from one whose
  -- file is in step: unless an operation on the disk has failed, the file holds a header with the
  -- right sizes and behind it exactly the samples that have been flushed since it was opened.
  pub run-IsGood :
      (s : Capture d v) (cs : List (Call d v)) → IsGood d q v s → IsGood d q v (run d v s cs)
  unfolding run
  run-IsGood s [] good = good
  run-IsGood s (c ∷ cs) good = run-IsGood (step d v s c) cs (step-IsGood s c good)
