-- ===== src/Capture/Session.antt =====
-- A whole recording of source/capture/AudioBuffer.cpp, as
-- source/analysis/WavCaptureReader.cpp reads it back.
use mathlib.Core.Path.{subst}
use plugin_lab.Prelude.{
  ℕ, zero, suc, ◌+◌, ◌^◌, ◌≤◌, ◌<◌, ◌≡◌, refl, sym, ap, ◌∙◌, true, false, not, ◌||◌, take,
  take-length, List, [], ◌∷◌, ◌++◌, map, none, some, length, length-map, arith, All, All-append,
  if-intro,
}
use plugin_lab.Prelude.Int.{ℤ, pos}
use plugin_lab.Wav.Writer.{Frame, RateFields, HaveChannels, wav_header, data_bytes}
use plugin_lab.Wav.Reader.{decoded, read_dry_wet}
use plugin_lab.Wav.Reader.RoundTrip.{IsPcm, channels_of, read-written}
use plugin_lab.Capture.Stream.{Disk, IsDisk}
use plugin_lab.Capture.{
  Samples, Block, Capture, fit, moments, pcm_of, patch_header, flush, finalise_wav, append, trim,
}
use plugin_lab.Capture.Mirror.{IsMirrored, IsGood}
use plugin_lab.Capture.Mirror.Steps.{append-IsGood, trim-IsGood}
use plugin_lab.Capture.Memory.{settings-flush, flush-IsLog, IsLog}
use plugin_lab.Capture.Memory.Append.{recorded, append_all, append_all-IsLog}

length-fit : (d : Disk) (v : Samples) (n : ℕ) (xs : List v.Sample) → length (fit d v n xs) ≡ n
unfolding fit
length-fit d v zero xs = refl
length-fit d v (suc n) [] = ap suc (length-fit d v n [])
length-fit d v (suc n) (x ∷ xs) = ap suc (length-fit d v n xs)

module _ (d : Disk) (v : Samples) (pcm : (x : v.Sample) → IsPcm (v.to_pcm x)) where
  moments-HaveChannels :
      (n count : ℕ) (dry wet : List (List v.Sample)) → HaveChannels n (moments d v n count dry wet)
  unfolding moments
  moments-HaveChannels n zero dry wet = tt
  moments-HaveChannels n (suc count) [] wet = tt
  moments-HaveChannels n (suc count) (x ∷ dry) [] = tt
  moments-HaveChannels n (suc count) (x ∷ dry) (y ∷ wet) =
      ((length-fit d v n x, length-fit d v n y), moments-HaveChannels n count dry wet)

  recorded-HaveChannels :
      (n : ℕ) (blocks : List (Block d v × ℕ)) → HaveChannels n (recorded d v n blocks)
  recorded-HaveChannels n [] = tt
  recorded-HaveChannels n ((block, count) ∷ blocks) =
      All-append _ _ _ (moments-HaveChannels n count block.dry block.wet)
        (recorded-HaveChannels n blocks)

  pcm_of-HaveChannels :
      (n : ℕ) (fs : List (Frame v.Sample))
      → HaveChannels n fs
      → HaveChannels n (map (pcm_of d v) fs)
  pcm_of-HaveChannels n [] h = tt
  pcm_of-HaveChannels n (f ∷ fs) h = (
    (length-map f.dry v.to_pcm ∙ h.0.0, length-map f.wet v.to_pcm ∙ h.0.1),
    pcm_of-HaveChannels n fs h.1,
  )

  to_pcm-IsPcm : (xs : List v.Sample) → All IsPcm (map v.to_pcm xs)
  to_pcm-IsPcm [] = tt
  to_pcm-IsPcm (x ∷ xs) = (pcm x, to_pcm-IsPcm xs)

  pcm_of-IsPcm :
      (fs : List (Frame v.Sample)) → All (λ f. All IsPcm (f.dry ++ f.wet)) (map (pcm_of d v) fs)
  pcm_of-IsPcm [] = tt
  pcm_of-IsPcm (f ∷ fs) =
      (All-append IsPcm _ _ (to_pcm-IsPcm f.dry) (to_pcm-IsPcm f.wet), pcm_of-IsPcm fs)

  -- A buffer that has just been cleared.
  pub record IsCleared (s : Capture d v) : Type 0 where
    pub no_frames : s.frames ≡ []
    pub no_total : s.total_samples ≡ 0
    pub no_flushed : s.last_flushed ≡ 0
    pub closed : s.stream_open ≡ false
    pub clean : s.flush_failed ≡ false
    pub no_file : s.mirror ≡ none

  pub cleared-IsLog : (s : Capture d v) → IsCleared s → IsLog d v s []
  cleared-IsLog s h = record {
    frames_eq = h.no_frames;
    total_eq = h.no_total;
    flushed_le = omega (arith, h.no_flushed);
    opened = λ unset on. cc (on, h.closed);
    unopened = λ unset off. h.no_flushed;
  }

  -- Closing a file that is up to date.
  finalise_wav-mirror :
      (s : Capture d v) (acc : List (Frame v.Sample))
      → IsLog d v s acc
      → 0 < length acc
      → (s.flush_failed ≡ false → s.last_flushed ≡ length acc)
      → (finalise_wav d v s).flush_failed ≡ false
      → (rate : RateFields) × ((finalise_wav d v s).mirror ≡ some (rate, map (pcm_of d v) acc))
        × ((finalise_wav d v s).num_channels ≡ s.num_channels)
  unfolding finalise_wav
  finalise_wav-mirror s acc h some_new all unset =
      let (w, patched) = patch_header d v s.wav_data_bytes s.disk in
      let Written : Capture d v → Type 0 = λ t.
        t.flush_failed ≡ false
        → (rate : RateFields) × (t.mirror ≡ some (rate, map (pcm_of d v) acc))
          × (t.num_channels ≡ s.num_channels) in
      if-intro Written s.stream_open
        (record s {
          disk = d.close (d.flush w);
          stream_open = false;
          flush_failed = s.flush_failed || not patched;
        })
        s
        (λ on clean.
          let clean1 : s.flush_failed ≡ false = ground (arith, clean) in
          let (rate, e) = h.opened clean1 on in
          let up_to_date = take-length s.last_flushed acc (all clean1) in
          (rate, e ∙ ap (λ fs. some (rate, map (pcm_of d v) fs)) up_to_date, refl))
        (λ off clean. absurd (omega (arith, all clean, h.unopened clean off, some_new))) unset

  -- Trimming brings the whole log into the file.
  trim-mirror :
      (s : Capture d v) (acc : List (Frame v.Sample))
      → IsLog d v s acc
      → s.flush_enabled ≡ true
      → 0 < length acc
      → (trim d v s).flush_failed ≡ false
      → (rate : RateFields) × ((trim d v s).mirror ≡ some (rate, map (pcm_of d v) acc))
        × ((trim d v s).num_channels ≡ s.num_channels)
  unfolding trim
  trim-mirror s acc h enabled some_new unset =
      let (h1, all) = flush-IsLog d v s acc h in
      let (rate, held, same) =
        finalise_wav-mirror (flush d v s) acc h1 some_new (all enabled) unset in
      (rate, held, same ∙ ap (λ x. x.0) (settings-flush d v s))

  append_all-IsGood :
      (q : IsDisk d) (s : Capture d v) (blocks : List (Block d v × ℕ))
      → IsGood d q v s
      → IsGood d q v (append_all d v s blocks)
  append_all-IsGood q s [] good = good
  append_all-IsGood q s ((block, count) ∷ blocks) good =
      append_all-IsGood q (append d v s block count) blocks (append-IsGood d q v s block count good)

  -- A recording from a cleared buffer, of blocks that fit the buffers, with flushing on and while no
  -- operation on the disk has failed: all frames are in memory in order, and all but fewer than one
  -- flush interval of them have been flushed; and if the stream is open, the file on the disk is a
  -- header for just the flushed frames, followed by their bytes. If it is not, nothing was flushed.
  pub append_all-content :
      (q : IsDisk d) (s : Capture d v) (blocks : List (Block d v × ℕ))
      → let n = s.num_channels in
        let frames = recorded d v n blocks in
        let out = append_all d v s blocks in
        let flushed = map (pcm_of d v) (take out.last_flushed frames) in
        IsCleared s
        → s.flush_enabled ≡ true
        → 0 < s.flush_interval
        → length frames ≤ s.capacity
        → out.flush_failed ≡ false
        → (out.frames ≡ frames)
          × (length frames < out.last_flushed + out.flush_interval)
          × (out.stream_open ≡ true
              → (rate : RateFields) × (q.content out.disk
                  ≡ wav_header n rate (length (data_bytes flushed)) ++ data_bytes flushed))
          × (out.stream_open ≡ false → out.last_flushed ≡ 0)
  append_all-content q s blocks fresh enabled interval room unset =
      let n = s.num_channels in
      let frames = recorded d v n blocks in
      let out = append_all d v s blocks in
      let flushed = map (pcm_of d v) (take out.last_flushed frames) in
      let (logged, lag, on, same) =
        append_all-IsLog d v s [] blocks n (cleared-IsLog s fresh)
          (λ clean. omega (arith, fresh.no_total, interval)) enabled interval refl room in
      let start : IsGood d q v s =
        λ clean. subst (IsMirrored d q v s) (sym fresh.no_file) fresh.closed in
      let good = append_all-IsGood q s blocks start in
      (
        logged.frames_eq,
        omega (arith, lag unset, logged.total_eq),
        λ open_stream.
            let (rate, held) = logged.opened unset open_stream in
            let mirrored = subst (IsMirrored d q v out) held (good unset) in
            (
              rate,
              mirrored.0
                  ∙ ap (λ k. wav_header k rate (length (data_bytes flushed)) ++ data_bytes flushed)
                      same,
            ),
        logged.unopened unset,
      )

  -- A recording from a cleared buffer, of blocks that fit the buffers, with flushing on: if no
  -- operation on the disk has failed, then after trim the file reads back as exactly the frames that
  -- were recorded, sample for sample. The channel count is from 1 to 32767, the file
  -- below 2 GiB, and `read` returns all bytes that it is asked for.
  pub session_reads_back :
      {F : Type 0} (to_float : ℤ → F) (q : IsDisk d) (s : Capture d v)
      (blocks : List (Block d v × ℕ)) (read : ℕ → ℕ)
      → let n = s.num_channels in
        let frames = recorded d v n blocks in
        let pcm_frames = map (pcm_of d v) frames in
        let out = trim d v (append_all d v s blocks) in
        IsCleared s
        → ((size : ℕ) → size < 2 ^ 31 → read size ≡ size)
        → s.flush_enabled ≡ true
        → 0 < s.flush_interval
        → 0 < n
        → n < 2 ^ 15
        → 0 < length frames
        → length frames ≤ s.capacity
        → length (data_bytes pcm_frames) + 44 < 2 ^ 31
        → out.flush_failed ≡ false
        → read_dry_wet to_float (some (q.content out.disk, read)) (pos n)
          ≡ some (decoded (map (channels_of to_float) pcm_frames))
  session_reads_back to_float q s blocks read fresh read_all enabled interval some_channel few
        some_frame room small unset =
      let n = s.num_channels in
      let frames = recorded d v n blocks in
      let fs = map (pcm_of d v) frames in
      let appended = append_all d v s blocks in
      let out = trim d v appended in
      let (logged, lag, on, same) =
        append_all-IsLog d v s [] blocks n (cleared-IsLog s fresh)
          (λ clean. omega (arith, fresh.no_total, interval)) enabled interval refl room in
      let (rate, held, kept) = trim-mirror appended frames logged on some_frame unset in
      let start : IsGood d q v s =
        λ clean. subst (IsMirrored d q v s) (sym fresh.no_file) fresh.closed in
      let good = trim-IsGood d q v appended (append_all-IsGood q s blocks start) in
      let mirrored = subst (IsMirrored d q v out) held (good unset) in
      let file : q.content out.disk ≡ wav_header n rate (length (data_bytes fs)) ++ data_bytes fs =
        mirrored.0
        ∙ ap (λ k. wav_header k rate (length (data_bytes fs)) ++ data_bytes fs) (kept ∙ same) in
      ap (λ bytes. read_dry_wet to_float (some (bytes, read)) (pos n)) file
      ∙ read-written to_float n rate fs read read_all some_channel few small
          (pcm_of-HaveChannels n frames (recorded-HaveChannels n blocks)) (pcm_of-IsPcm frames)
