-- ===== src/Capture/Memory/Append.antt =====
-- What append of source/capture/AudioBuffer.cpp keeps in memory and brings to the file.
use mathlib.Core.List.{append-nil, append_assoc}
use plugin_lab.Prelude.{
  ℕ, zero, suc, ◌+◌, ◌-◌, ◌≤◌, ◌<◌, ◌≡◌, refl, sym, ap, ◌∙◌, Bool, true, false, not, ◌&&◌, List, [],
  ◌∷◌, ◌++◌, map, some, length, length-append, take, leb, ltb, ◌==◌, arith, if◌then◌else◌, if-intro,
}
use plugin_lab.Wav.Writer.{Frame}
use plugin_lab.Capture.Stream.{Disk}
use plugin_lab.Capture.{Samples, Block, Capture, moments, cleared, pcm_of, flush, grow, append}
use plugin_lab.Capture.Memory.{IsLog, flush-IsLog, settings, settings-flush}

module _ (d : Disk) (v : Samples) where
  take-append_le :
      (k : ℕ) (xs ys : List (Frame v.Sample)) → k ≤ length xs → take k (xs ++ ys) ≡ take k xs
  take-append_le zero xs ys h = refl
  take-append_le (suc k) [] ys h = absurd (omega arith)
  take-append_le (suc k) (x ∷ xs) ys h = ap (◌∷◌ x) (take-append_le k xs ys (omega arith))

  -- What append records.
  abbrev pub recorded : ℕ → List (Block d v × ℕ) → List (Frame v.Sample)
  recorded n [] = []
  recorded n ((block, count) ∷ blocks) =
      moments d v n count block.dry block.wet ++ recorded n blocks

  abbrev pub append_all : Capture d v → List (Block d v × ℕ) → Capture d v
  append_all s [] = s
  append_all s ((block, count) ∷ blocks) = append_all (append d v s block count) blocks

  -- Less than an interval is not yet in the file.
  abbrev pub LagsLess : Capture d v → Type 0
  LagsLess s = s.flush_failed ≡ false → s.total_samples < s.last_flushed + s.flush_interval

  abbrev put : Capture d v → List (Frame v.Sample) → Capture d v
  put s new = record s { frames = s.frames ++ new; total_samples = s.total_samples + length new }

  nil_of_length : (xs : List (Frame v.Sample)) → length xs ≡ 0 → xs ≡ []
  nil_of_length [] e = refl
  nil_of_length (x ∷ xs) e = absurd (omega arith)

  put-IsLog :
      (s : Capture d v) (acc new : List (Frame v.Sample))
      → IsLog d v s acc
      → IsLog d v (put s new) (acc ++ new)
  put-IsLog s acc new h = record {
    frames_eq = ap (λ fs. fs ++ new) h.frames_eq;
    total_eq = omega (arith, h.total_eq, length-append acc new);
    flushed_le = omega (arith, h.flushed_le);
    opened = λ unset on.
        let (rate, e) = h.opened unset on in
        let short : s.last_flushed ≤ length acc = omega (arith, h.flushed_le, h.total_eq) in
        (
          rate,
          e
              ∙ ap (λ fs. some (rate, map (pcm_of d v) fs))
                  (sym (take-append_le s.last_flushed acc new short)),
        );
    unopened = h.unopened;
  }

  grow_fits : (s : Capture d v) (required : ℕ) → required ≤ s.capacity → grow d v s required ≡ s
  unfolding grow
  grow_fits s required room =
      if-intro (λ t. t ≡ s) (ltb s.capacity required) _ s
        (λ over. absurd (ground (arith, room, over))) (λ fits. refl)

  abbrev is_due : Capture d v → Bool
  is_due s =
      s.flush_enabled
      && (not s.flush_failed && leb s.flush_interval (s.total_samples - s.last_flushed))

  append_fits :
      (s : Capture d v) (block : Block d v) (count : ℕ)
      → let new = moments d v s.num_channels count block.dry block.wet in
        s.total_samples + length new ≤ s.capacity
        → append d v s block count ≡ (
            if length new == 0
            then s
            else if is_due (put s new)
            then flush d v (put s new)
            else put s new)
  unfolding append
  append_fits s block count room =
      let new = moments d v s.num_channels count block.dry block.wet in
      ap
        (λ grown.
          let s1 : Capture d v = record grown {
            frames = grown.frames ++ new;
            total_samples = s.total_samples + length new;
          } in
          if length new == 0 then s else if is_due s1 then flush d v s1 else s1)
        (grow_fits s (s.total_samples + length new) room)

  append-IsLog :
      (s : Capture d v) (acc : List (Frame v.Sample)) (block : Block d v) (count : ℕ)
      → let new = moments d v s.num_channels count block.dry block.wet in
        IsLog d v s acc
        → LagsLess s
        → s.flush_enabled ≡ true
        → 0 < s.flush_interval
        → length (acc ++ new) ≤ s.capacity
        → let out = append d v s block count in
          IsLog d v out (acc ++ new) × LagsLess out × (settings d v out ≡ settings d v s)
  append-IsLog s acc block count h lag enabled interval room =
      let new = moments d v s.num_channels count block.dry block.wet in
      let total = acc ++ new in
      let Logged : Capture d v → Type 0 =
        λ out. IsLog d v out total × LagsLess out × (settings d v out ≡ settings d v s) in
      let h1 = put-IsLog s acc new h in
      let small : s.total_samples + length new ≤ s.capacity =
        omega (arith, h.total_eq, length-append acc new) in
      rw (append_fits s block count small) (
        if-intro Logged (length new == 0) s _
          (λ empty.
            let nothing_new : new ≡ [] = nil_of_length new (ground (arith, empty)) in
            let same : total ≡ acc = ap (λ xs. acc ++ xs) nothing_new ∙ append-nil acc in
            (rw same h, lag, refl))
          (λ some_new.
            if-intro Logged (is_due (put s new)) (flush d v (put s new)) (put s new)
              (λ due.
                let (h2, all) = flush-IsLog d v (put s new) total h1 in
                let kept = settings-flush d v (put s new) in
                (
                  h2,
                  λ unset.
                      omega (arith, all enabled unset, h2.total_eq, ap (λ x. x.3) kept, interval),
                  kept,
                ))
              (λ early. (h1, λ unset. ground (arith, early, enabled, unset), refl))))

  -- While blocks are appended that fit the buffers, with flushing on and no failure of the disk, all
  -- of them are in memory in order, and all but fewer than one flush interval have been flushed.
  pub append_all-IsLog :
      (s : Capture d v) (acc : List (Frame v.Sample)) (blocks : List (Block d v × ℕ)) (n : ℕ)
      → IsLog d v s acc
      → LagsLess s
      → s.flush_enabled ≡ true
      → 0 < s.flush_interval
      → s.num_channels ≡ n
      → length (acc ++ recorded n blocks) ≤ s.capacity
      → let out = append_all s blocks in
        IsLog d v out (acc ++ recorded n blocks)
        × LagsLess out
        × (out.flush_enabled ≡ true)
        × (out.num_channels ≡ n)
  append_all-IsLog s acc [] n h lag enabled interval same room =
      (rw (append-nil acc) h, lag, enabled, same)
  append_all-IsLog s acc ((block, count) ∷ blocks) n h lag enabled interval same room =
      let new = moments d v s.num_channels count block.dry block.wet in
      let new_n = moments d v n count block.dry block.wet in
      let as_n : new ≡ new_n = ap (λ k. moments d v k count block.dry block.wet) same in
      let both : (acc ++ new) ++ recorded n blocks ≡ acc ++ (new_n ++ recorded n blocks) =
        append_assoc acc new (recorded n blocks)
        ∙ ap (λ xs. acc ++ (xs ++ recorded n blocks)) as_n in
      let sizes = length-append (acc ++ new) (recorded n blocks) in
      let (h1, lag1, kept) =
        append-IsLog s acc block count h lag enabled interval
          (omega (arith, room, ap length both, sizes)) in
      let out1 = append d v s block count in
      let rest =
        append_all-IsLog out1 (acc ++ new) blocks n h1 lag1 (ap (λ x. x.2) kept ∙ enabled)
          (omega (arith, interval, ap (λ x. x.3) kept)) (ap (λ x. x.0) kept ∙ same)
          (omega (arith, room, ap length both, ap (λ x. x.1) kept)) in
      (rw⁻¹ both (rest.0), rest.1, rest.2, rest.3)

  -- With flushing off, when append gets at least one sample and the buffers have to grow for it, all
  -- that was recorded before is lost from memory: the new samples stand behind silence.
  growth_loses :
      (s : Capture d v) (block : Block d v) (count : ℕ)
      → let new = moments d v s.num_channels count block.dry block.wet in
        s.flush_enabled ≡ false
        → 0 < length new
        → s.capacity < s.total_samples + length new
        → (append d v s block count).frames ≡ map (cleared d v s.num_channels) s.frames ++ new
  unfolding append grow
  growth_loses s block count off some_new over =
      let new = moments d v s.num_channels count block.dry block.wet in
      let grown = grow d v s (s.total_samples + length new) in
      let grown_lost : grown.frames ≡ map (cleared d v s.num_channels) s.frames =
        if-intro (λ t. t.frames ≡ map (cleared d v s.num_channels) s.frames)
          (ltb s.capacity (s.total_samples + length new)) _ s (λ e. refl)
          (λ e. absurd (ground (arith, e, over))) in
      let still_off : grown.flush_enabled ≡ false =
        if-intro (λ t. t.flush_enabled ≡ false) (ltb s.capacity (s.total_samples + length new)) _ s
          (λ e. off) (λ e. off) in
      let s1 : Capture d v = record grown {
        frames = grown.frames ++ new;
        total_samples = s.total_samples + length new;
      } in
      let Lost : Capture d v → Type 0 =
        λ t. t.frames ≡ map (cleared d v s.num_channels) s.frames ++ new in
      if-intro Lost (length new == 0) s _ (λ empty. absurd (ground (arith, empty, some_new)))
        (λ e.
          if-intro Lost (is_due s1) (flush d v s1) s1
            (λ due. absurd (ground (arith, due, still_off)))
            (λ e'. ap (λ fs. fs ++ new) grown_lost))
