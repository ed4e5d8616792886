-- ===== src/Capture/Mirror.antt =====
-- The mirror file of source/capture/AudioBuffer.cpp, between two calls.
pub mod Steps
use mathlib.Core.List.{append_assoc, append-nil}
use plugin_lab.Prelude.{
  ℕ, ◌+◌, ◌%◌, ◌^◌, ◌≤◌, ◌≡◌, refl, sym, ap, ◌∙◌, Bool, true, false, not, ◌||◌, List, [], ◌∷◌, ◌++◌,
  map, Option, none, some, length, length-append, take, drop, take-length, drop-length_le,
  length-take, length-drop, leb, ltb, ◌==◌, arith, if◌then◌else◌, if-intro,
}
use plugin_lab.Prelude.Int.{ℤ}
use plugin_lab.Wav.Bytes.{write_u16_le, write_u32_le}
use plugin_lab.Wav.Writer.{
  Frame, RateFields, wav_header, frame_bytes, data_bytes, length-wav_header,
}
use plugin_lab.Capture.Stream.{Disk, IsDisk, overwrite}
use plugin_lab.Capture.{
  Samples, Block, Capture, pcm_of, patch_size, patch_header, open_stream, add_frames, flush_frames,
  flush, finalise_wav, clear, grow, moments, append, trim, prepare, set_sample_rate, Call, appends,
  trims, clears, prepares, sets_rate, step, run,
}

-- At its end a file grows.
pub overwrite_end :
    (at : ℕ) (bytes content : List ℕ)
    → at ≡ length content
    → overwrite at bytes content ≡ content ++ bytes
overwrite_end at bytes content e =
    rw
      (
        take-length at content e,
        drop-length_le (at + length bytes) content (omega arith),
        append-nil bytes,
      )
      refl

pub data_bytes-append :
    (fs gs : List (Frame ℤ)) → data_bytes (fs ++ gs) ≡ data_bytes fs ++ data_bytes gs
data_bytes-append [] gs = refl
data_bytes-append (f ∷ fs) gs =
    ap (◌++◌ (frame_bytes (f.dry ++ f.wet))) (data_bytes-append fs gs)
    ∙ sym (append_assoc (frame_bytes (f.dry ++ f.wet)) (data_bytes fs) (data_bytes gs))

length-overwrite :
    (at : ℕ) (bytes content : List ℕ)
    → at + length bytes ≤ length content
    → length (overwrite at bytes content) ≡ length content
length-overwrite at bytes content room = omega (
  arith,
  length-append (take at content) (bytes ++ drop (at + length bytes) content),
  length-append bytes (drop (at + length bytes) content),
  length-take at content,
  length-drop (at + length bytes) content,
)

-- Both sizes of the header are replaced.
patched_header :
    (n old size : ℕ) (rate : RateFields) (rest : List ℕ)
    → overwrite 40
        (write_u32_le (size % 2 ^ 32))
        (overwrite 4 (write_u32_le ((size + 36) % 2 ^ 32)) (wav_header n rate old ++ rest))
      ≡ wav_header n rate size ++ rest
unfolding wav_header write_u32_le write_u16_le
patched_header n old size rate rest = refl

pub length-patched_header :
    (n size : ℕ) (rate : RateFields) (rest : List ℕ)
    → length (wav_header n rate size ++ rest) ≡ 44 + length rest
length-patched_header n size rate rest =
    omega (arith, length-append (wav_header n rate size) rest, length-wav_header n rate size)

module _ (d : Disk) (q : IsDisk d) (v : Samples) where
  -- The file holds a header of that size and these bytes.
  abbrev pub Holds : d.World → ℕ → RateFields → ℕ → List ℕ → Type 0
  Holds w n rate size rest = q.content w ≡ wav_header n rate size ++ rest

  patch_size-content :
      (at size : ℕ) (w : d.World)
      → at ≤ length (q.content w)
      → (patch_size d v at size w).1 ≡ true
      → q.content (patch_size d v at size w).0
        ≡ overwrite at (write_u32_le (size % 2 ^ 32)) (q.content w)
  unfolding patch_size
  patch_size-content at size w room ok =
      let bytes = write_u32_le (size % 2 ^ 32) in
      let (w1, found) = d.set_position at w in
      if-intro (λ x. x.1 ≡ true → q.content x.0 ≡ overwrite at bytes (q.content w)) found
        (d.write bytes w1) (w1, false)
        (λ here written.
          let (same, there) = q.content-set_position at w here in
          let room1 : q.position w1 ≤ length (q.content w1) = rw (there, same) room in
          (q.content-write bytes w1 room1 written).0
          ∙ ap (λ p. overwrite p bytes (q.content w1)) there
          ∙ ap (overwrite at bytes) same)
        (λ lost no. cc no) ok

  -- Patching makes the header one of the given size, and puts the stream at the end of the data.
  pub patch_header-Holds :
      (n old size : ℕ) (rate : RateFields) (rest : List ℕ) (w : d.World)
      → Holds w n rate old rest
      → (patch_header d v size w).1 ≡ true
      → let w' = (patch_header d v size w).0 in
        Holds w' n rate size rest × (q.position w' ≡ 44 + size)
  unfolding patch_header write_u32_le
  patch_header-Holds n old size rate rest w holds ok =
      let (w1, first) = patch_size d v 4 (size + 36) w in
      let (w2, second) = patch_size d v 40 size w1 in
      let seek = d.set_position (44 + size) w2 in
      let Done : d.World × Bool → Type 0 =
        λ x. x.1 ≡ true → Holds x.0 n rate size rest × (q.position x.0 ≡ 44 + size) in
      let room : 44 ≤ length (q.content w) =
        omega (arith, ap length holds, length-patched_header n old rate rest) in
      if-intro Done first (if second then seek else (w2, false)) (w1, false)
        (λ first_ok.
          let c1 = patch_size-content 4 (size + 36) w (omega (arith, room)) first_ok in
          if-intro Done second seek (w2, false)
            (λ second_ok sought.
              let room1 : 40 ≤ length (q.content w1) =
                let four : length (write_u32_le ((size + 36) % 2 ^ 32)) ≡ 4 = refl in
                omega (
                  arith,
                  room,
                  ap length c1,
                  four,
                  length-overwrite 4 (write_u32_le ((size + 36) % 2 ^ 32)) (q.content w)
                      (omega (arith, room, four)),
                ) in
              let c2 = patch_size-content 40 size w1 room1 second_ok in
              let (same, there) = q.content-set_position (44 + size) w2 sought in
              (
                same
                    ∙ c2
                    ∙ ap (overwrite 40 (write_u32_le (size % 2 ^ 32)))
                        (c1 ∙ ap (overwrite 4 (write_u32_le ((size + 36) % 2 ^ 32))) holds)
                    ∙ patched_header n old size rate rest,
                there,
              ))
            (λ no no'. cc no'))
        (λ no no'. cc no') ok

  -- While no operation on the file has failed: it holds the header and the frames of `mirror`, and an
  -- open stream stands at its end.
  abbrev pub IsMirrored : Capture d v → Option (RateFields × List (Frame ℤ)) → Type 0
  IsMirrored s none = s.stream_open ≡ false
  IsMirrored s (some (rate, fs)) =
      Holds s.disk s.num_channels rate (length (data_bytes fs)) (data_bytes fs)
      × (s.stream_open ≡ true
          → (s.wav_data_bytes ≡ length (data_bytes fs))
            × (q.position s.disk ≡ 44 + length (data_bytes fs)))

  abbrev pub IsGood : Capture d v → Type 0
  IsGood s = s.flush_failed ≡ false → IsMirrored s s.mirror

  -- The flag stays unset only if it was unset and the operation succeeded.
  pub unfailed : (failed ok : Bool) → failed || not ok ≡ false → (failed ≡ false) × (ok ≡ true)
  unfailed failed ok h = ground arith

  abbrev pub closed : Capture d v → Capture d v
  closed s =
      let (w, patched) = patch_header d v s.wav_data_bytes s.disk in
      record s {
        disk = d.close (d.flush w);
        stream_open = false;
        flush_failed = s.flush_failed || not patched;
      }

  closed-IsMirrored :
      (s : Capture d v) (m : Option (RateFields × List (Frame ℤ)))
      → s.stream_open ≡ true
      → IsMirrored s m
      → (patch_header d v s.wav_data_bytes s.disk).1 ≡ true
      → IsMirrored (closed s) m
  closed-IsMirrored s none on h patched = cc
  closed-IsMirrored s (some (rate, fs)) on (holds, rest) patched =
      let (w, ok) = patch_header d v s.wav_data_bytes s.disk in
      let payload = data_bytes fs in
      let (counted, there) = rest on in
      let (held, _) =
        patch_header-Holds s.num_channels (length payload) s.wav_data_bytes rate payload s.disk
          holds patched in
      (
        q.content-close (d.flush w)
            ∙ (q.content-flush w).0
            ∙ held
            ∙ ap (λ size. wav_header s.num_channels rate size ++ payload) counted,
        λ e. cc e,
      )

  pub finalise_wav-IsGood : (s : Capture d v) → IsGood s → IsGood (finalise_wav d v s)
  unfolding finalise_wav
  finalise_wav-IsGood s good =
      if-intro IsGood s.stream_open (closed s) s
        (λ on unset.
          let (before, patched) = unfailed s.flush_failed _ unset in
          closed-IsMirrored s s.mirror on (good before) patched)
        (λ off. good)

  abbrev pub written : Capture d v → Capture d v
  written s =
      let fs = map (pcm_of d v) (drop s.last_flushed s.frames) in
      let size = s.wav_data_bytes + length (data_bytes fs) in
      let (w2, patched) = patch_header d v size (d.write (data_bytes fs) s.disk).0 in
      record s {
        wav_data_bytes = size;
        last_flushed = s.total_samples;
        disk = d.flush w2;
        flush_failed = s.flush_failed || not patched;
        mirror = add_frames d v s.mirror fs;
      }
