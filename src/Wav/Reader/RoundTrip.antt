-- ===== src/Wav/Reader/RoundTrip.antt =====
-- What source/capture/AudioBuffer.cpp writes, source/analysis/WavCaptureReader.cpp reads back.
use mathlib.Core.List.{append_assoc}
use native.Mathlib.Nat.{div-eq_of_eq-mul_right, mul-mod_right}
use plugin_lab.Prelude.{
  ℕ, zero, suc, ◌+◌, ◌*◌, ◌/◌, ◌%◌, ◌^◌, ◌≤◌, ◌<◌, ◌≡◌, refl, sym, ap, ◌∙◌, true, false, not, ◌||◌,
  List, [], ◌∷◌, ◌++◌, map, none, some, length, length-append, drop, drop-add, arith, leb, ltb,
  ◌==◌, get_elem?, All,
}
use plugin_lab.Prelude.Int.{ℤ, pos, negsuc, ◌≤ℤ◌}
use plugin_lab.Wav.Bytes.{
  pcm_bytes, read_u16_le, read_u32_le, has_tag, sample24_to_int32, sample24-pcm_bytes,
}
use plugin_lab.Wav.Writer.{
  Frame, RateFields, HaveChannels, wav_header, frame_bytes, data_bytes, length-wav_header,
  length-frame_bytes, length-data_bytes,
}
use plugin_lab.Wav.Reader.{
  decoded, Walk, walk_start, advance, walk_round, walk, first_fault, clamp_24, read_samples,
  read_frames, read_data, check_and_read, read_bytes, read_dry_wet,
}

-- The samples that the writer's conversion makes.
abbrev pub IsPcm : ℤ → Type 0
IsPcm v = (negsuc 8388606 ≤ℤ v) × (v ≤ℤ pos 8388607)

get_elem?-drop {ℓ} :
    {A : Type ℓ} (i k : ℕ) (xs : List A) → get_elem? xs (i + k) ≡ get_elem? (drop i xs) k
get_elem?-drop zero k xs = ground arith
get_elem?-drop (suc i) k [] = refl
get_elem?-drop (suc i) k (x ∷ xs) = ground (arith, get_elem?-drop i k xs)

sample24-drop :
    (bytes : List ℕ) (i : ℕ) → sample24_to_int32 bytes i ≡ sample24_to_int32 (drop i bytes) 0
unfolding sample24_to_int32
sample24-drop bytes i =
    ground (arith, get_elem?-drop i 0 bytes, get_elem?-drop i 1 bytes, get_elem?-drop i 2 bytes)

clamp_24-IsPcm : (v : ℤ) → IsPcm v → clamp_24 v ≡ v
clamp_24-IsPcm v h = ground arith

drop-pcm_bytes : (v : ℤ) (rest : List ℕ) → drop 3 (pcm_bytes v ++ rest) ≡ rest
unfolding pcm_bytes
drop-pcm_bytes v rest = refl

frame_bytes-append : (xs ys : List ℤ) → frame_bytes (xs ++ ys) ≡ frame_bytes xs ++ frame_bytes ys
frame_bytes-append [] ys = refl
frame_bytes-append (x ∷ xs) ys =
    ap (◌++◌ (pcm_bytes x)) (frame_bytes-append xs ys)
    ∙ sym (append_assoc (pcm_bytes x) (frame_bytes xs) (frame_bytes ys))

drop-append_length {ℓ} :
    {A : Type ℓ} (k : ℕ) (xs ys : List A) → k ≡ length xs → drop k (xs ++ ys) ≡ ys
drop-append_length zero [] ys e = refl
drop-append_length zero (x ∷ xs) ys e = absurd (omega arith)
drop-append_length (suc k) [] ys e = absurd (omega arith)
drop-append_length (suc k) (x ∷ xs) ys e = drop-append_length k xs ys (omega arith)

All-split {ℓ κ} :
    {A : Type ℓ} (P : A → Type κ) (xs ys : List A) → All P (xs ++ ys) → All P xs × All P ys
All-split P [] ys v = (tt, v)
All-split P (x ∷ xs) ys v = let (a, b) = All-split P xs ys v.1 in ((v.0, a), b)

module _ {F : Type 0} (to_float : ℤ → F) where
  read_samples_lem :
      (bytes : List ℕ) (i : ℕ) (vs : List ℤ) (rest : List ℕ)
      → drop i bytes ≡ frame_bytes vs ++ rest
      → All IsPcm vs
      → read_samples to_float bytes i (length vs) ≡ some (map to_float vs)
  unfolding read_samples
  read_samples_lem bytes i [] rest e v = refl
  read_samples_lem bytes i (x ∷ xs) rest e v =
      let here : drop i bytes ≡ pcm_bytes x ++ (frame_bytes xs ++ rest) =
        e ∙ append_assoc (pcm_bytes x) (frame_bytes xs) rest in
      let first : sample24_to_int32 bytes i ≡ some x =
        sample24-drop bytes i
        ∙ ap (λ b. sample24_to_int32 b 0) here
        ∙ sample24-pcm_bytes x (frame_bytes xs ++ rest) (omega (arith, v.0.0)) v.0.1 in
      let next =
        read_samples_lem bytes (i + 3) xs rest
          (drop-add i 3 bytes ∙ ap (drop 3) here ∙ drop-pcm_bytes x _) v.1 in
      rw (first, next, clamp_24-IsPcm x v.0) refl

  abbrev pub channels_of : Frame ℤ → Frame F
  channels_of f = record { dry = map to_float f.dry; wet = map to_float f.wet }

  read_frames_lem :
      (bytes : List ℕ) (i n : ℕ) (fs : List (Frame ℤ))
      → drop i bytes ≡ data_bytes fs
      → HaveChannels n fs
      → All (λ f. All IsPcm (f.dry ++ f.wet)) fs
      → read_frames to_float bytes n (2 * n * 3) i (length fs) ≡ some (map channels_of fs)
  unfolding read_frames
  read_frames_lem bytes i n [] e h v = refl
  read_frames_lem bytes i n (f ∷ fs) e h v =
      let size = 2 * n * 3 in
      let wets : List ℕ = frame_bytes f.wet ++ data_bytes fs in
      let here : drop i bytes ≡ frame_bytes f.dry ++ wets =
        e
        ∙ ap (λ b. b ++ data_bytes fs) (frame_bytes-append f.dry f.wet)
        ∙ append_assoc (frame_bytes f.dry) (frame_bytes f.wet) (data_bytes fs) in
      let there : drop (i + n * 3) bytes ≡ wets =
        drop-add i (n * 3) bytes
        ∙ ap (drop (n * 3)) here
        ∙ drop-append_length (n * 3) (frame_bytes f.dry) wets
            (omega (arith, length-frame_bytes f.dry, h.0.0)) in
      let next : drop (i + size) bytes ≡ data_bytes fs =
        ap (λ k. drop k bytes) {y = i + n * 3 + n * 3} (omega arith)
        ∙ drop-add (i + n * 3) (n * 3) bytes
        ∙ ap (drop (n * 3)) there
        ∙ drop-append_length (n * 3) (frame_bytes f.wet) (data_bytes fs)
            (omega (arith, length-frame_bytes f.wet, h.0.1)) in
      let (vd, vw) = All-split IsPcm f.dry f.wet v.0 in
      let dry = read_samples_lem bytes i f.dry wets here vd in
      let wet = read_samples_lem bytes (i + n * 3) f.wet (data_bytes fs) there vw in
      let rest = read_frames_lem bytes (i + size) n fs next h.1 v.1 in
      rw
        (
          ap (read_samples to_float bytes i) (sym h.0.0) ∙ dry,
          ap (read_samples to_float bytes (i + n * 3)) (sym h.0.1) ∙ wet,
          rest,
        )
        refl

walk-step :
    (fuel : ℕ) (bytes : List ℕ) (w next : Walk)
    → w.offset + 8 ≤ length bytes
    → walk_round bytes w ≡ some (next, true)
    → walk (suc fuel) bytes w ≡ walk fuel bytes next
unfolding walk
walk-step fuel bytes w next h e =
    let more : leb (w.offset + 8) (length bytes) ≡ true = ground arith in rw (more, walk, e) refl

walk-end :
    (fuel : ℕ) (bytes : List ℕ) (w : Walk)
    → length bytes < w.offset + 8
    → walk (suc fuel) bytes w ≡ some w
unfolding walk
walk-end fuel bytes w h =
    let ends : leb (w.offset + 8) (length bytes) ≡ false = ground arith in rw (ends, walk) refl

abbrev at_data : ℕ → Walk
at_data n = record {
  offset = 36;
  found_fmt = true;
  found_data = false;
  format = 1;
  channels = 2 * n;
  bits_per_sample = 24;
  data_size = 0;
  data_offset = 0;
}

module _ (n : ℕ) (rate : RateFields) (payload : List ℕ) (small : n < 2 ^ 15) where
  abbrev file : List ℕ
  file = wav_header n rate (length payload) ++ payload

  fmt_round : walk_round file walk_start ≡ some (at_data n, true)
  unfolding walk_round walk_start wav_header read_u32_le read_u16_le has_tag
  fmt_round = ground arith

  after_data : Walk
  after_data =
      record (advance
        (record (at_data n) { data_offset = 44; data_size = length payload; found_data = true })
        (length payload)) { found_data = true }

  data_round : length payload + 44 < 2 ^ 31 → walk_round file (at_data n) ≡ some (after_data, true)
  unfolding walk_round wav_header read_u32_le read_u16_le has_tag after_data
  data_round fits = ground arith

  magic : (has_tag file 0 82 73 70 70 ≡ some true) × (has_tag file 8 87 65 86 69 ≡ some true)
  unfolding wav_header has_tag
  magic = (refl, refl)

  drop-file : drop 44 file ≡ payload
  unfolding wav_header
  drop-file = refl

  size_ok : 44 ≤ length file
  unfolding wav_header
  size_ok = omega arith

  no_fault : length payload + 44 < 2 ^ 31 → first_fault file n after_data ≡ none
  unfolding first_fault after_data
  no_fault fits = ground (
    arith,
    length-append (wav_header n rate (length payload)) payload,
    length-wav_header n rate (length payload),
  )

  walk-file :
      length payload + 44 < 2 ^ 31 → walk (suc (length file)) file walk_start ≡ some after_data
  unfolding after_data walk_start
  walk-file fits =
      let size = length-append (wav_header n rate (length payload)) payload in
      let head = length-wav_header n rate (length payload) in
      let rounds : length file ≡ suc (suc (length payload + 42)) = omega (arith, size, head) in
      ap (λ k. walk (suc k) file walk_start) rounds
      ∙ walk-step (suc (suc (length payload + 42))) file walk_start (at_data n)
          (omega (arith, size, head)) fmt_round
      ∙ walk-step (suc (length payload + 42)) file (at_data n) after_data
          (omega (arith, size, head)) (data_round fits)
      ∙ walk-end (length payload + 42) file after_data (omega (arith, size, head))

-- A file that an `int` can count is read whole.
not_short :
    (bytes : List ℕ) (read : ℕ → ℕ)
    → ((size : ℕ) → size < 2 ^ 31 → read size ≡ size)
    → length bytes < 2 ^ 31
    → (leb (2 ^ 31) (read (length bytes % 2 ^ 32) % 2 ^ 32)
        || not (read (length bytes % 2 ^ 32) % 2 ^ 32 == length bytes))
      ≡ false
not_short bytes read all small =
    let asked : length bytes % 2 ^ 32 ≡ length bytes = omega arith in
    let got : read (length bytes % 2 ^ 32) % 2 ^ 32 ≡ length bytes =
      ap (λ k. read k % 2 ^ 32) asked ∙ ap (λ k. k % 2 ^ 32) (all (length bytes) small) ∙ asked in
    rw got (ground arith)

module _ {F : Type 0} (to_float : ℤ → F) where
  read_data_written :
      (n : ℕ) (rate : RateFields) (fs : List (Frame ℤ)) (small : n < 2 ^ 15)
      → 0 < n
      → HaveChannels n fs
      → All (λ f. All IsPcm (f.dry ++ f.wet)) fs
      → let payload = data_bytes fs in
        read_data to_float (file n rate payload small) n (after_data n rate payload small)
        ≡ some (decoded (map (channels_of to_float) fs))
  unfolding read_data after_data
  read_data_written n rate fs small p h v =
      let payload = data_bytes fs in
      let bytes = file n rate payload small in
      let size : ℕ = 2 * n * 3 in
      let total = length-data_bytes n fs h in
      let nonzero : (size == 0) ≡ false = ground arith in
      let rest : length payload % size ≡ 0 =
        ap (λ k. k % size) total ∙ mul-mod_right size (length fs) in
      let whole : (length payload % size == 0) ≡ true = ground (arith, rest) in
      let count : length payload / size ≡ length fs = div-eq_of_eq-mul_right (omega arith) total in
      let frames = read_frames_lem to_float bytes 44 n fs (drop-file n rate payload small) h v in
      rw (nonzero, whole, count, frames) refl

  check_and_read_written :
      (n : ℕ) (rate : RateFields) (fs : List (Frame ℤ)) (small : n < 2 ^ 15)
      → 0 < n
      → length (data_bytes fs) + 44 < 2 ^ 31
      → HaveChannels n fs
      → All (λ f. All IsPcm (f.dry ++ f.wet)) fs
      → let payload = data_bytes fs in
        check_and_read to_float (file n rate payload small) n (after_data n rate payload small)
        ≡ some (decoded (map (channels_of to_float) fs))
  unfolding check_and_read
  check_and_read_written n rate fs small p fits h v =
      rw (no_fault n rate (data_bytes fs) small fits, check_and_read)
        (read_data_written n rate fs small p h v)

  -- The file of the writer, header and samples of `n` channels, dry and wet, is read back as exactly
  -- the frames that were written, each sample converted by the reader's conversion to `float`. The
  -- channel count is from 1 to 32767, the file is below 2 GiB and `read` returns all of it,
  -- and every sample is one that the
  -- writer's clamped conversion makes.
  pub read-written :
      (n : ℕ) (rate : RateFields) (fs : List (Frame ℤ)) (read : ℕ → ℕ)
      → ((size : ℕ) → size < 2 ^ 31 → read size ≡ size)
      → 0 < n
      → n < 2 ^ 15
      → length (data_bytes fs) + 44 < 2 ^ 31
      → HaveChannels n fs
      → All (λ f. All IsPcm (f.dry ++ f.wet)) fs
      → read_dry_wet to_float
          (some (wav_header n rate (length (data_bytes fs)) ++ data_bytes fs, read))
          (pos n)
        ≡ some (decoded (map (channels_of to_float) fs))
  unfolding read_dry_wet read_bytes first_fault check_and_read
  read-written n rate fs read all p small fits h v =
      let payload = data_bytes fs in
      let bytes = file n rate payload small in
      let w = after_data n rate payload small in
      let (riff, wave) = magic n rate payload small in
      let nonzero : (n == 0) ≡ false = ground arith in
      let long : ltb (length bytes) 44 ≡ false = ground (arith, size_ok n rate payload small) in
      let size : length bytes < 2 ^ 31 = omega (
        arith,
        length-append (wav_header n rate (length payload)) payload,
        length-wav_header n rate (length payload),
      ) in
      let short = not_short bytes read all size in
      rw (nonzero, long, short, riff, wave, walk-file n rate payload small fits)
        (check_and_read_written n rate fs small p fits h v)
