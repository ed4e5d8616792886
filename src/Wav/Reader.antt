-- ===== src/Wav/Reader.antt =====
-- readDryWet of source/analysis/WavCaptureReader.cpp. `none` stands for undefined behaviour (a read
-- outside the vector, a division by zero) or for fuel that has run out. The output buffers are a list
-- of frames, each with its dry and its wet samples; JUCE's reading of the file and the conversion of
-- a sample to `float` are parameters.
pub mod Safety
pub mod RoundTrip
use mathlib.Core.Option
use plugin_lab.Prelude.{
  ℕ, zero, suc, ◌+◌, ◌*◌, ◌/◌, ◌%◌, ◌^◌, Bool, true, false, not, ◌&&◌, ◌||◌, List, [], ◌∷◌, Option,
  none, some, length, leb, ltb, ◌==◌, if◌then◌else◌,
}
use plugin_lab.Prelude.Int.{ℤ, pos, negsuc, ltb_ℤ}
use plugin_lab.Wav.Bytes.{◌>>=◌, read_u16_le, read_u32_le, has_tag, sample24_to_int32}
use plugin_lab.Wav.Writer.{Frame}

-- The reasons of the log, in the order of the checks.
pub data Reason : Type 0 where
  invalid_channel_count failed_to_open too_small short_read bad_magic missing_chunk : Reason
  non_pcm channel_mismatch bit_depth truncated partial_frame : Reason

pub data Outcome (F : Type 0) : Type 0 where
  rejected : Reason → Outcome F
  decoded : List (Frame F) → Outcome F

-- The local variables of the walk over the chunks.
pub record Walk : Type 0 where
  pub offset : ℕ
  pub found_fmt : Bool
  pub found_data : Bool
  pub format : ℕ
  pub channels : ℕ
  pub bits_per_sample : ℕ
  pub data_size : ℕ
  pub data_offset : ℕ

pub walk_start : Walk
walk_start = record {
  offset = 12;
  found_fmt = false;
  found_data = false;
  format = 0;
  channels = 0;
  bits_per_sample = 0;
  data_size = 0;
  data_offset = 0;
}

-- One round of the loop: `false` is `break`.
pub read_fmt : List ℕ → Walk → Option (Walk × Bool)
read_fmt bytes w = if ltb (length bytes) (w.offset + 8 + 16) then some (w, false) else do
  f ← read_u16_le bytes (w.offset + 8)
  c ← read_u16_le bytes (w.offset + 8 + 2)
  b ← read_u16_le bytes (w.offset + 8 + 14)
  some (record w { format = f; channels = c; bits_per_sample = b; found_fmt = true }, true)

pub read_chunk : List ℕ → Walk → ℕ → Option (Walk × Bool)
unfolding read_fmt
read_chunk bytes w chunk_size = do
  is_fmt ← has_tag bytes w.offset 102 109 116 32
  if is_fmt then read_fmt bytes w else do
    is_data ← has_tag bytes w.offset 100 97 116 97
    some (
        if is_data
        then (
          record w { data_offset = w.offset + 8; data_size = chunk_size; found_data = true },
          true,
        )
        else (w, true))

-- `8 + chunkSize` is a sum of `uint32_t`. Chunks are word-aligned.
abbrev pub advance : Walk → ℕ → Walk
advance w chunk_size = record w {
  offset = w.offset + (8 + chunk_size) % 2 ^ 32 + (if chunk_size % 2 == 0 then 0 else 1);
}

pub walk_round : List ℕ → Walk → Option (Walk × Bool)
unfolding read_chunk
walk_round bytes w = do
  chunk_size ← read_u32_le bytes (w.offset + 4)
  if ltb (length bytes) chunk_size then some (w, false) else do
    (next, goes_on) ← read_chunk bytes w chunk_size
    some (if goes_on then (advance next chunk_size, true) else (next, false))

-- The `while` loop.
pub walk : ℕ → List ℕ → Walk → Option Walk
unfolding walk_round
walk zero bytes w = none
walk (suc fuel) bytes w = elim (leb (w.offset + 8) (length bytes)) [
  | false ↦ some w
  | true ↦ elim (walk_round bytes w) [
    | none ↦ none
    | some (next, goes_on) ↦ elim goes_on [ true ↦ walk fuel bytes next | false ↦ some next ]
  ]
]

-- The checks behind the walk.
pub first_fault : List ℕ → ℕ → Walk → Option Reason
first_fault bytes num_channels w =
    if not w.found_fmt || not w.found_data
    then some missing_chunk
    else if not (w.format == 1)
    then some non_pcm
    else if not (w.channels == 2 * num_channels % 2 ^ 16)
    then some channel_mismatch
    else if not (w.bits_per_sample == 24)
    then some bit_depth
    else if ltb (length bytes) (w.data_offset + w.data_size)
    then some truncated
    else none

-- juce::jlimit (-8388607, 8388607, v)
abbrev pub clamp_24 : ℤ → ℤ
clamp_24 v =
    if ltb_ℤ v (negsuc 8388606)
    then negsuc 8388606
    else if ltb_ℤ (pos 8388607) v
    then pos 8388607
    else v

module _ {F : Type 0} (to_float : ℤ → F) where
  -- `n` samples from offset `i` on.
  pub read_samples : List ℕ → ℕ → ℕ → Option (List F)
  read_samples bytes i zero = some []
  read_samples bytes i (suc n) = do
    raw ← sample24_to_int32 bytes i
    rest ← read_samples bytes (i + 3) n
    some (to_float (clamp_24 raw) ∷ rest)

  pub read_frames : List ℕ → ℕ → ℕ → ℕ → ℕ → Option (List (Frame F))
  unfolding read_samples
  read_frames bytes num_channels bytes_per_frame i zero = some []
  read_frames bytes num_channels bytes_per_frame i (suc n) = do
    dry ← read_samples bytes i num_channels
    wet ← read_samples bytes (i + num_channels * 3) num_channels
    rest ← read_frames bytes num_channels bytes_per_frame (i + bytes_per_frame) n
    some (record { dry = dry; wet = wet } ∷ rest)

  -- `%` and `/` by 0 are undefined in C++.
  pub read_data : List ℕ → ℕ → Walk → Option (Outcome F)
  unfolding read_frames
  read_data bytes num_channels w =
      let bytes_per_frame = w.channels * 3 in
      if bytes_per_frame == 0
      then none
      else if w.data_size % bytes_per_frame == 0
      then Option.map decoded (
          read_frames bytes num_channels bytes_per_frame w.data_offset
            (w.data_size / bytes_per_frame))
      else some (rejected partial_frame)

  pub check_and_read : List ℕ → ℕ → Walk → Option (Outcome F)
  unfolding first_fault read_data
  check_and_read bytes num_channels w = elim (first_fault bytes num_channels w) [
    | some reason ↦ some (rejected reason)
    | none ↦ read_data bytes num_channels w
  ]

  pub read_bytes : List ℕ → ℕ → Option (Outcome F)
  unfolding walk check_and_read
  read_bytes bytes num_channels = do
    riff ← has_tag bytes 0 82 73 70 70
    wave ← has_tag bytes 8 87 65 86 69
    if not riff || not wave
        then some (rejected bad_magic)
        else do w ← walk (suc (length bytes)) bytes walk_start; check_and_read bytes num_channels w

  -- The file as JUCE gives it, if it opens: the bytes, and what `read` returns for a size. An `int` is
  -- its 32 bits, so that one from `2 ^ 31` on is negative.
  pub read_dry_wet : Option (List ℕ × (ℕ → ℕ)) → ℤ → Option (Outcome F)
  unfolding read_bytes
  read_dry_wet file (negsuc _) = some (rejected invalid_channel_count)
  read_dry_wet file (pos num_channels) =
      if num_channels == 0 then some (rejected invalid_channel_count) else elim file [
        | none ↦ some (rejected failed_to_open)
        | some (bytes, read) ↦
            let bytes_read : ℕ = read (length bytes % 2 ^ 32) % 2 ^ 32 in
            if ltb (length bytes) 44
            then some (rejected too_small)
            else if leb (2 ^ 31) bytes_read || not (bytes_read == length bytes)
            then some (rejected short_read)
            else read_bytes bytes num_channels
      ]
