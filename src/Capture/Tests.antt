-- ===== src/Capture/Tests.antt =====
-- The theorems on source/capture/AudioBuffer.cpp at inputs.
use plugin_lab.Prelude.{
  ℕ, ◌+◌, ◌<◌, ◌≡◌, refl, Bool, true, false, List, [], ◌∷◌, ◌++◌, map, none, some, length, take,
  arith,
}
use plugin_lab.Prelude.Int.{ℤ, pos}
use plugin_lab.Wav.Bytes.{pcm_bytes}
use plugin_lab.Wav.Writer.{Frame, RateFields, wav_header, data_bytes}
use plugin_lab.Wav.Reader.{decoded, read_dry_wet}
use plugin_lab.Wav.Reader.RoundTrip.{IsPcm}
use plugin_lab.Capture.Stream.{Disk, IsDisk, overwrite}
use plugin_lab.Capture.{
  Samples, Block, Capture, pcm_of, trims, fit, moments, append, trim, run, flush, flush_frames,
  open_stream, patch_header, patch_size, finalise_wav, grow,
}
use plugin_lab.Capture.Mirror.{IsGood}
use plugin_lab.Capture.Mirror.Steps.{run-IsGood}
use plugin_lab.Capture.Memory.Append.{recorded, append_all}
use plugin_lab.Capture.Session.{IsCleared, append_all-content, session_reads_back}

-- A disk that never fails: the bytes of the file, and the position.
abbrev in_memory : Disk
in_memory = record {
  World = List ℕ × ℕ;
  delete_file = λ w. ([], 0);
  open_file = λ w. (w, true);
  write = λ bytes w. ((overwrite w.1 bytes w.0, w.1 + length bytes), true);
  set_position = λ at w. ((w.0, at), true);
  flush = λ w. w;
  close = λ w. w;
}

in_memory-IsDisk : IsDisk in_memory
in_memory-IsDisk = record {
  content = λ w. w.0;
  position = λ w. w.1;
  open_file-delete_file = λ w e. (refl, refl);
  content-write = λ bytes w room e. (refl, refl);
  content-set_position = λ at w e. (refl, refl);
  content-flush = λ w. (refl, refl);
  content-close = λ w. refl;
}

-- Samples are full scale or silence.
abbrev two_levels : Samples
two_levels = record {
  Sample = Bool;
  silence = false;
  to_pcm = λ b. elim b [ true ↦ pos 8388607 | false ↦ pos 0 ];
  next_power_of_two = λ n. n + n;
}

two_levels-IsPcm : (b : Bool) → IsPcm (two_levels.to_pcm b)
two_levels-IsPcm true = ground arith
two_levels-IsPcm false = ground arith

abbrev empty : Capture in_memory two_levels
empty = record {
  num_channels = 1;
  rate = record { sample_rate = 48000; byte_rate = 288_000 };
  flush_enabled = true;
  flush_interval = 2;
  frames = [];
  capacity = 4;
  total_samples = 0;
  last_flushed = 0;
  wav_data_bytes = 0;
  flush_failed = false;
  stream_open = false;
  disk = ([], 0);
  mirror = none;
}

empty-IsCleared : IsCleared in_memory two_levels two_levels-IsPcm empty
empty-IsCleared = record {
  no_frames = refl;
  no_total = refl;
  no_flushed = refl;
  closed = refl;
  clean = refl;
  no_file = refl;
}

-- A block of two moments, and one of one moment.
abbrev two_blocks : List (Block in_memory two_levels × ℕ)
two_blocks =
    (record { dry = (true ∷ []) ∷ (false ∷ []) ∷ []; wet = (false ∷ []) ∷ (true ∷ []) ∷ [] }, 2)
    ∷ (record { dry = (true ∷ []) ∷ []; wet = (true ∷ []) ∷ [] }, 1)
    ∷ []

abbrev three_frames : List (Frame ℤ)
three_frames =
    record { dry = pos 8388607 ∷ []; wet = pos 0 ∷ [] }
    ∷ record { dry = pos 0 ∷ []; wet = pos 8388607 ∷ [] }
    ∷ record { dry = pos 8388607 ∷ []; wet = pos 8388607 ∷ [] }
    ∷ []

-- None of the writes has failed.
no_failure :
    (trim in_memory two_levels (append_all in_memory two_levels empty two_blocks)).flush_failed
    ≡ false
unfolding trim append finalise_wav flush flush_frames open_stream patch_header patch_size grow
    moments
no_failure = refl

session_reads_back_example :
    read_dry_wet
      (λ x. x)
      (some (
        (trim in_memory two_levels (append_all in_memory two_levels empty two_blocks)).disk.0,
        λ n. n,
      ))
      (pos 1)
    ≡ some (decoded three_frames)
unfolding in_memory-IsDisk moments fit pcm_bytes
session_reads_back_example =
    session_reads_back in_memory two_levels two_levels-IsPcm (λ x. x) in_memory-IsDisk empty
      two_blocks (λ n. n) empty-IsCleared (λ n _. refl) refl (omega arith) (omega arith)
      (omega arith) (omega arith) (omega arith) (omega arith) no_failure

append_all-content_example :
    let frames = recorded in_memory two_levels 1 two_blocks in
    let out = append_all in_memory two_levels empty two_blocks in
    let flushed = map (pcm_of in_memory two_levels) (take out.last_flushed frames) in
    (out.frames ≡ frames)
    × (length frames < out.last_flushed + out.flush_interval)
    × (out.stream_open ≡ true
        → (rate : RateFields) × (out.disk.0
            ≡ wav_header 1 rate (length (data_bytes flushed)) ++ data_bytes flushed))
    × (out.stream_open ≡ false → out.last_flushed ≡ 0)
unfolding in_memory-IsDisk moments append flush flush_frames open_stream patch_header patch_size
    grow
append_all-content_example =
    append_all-content in_memory two_levels two_levels-IsPcm in_memory-IsDisk empty two_blocks
      empty-IsCleared refl (omega arith) (omega arith) refl

run-IsGood_example :
    IsGood in_memory in_memory-IsDisk two_levels
      (run in_memory two_levels empty (trims ∷ trims ∷ []))
run-IsGood_example =
    run-IsGood in_memory in_memory-IsDisk two_levels empty (trims ∷ trims ∷ []) (λ clean. refl)

abbrev full : Capture in_memory two_levels
full = record empty {
  flush_enabled = false;
  frames = record { dry = true ∷ []; wet = true ∷ [] } ∷ [];
  capacity = 1;
  total_samples = 1;
}
