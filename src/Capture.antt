-- ===== src/Capture.antt =====
-- CaptureBuffer of source/capture/{AudioBuffer.h,AudioBuffer.cpp}: the recorded samples, and their
-- mirror in a WAV file that is brought up to date at every flush. JUCE's file stream is the interface
-- `Disk`; a sample is abstract, with its conversion to 24 bits. The two buffers are one list of frames
-- for the first `totalSamples` positions, since the code never reads the others.
pub mod Stream
pub mod Mirror
pub mod Memory
pub mod Session
mod Tests
use plugin_lab.Prelude.{
  ℕ, zero, suc, ◌+◌, ◌-◌, ◌%◌, ◌^◌, Bool, true, false, not, ◌||◌, ◌&&◌, List, [], ◌∷◌, ◌++◌, map,
  Option, none, some, length, drop, leb, ltb, ◌==◌, if◌then◌else◌,
}
use plugin_lab.Prelude.Int.{ℤ}
use plugin_lab.Wav.Bytes.{write_u32_le}
use plugin_lab.Wav.Writer.{Frame, RateFields, wav_header, data_bytes}
use plugin_lab.Capture.Stream.{Disk}

-- What the code uses of a sample: silence, and `static_cast<int32_t> (juce::jlimit (-1.0f, 1.0f, s) *
-- 8388607.0f)`; and juce::nextPowerOfTwo.
pub record Samples : Type 1 where
  pub Sample : Type 0
  pub silence : Sample
  pub to_pcm : Sample → ℤ
  pub next_power_of_two : ℕ → ℕ

module _ (d : Disk) (v : Samples) where
  open v use {Sample}

  -- One block that is handed to append: for each moment the samples of its channels.
  pub record Block : Type 0 where
    pub dry : List (List Sample)
    pub wet : List (List Sample)

  -- `mirror` is no field of the code, and no operation reads it but to extend it: it is the history of
  -- the file, the rate of its header and the frames that were written to it since. `capacity` is
  -- the length of the two buffers.
  pub record Capture : Type 0 where
    pub num_channels : ℕ
    pub rate : RateFields
    pub flush_enabled : Bool
    pub flush_interval : ℕ
    pub frames : List (Frame Sample)
    pub capacity : ℕ
    pub total_samples : ℕ
    pub last_flushed : ℕ
    pub wav_data_bytes : ℕ
    pub flush_failed : Bool
    pub stream_open : Bool
    pub disk : d.World
    pub mirror : Option (RateFields × List (Frame ℤ))

  -- Channels that the block does not have stay silent.
  pub fit : ℕ → List Sample → List Sample
  fit zero xs = []
  fit (suc n) [] = v.silence ∷ fit n []
  fit (suc n) (x ∷ xs) = x ∷ fit n xs

  -- The first `min (count, dry, wet)` moments of the block.
  pub moments : ℕ → ℕ → List (List Sample) → List (List Sample) → List (Frame Sample)
  unfolding fit
  moments n zero dry wet = []
  moments n (suc count) [] wet = []
  moments n (suc count) (x ∷ dry) [] = []
  moments n (suc count) (x ∷ dry) (y ∷ wet) =
      record { dry = fit n x; wet = fit n y } ∷ moments n count dry wet

  abbrev pub pcm_of : Frame Sample → Frame ℤ
  pcm_of f = record { dry = map v.to_pcm f.dry; wet = map v.to_pcm f.wet }

  -- juce::AudioBuffer::setSize without `keepExistingContent`, and with `clearExtraSpace`.
  abbrev pub cleared : ℕ → Frame Sample → Frame Sample
  cleared n f = record { dry = fit n []; wet = fit n [] }

  -- `setPosition (at) && write (4 bytes)`
  pub patch_size : ℕ → ℕ → d.World → d.World × Bool
  patch_size at size w =
      let (w1, found) = d.set_position at w in
      if found then d.write (write_u32_le (size % 2 ^ 32)) w1 else (w1, false)

  -- patchWavHeader; `false` is what sets `flushFailed`.
  pub patch_header : ℕ → d.World → d.World × Bool
  unfolding patch_size
  patch_header data_bytes w =
      let (w1, first) = patch_size 4 (data_bytes + 36) w in
      let (w2, second) = patch_size 40 data_bytes w1 in
      if first
      then if second then d.set_position (44 + data_bytes) w2 else (w2, false)
      else (w1, false)

  -- The stream is opened on the first flush; `false` if that fails. The placeholder header may fail
  -- to be written, and the code goes on.
  pub open_stream : Capture → Capture × Bool
  open_stream s =
      let (w, ok) = d.open_file (d.delete_file s.disk) in
      let (w1, headed) = d.write (wav_header s.num_channels s.rate 0) w in
      if s.stream_open
      then (s, true)
      else if ok
      then (
        record s {
          disk = w1;
          flush_failed = s.flush_failed || not headed;
          stream_open = true;
          wav_data_bytes = 0;
          mirror = some (s.rate, []);
        },
        true,
      )
      else (record s { disk = w; flush_failed = true; mirror = none }, false)

  abbrev pub add_frames :
      Option (RateFields × List (Frame ℤ)) → List (Frame ℤ) → Option (RateFields × List (Frame ℤ))
  add_frames none fs = none
  add_frames (some (rate, gs)) fs = some (rate, gs ++ fs)

  -- The new frames, converted and written behind the others, and the header patched; `mirror` only
  -- notes them.
  pub flush_frames : Capture → Capture
  unfolding patch_header
  flush_frames s =
      let fs = map pcm_of (drop s.last_flushed s.frames) in
      let size = s.wav_data_bytes + length (data_bytes fs) in
      let (w1, ok) = d.write (data_bytes fs) s.disk in
      let (w2, patched) = patch_header size w1 in
      if ok
      then record s {
        wav_data_bytes = size;
        last_flushed = s.total_samples;
        disk = d.flush w2;
        flush_failed = s.flush_failed || not patched;
        mirror = add_frames s.mirror fs;
      }
      else record s { disk = w1; flush_failed = true }

  pub flush : Capture → Capture
  unfolding open_stream flush_frames
  flush s =
      let (opened, ok) = open_stream s in
      if not s.flush_enabled || s.flush_failed
      then s
      else if leb s.total_samples s.last_flushed
      then s
      else if ok
      then flush_frames opened
      else opened

  pub finalise_wav : Capture → Capture
  unfolding patch_header
  finalise_wav s =
      let (w, patched) = patch_header s.wav_data_bytes s.disk in
      if s.stream_open
      then record s {
        disk = d.close (d.flush w);
        stream_open = false;
        flush_failed = s.flush_failed || not patched;
      }
      else s

  -- What a failure has left of the file is given up.
  pub clear : Capture → Capture
  unfolding flush finalise_wav
  clear s =
      let s1 = finalise_wav (flush s) in
      record s1 {
        frames = [];
        total_samples = 0;
        last_flushed = 0;
        wav_data_bytes = 0;
        flush_failed = false;
        mirror = if s1.flush_failed then none else s1.mirror;
      }

  -- The growth of the two buffers.
  pub grow : Capture → ℕ → Capture
  grow s required =
      if ltb s.capacity required
      then record s {
        frames = map (cleared s.num_channels) s.frames;
        capacity = v.next_power_of_two required;
      }
      else s

  pub append : Capture → Block → ℕ → Capture
  unfolding grow flush
  append s block num_samples =
      let new = moments s.num_channels num_samples block.dry block.wet in
      let grown = grow s (s.total_samples + length new) in
      let s1 = record grown {
        frames = grown.frames ++ new;
        total_samples = s.total_samples + length new;
      } in
      if length new == 0
      then s
      else if s1.flush_enabled
          && (not s1.flush_failed && leb s1.flush_interval (s1.total_samples - s1.last_flushed))
      then flush s1
      else s1

  pub trim : Capture → Capture
  unfolding flush finalise_wav
  trim s = let s1 = finalise_wav (flush s) in record s1 { capacity = s1.total_samples }

  -- `prepare (channels, ...)` for the number of channels that the buffer has already, as its only
  -- caller asks for; the capacity is 30 seconds.
  pub prepare : Capture → ℕ → Capture
  unfolding clear
  prepare s initial_size = record (clear s) { capacity = initial_size }

  -- setSampleRate, with the interval of the new rate.
  pub set_sample_rate : Capture → RateFields → ℕ → Capture
  set_sample_rate s rate interval = record s {
    rate = rate;
    flush_interval = if s.flush_enabled then interval else s.flush_interval;
  }

  -- A step of a history: the calls that SweepRunner makes.
  pub data Call : Type 0 where
    appends : Block → ℕ → Call
    trims clears : Call
    prepares : ℕ → Call
    sets_rate : RateFields → ℕ → Call

  pub step : Capture → Call → Capture
  unfolding append trim clear prepare set_sample_rate
  step s (appends block n) = append s block n
  step s trims = trim s
  step s clears = clear s
  step s (prepares initial_size) = prepare s initial_size
  step s (sets_rate rate interval) = set_sample_rate s rate interval

  pub run : Capture → List Call → Capture
  run s [] = s
  run s (c ∷ cs) = run (step s c) cs
