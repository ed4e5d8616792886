-- ===== src/Wav/Tests.antt =====
-- The capture mirror file of source/capture/AudioBuffer.cpp and source/analysis/WavCaptureReader.cpp:
-- the theorems at inputs.
use plugin_lab.Prelude.{◌<◌, ◌+◌, ◌^◌, ◌≡◌, refl, List, [], ◌∷◌, ◌++◌, some, length, arith, All}
use plugin_lab.Prelude.Int.{ℤ, pos, negsuc}
use plugin_lab.Wav.Bytes.{pcm_bytes}
use plugin_lab.Wav.Writer.{Frame, RateFields, HaveChannels, wav_header, data_bytes}
use plugin_lab.Wav.Reader.{decoded, read_dry_wet}
use plugin_lab.Wav.Reader.Safety.{Returns, read_dry_wet-Returns}
use plugin_lab.Wav.Reader.RoundTrip.{IsPcm, read-written}

abbrev cd_rate : RateFields
cd_rate = record { sample_rate = 44100; byte_rate = 264_600 }

-- Two moments of one channel, dry and wet.
abbrev two_frames : List (Frame ℤ)
two_frames =
    record { dry = pos 1 ∷ []; wet = negsuc 0 ∷ [] }
    ∷ record { dry = pos 8388607 ∷ []; wet = negsuc 8388606 ∷ [] }
    ∷ []

two_frames-HaveChannels : HaveChannels 1 two_frames
two_frames-HaveChannels = ground arith

two_frames-IsPcm : All (λ f. All IsPcm (f.dry ++ f.wet)) two_frames
two_frames-IsPcm = ground arith

two_frames-fit : length (data_bytes two_frames) + 44 < 2 ^ 31
unfolding pcm_bytes
two_frames-fit = omega arith

-- A header that promises six bytes, and four bytes.
read_dry_wet-Returns_example :
    Returns (
      read_dry_wet (λ v. v) (some (wav_header 1 cd_rate 6 ++ (1 ∷ 2 ∷ 3 ∷ 4 ∷ []), λ n. n)) (pos 1))
read_dry_wet-Returns_example =
    read_dry_wet-Returns (λ v. v) (some (wav_header 1 cd_rate 6 ++ (1 ∷ 2 ∷ 3 ∷ 4 ∷ []), λ n. n)) 1
      (omega arith)

read-written_example :
    read_dry_wet
      (λ v. v)
      (some
        (wav_header 1 cd_rate (length (data_bytes two_frames)) ++ data_bytes two_frames, λ n. n))
      (pos 1)
    ≡ some (decoded two_frames)
read-written_example =
    read-written (λ v. v) 1 cd_rate two_frames (λ n. n) (λ n _. refl) (omega arith) (omega arith)
      two_frames-fit two_frames-HaveChannels two_frames-IsPcm
