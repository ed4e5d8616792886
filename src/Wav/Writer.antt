-- ===== src/Wav/Writer.antt =====
-- The bytes of the mirror file of source/capture/AudioBuffer.cpp: its header of 44 bytes and the
-- interleaved samples. A frame is the `2 * numChannels` samples of one moment, dry ones first.
use plugin_lab.Prelude.{
  ℕ, ◌+◌, ◌*◌, ◌%◌, ◌^◌, ◌≡◌, refl, List, [], ◌∷◌, ◌++◌, length, length-append, arith, All,
}
use plugin_lab.Prelude.Int.{ℤ}
use plugin_lab.Wav.Bytes.{write_u16_le, write_u32_le, pcm_bytes}

-- What writeWavHeader reads of the rate: the casts of `sampleRate` and of
-- `sampleRate * bytesPerFrame` to `uint32_t`.
pub record RateFields : Type 0 where
  pub sample_rate : ℕ
  pub byte_rate : ℕ

-- writeWavHeader; "RIFF", "WAVE", "fmt " and "data" are the tags.
unfoldable pub wav_header : ℕ → RateFields → ℕ → List ℕ
unfolding write_u16_le write_u32_le
wav_header num_channels rate data_size =
    let total_channels = 2 * num_channels % 2 ^ 32 in
    let bytes_per_frame = total_channels * 3 % 2 ^ 32 in
    82
    ∷ 73
    ∷ 70
    ∷ 70
    ∷ (write_u32_le ((data_size + 36) % 2 ^ 32)
        ++ (87
            ∷ 65
            ∷ 86
            ∷ 69
            ∷ 102
            ∷ 109
            ∷ 116
            ∷ 32
            ∷ (write_u32_le 16
                ++ (write_u16_le 1
                    ++ (write_u16_le (total_channels % 2 ^ 16)
                        ++ (write_u32_le rate.sample_rate
                            ++ (write_u32_le rate.byte_rate
                                ++ (write_u16_le (bytes_per_frame % 2 ^ 16)
                                    ++ (write_u16_le 24
                                        ++ (100
                                            ∷ 97
                                            ∷ 116
                                            ∷ 97
                                            ∷ write_u32_le (data_size % 2 ^ 32)))))))))))

-- The conversion loop of flush, over the frames and in each over the channels.
abbrev pub frame_bytes : List ℤ → List ℕ
frame_bytes [] = []
frame_bytes (v ∷ vs) = pcm_bytes v ++ frame_bytes vs

-- One moment: the samples of the dry channels and of the wet ones.
pub record Frame (F : Type 0) : Type 0 where
  pub dry : List F
  pub wet : List F

abbrev pub data_bytes : List (Frame ℤ) → List ℕ
data_bytes [] = []
data_bytes (f ∷ fs) = frame_bytes (f.dry ++ f.wet) ++ data_bytes fs

-- Every frame has `n` dry and `n` wet samples.
abbrev pub HaveChannels : {F : Type 0} → ℕ → List (Frame F) → Type 0
HaveChannels n = All λ f. (length f.dry ≡ n) × (length f.wet ≡ n)

pub length-wav_header :
    (num_channels : ℕ) (rate : RateFields) (data_size : ℕ)
    → length (wav_header num_channels rate data_size) ≡ 44
unfolding wav_header
length-wav_header num_channels rate data_size = refl

pub length-frame_bytes : (f : List ℤ) → length (frame_bytes f) ≡ 3 * length f
unfolding pcm_bytes
length-frame_bytes [] = refl
length-frame_bytes (v ∷ vs) = omega (arith, length-frame_bytes vs)

pub length-data_bytes :
    (n : ℕ) (fs : List (Frame ℤ))
    → HaveChannels n fs
    → length (data_bytes fs) ≡ 2 * n * 3 * length fs
length-data_bytes n [] h = omega arith
length-data_bytes n (f ∷ fs) h = omega (
  arith,
  length-data_bytes n fs h.1,
  length-append (frame_bytes (f.dry ++ f.wet)) (data_bytes fs),
  length-frame_bytes (f.dry ++ f.wet),
  length-append f.dry f.wet,
)
