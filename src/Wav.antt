-- ===== src/Wav.antt =====
-- The capture mirror file: 24-bit interleaved PCM in a RIFF/WAVE container, as
-- source/capture/AudioBuffer.cpp writes it and source/analysis/WavCaptureReader.cpp reads it.
pub mod Bytes
pub mod Writer
pub mod Reader
mod Tests
