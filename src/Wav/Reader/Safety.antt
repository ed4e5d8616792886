-- ===== src/Wav/Reader/Safety.antt =====
-- readDryWet of source/analysis/WavCaptureReader.cpp on arbitrary bytes.
use plugin_lab.Prelude.{
  ℕ, zero, suc, ◌+◌, ◌*◌, ◌/◌, ◌%◌, ◌^◌, ◌≤◌, ◌<◌, ◌≡◌, ◌&&◌, not, ◌||◌, refl, ap, Bool, true,
  false, inl, inr, List, [], ◌∷◌, Option, none, some, length, arith, leb, ltb, ◌==◌, Bool-cases,
  Option-cases,
}
use plugin_lab.Prelude.Int.{ℤ, pos}
use plugin_lab.Wav.Bytes.{
  read_u16_le, read_u32_le, has_tag, sample24_to_int32, sign_extend, get_elem?-some,
}
use plugin_lab.Wav.Reader.{
  rejected, decoded, partial_frame, bad_magic, invalid_channel_count, failed_to_open, too_small,
  short_read, Walk, walk_start, advance, read_fmt, read_chunk, walk_round, walk, first_fault,
  clamp_24, read_samples, read_frames, read_data, check_and_read, read_bytes, read_dry_wet,
}

-- The computation is defined.
abbrev pub Returns {ℓ} : {A : Type ℓ} → Option A → Type ℓ
Returns {A} o = (a : A) × (o ≡ some a)

read_u16_le-Returns :
    (bytes : List ℕ) (i : ℕ) → i + 2 ≤ length bytes → Returns (read_u16_le bytes i)
unfolding read_u16_le
read_u16_le-Returns bytes i h =
    let (a, ea) = get_elem?-some bytes i (omega arith) in
    let (b, eb) = get_elem?-some bytes (i + 1) (omega arith) in (a + b * 256, ground arith)

read_u32_le-Returns :
    (bytes : List ℕ) (i : ℕ) → i + 4 ≤ length bytes → Returns (read_u32_le bytes i)
unfolding read_u32_le
read_u32_le-Returns bytes i h =
    let (a, ea) = get_elem?-some bytes i (omega arith) in
    let (b, eb) = get_elem?-some bytes (i + 1) (omega arith) in
    let (c, ec) = get_elem?-some bytes (i + 2) (omega arith) in
    let (d, ed) = get_elem?-some bytes (i + 3) (omega arith) in
    (a + b * 256 + c * 2 ^ 16 + d * 2 ^ 24, ground arith)

has_tag-Returns :
    (bytes : List ℕ) (i t0 t1 t2 t3 : ℕ)
    → i + 4 ≤ length bytes
    → Returns (has_tag bytes i t0 t1 t2 t3)
unfolding has_tag
has_tag-Returns bytes i t0 t1 t2 t3 h =
    let (a, ea) = get_elem?-some bytes i (omega arith) in
    let (b, eb) = get_elem?-some bytes (i + 1) (omega arith) in
    let (c, ec) = get_elem?-some bytes (i + 2) (omega arith) in
    let (d, ed) = get_elem?-some bytes (i + 3) (omega arith) in
    (a == t0 && (b == t1 && (c == t2 && d == t3)), rw (ea, eb, ec, ed) refl)

read_fmt-Returns :
    (bytes : List ℕ) (w : Walk)
    → (out : Walk × Bool) × (read_fmt bytes w ≡ some out) × (out.0.offset ≡ w.offset)
unfolding read_fmt
read_fmt-Returns bytes w = elim (Bool-cases (ltb (length bytes) (w.offset + 8 + 16))) [
  | inl short ↦ ((w, false), rw (short, read_fmt) refl, refl)
  | inr room ↦
      let (f, ef) = read_u16_le-Returns bytes (w.offset + 8) (ground arith) in
      let (c, ec) = read_u16_le-Returns bytes (w.offset + 8 + 2) (ground arith) in
      let (b, eb) = read_u16_le-Returns bytes (w.offset + 8 + 14) (ground arith) in
      let next : Walk = record w {
        format = f;
        channels = c;
        bits_per_sample = b;
        found_fmt = true;
      } in
      ((next, true), rw (room, read_fmt, ef, ec, eb) refl, refl)
]

read_chunk-Returns :
    (bytes : List ℕ) (w : Walk) (chunk_size : ℕ)
    → w.offset + 8 ≤ length bytes
    → (out : Walk × Bool) × (read_chunk bytes w chunk_size ≡ some out) × (out.0.offset ≡ w.offset)
unfolding read_chunk
read_chunk-Returns bytes w chunk_size h =
    let (f, ef) = has_tag-Returns bytes w.offset 102 109 116 32 (omega arith) in
    let (d, ed) = has_tag-Returns bytes w.offset 100 97 116 97 (omega arith) in
    elim (Bool-cases f) [
      | inl is_fmt ↦ let (out, e, same) = read_fmt-Returns bytes w in (out, ground (arith), same)
      | inr other ↦ elim (Bool-cases d) [
        | inl is_data ↦ (
          (
            record w { data_offset = w.offset + 8; data_size = chunk_size; found_data = true },
            true,
          ),
          ground arith,
          refl,
        )
        | inr rest ↦ ((w, true), ground arith, refl)
      ]
    ]

-- The 32-bit sum does not wrap, since the chunk is no longer than the file.
advance_lt :
    (bytes : List ℕ) (w next : Walk) (size : ℕ)
    → length bytes < 2 ^ 31
    → size ≤ length bytes
    → next.offset ≡ w.offset
    → w.offset < (advance next size).offset
advance_lt bytes w next size small fits same = omega arith

walk_round-Returns :
    (bytes : List ℕ) (w : Walk)
    → length bytes < 2 ^ 31
    → w.offset + 8 ≤ length bytes
    → (out : Walk × Bool) × (walk_round bytes w ≡ some out)
      × (out.1 ≡ true → w.offset < out.0.offset)
unfolding walk_round
walk_round-Returns bytes w small h =
    let (size, es) = read_u32_le-Returns bytes (w.offset + 4) (omega arith) in
    let (out, e, same) = read_chunk-Returns bytes w size h in
    elim (Bool-cases (ltb (length bytes) size)) [
      | inl large ↦ ((w, false), ground arith, λ c. cc)
      | inr fits ↦ elim (Bool-cases out.1) [
        | inl goes_on ↦ (
          (advance out.0 size, true),
          ground arith,
          λ c. advance_lt bytes w out.0 size small (ground arith) same,
        )
        | inr stops ↦ ((out.0, false), ground arith, λ c. cc)
      ]
    ]

-- Every round of the walk moves the offset on, so `length bytes + 1` rounds are enough.
walk-Returns :
    (fuel : ℕ) (bytes : List ℕ) (w : Walk)
    → length bytes < 2 ^ 31
    → 0 < fuel
    → length bytes < w.offset + fuel
    → Returns (walk fuel bytes w)
unfolding walk
walk-Returns zero bytes w small p h = elim p [ ]
walk-Returns (suc fuel) bytes w small p h = elim (Bool-cases (leb (w.offset + 8) (length bytes))) [
  | inr ends ↦ (w, rw (ends, walk) refl)
  | inl more ↦
      let (out, e, later) = walk_round-Returns bytes w small (ground arith) in
      elim (Bool-cases out.1) [
        | inr stops ↦ (out.0, rw (more, walk, e, stops) refl)
        | inl goes_on ↦
            let (last, el) =
              walk-Returns fuel bytes out.0 small (ground arith) (omega (arith, later goes_on)) in
            (last, rw (more, walk, e, goes_on) el)
      ]
]

suc-eq-zero : (n : ℕ) → (suc n == 0) ≡ false
suc-eq-zero n = ground arith

module _ {F : Type 0} (to_float : ℤ → F) where
  read_samples-Returns :
      (bytes : List ℕ) (i n : ℕ)
      → i + n * 3 ≤ length bytes
      → Returns (read_samples to_float bytes i n)
  unfolding read_samples sample24_to_int32
  read_samples-Returns bytes i zero h = ([], refl)
  read_samples-Returns bytes i (suc n) h =
      let (a, ea) = get_elem?-some bytes i (omega arith) in
      let (b, eb) = get_elem?-some bytes (i + 1) (omega arith) in
      let (c, ec) = get_elem?-some bytes (i + 2) (omega arith) in
      let (rest, er) = read_samples-Returns bytes (i + 3) n (omega arith) in
      (
        to_float (clamp_24 (sign_extend (a + b * 256 + c * 2 ^ 16))) ∷ rest,
        rw (ea, eb, ec, er) refl,
      )

  read_frames-Returns :
      (bytes : List ℕ) (num_channels i n : ℕ)
      → i + n * (2 * num_channels * 3) ≤ length bytes
      → Returns (read_frames to_float bytes num_channels (2 * num_channels * 3) i n)
  unfolding read_frames
  read_frames-Returns bytes num_channels i zero h = ([], refl)
  read_frames-Returns bytes num_channels i (suc n) h =
      let size : ℕ = 2 * num_channels * 3 in
      let (dry, ed) = read_samples-Returns bytes i num_channels (omega arith) in
      let (wet, ew) =
        read_samples-Returns bytes (i + num_channels * 3) num_channels (omega arith) in
      let (rest, er) = read_frames-Returns bytes num_channels (i + size) n (omega arith) in
      (record { dry = dry; wet = wet } ∷ rest, rw (ed, ew, er) refl)

  -- What the checks before the data leave: the channel count, and data inside the file.
  first_fault-none :
      (bytes : List ℕ) (num_channels : ℕ) (w : Walk)
      → num_channels < 2 ^ 15
      → first_fault bytes num_channels w ≡ none
      → (w.channels ≡ 2 * num_channels) × (w.data_offset + w.data_size ≤ length bytes)
  unfolding first_fault
  first_fault-none bytes num_channels w small h = ground arith

  read_data-Returns :
      (bytes : List ℕ) (num_channels : ℕ) (w : Walk)
      → 0 < num_channels
      → w.channels ≡ 2 * num_channels
      → w.data_offset + w.data_size ≤ length bytes
      → Returns (read_data to_float bytes num_channels w)
  unfolding read_data
  read_data-Returns bytes num_channels w p e h =
      let size : ℕ = 2 * num_channels * 3 in
      let same : w.channels * 3 ≡ size = ap (λ c. c * 3) e in
      let (frames, ef) =
        read_frames-Returns bytes num_channels w.data_offset (w.data_size / size) (grind arith) in
      elim (Bool-cases (w.data_size % size == 0)) [
        | inl whole ↦ (decoded frames, rw (read_data, same) (ground (arith, ef)))
        | inr partial ↦ (rejected partial_frame, rw (read_data, same) (ground (arith)))
      ]

  check_and_read-Returns :
      (bytes : List ℕ) (num_channels : ℕ) (w : Walk)
      → 0 < num_channels
      → num_channels < 2 ^ 15
      → Returns (check_and_read to_float bytes num_channels w)
  unfolding check_and_read
  check_and_read-Returns bytes num_channels w p small =
      elim (Option-cases (first_fault bytes num_channels w)) [
        | inr (reason, fault) ↦ (rejected reason, rw (fault, check_and_read) refl)
        | inl fine ↦
            let (same, inside) = first_fault-none bytes num_channels w small fine in
            let (out, eo) = read_data-Returns bytes num_channels w p same inside in
            (out, rw (fine, check_and_read) eo)
      ]

  read_bytes-Returns :
      (bytes : List ℕ) (num_channels : ℕ)
      → 0 < num_channels
      → num_channels < 2 ^ 15
      → 44 ≤ length bytes
      → length bytes < 2 ^ 31
      → Returns (read_bytes to_float bytes num_channels)
  unfolding read_bytes
  read_bytes-Returns bytes num_channels p small h int =
      let (riff, er) = has_tag-Returns bytes 0 82 73 70 70 (omega arith) in
      let (wave, ew) = has_tag-Returns bytes 8 87 65 86 69 (omega arith) in
      let (w, e) =
        walk-Returns (suc (length bytes)) bytes walk_start int (omega arith) (omega arith) in
      elim (Bool-cases (not riff || not wave)) [
        | inl bad ↦ (rejected bad_magic, rw (er, ew, bad) refl)
        | inr magic ↦
            let (out, eo) = check_and_read-Returns bytes num_channels w p small in
            (out, rw (er, ew, magic, e) eo)
      ]

  -- On every file, whatever its bytes and its size and whatever `read` returns, and for every channel count up to 32767, the reader returns:
  -- it reads no byte outside the file, divides by no 0, and its walk over the chunks ends within as
  -- many rounds as the file has bytes and one more.
  pub read_dry_wet-Returns :
      (file : Option (List ℕ × (ℕ → ℕ))) (num_channels : ℕ)
      → num_channels < 2 ^ 15
      → Returns (read_dry_wet to_float file (pos num_channels))
  unfolding read_dry_wet
  read_dry_wet-Returns file zero small = (rejected invalid_channel_count, refl)
  read_dry_wet-Returns none (suc n) small = (rejected failed_to_open, ground arith)
  read_dry_wet-Returns (some (bytes, read)) (suc n) small =
      let bytes_read : ℕ = read (length bytes % 2 ^ 32) % 2 ^ 32 in
      elim (Bool-cases (ltb (length bytes) 44)) [
        | inl short ↦ (rejected too_small, rw (suc-eq-zero n, short) refl)
        | inr long ↦
            elim (Bool-cases (leb (2 ^ 31) bytes_read || not (bytes_read == length bytes))) [
              | inr whole ↦
                  let (out, e) =
                    read_bytes-Returns bytes (suc n) (omega arith) small (ground arith)
                      (ground arith) in
                  (out, rw (suc-eq-zero n, long, whole) e)
              | inl part ↦ (rejected short_read, rw (suc-eq-zero n, long, part) refl)
            ]
      ]
