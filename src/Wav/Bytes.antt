-- ===== src/Wav/Bytes.antt =====
-- Little-endian bytes: the helpers of source/capture/AudioBuffer.cpp and
-- source/analysis/WavCaptureReader.cpp. A byte is a number below 256; `|` of bytes that are shifted
-- apart is their sum. A read past the end of a vector is `none`.
use plugin_lab.Prelude.{
  ℕ, suc, ◌+◌, ◌-◌, ◌*◌, ◌/◌, ◌%◌, ◌^◌, ◌<◌, ◌≡◌, refl, Bool, ◌&&◌, List, [], ◌∷◌, ◌++◌, Option,
  none, some, get_elem?, length, arith, ltb, ◌==◌, if◌then◌else◌, zero,
}
use plugin_lab.Prelude.Int.{ℤ, pos, negsuc, ◌≤ℤ◌}

infixl 5 ◌>>=◌
abbrev pub ◌>>=◌ {ℓ κ} : {A : Type ℓ} {B : Type κ} → Option A → (A → Option B) → Option B
none >>= f = none
some a >>= f = f a

unfoldable pub write_u16_le : ℕ → List ℕ
write_u16_le value = value % 256 ∷ value / 256 % 256 ∷ []

unfoldable pub write_u32_le : ℕ → List ℕ
write_u32_le value =
    value % 256 ∷ value / 256 % 256 ∷ value / 2 ^ 16 % 256 ∷ value / 2 ^ 24 % 256 ∷ []

unfoldable pub read_u16_le : List ℕ → ℕ → Option ℕ
read_u16_le bytes i = do a ← get_elem? bytes i; b ← get_elem? bytes (i + 1); some (a + b * 256)

unfoldable pub read_u32_le : List ℕ → ℕ → Option ℕ
read_u32_le bytes i = do
  a ← get_elem? bytes i
  b ← get_elem? bytes (i + 1)
  c ← get_elem? bytes (i + 2)
  d ← get_elem? bytes (i + 3)
  some (a + b * 256 + c * 2 ^ 16 + d * 2 ^ 24)

-- Does a tag of four bytes stand at offset `i`: hasMagic, and `memcmp` with a tag.
unfoldable pub has_tag : List ℕ → ℕ → ℕ → ℕ → ℕ → ℕ → Option Bool
has_tag bytes i t0 t1 t2 t3 = do
  a ← get_elem? bytes i
  b ← get_elem? bytes (i + 1)
  c ← get_elem? bytes (i + 2)
  d ← get_elem? bytes (i + 3)
  some (a == t0 && (b == t1 && (c == t2 && d == t3)))

-- The low 24 bits of an `int32_t` in two's complement.
unfoldable pub low_24 : ℤ → ℕ
low_24 (pos n) = n % 2 ^ 24
low_24 (negsuc n) = 2 ^ 24 - 1 - n % 2 ^ 24

-- The three bytes of a sample, as the writer's loop emits them.
unfoldable pub pcm_bytes : ℤ → List ℕ
unfolding low_24
pcm_bytes v = low_24 v % 256 ∷ low_24 v / 256 % 256 ∷ low_24 v / 2 ^ 16 % 256 ∷ []

-- Sign extension of bit 23.
unfoldable pub sign_extend : ℕ → ℤ
sign_extend value = if ltb value (2 ^ 23) then pos value else negsuc (2 ^ 24 - value - 1)

unfoldable pub sample24_to_int32 : List ℕ → ℕ → Option ℤ
unfolding sign_extend
sample24_to_int32 bytes i = do
  a ← get_elem? bytes i
  b ← get_elem? bytes (i + 1)
  c ← get_elem? bytes (i + 2)
  some (sign_extend (a + b * 256 + c * 2 ^ 16))

-- Three bytes hold every 24-bit two's complement number: the reader gets back what the writer put.
pub sample24-pcm_bytes :
    (v : ℤ) (rest : List ℕ)
    → negsuc (2 ^ 23 - 1) ≤ℤ v
    → v ≤ℤ pos (2 ^ 23 - 1)
    → sample24_to_int32 (pcm_bytes v ++ rest) 0 ≡ some v
unfolding sample24_to_int32 pcm_bytes
sample24-pcm_bytes (pos n) rest lo hi = ground arith
sample24-pcm_bytes (negsuc n) rest lo hi = ground arith

pub read_u32-write_u32 :
    (value : ℕ) (rest : List ℕ)
    → value < 2 ^ 32
    → read_u32_le (write_u32_le value ++ rest) 0 ≡ some value
unfolding read_u32_le write_u32_le
read_u32-write_u32 value rest h = ground arith

pub get_elem?-some {ℓ} :
    {A : Type ℓ} (xs : List A) (i : ℕ) → i < length xs → (x : A) × (get_elem? xs i ≡ some x)
get_elem?-some [] i h = elim h [ ]
get_elem?-some (x ∷ xs) zero h = (x, refl)
get_elem?-some (x ∷ xs) (suc i) h = get_elem?-some xs i (omega arith)
