-- ===== src/Capture/Stream.antt =====
-- The file stream that source/capture/AudioBuffer.cpp writes to: juce::FileOutputStream without a
-- buffer, of one path.
use plugin_lab.Prelude.{ℕ, ◌+◌, ◌≤◌, ◌≡◌, Bool, true, List, [], ◌++◌, length, take, drop}

-- `false` is a failure: of the opening, of a write or of a seek.
pub record Disk : Type 1 where
  pub World : Type 0
  pub delete_file : World → World
  pub open_file : World → World × Bool
  pub write : List ℕ → World → World × Bool
  pub set_position : ℕ → World → World × Bool
  pub flush : World → World
  pub close : World → World

abbrev pub overwrite : ℕ → List ℕ → List ℕ → List ℕ
overwrite at bytes content = take at content ++ (bytes ++ drop (at + length bytes) content)

-- The documented behaviour of a call that succeeds, in terms of what the file holds and where the
-- stream stands.
pub record IsDisk (d : Disk) : Type 0 where
  pub content : d.World → List ℕ
  pub position : d.World → ℕ
  pub open_file-delete_file :
      (w : d.World)
      → (d.open_file (d.delete_file w)).1 ≡ true
      → let w' = (d.open_file (d.delete_file w)).0 in (content w' ≡ []) × (position w' ≡ 0)
  pub content-write :
      (bytes : List ℕ) (w : d.World)
      → position w ≤ length (content w)
      → (d.write bytes w).1 ≡ true
      → let w' = (d.write bytes w).0 in
        (content w' ≡ overwrite (position w) bytes (content w))
        × (position w' ≡ position w + length bytes)
  pub content-set_position :
      (at : ℕ) (w : d.World)
      → (d.set_position at w).1 ≡ true
      → let w' = (d.set_position at w).0 in (content w' ≡ content w) × (position w' ≡ at)
  pub content-flush :
      (w : d.World) → (content (d.flush w) ≡ content w) × (position (d.flush w) ≡ position w)
  pub content-close : (w : d.World) → content (d.close w) ≡ content w
