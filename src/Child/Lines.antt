-- ===== src/Child/Lines.antt =====
-- The byte stream of the child's stdout, cut into lines (consumeBytes), and the two bounded buffers
-- of lines (onLine, popLine, lastLogSummary) of source/host/ChildProcessCoordinator.cpp.
-- A juce::String is the list of its characters, and JUCE's reading of UTF-8 is a parameter.
pub mod Bounds
pub mod Newest
pub mod Quiet
pub mod Framing
mod Tests
use plugin_lab.Prelude.{
  ℕ, suc, ◌+◌, ◌≢◌, List, [], ◌∷◌, ◌++◌, Option, none, some, length, ltb, ◌==◌, if◌then◌else◌,
}

abbrev pub max_line_bytes : ℕ
max_line_bytes = 1_048_576

abbrev pub max_last_log_lines : ℕ
max_last_log_lines = 8

abbrev pub max_log_summary_chars : ℕ
max_log_summary_chars = 512

abbrev pub max_queued_lines : ℕ
max_queued_lines = 1024

abbrev pub Text : Type 0
Text = List ℕ

-- `juce::String (juce::CharPointer_UTF8 (bytes))`, of bytes without a NUL. JUCE makes at least one
-- character of bytes that are not empty.
pub record Utf8 : Type 0 where
  pub decode : List ℕ → Text
  pub decode_ne_nil : (b : ℕ) (bs : List ℕ) → decode (b ∷ bs) ≢ []

-- What the reader thread writes: the accumulator `pendingBytes`, and the members that onLine sets.
pub record LineBuffer : Type 0 where
  pub pending_bytes : List ℕ
  pub line_queue : List Text
  pub last_log_lines : List Text
  pub last_heartbeat_ms : ℕ

-- `push_back`, and `pop_front` if the size is then above the limit.
pub pop_front {ℓ} : {A : Type ℓ} → List A → List A
pop_front [] = []
pop_front (x ∷ xs) = xs

pub push_bounded {ℓ} : {A : Type ℓ} → ℕ → List A → A → List A
unfolding pop_front
push_bounded limit xs x =
    let ys = xs ++ (x ∷ []) in if ltb limit (length ys) then pop_front ys else ys

pub on_line : ℕ → LineBuffer → Text → LineBuffer
on_line now b [] = b
on_line now b (c ∷ cs) = record b {
  last_heartbeat_ms = now;
  line_queue = push_bounded max_queued_lines b.line_queue (c ∷ cs);
  last_log_lines = push_bounded max_last_log_lines b.last_log_lines (c ∷ cs);
}

-- Drops one `\r` at the end.
pub strip_cr : List ℕ → List ℕ
strip_cr [] = []
strip_cr (b ∷ []) = if b == 13 then [] else b ∷ []
strip_cr (b ∷ c ∷ bs) = b ∷ strip_cr (c ∷ bs)

-- `c_str` ends at the first NUL.
pub c_str : List ℕ → List ℕ
c_str [] = []
c_str (b ∷ bs) = if b == 0 then [] else b ∷ c_str bs

-- popLine finds a line, or comes back empty-handed when its time is over.
pub pop_line : LineBuffer → LineBuffer × Option Text
pop_line b = elim b.line_queue [
  | [] ↦ (b, none)
  | line ∷ rest ↦ (record b { line_queue = rest }, some line)
]

module _ (u : Utf8) where
  end_line : ℕ → LineBuffer → List ℕ → LineBuffer
  end_line now b [] = b
  end_line now b (c ∷ cs) = on_line now b (u.decode (c_str (c ∷ cs)))

  -- The body of the loop of consumeBytes for one byte, at the time `now`.
  pub consume_byte : ℕ → LineBuffer → ℕ → LineBuffer
  unfolding strip_cr end_line
  consume_byte now b byte =
      if byte == 10
      then record (end_line now b (strip_cr b.pending_bytes)) { pending_bytes = [] }
      else if ltb (length b.pending_bytes) max_line_bytes
      then record b { pending_bytes = b.pending_bytes ++ (byte ∷ []) }
      else b

  -- `clock i` is the time when byte `i` of the chunk is looked at.
  pub consume_from : (ℕ → ℕ) → ℕ → LineBuffer → List ℕ → LineBuffer
  consume_from clock i b [] = b
  consume_from clock i b (byte ∷ bytes) =
      consume_from clock (suc i) (consume_byte (clock i) b byte) bytes

  pub consume_bytes : (ℕ → ℕ) → LineBuffer → List ℕ → LineBuffer
  unfolding consume_from
  consume_bytes clock b bytes = consume_from clock 0 b bytes

abbrev separator : Text
separator = 32 ∷ 124 ∷ 32 ∷ []

-- The loop of lastLogSummary; its `break` leaves the other lines out.
pub summary_loop : Text → ℕ → List Text → Text
summary_loop summary total_chars [] = summary
summary_loop summary total_chars (line ∷ lines) =
    let more =
      summary_loop (summary ++ (line ++ separator)) (total_chars + length line + 3) lines in
    if ltb max_log_summary_chars (total_chars + length line) then summary else more

abbrev pub no_output : Text
no_output =
    110 ∷ 111 ∷ 32 ∷ 111 ∷ 117 ∷ 116 ∷ 112 ∷ 117 ∷ 116 ∷ 32 ∷ 114 ∷ 101 ∷ 99 ∷ 101 ∷ 105 ∷ 118 ∷ 101
    ∷ 100 ∷ []

pub last_log_summary : LineBuffer → Text
unfolding summary_loop
last_log_summary b = elim b.last_log_lines [
  | [] ↦ no_output
  | line ∷ lines ↦ summary_loop [] 0 (line ∷ lines)
]
