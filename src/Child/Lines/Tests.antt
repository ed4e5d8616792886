-- ===== src/Child/Lines/Tests.antt =====
-- Runs of the line buffers of source/host/ChildProcessCoordinator.cpp, and their theorems at inputs.
use mathlib.Core.List.{flatten}
use plugin_lab.Prelude.{ℕ, ◌≡◌, ◌≢◌, refl, List, [], ◌∷◌, arith, All}
use plugin_lab.Child.Lines.{Utf8, LineBuffer}
use plugin_lab.Child.Lines.Bounds.{IsBounded}
use plugin_lab.Child.Lines.Framing.{Ending, lf, crlf, IsFrame, consume_chunks, framing}

-- ASCII: a byte is its character.
cons_ne_nil : (b : ℕ) (bs : List ℕ) → (b ∷ bs) ≢ []
cons_ne_nil b bs e = cc e

abbrev ascii : Utf8
ascii = record { decode = λ b. b; decode_ne_nil = cons_ne_nil }

abbrev empty_lines : LineBuffer
empty_lines = record {
  pending_bytes = [];
  line_queue = [];
  last_log_lines = [];
  last_heartbeat_ms = 0;
}

empty_lines-IsBounded : IsBounded empty_lines
empty_lines-IsBounded = record { pending = omega arith; queued = omega arith; logged = omega arith }

-- "hi\r\n!\n", cut inside the first line and between its two terminators.
abbrev cut : List (List ℕ)
cut = (104 ∷ []) ∷ (105 ∷ 13 ∷ []) ∷ (10 ∷ 33 ∷ 10 ∷ []) ∷ []

abbrev sent : List (List ℕ × Ending)
sent = (104 ∷ 105 ∷ [], crlf) ∷ (33 ∷ [], lf) ∷ []

sent-IsFrame : All IsFrame sent
sent-IsFrame = ground arith

framing_example :
    (consume_chunks ascii (λ k i. i) 0 empty_lines cut).line_queue
    ≡ (104 ∷ 105 ∷ []) ∷ (33 ∷ []) ∷ []
unfolding flatten
framing_example =
    (framing ascii (λ k i. i) empty_lines cut sent empty_lines-IsBounded refl sent-IsFrame refl).1
