-- ===== src/Child/Lines/Quiet.antt =====
-- The byte stream without its clock: consumeBytes of source/host/ChildProcessCoordinator.cpp sets
-- the same lines whatever the time is.
use mathlib.Core.List.{append_assoc, append-nil}
use plugin_lab.Prelude.{
  ℕ, suc, ◌+◌, ◌≤◌, ◌≡◌, ◌≢◌, refl, sym, ap, ◌∙◌, List, [], ◌∷◌, ◌++◌, length, length-append, arith,
  All,
}
use plugin_lab.Child.Lines.{
  Utf8, LineBuffer, Text, max_line_bytes, on_line, consume_byte, consume_from, strip_cr, end_line,
}

-- What consumeBytes does apart from the time of the last line.
abbrev pub view : LineBuffer → LineBuffer
view b = record b { last_heartbeat_ms = 0 }

-- A line as the child may send it: no terminator, carriage return or NUL inside.
abbrev pub IsPlain : List ℕ → Type 0
IsPlain = All λ b. (b ≢ 10) × (b ≢ 13) × (b ≢ 0)

module _ (u : Utf8) where
  -- The same with a clock that stands still.
  unfoldable pub quiet : LineBuffer → List ℕ → LineBuffer
  quiet b [] = b
  quiet b (byte ∷ bytes) = quiet (consume_byte u 0 b byte) bytes

  on_line-view :
      (now : ℕ) (b : LineBuffer) (line : Text) → view (on_line now b line) ≡ on_line 0 (view b) line
  unfolding on_line
  on_line-view now b [] = refl
  on_line-view now b (c ∷ cs) = refl

  end_line-view :
      (now : ℕ) (b : LineBuffer) (bytes : List ℕ)
      → view (end_line u now b bytes) ≡ end_line u 0 (view b) bytes
  unfolding end_line
  end_line-view now b [] = refl
  end_line-view now b (c ∷ cs) = on_line-view now b _

  consume_byte-view :
      (now : ℕ) (b : LineBuffer) (byte : ℕ)
      → view (consume_byte u now b byte) ≡ consume_byte u 0 (view b) byte
  unfolding consume_byte
  consume_byte-view now b byte = ground (arith, end_line-view now b (strip_cr b.pending_bytes))

  pub consume_from-view :
      (clock : ℕ → ℕ) (i : ℕ) (b : LineBuffer) (bytes : List ℕ)
      → view (consume_from u clock i b bytes) ≡ quiet (view b) bytes
  unfolding consume_from quiet
  consume_from-view clock i b [] = refl
  consume_from-view clock i b (byte ∷ bytes) =
      consume_from-view clock (suc i) (consume_byte u (clock i) b byte) bytes
      ∙ ap (λ c. quiet c bytes) (consume_byte-view (clock i) b byte)

  pub quiet-append : (b : LineBuffer) (xs ys : List ℕ) → quiet b (xs ++ ys) ≡ quiet (quiet b xs) ys
  unfolding quiet
  quiet-append b [] ys = refl
  quiet-append b (x ∷ xs) ys = quiet-append (consume_byte u 0 b x) xs ys

  pub quiet-plain :
      (b : LineBuffer) (xs : List ℕ)
      → IsPlain xs
      → length b.pending_bytes + length xs ≤ max_line_bytes
      → quiet b xs ≡ record b { pending_bytes = b.pending_bytes ++ xs }
  unfolding quiet consume_byte
  quiet-plain b [] v h = ap (λ p. record b { pending_bytes = p }) (sym (append-nil b.pending_bytes))
  quiet-plain b (x ∷ xs) v h =
      let next : LineBuffer = record b { pending_bytes = b.pending_bytes ++ (x ∷ []) } in
      let size = length-append b.pending_bytes (x ∷ []) in
      let first : consume_byte u 0 b x ≡ next = ground arith in
      ap (λ c. quiet c xs) first
      ∙ quiet-plain next xs v.1 (omega (arith, size))
      ∙ ap (λ p. record b { pending_bytes = p }) (append_assoc b.pending_bytes (x ∷ []) xs)
