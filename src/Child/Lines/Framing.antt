-- ===== src/Child/Lines/Framing.antt =====
-- The lines that the child writes come out as the lines that are queued.
use mathlib.Core.List.{append_assoc, append-nil, flatten}
use plugin_lab.Prelude.{
  ℕ, suc, ◌≤◌, ◌≡◌, ◌≢◌, refl, sym, ap, ◌∙◌, ◌⊎◌, inl, inr, List, [], ◌∷◌, ◌++◌, length, arith, All,
  Bool-cases, ltb,
}
use plugin_lab.Child.Lines.Bounds.{IsBounded}
use plugin_lab.Child.Lines.Newest.{
  keep_last, length-keep_last, keep_last-eq, keep_last-append, push_bounded_lem,
}
use plugin_lab.Child.Lines.Quiet.{
  view, IsPlain, quiet, consume_from-view, quiet-append, quiet-plain,
}
use plugin_lab.Child.Lines.{
  Utf8, LineBuffer, Text, max_line_bytes, max_last_log_lines, max_queued_lines, on_line,
  consume_byte, consume_bytes, strip_cr, c_str, end_line,
}

strip_cr-plain : (bytes : List ℕ) → IsPlain bytes → strip_cr bytes ≡ bytes
unfolding strip_cr
strip_cr-plain [] v = refl
strip_cr-plain (b ∷ []) v = ground arith
strip_cr-plain (b ∷ c ∷ bs) v = ground (arith, strip_cr-plain (c ∷ bs) v.1)

strip_cr-append : (bytes : List ℕ) → strip_cr (bytes ++ (13 ∷ [])) ≡ bytes
unfolding strip_cr
strip_cr-append [] = refl
strip_cr-append (b ∷ []) = refl
strip_cr-append (b ∷ c ∷ bs) = ap (◌∷◌ b) (strip_cr-append (c ∷ bs))

c_str-plain : (bytes : List ℕ) → IsPlain bytes → c_str bytes ≡ bytes
unfolding c_str
c_str-plain [] v = refl
c_str-plain (b ∷ bs) v = ground (arith, c_str-plain bs v.1)

-- The two ends of a line.
pub data Ending : Type 0 where
  lf crlf : Ending

abbrev pub terminator : Ending → List ℕ
terminator lf = 10 ∷ []
terminator crlf = 13 ∷ 10 ∷ []

-- Lines as a byte stream.
abbrev pub encoded : List (List ℕ × Ending) → List ℕ
encoded [] = []
encoded ((line, ending) ∷ rest) = line ++ (terminator ending ++ encoded rest)

abbrev pub IsFrame : List ℕ × Ending → Type 0
IsFrame (line, ending) = IsPlain line × (line ≢ []) × (length line ≤ max_line_bytes)

module _ (u : Utf8) where
  -- The buffer after whole lines, if it starts between two lines.
  abbrev queued : LineBuffer → List Text → LineBuffer
  queued b lines = record b {
    line_queue = keep_last max_queued_lines (b.line_queue ++ lines);
    last_log_lines = keep_last max_last_log_lines (b.last_log_lines ++ lines);
  }

  abbrev decoded : List (List ℕ × Ending) → List Text
  decoded [] = []
  decoded ((line, _) ∷ rest) = u.decode line ∷ decoded rest

  record IsReady (b : LineBuffer) : Type 0 where
    nothing_pending : b.pending_bytes ≡ []
    quiet_heartbeat : b.last_heartbeat_ms ≡ 0
    queue_le : length b.line_queue ≤ max_queued_lines
    log_le : length b.last_log_lines ≤ max_last_log_lines

  on_line-queued :
      (b : LineBuffer) (line : Text)
      → IsReady b
      → line ≢ []
      → on_line 0 b line ≡ queued b (line ∷ [])
  unfolding on_line
  on_line-queued b [] v h = absurd (h refl)
  on_line-queued b (c ∷ cs) v h = ground (
    arith,
    push_bounded_lem max_queued_lines b.line_queue (c ∷ cs) v.queue_le,
    push_bounded_lem max_last_log_lines b.last_log_lines (c ∷ cs) v.log_le,
  )

  quiet-filled :
      (b : LineBuffer) (line : List ℕ)
      → IsReady b
      → IsFrame (line, lf)
      → quiet u b line ≡ record b { pending_bytes = line }
  quiet-filled b line v h =
      quiet-plain u b line h.0 (omega (arith, ap length v.nothing_pending))
      ∙ ap (λ p. record b { pending_bytes = p ++ line }) v.nothing_pending

  on_line-pending :
      (b : LineBuffer) (pend : List ℕ) (line : Text)
      → record (on_line 0 (record b { pending_bytes = pend }) line) { pending_bytes = [] }
        ≡ on_line 0 (record b { pending_bytes = [] }) line
  unfolding on_line
  on_line-pending b pend [] = refl
  on_line-pending b pend (c ∷ cs) = refl

  -- The newline, when the accumulator holds a line but for its carriage return.
  newline-queued :
      (b : LineBuffer) (pend : List ℕ) (c : ℕ) (cs : List ℕ)
      → IsReady b
      → IsPlain (c ∷ cs)
      → strip_cr pend ≡ c ∷ cs
      → consume_byte u 0 (record b { pending_bytes = pend }) 10 ≡ queued b (u.decode (c ∷ cs) ∷ [])
  unfolding consume_byte
  newline-queued b pend c cs v plain e =
      let filled : LineBuffer = record b { pending_bytes = pend } in
      let ended : end_line u 0 filled (strip_cr pend) ≡ on_line 0 filled (u.decode (c ∷ cs)) =
        rw (e, end_line, c_str-plain (c ∷ cs) plain) refl in
      ap (λ (x : LineBuffer). record x { pending_bytes = [] }) ended
      ∙ on_line-pending b pend (u.decode (c ∷ cs))
      ∙ ap (λ p. on_line 0 (record b { pending_bytes = p }) (u.decode (c ∷ cs)))
          (sym v.nothing_pending)
      ∙ on_line-queued b (u.decode (c ∷ cs)) v (u.decode_ne_nil c cs)

  return_kept :
      (b : LineBuffer) (line : List ℕ)
      → let filled : LineBuffer = record b { pending_bytes = line } in
        (consume_byte u 0 filled 13 ≡ record b { pending_bytes = line ++ (13 ∷ []) })
        ⊎ (consume_byte u 0 filled 13 ≡ filled)
  unfolding consume_byte
  return_kept b line = elim (Bool-cases (ltb (length line) max_line_bytes)) [
    | inl room ↦ inl (rw (room, consume_byte) refl)
    | inr full ↦ inr (rw (full, consume_byte) refl)
  ]

  quiet-line :
      (b : LineBuffer) (line : List ℕ) (ending : Ending)
      → IsReady b
      → IsFrame (line, ending)
      → quiet u b (line ++ terminator ending) ≡ queued b (u.decode line ∷ [])
  unfolding quiet
  quiet-line b [] ending v h = absurd (h.1 refl)
  quiet-line b (c ∷ cs) lf v h =
      quiet-append u b (c ∷ cs) (10 ∷ [])
      ∙ ap (λ x. quiet u x (10 ∷ [])) (quiet-filled b (c ∷ cs) v h)
      ∙ newline-queued b (c ∷ cs) c cs v h.0 (strip_cr-plain (c ∷ cs) h.0)
  quiet-line b (c ∷ cs) crlf v h =
      let line : List ℕ = c ∷ cs in
      let start : quiet u b (line ++ (13 ∷ 10 ∷ []))
          ≡ quiet u (record b { pending_bytes = line }) (13 ∷ 10 ∷ []) =
        quiet-append u b line (13 ∷ 10 ∷ [])
        ∙ ap (λ x. quiet u x (13 ∷ 10 ∷ [])) (quiet-filled b line v h) in
      elim (return_kept b line) [
        | inl kept ↦
            start
            ∙ ap (λ x. consume_byte u 0 x 10) kept
            ∙ newline-queued b (line ++ (13 ∷ [])) c cs v h.0 (strip_cr-append line)
        | inr full ↦
            start
            ∙ ap (λ x. consume_byte u 0 x 10) full
            ∙ newline-queued b line c cs v h.0 (strip_cr-plain line h.0)
      ]

  queued-IsReady : (b : LineBuffer) (lines : List Text) → IsReady b → IsReady (queued b lines)
  queued-IsReady b lines v = record {
    nothing_pending = v.nothing_pending;
    quiet_heartbeat = v.quiet_heartbeat;
    queue_le = length-keep_last max_queued_lines (b.line_queue ++ lines);
    log_le = length-keep_last max_last_log_lines (b.last_log_lines ++ lines);
  }

  queued-nil : (b : LineBuffer) → IsReady b → queued b [] ≡ b
  queued-nil b v = ground (
    arith,
    keep_last-eq max_queued_lines b.line_queue v.queue_le,
    keep_last-eq max_last_log_lines b.last_log_lines v.log_le,
    append-nil b.line_queue,
    append-nil b.last_log_lines,
  )

  queued-queued :
      (b : LineBuffer) (xs ys : List Text) → queued (queued b xs) ys ≡ queued b (xs ++ ys)
  queued-queued b xs ys = ground (
    arith,
    keep_last-append max_queued_lines (b.line_queue ++ xs) ys,
    keep_last-append max_last_log_lines (b.last_log_lines ++ xs) ys,
    append_assoc b.line_queue xs ys,
    append_assoc b.last_log_lines xs ys,
  )

  quiet-encoded :
      (b : LineBuffer) (frames : List (List ℕ × Ending))
      → IsReady b
      → All IsFrame frames
      → quiet u b (encoded frames) ≡ queued b (decoded frames)
  unfolding quiet
  quiet-encoded b [] v h = sym (queued-nil b v)
  quiet-encoded b ((line, ending) ∷ rest) v h =
      ap (quiet u b) (sym (append_assoc line (terminator ending) (encoded rest)))
      ∙ quiet-append u b (line ++ terminator ending) (encoded rest)
      ∙ ap (λ x. quiet u x (encoded rest)) (quiet-line b line ending v h.0)
      ∙ quiet-encoded (queued b (u.decode line ∷ [])) rest (queued-IsReady b _ v) h.1
      ∙ queued-queued b (u.decode line ∷ []) (decoded rest)

  -- The chunks that the reads return, one after the other; `clock k` is the clock of chunk `k`.
  pub consume_chunks : (ℕ → ℕ → ℕ) → ℕ → LineBuffer → List (List ℕ) → LineBuffer
  consume_chunks clock k b [] = b
  consume_chunks clock k b (chunk ∷ chunks) =
      consume_chunks clock (suc k) (consume_bytes u (clock k) b chunk) chunks

  consume_chunks-view :
      (clock : ℕ → ℕ → ℕ) (k : ℕ) (b : LineBuffer) (chunks : List (List ℕ))
      → view (consume_chunks clock k b chunks) ≡ quiet u (view b) (flatten chunks)
  unfolding consume_chunks consume_bytes quiet flatten
  consume_chunks-view clock k b [] = refl
  consume_chunks-view clock k b (chunk ∷ chunks) =
      consume_chunks-view clock (suc k) (consume_bytes u (clock k) b chunk) chunks
      ∙ ap (λ x. quiet u x (flatten chunks)) (consume_from-view u (clock k) 0 b chunk)
      ∙ sym (quiet-append u (view b) chunk (flatten chunks))

  -- However the byte stream of whole lines is cut into chunks, with either line ending, exactly these
  -- lines come out in order: the queue and the log end in the newest lines that they have room for,
  -- and nothing stays pending. Lines are not empty, at most 1 MiB long and hold no newline, carriage
  -- return or NUL.
  pub framing :
      (clock : ℕ → ℕ → ℕ) (b : LineBuffer) (chunks : List (List ℕ))
      (frames : List (List ℕ × Ending))
      → IsBounded b
      → b.pending_bytes ≡ []
      → All IsFrame frames
      → flatten chunks ≡ encoded frames
      → let out = consume_chunks clock 0 b chunks in
        (out.pending_bytes ≡ [])
        × (out.line_queue ≡ keep_last max_queued_lines (b.line_queue ++ decoded frames))
        × (out.last_log_lines ≡ keep_last max_last_log_lines (b.last_log_lines ++ decoded frames))
  framing clock b chunks frames v ready fits same =
      let start : IsReady (view b) = record {
        nothing_pending = ready;
        quiet_heartbeat = refl;
        queue_le = v.queued;
        log_le = v.logged;
      } in
      let whole : view (consume_chunks clock 0 b chunks) ≡ queued (view b) (decoded frames) =
        consume_chunks-view clock 0 b chunks
        ∙ ap (quiet u (view b)) same
        ∙ quiet-encoded (view b) frames start fits in
      (
        ap (λ x. x.pending_bytes) whole ∙ ready,
        ap (λ x. x.line_queue) whole,
        ap (λ x. x.last_log_lines) whole,
      )
