-- ===== src/Child/Lines/Bounds.antt =====
-- No output of the child makes the buffers of lines grow past their limits.
use mathlib.Core.List.{append_assoc, append-nil}
use plugin_lab.Prelude.{
  ℕ, suc, ◌+◌, ◌≤◌, ◌≡◌, refl, List, [], ◌∷◌, ◌++◌, length, length-append, take, arith, sym, ap,
  ◌∙◌, ◌⊎◌, inl, inr, Bool-cases, ltb,
}
use plugin_lab.Child.Lines.{
  Utf8, LineBuffer, Text, max_line_bytes, max_last_log_lines, max_log_summary_chars,
  max_queued_lines, push_bounded, on_line, consume_byte, consume_from, consume_bytes, separator,
  summary_loop, last_log_summary, no_output, strip_cr, end_line,
}

pub record IsBounded (b : LineBuffer) : Type 0 where
  pub pending : length b.pending_bytes ≤ max_line_bytes
  pub queued : length b.line_queue ≤ max_queued_lines
  pub logged : length b.last_log_lines ≤ max_last_log_lines

length-push_bounded {ℓ} :
    {A : Type ℓ} (limit : ℕ) (xs : List A) (x : A)
    → length xs ≤ limit
    → length (push_bounded limit xs x) ≤ limit
unfolding push_bounded
length-push_bounded limit xs x h = ground (arith, length-append xs (x ∷ []))

on_line-IsBounded :
    (now : ℕ) (b : LineBuffer) (line : Text) → IsBounded b → IsBounded (on_line now b line)
unfolding on_line
on_line-IsBounded now b [] v = v
on_line-IsBounded now b (c ∷ cs) v = record {
  pending = v.pending;
  queued = length-push_bounded max_queued_lines b.line_queue (c ∷ cs) v.queued;
  logged = length-push_bounded max_last_log_lines b.last_log_lines (c ∷ cs) v.logged;
}

module _ (u : Utf8) where
  end_line-IsBounded :
      (now : ℕ) (b : LineBuffer) (bytes : List ℕ) → IsBounded b → IsBounded (end_line u now b bytes)
  unfolding end_line
  end_line-IsBounded now b [] v = v
  end_line-IsBounded now b (c ∷ cs) v = on_line-IsBounded now b _ v

  consume_byte-IsBounded :
      (now : ℕ) (b : LineBuffer) (byte : ℕ) → IsBounded b → IsBounded (consume_byte u now b byte)
  unfolding consume_byte
  consume_byte-IsBounded now b byte v = ground (
    arith,
    end_line-IsBounded now b (strip_cr b.pending_bytes) v,
    length-append b.pending_bytes (byte ∷ []),
  )

  consume_from-IsBounded :
      (clock : ℕ → ℕ) (i : ℕ) (b : LineBuffer) (bytes : List ℕ)
      → IsBounded b
      → IsBounded (consume_from u clock i b bytes)
  unfolding consume_from
  consume_from-IsBounded clock i b [] v = v
  consume_from-IsBounded clock i b (byte ∷ bytes) v =
      consume_from-IsBounded clock (suc i) _ bytes (consume_byte-IsBounded (clock i) b byte v)

  -- Whatever bytes the child writes, the pending line stays within 1 MiB, the queue of responses
  -- within 1024 lines and the log within 8.
  consume_bytes-IsBounded :
      (clock : ℕ → ℕ) (b : LineBuffer) (bytes : List ℕ)
      → IsBounded b
      → IsBounded (consume_bytes u clock b bytes)
  unfolding consume_bytes
  consume_bytes-IsBounded clock b bytes v = consume_from-IsBounded clock 0 b bytes v

-- The log lines, each with the separator behind it.
abbrev pub joined : List Text → Text
joined [] = []
joined (line ∷ lines) = line ++ (separator ++ joined lines)

abbrev IsSummary : Text → List Text → Text → Type 0
IsSummary summary lines out =
    (n : ℕ) × (out ≡ summary ++ joined (take n lines)) × (length out ≤ max_log_summary_chars + 3)

summary_loop_lem :
    (summary : Text) (total_chars : ℕ) (lines : List Text)
    → total_chars ≡ length summary
    → length summary ≤ max_log_summary_chars + 3
    → IsSummary summary lines (summary_loop summary total_chars lines)
unfolding summary_loop
summary_loop_lem summary total_chars [] e h = (0, sym (append-nil summary), h)
summary_loop_lem summary total_chars (line ∷ lines) e h =
    elim (Bool-cases (ltb max_log_summary_chars (total_chars + length line))) [
      | inl over ↦ rw over (0, sym (append-nil summary), h)
      | inr fits ↦
          let longer : Text = summary ++ (line ++ separator) in
          let size : length longer ≡ total_chars + length line + 3 =
            omega
              (arith, length-append summary (line ++ separator), length-append line separator) in
          let (n, same, short) =
            summary_loop_lem longer (total_chars + length line + 3) lines (sym size)
              (ground arith) in
          rw fits (
            suc n,
            same
                ∙ append_assoc summary (line ++ separator) (joined (take n lines))
                ∙ ap (◌++◌ summary) (append_assoc line separator (joined (take n lines))),
            short,
          )
    ]

-- The summary of a crash report is made of whole log lines, the oldest ones, and has at most 515
-- characters; with no log line it is the fixed text.
last_log_summary_lem :
    (b : LineBuffer)
    → ((b.last_log_lines ≡ []) × (last_log_summary b ≡ no_output))
      ⊎ ((n : ℕ) × (last_log_summary b ≡ joined (take n b.last_log_lines))
          × (length (last_log_summary b) ≤ 515))
unfolding last_log_summary
last_log_summary_lem b = by_lines b.last_log_lines refl
  where
    by_lines :
        (lines : List Text)
        → b.last_log_lines ≡ lines
        → ((b.last_log_lines ≡ []) × (last_log_summary b ≡ no_output))
          ⊎ ((n : ℕ) × (last_log_summary b ≡ joined (take n b.last_log_lines))
              × (length (last_log_summary b) ≤ 515))
    by_lines [] e = inl (e, rw (e, last_log_summary) refl)
    by_lines (line ∷ lines) e =
        inr (rw (e, last_log_summary) (summary_loop_lem [] 0 (line ∷ lines) refl (omega arith)))
