-- ===== src/Signal/Burst/Reference.antt =====
-- What a tone burst is, with no state: for each level the tone for the length of a burst, and then
-- silence for the length of a gap.
use native.Mathlib.Nat.{suc-mul, add_comm}
use plugin_lab.Prelude.{
  ℕ, zero, suc, ◌+◌, ◌*◌, ◌<◌, ◌≤◌, ltb, leb, List, [], ◌∷◌, ◌++◌, none, some, length, get_elem?,
  ◌≡◌, refl, sym, ap, ◌∙◌, arith, if-intro, if◌then◌else◌,
}
use plugin_lab.Signal.Burst.{Tone, ToneBurst, reset, advance, next_sample, generate}

module _ (o : Tone) where
  open o use {Sample, Level}

  abbrev tones : Level → ℕ → ℕ → List Sample
  tones level start zero = []
  tones level start (suc n) = o.tone level start ∷ tones level (suc start) n

  abbrev silences : ℕ → List Sample
  silences zero = []
  silences (suc n) = o.silence ∷ silences n

  abbrev pub bursts : ℕ → ℕ → List Level → ℕ → List Sample
  bursts burst gap [] start = []
  bursts burst gap (level ∷ levels) start =
      tones level start burst ++ silences gap ++ bursts burst gap levels (start + (burst + gap))

  -- Blocks of any sizes, one after the other, are one block.
  generate_add :
      (m n : ℕ) (b : ToneBurst o)
      → let first = generate o m b in
        let second = generate o n first.1 in generate o (m + n) b ≡ (first.0 ++ second.0, second.1)
  unfolding generate
  generate_add zero n b = let same : 0 + n ≡ n = omega arith in ap (λ k. generate o k b) same
  generate_add (suc m) n b =
      let same : suc m + n ≡ suc (m + n) = omega arith in
      let c : ToneBurst o = (next_sample o b).1 in
      ap (λ k. generate o k b) same
      ∙ ap {B = List Sample × ToneBurst o} (λ r. ((next_sample o b).0 ∷ r.0, r.1))
          (generate_add m n c)

  -- The state after some samples of a burst with its gap.
  abbrev at : ToneBurst o → ℕ → ℕ → ℕ → ToneBurst o
  at b index position current = record b {
    current_burst_index = index;
    position_in_burst = position;
    current_sample = current;
  }

  -- The samples from a position in a burst on.
  abbrev rest_of : ToneBurst o → Level → ℕ → ℕ → ℕ → List Sample
  rest_of b level position current zero = []
  rest_of b level position current (suc r) =
      (if ltb position b.burst_len then o.tone level current else o.silence)
      ∷ rest_of b level (suc position) (suc current) r

  next_in_level :
      (b : ToneBurst o) (level : Level) (index position current : ℕ)
      → get_elem? b.levels index ≡ some level
      → next_sample o (at b index position current) ≡ (
        if ltb position b.burst_len then o.tone level current else o.silence,
        advance o (at b index position current),
      )
  unfolding next_sample
  next_in_level b level index position current there =
      ap {B = Sample × ToneBurst o}
        (λ q. elim q [
          | none ↦
              (o.silence, record (at b index position current) { current_sample = suc current })
          | some l ↦ (
            if ltb position b.burst_len then o.tone l current else o.silence,
            advance o (at b index position current),
          )
        ])
        there

  advance_last :
      (b : ToneBurst o) (index position current : ℕ)
      → suc position ≡ b.burst_len + b.gap_len
      → advance o (at b index position current) ≡ at b (suc index) 0 (suc current)
  unfolding advance
  advance_last b index position current e =
      if-intro (λ t. t ≡ at b (suc index) 0 (suc current))
        (leb (b.burst_len + b.gap_len) (suc position)) _ _ (λ _. refl)
        (λ late. absurd (ground (arith, e, late)))

  advance_within :
      (b : ToneBurst o) (index position current : ℕ)
      → suc position < b.burst_len + b.gap_len
      → advance o (at b index position current) ≡ at b index (suc position) (suc current)
  unfolding advance
  advance_within b index position current e =
      if-intro (λ t. t ≡ at b index (suc position) (suc current))
        (leb (b.burst_len + b.gap_len) (suc position)) _ _
        (λ late. absurd (ground (arith, e, late))) (λ _. refl)

  generate_level :
      (b : ToneBurst o) (level : Level) (index r position current : ℕ)
      → get_elem? b.levels index ≡ some level
      → position + suc r ≡ b.burst_len + b.gap_len
      → generate o (suc r) (at b index position current)
        ≡ (rest_of b level position current (suc r), at b (suc index) 0 (current + suc r))
  unfolding generate
  generate_level b level index zero position current there last =
      ap {B = List Sample × ToneBurst o} (λ q. (q.0 ∷ [], q.1))
        (next_in_level b level index position current there)
      ∙ ap {B = List Sample × ToneBurst o} (λ t. (rest_of b level position current 1, t))
          (advance_last b index position current (omega arith))
      ∙ ap {B = List Sample × ToneBurst o}
          (λ c. (rest_of b level position current 1, at b (suc index) 0 c)) (omega arith)
  generate_level b level index (suc r) position current there more =
      let x : Sample = if ltb position b.burst_len then o.tone level current else o.silence in
      let sum : suc current + suc r ≡ current + suc (suc r) = omega arith in
      ap {B = List Sample × ToneBurst o}
        (λ q. let (ys, u) = generate o (suc r) q.1 in (q.0 ∷ ys, u))
        (next_in_level b level index position current there)
      ∙ ap {B = List Sample × ToneBurst o} (λ t. let (ys, u) = generate o (suc r) t in (x ∷ ys, u))
          (advance_within b index position current (omega arith))
      ∙ ap {B = List Sample × ToneBurst o} (λ q. (x ∷ q.0, q.1))
          (generate_level b level index r (suc position) (suc current) there (omega arith))
      ∙ ap {B = List Sample × ToneBurst o}
          (λ c. (rest_of b level position current (suc (suc r)), at b (suc index) 0 c)) sum

  rest_silences :
      (b : ToneBurst o) (level : Level) (r position current : ℕ)
      → b.burst_len ≤ position
      → rest_of b level position current r ≡ silences r
  rest_silences b level zero position current e = refl
  rest_silences b level (suc r) position current e =
      let rest : rest_of b level (suc position) (suc current) r ≡ silences r =
        rest_silences b level r (suc position) (suc current) (omega arith) in
      if-intro (λ x. x ∷ rest_of b level (suc position) (suc current) r ≡ silences (suc r))
        (ltb position b.burst_len) _ _ (λ early. absurd (ground (arith, e, early)))
        (λ _. ap (λ xs. o.silence ∷ xs) rest)

  rest_level :
      (b : ToneBurst o) (level : Level) (n r m position current : ℕ)
      → position + n ≡ b.burst_len
      → m ≡ n + r
      → rest_of b level position current m ≡ tones level current n ++ silences r
  rest_level b level zero r m position current at_end size =
      let same : m ≡ r = omega arith in
      ap (λ k. rest_of b level position current k) same
      ∙ rest_silences b level r position current (omega arith)
  rest_level b level (suc n) r zero position current more size = absurd (omega arith)
  rest_level b level (suc n) r (suc m) position current more size =
      let rest : rest_of b level (suc position) (suc current) m
          ≡ tones level (suc current) n ++ silences r =
        rest_level b level n r m (suc position) (suc current) (omega arith) (omega arith) in
      if-intro
        (λ x.
          x ∷ rest_of b level (suc position) (suc current) m
          ≡ tones level current (suc n) ++ silences r)
        (ltb position b.burst_len) _ _ (λ _. ap (λ xs. o.tone level current ∷ xs) rest)
        (λ late. absurd (ground (arith, more, late)))

  -- One whole burst with its gap.
  generate_burst :
      (b : ToneBurst o) (level : Level) (index current : ℕ)
      → 0 < b.burst_len + b.gap_len
      → get_elem? b.levels index ≡ some level
      → generate o (b.burst_len + b.gap_len) (at b index 0 current) ≡ (
        tones level current b.burst_len ++ silences b.gap_len,
        at b (suc index) 0 (current + (b.burst_len + b.gap_len)),
      )
  generate_burst b level index current positive there = go (b.burst_len + b.gap_len) refl
    where
      go :
          (t : ℕ)
          → t ≡ b.burst_len + b.gap_len
          → generate o t (at b index 0 current) ≡ (
            tones level current b.burst_len ++ silences b.gap_len,
            at b (suc index) 0 (current + t),
          )
      go zero e = absurd (omega arith)
      go (suc r) e =
          generate_level b level index r 0 current there (omega arith)
          ∙ ap {B = List Sample × ToneBurst o} (λ xs. (xs, at b (suc index) 0 (current + suc r)))
              (rest_level b level b.burst_len b.gap_len (suc r) 0 current (omega arith) e)

  generate_bursts :
      (b : ToneBurst o) (rest : List Level) (index current : ℕ)
      → 0 < b.burst_len + b.gap_len
      → ((k : ℕ) → get_elem? b.levels (index + k) ≡ get_elem? rest k)
      → (generate o (length rest * (b.burst_len + b.gap_len)) (at b index 0 current)).0
        ≡ bursts b.burst_len b.gap_len rest current
  unfolding generate
  generate_bursts b [] index current positive there =
      let none_left : 0 * (b.burst_len + b.gap_len) ≡ 0 = omega arith in
      ap (λ k. (generate o k (at b index 0 current)).0) none_left
  generate_bursts b (level ∷ rest) index current positive there =
      let t : ℕ = b.burst_len + b.gap_len in
      let split : suc (length rest) * t ≡ t + length rest * t =
        suc-mul (length rest) t ∙ add_comm (length rest * t) t in
      let start : index ≡ index + 0 = omega arith in
      let next : (k : ℕ) → suc index + k ≡ index + suc k = λ k. omega arith in
      let here : get_elem? b.levels index ≡ some level =
        ap (λ k. get_elem? b.levels k) start ∙ there 0 in
      ap (λ k. (generate o k (at b index 0 current)).0) split
      ∙ ap (λ r. r.0) (generate_add t (length rest * t) (at b index 0 current))
      ∙ ap (λ q. q.0 ++ (generate o (length rest * t) q.1).0)
          (generate_burst b level index current positive here)
      ∙ ap (λ xs. (tones level current b.burst_len ++ silences b.gap_len) ++ xs)
          (generate_bursts b rest (suc index) (current + t) positive
            (λ k. ap (λ i. get_elem? b.levels i) (next k) ∙ there (suc k)))

  -- From the reset, the samples are the bursts of the levels in turn, each with its gap, if a burst and
  -- its gap are not empty.
  generate_lem :
      (b : ToneBurst o)
      → 0 < b.burst_len + b.gap_len
      → (generate o (length b.levels * (b.burst_len + b.gap_len)) (reset o b)).0
        ≡ bursts b.burst_len b.gap_len b.levels 0
  unfolding reset
  generate_lem b positive =
      let start : (k : ℕ) → 0 + k ≡ k = λ k. omega arith in
      generate_bursts b b.levels 0 0 positive (λ k. ap (λ i. get_elem? b.levels i) (start k))

  -- From the reset, the samples are the bursts of the levels in turn, each with its gap, if a burst and
  -- its gap are not empty; and where the signal is cut into two blocks makes no difference.
  pub generate_blocks :
      (b : ToneBurst o) (m n : ℕ)
      → 0 < b.burst_len + b.gap_len
      → m + n ≡ length b.levels * (b.burst_len + b.gap_len)
      → let first = generate o m (reset o b) in
        first.0 ++ (generate o n first.1).0 ≡ bursts b.burst_len b.gap_len b.levels 0
  generate_blocks b m n positive size =
      sym (ap (λ r. r.0) (generate_add m n (reset o b)))
      ∙ ap (λ k. (generate o k (reset o b)).0) size
      ∙ generate_lem b positive
