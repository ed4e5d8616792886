-- ===== src/Child/Lines/Newest.antt =====
-- The bounded buffers of source/host/ChildProcessCoordinator.cpp keep the newest elements.
use plugin_lab.Prelude.{
  ℕ, zero, suc, ◌+◌, ◌-◌, ◌≤◌, ◌≡◌, refl, sym, ap, ◌∙◌, inl, inr, List, [], ◌∷◌, ◌++◌, length,
  length-append, drop, drop-add, length-drop, arith, Bool-cases, ltb,
}
use plugin_lab.Child.Lines.{pop_front, push_bounded}

-- The newest `n` elements.
abbrev pub keep_last {ℓ} : {A : Type ℓ} → ℕ → List A → List A
keep_last n xs = drop (length xs - n) xs

drop-append {ℓ} :
    {A : Type ℓ} (k : ℕ) (xs ys : List A) → k ≤ length xs → drop k xs ++ ys ≡ drop k (xs ++ ys)
drop-append zero xs ys h = refl
drop-append (suc k) [] ys h = absurd (omega arith)
drop-append (suc k) (x ∷ xs) ys h = drop-append k xs ys (omega arith)

pub keep_last-append {ℓ} :
    {A : Type ℓ} (n : ℕ) (xs ys : List A)
    → keep_last n (keep_last n xs ++ ys) ≡ keep_last n (xs ++ ys)
keep_last-append n xs ys =
    let k : ℕ = length xs - n in
    let size : length (drop k xs ++ ys) ≡ length xs - k + length ys =
      omega (arith, length-append (drop k xs) ys, length-drop k xs) in
    ap (λ m. drop (m - n) (drop k xs ++ ys)) size
    ∙ ap (drop (length xs - k + length ys - n)) (drop-append k xs ys (omega arith))
    ∙ sym (drop-add k (length xs - k + length ys - n) (xs ++ ys))
    ∙ ap (λ m. drop m (xs ++ ys)) (omega (arith, length-append xs ys))

pub length-keep_last {ℓ} : {A : Type ℓ} (n : ℕ) (xs : List A) → length (keep_last n xs) ≤ n
length-keep_last n xs = omega (arith, length-drop (length xs - n) xs)

pub keep_last-eq {ℓ} : {A : Type ℓ} (n : ℕ) (xs : List A) → length xs ≤ n → keep_last n xs ≡ xs
keep_last-eq n xs h = ap (λ m. drop m xs) {y = 0} (omega arith)

pop_front_lem : {A : Type 0} (xs : List A) → pop_front xs ≡ drop 1 xs
unfolding pop_front
pop_front_lem [] = refl
pop_front_lem (x ∷ xs) = refl

pub push_bounded_lem :
    {A : Type 0} (n : ℕ) (xs : List A) (x : A)
    → length xs ≤ n
    → push_bounded n xs x ≡ keep_last n (xs ++ (x ∷ []))
unfolding push_bounded
push_bounded_lem n xs x h =
    let size : length (xs ++ (x ∷ [])) ≡ length xs + 1 = length-append xs (x ∷ []) in
    elim (Bool-cases (ltb n (length (xs ++ (x ∷ []))))) [
      | inl over ↦
          rw (over, push_bounded)
            (pop_front_lem (xs ++ (x ∷ []))
              ∙ ap (λ m. drop m (xs ++ (x ∷ []))) {x = 1} (ground (arith, size)))
      | inr fits ↦
          rw (fits, push_bounded) (ap (λ m. drop m (xs ++ (x ∷ []))) {x = 0} (ground (arith, size)))
    ]
