-- ===== src/Prelude/Sort.antt =====
-- `std::stable_sort` by an integer key, as an insertion sort: equal keys keep their order.
use mathlib.Core.List.Perm
use plugin_lab.Prelude.{
  ◌≡◌, refl, inl, inr, Bool, true, false, List, [], ◌∷◌, Perm, arith, All, filter, Bool-cases,
}
use plugin_lab.Prelude.Int.{ℤ, ◌≤ℤ◌, leb_ℤ, eq_ℤ}

module _ {A : Type 0} (key : A → ℤ) where
  unfoldable pub insert : A → List A → List A
  insert x [] = x ∷ []
  insert x (y ∷ ys) = elim (leb_ℤ (key x) (key y)) [ true ↦ x ∷ y ∷ ys | false ↦ y ∷ insert x ys ]

  unfoldable pub stable_sort : List A → List A
  unfolding insert
  stable_sort [] = []
  stable_sort (x ∷ xs) = insert x (stable_sort xs)

  abbrev pub IsSorted : List A → Type 0
  IsSorted [] = Unit
  IsSorted (x ∷ xs) = All (λ y. key x ≤ℤ key y) xs × IsSorted xs

  All-mono : (a b : ℤ) (xs : List A) → a ≤ℤ b → All (λ y. b ≤ℤ key y) xs → All (λ y. a ≤ℤ key y) xs
  All-mono a b [] h v = tt
  All-mono a b (x ∷ xs) h v = (omega arith, All-mono a b xs h v.1)

  All-insert :
      (a : ℤ) (x : A) (xs : List A)
      → a ≤ℤ key x
      → All (λ y. a ≤ℤ key y) xs
      → All (λ y. a ≤ℤ key y) (insert x xs)
  unfolding insert
  All-insert a x [] h v = (h, tt)
  All-insert a x (y ∷ ys) h v = ground (arith, All-insert a x ys h v.1)

  insert-IsSorted : (x : A) (xs : List A) → IsSorted xs → IsSorted (insert x xs)
  unfolding insert
  insert-IsSorted x [] v = (tt, tt)
  insert-IsSorted x (y ∷ ys) v =
      ground (arith, insert-IsSorted x ys v.1, All-insert (key y) x ys, All-mono (key x) (key y) ys)

  pub stable_sort-IsSorted : (xs : List A) → IsSorted (stable_sort xs)
  unfolding stable_sort
  stable_sort-IsSorted [] = tt
  stable_sort-IsSorted (x ∷ xs) = insert-IsSorted x _ (stable_sort-IsSorted xs)

  insert-perm : (x : A) (xs : List A) → Perm (insert x xs) (x ∷ xs)
  unfolding insert
  insert-perm x [] = Perm.refl _
  insert-perm x (y ∷ ys) = elim (Bool-cases (leb_ℤ (key x) (key y))) [
    | inl e ↦ rw (e, insert) (Perm.refl _)
    | inr e ↦ rw (e, insert) (Perm.trans (Perm.cons y (insert-perm x ys)) (Perm.swap x y ys))
  ]

  pub stable_sort-perm : (xs : List A) → Perm (stable_sort xs) xs
  unfolding stable_sort
  stable_sort-perm [] = Perm.refl _
  stable_sort-perm (x ∷ xs) =
      Perm.trans (insert-perm x (stable_sort xs)) (Perm.cons x (stable_sort-perm xs))

  abbrev pub has_key : ℤ → A → Bool
  has_key k a = eq_ℤ (key a) k

  insert_stable :
      (k : ℤ) (x : A) (xs : List A) → filter (has_key k) (insert x xs) ≡ filter (has_key k) (x ∷ xs)
  unfolding insert
  insert_stable k x [] = refl
  insert_stable k x (y ∷ ys) = ground (arith, insert_stable k x ys)

  -- Elements with one key stay in their order.
  pub stable_sort_stable :
      (k : ℤ) (xs : List A) → filter (has_key k) (stable_sort xs) ≡ filter (has_key k) xs
  unfolding stable_sort
  stable_sort_stable k [] = refl
  stable_sort_stable k (x ∷ xs) =
      ground (arith, insert_stable k x (stable_sort xs), stable_sort_stable k xs)
