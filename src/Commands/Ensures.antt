-- ===== src/Commands/Ensures.antt =====
-- What holds after an action that succeeds.
use plugin_lab.Prelude.{Bool, true, false, Option, none, some, String, ◌≡◌, refl, arith}
use plugin_lab.Commands.Action.{Result, ok, err, Action, need, refuse_if, ◌>>=◌}

module _ {S : Type 0} where
  pub record Ensures {A : Type 0} (m : Action S A) (P : A → S → Type 0) : Type 0 where
    pub ensures : (s : S) (a : A) → (m s).0 ≡ ok a → P a (m s).1

  pub bind-Ensures :
      {A B : Type 0} (m : Action S A) (k : A → Action S B) {P : B → S → Type 0}
      → ((a : A) → Ensures (k a) P)
      → Ensures (m >>= k) P
  unfolding ◌>>=◌
  bind-Ensures {A} {B} m k {P} hk = record {
    ensures = λ s.
        let after : Result A → Result B × S =
          λ o. elim o as (λ _. Result B × S) [ ok a ↦ k a (m s).1 | err e ↦ (err e, (m s).1) ] in
        elim (m s).0 as (λ o. (b : B) → (after o).0 ≡ ok b → P b (after o).1) [
          | ok a ↦ (hk a).ensures (m s).1
          | err e ↦ λ b bad. absurd (ground arith)
        ];
  }

  -- The second action may rely on what the first ensures of its value.
  pub bind-Ensures-then :
      {A B : Type 0} (m : Action S A) (k : A → Action S B) (Q : A → Type 0) {P : B → S → Type 0}
      → Ensures m (λ a _. Q a)
      → ((a : A) → Q a → Ensures (k a) P)
      → Ensures (m >>= k) P
  unfolding ◌>>=◌
  bind-Ensures-then {A} {B} m k Q {P} hm hk = record {
    ensures = λ s.
        let after : Result A → Result B × S =
          λ o. elim o as (λ _. Result B × S) [ ok a ↦ k a (m s).1 | err e ↦ (err e, (m s).1) ] in
        elim (m s).0
            as (λ o. ((a : A) → o ≡ ok a → Q a) → (b : B) → (after o).0 ≡ ok b → P b (after o).1) [
              | ok a ↦ λ q. (hk a (q a refl)).ensures (m s).1
              | err e ↦ λ q b bad. absurd (ground (arith, bad))
            ]
          (hm.ensures s);
  }

  pub refuse_if-Ensures :
      (e : String) (c : Bool) → Ensures (refuse_if e c) (λ (a : Unit {0}) (s : S). c ≡ false)
  refuse_if-Ensures e true = record { ensures = λ s a bad. absurd (ground (arith, bad)) }
  refuse_if-Ensures e false = record { ensures = λ s a _. refl }

  pub need-Ensures :
      {A : Type 0} (e : String) (o : Option A) → Ensures (need e o) (λ (a : A) (s : S). o ≡ some a)
  need-Ensures e none = record { ensures = λ s a bad. absurd (ground (arith, bad)) }
  need-Ensures e (some a) = record { ensures = λ s b same. ground (arith, same) }
