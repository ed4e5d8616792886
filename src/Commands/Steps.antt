-- ===== src/Commands/Steps.antt =====
-- A property of what an action gives, by its first step.
use mathlib.Core.Path.{subst}
use plugin_lab.Prelude.{Bool, true, false, Option, none, some, String, ◌≡◌, refl, sym}
use plugin_lab.Commands.Action.{Result, ok, err, Action, gets, need, step, refuse_if, modify, ◌>>=◌}

module _ {S B : Type 0} (P : Result B × S → Type 0) where
  pub need-intro :
      {A : Type 0} (e : String) (o : Option A) (k : A → Action S B) (s : S)
      → (o ≡ none → P (err e, s))
      → ((a : A) → o ≡ some a → P (k a s))
      → P ((need e o >>= k) s)
  unfolding ◌>>=◌
  need-intro e none k s missing there = missing refl
  need-intro e (some a) k s missing there = there a refl

  pub refuse-intro :
      (e : String) (c : Bool) (k : Unit {0} → Action S B) (s : S)
      → (c ≡ true → P (err e, s))
      → (c ≡ false → P (k tt s))
      → P ((refuse_if e c >>= k) s)
  unfolding ◌>>=◌
  refuse-intro e true k s refused passed = refused refl
  refuse-intro e false k s refused passed = passed refl

  pub gets-intro :
      {A : Type 0} (f : S → A) (k : A → Action S B) (s : S) → P (k (f s) s) → P ((gets f >>= k) s)
  unfolding ◌>>=◌
  gets-intro f k s p = p

  pub modify-intro :
      (f : S → S) (k : Unit {0} → Action S B) (s : S) → P (k tt (f s)) → P ((modify f >>= k) s)
  unfolding ◌>>=◌
  modify-intro f k s p = p

  -- A value that is read from the state.
  pub field-intro :
      {A : Type 0} (e : String) (g : S → Option A) (k : A → Action S B) (s : S)
      → (g s ≡ none → P (err e, s))
      → ((a : A) → g s ≡ some a → P (k a s))
      → P (((λ t. need e (g t) t) >>= k) s)
  unfolding ◌>>=◌
  field-intro e g k s missing there = need-intro e (g s) k s missing there

  pub step-intro :
      {A : Type 0} (f : S → A × S) (k : A → Action S B) (s : S)
      → P (k (f s).0 (f s).1)
      → P ((step f >>= k) s)
  unfolding ◌>>=◌
  step-intro f k s p = p

  -- An action whose result is not known.
  pub run-intro :
      {A : Type 0} (m : Action S A) (k : A → Action S B) (s : S)
      → ((e : String) (t : S) → m s ≡ (err e, t) → P (err e, t))
      → ((a : A) (t : S) → m s ≡ (ok a, t) → P (k a t))
      → P ((m >>= k) s)
  unfolding ◌>>=◌
  run-intro {A} m k s fails goes_on =
      let t : S = (m s).1 in
      (elim (m s).0
          as (λ r.
            m s ≡ (r, t)
            → P (elim r as (λ _. Result B × S) [ ok a ↦ k a t | err e ↦ (err e, t) ])) [
              | ok a ↦ λ e. goes_on a t e
              | err error ↦ λ e. fails error t e
            ])
        refl

  pub bind-intro :
      {A : Type 0} (m : Action S A) (k : A → Action S B) (s t : S) (a : A)
      → m s ≡ (ok a, t)
      → P (k a t)
      → P ((m >>= k) s)
  unfolding ◌>>=◌
  bind-intro {A} m k s t a e p =
      subst
        (λ o. P (elim o.0 as (λ _. Result B × S) [ ok x ↦ k x o.1 | err error ↦ (err error, o.1) ]))
        (sym e) p

-- A property of what is computed from an optional value, by cases.
pub option-intro :
    {A B : Type 0} (P : B → Type 0) (o : Option A) (n : B) (f : A → B)
    → (o ≡ none → P n)
    → ((a : A) → o ≡ some a → P (f a))
    → P (elim o as (λ _. B) [ none ↦ n | some a ↦ f a ])
option-intro P none n f missing there = missing refl
option-intro P (some a) n f missing there = there a refl
