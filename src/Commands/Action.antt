-- ===== src/Commands/Action.antt =====
-- The commands of source/ipc/CommandParser.cpp as actions: a state that is passed on, and an early
-- return with the text of an error. What was done before the return stays done.
use plugin_lab.Prelude.{Bool, Option, none, some, String, if◌then◌else◌}

pub data Result (A : Type 0) : Type 0 where
  ok : A → Result A
  err : String → Result A

abbrev pub Action : Type 0 → Type 0 → Type 0
Action S A = S → Result A × S

module _ {S A : Type 0} where
  abbrev pub pure : A → Action S A
  pure a s = (ok a, s)

  abbrev pub refuse : String → Action S A
  refuse e s = (err e, s)

  abbrev pub gets : (S → A) → Action S A
  gets f s = (ok (f s), s)

  abbrev pub need : String → Option A → Action S A
  need e none = refuse e
  need e (some a) = pure a

  -- A step that changes the state and gives a value.
  abbrev pub step : (S → A × S) → Action S A
  step f s = let (a, t) = f s in (ok a, t)

  -- The result of an action that is not left early by its error.
  abbrev pub attempt : Action S A → Action S (Result A)
  attempt m s = let (r, t) = m s in (ok r, t)

infixl 5 ◌>>=◌ ◌>>◌
unfoldable pub ◌>>=◌ : {S A B : Type 0} → Action S A → (A → Action S B) → Action S B
◌>>=◌ m f s = let (r, t) = m s in elim r [ ok a ↦ f a t | err e ↦ (err e, t) ]

abbrev pub ◌>>◌ : {S A B : Type 0} → Action S A → Action S B → Action S B
m >> k = m >>= λ _. k

abbrev pub refuse_if : {S : Type 0} → String → Bool → Action S (Unit {0})
refuse_if e c s = (if c then err e else ok tt, s)

abbrev pub modify : {S : Type 0} → (S → S) → Action S (Unit {0})
modify f s = (ok tt, f s)
