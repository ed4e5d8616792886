-- ===== src/Commands/Keeps.antt =====
-- Actions that keep a field of the state, whatever they answer.
use plugin_lab.Prelude.{
  Bool, true, false, Option, none, some, String, ◌≡◌, refl, ap, ◌∙◌, if◌then◌else◌,
}
use plugin_lab.Commands.Action.{Result, ok, err, Action, need, ◌>>=◌}

module _ {S F : Type 0} (f : S → F) where
  pub record Keeps {A : Type 0} (m : Action S A) : Type 0 where
    pub keeps : (s : S) → f (m s).1 ≡ f s

module _ {S F : Type 0} {f : S → F} where
  pub bind-Keeps :
      {A B : Type 0} {m : Action S A} {k : A → Action S B}
      → Keeps f m
      → ((a : A) → Keeps f (k a))
      → Keeps f (m >>= k)
  unfolding ◌>>=◌
  bind-Keeps {A = A} {B} {m} {k} hm hk = record {
    keeps = λ s.
        elim (m s).0
          as (λ r.
            f (elim r as (λ _. Result B × S) [ ok a ↦ k a (m s).1 | err e ↦ (err e, (m s).1) ]).1
            ≡ f s) [ ok a ↦ (hk a).keeps (m s).1 ∙ hm.keeps s | err e ↦ hm.keeps s ];
  }

  pub need-Keeps : {A : Type 0} (e : String) (a : Option A) → Keeps f (need e a)
  need-Keeps e none = record { keeps = λ s. refl }
  need-Keeps e (some a) = record { keeps = λ s. refl }

  pub if-Keeps :
      {A : Type 0} (b : Bool) {m n : Action S A}
      → Keeps f m
      → Keeps f n
      → Keeps f (if b then m else n)
  if-Keeps true hm hn = hm
  if-Keeps false hm hn = hn

-- An error that leaves a field of the state as it is.
module _ {S F : Type 0} (f : S → F) where
  pub record Refuses {A : Type 0} (m : Action S A) (s : S) : Type 0 where
    pub error : String
    pub is_error : (m s).0 ≡ err error
    pub same : f (m s).1 ≡ f s

module _ {S F : Type 0} {f : S → F} where
  pub bind-Refuses-first :
      {A B : Type 0} {m : Action S A} {s : S} (k : A → Action S B)
      → Refuses f m s
      → Refuses f (m >>= k) s
  unfolding ◌>>=◌
  bind-Refuses-first {A} {B} {m} {s} k r = record {
    error = r.error;
    is_error =
        ap
          (λ o. (elim o as (λ _. Result B × S) [ ok a ↦ k a (m s).1 | err e ↦ (err e, (m s).1) ]).0)
          r.is_error;
    same =
        ap
          (λ o.
            f (elim o as (λ _. Result B × S) [ ok a ↦ k a (m s).1 | err e ↦ (err e, (m s).1) ]).1)
          r.is_error
        ∙ r.same;
  }

  pub bind-Refuses-then :
      {A B : Type 0} {m : Action S A} {k : A → Action S B} {s : S}
      → Keeps f m
      → ((a : A) → Refuses f (k a) (m s).1)
      → Refuses f (m >>= k) s
  unfolding ◌>>=◌
  bind-Refuses-then {A} {B} {m} {k} {s} hm hk =
      let after : Result A → Result B × S =
        λ o. elim o as (λ _. Result B × S) [ ok a ↦ k a (m s).1 | err e ↦ (err e, (m s).1) ] in
      let found : (e : String) × (((after (m s).0).0 ≡ err e) × (f (after (m s).0).1 ≡ f s)) =
        elim (m s).0 as (λ o. (e : String) × (((after o).0 ≡ err e) × (f (after o).1 ≡ f s))) [
          | ok a ↦ ((hk a).error, ((hk a).is_error, (hk a).same ∙ hm.keeps s))
          | err e ↦ (e, (refl, hm.keeps s))
        ] in
      record { error = found.0; is_error = found.1.0; same = found.1.1 }

  -- Of actions that do the same in a state, both refuse or none does.
  pub cast-Refuses :
      {A : Type 0} {m n : Action S A} {s : S} → m s ≡ n s → Refuses f n s → Refuses f m s
  cast-Refuses e r = record {
    error = r.error;
    is_error = ap (λ o. o.0) e ∙ r.is_error;
    same = ap (λ o. f o.1) e ∙ r.same;
  }
