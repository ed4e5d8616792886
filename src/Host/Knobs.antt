-- ===== src/Host/Knobs.antt =====
-- A plugin with two parameters, for the runs of source/scan and source/capture.
use plugin_lab.Prelude.{ℕ, zero, suc, ◌≡◌, ◌≢◌, refl, true, [], ◌∷◌}
use plugin_lab.Host.{Host, IsHost}

abbrev pub get_at : ℕ × ℕ → ℕ → ℕ
get_at p zero = p.0
get_at p (suc zero) = p.1
get_at p (suc (suc k)) = 0

abbrev set_at : ℕ × ℕ → ℕ → ℕ → ℕ × ℕ
set_at p zero v = (v, p.1)
set_at p (suc zero) v = (p.0, v)
set_at p (suc (suc k)) v = p

abbrev pub two_knobs : Host
two_knobs = record {
  Plugin = ℕ × ℕ;
  Value = ℕ;
  parameters = λ p.
      record { hosted = true; param_id = "gain" } ∷ record { hosted = true; param_id = "mix" } ∷ [];
  get_value = get_at;
  set_value = set_at;
}

get-set_self : (p q : ℕ × ℕ) (i : ℕ) → get_at (set_at p i (get_at q i)) i ≡ get_at q i
get-set_self p q zero = refl
get-set_self p q (suc zero) = refl
get-set_self p q (suc (suc i)) = refl

get-set_ne : (p : ℕ × ℕ) (i k v : ℕ) → i ≢ k → get_at (set_at p i v) k ≡ get_at p k
get-set_ne p zero zero v h = absurd (h refl)
get-set_ne p zero (suc zero) v h = refl
get-set_ne p zero (suc (suc k)) v h = refl
get-set_ne p (suc zero) zero v h = refl
get-set_ne p (suc zero) (suc zero) v h = absurd (h refl)
get-set_ne p (suc zero) (suc (suc k)) v h = refl
get-set_ne p (suc (suc i)) k v h = refl

pub two_knobs-IsHost : IsHost two_knobs
two_knobs-IsHost = record {
  parameters-set_value = λ p i v. refl;
  get_value-set_value_self = get-set_self;
  get_value-set_value_ne = get-set_ne;
}
