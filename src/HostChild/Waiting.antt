-- ===== src/HostChild/Waiting.antt =====
-- How the loop of handleLoad comes to an end.
use plugin_lab.Prelude.{
  ℕ, zero, suc, ◌<◌, leb, Bool, true, false, ◌||◌, [], ◌∷◌, ◌++◌, inl, inr, Bool-cases, ◌≡◌, arith,
  if◌then◌else◌,
}
use plugin_lab.Host.{Host}
use plugin_lab.Commands.Action.{Result, ok, ◌>>=◌}
use plugin_lab.Commands.Desk.{Json}
use plugin_lab.HostChild.{
  Program, Child, progress, is_due, Wait, created, timed_out, out_of_fuel, wait_created,
}

module _ (j : Json) (h : Host) (d : Program j h) where
  -- The world after some rounds of waiting for 20 ms and handling messages for 20 ms.
  abbrev rounds : ℕ → d.World → d.World
  rounds zero w = w
  rounds (suc k) w = rounds k (d.pump (d.wait w).0)

  -- Does the loop end in this round: the plugin is there, or the deadline has come.
  abbrev ends_at : ℕ → d.World → Bool
  ends_at deadline w = (d.wait w).1 || leb deadline (d.now_ms (d.wait w).0)

  -- None of the first rounds ends the loop.
  abbrev NoEnd : ℕ → ℕ → d.World → Type 0
  NoEnd deadline n w = (i : ℕ) → i < n → ends_at deadline (rounds i w) ≡ false

  -- The plugin is there in a round and not before; or it is not, and the deadline has come in a round
  -- and not before; or neither in any round.
  pub data IsWait (deadline n : ℕ) (w : d.World) : Result Wait → Type 0 where
    is_created :
        (k : ℕ)
        → k < n
        → NoEnd deadline k w
        → (d.wait (rounds k w)).1 ≡ true
        → IsWait deadline n w (ok created)
    is_timed_out :
        (k : ℕ)
        → k < n
        → NoEnd deadline k w
        → (d.wait (rounds k w)).1 ≡ false
        → leb deadline (d.now_ms (d.wait (rounds k w)).0) ≡ true
        → IsWait deadline n w (ok timed_out)
    is_unfinished : NoEnd deadline n w → IsWait deadline n w (ok out_of_fuel)

  NoEnd-suc :
      (deadline n : ℕ) (w : d.World)
      → ends_at deadline w ≡ false
      → NoEnd deadline n (d.pump (d.wait w).0)
      → NoEnd deadline (suc n) w
  NoEnd-suc deadline n w here rest zero less = here
  NoEnd-suc deadline n w here rest (suc i) less = rest i (omega (arith, less))

  later :
      (deadline n : ℕ) (w : d.World) (r : Result Wait)
      → ends_at deadline w ≡ false
      → IsWait deadline n (d.pump (d.wait w).0) r
      → IsWait deadline (suc n) w r
  later deadline n w _ here (is_created k less before e) =
      is_created (suc k) (omega (arith, less)) (NoEnd-suc deadline k w here before) e
  later deadline n w _ here (is_timed_out k less before e late) =
      is_timed_out (suc k) (omega (arith, less)) (NoEnd-suc deadline k w here before) e late
  later deadline n w _ here (is_unfinished before) =
      is_unfinished (NoEnd-suc deadline n w here before)

  -- For any fuel, clock and deadline, the loop that waits for the plugin answers by the first round in
  -- which the plugin is there or the deadline has come: `created` if the plugin is there, also when the
  -- deadline has come as well, and else `timed_out`. The fuel is short only if no round that it allows is
  -- such a round.
  pub wait_created-IsWait :
      (n last deadline : ℕ) (s : Child j h d)
      → IsWait deadline n s.world (wait_created j h d n last deadline s).0
  unfolding wait_created ◌>>=◌
  wait_created-IsWait zero last deadline s = is_unfinished (λ i less. absurd (omega (arith, less)))
  wait_created-IsWait (suc n) last deadline s =
      let now : ℕ = d.now_ms (d.wait s.world).0 in
      let next : Child j h d = record s {
        output = s.output ++ (if is_due j h d now last then progress ∷ [] else []);
        world = d.pump (d.wait s.world).0;
      } in
      let none_before : NoEnd deadline 0 s.world = λ i less. absurd (omega (arith, less)) in
      elim (Bool-cases (d.wait s.world).1) [
        | inl there ↦ rw there (is_created 0 (omega arith) none_before there)
        | inr waiting ↦ elim (Bool-cases (leb deadline now)) [
          | inl late ↦ rw (waiting, late) (is_timed_out 0 (omega arith) none_before waiting late)
          | inr early ↦
              rw (waiting, early)
                (later deadline n s.world _ (ground (arith, waiting, early)) (
                  wait_created-IsWait n (if is_due j h d now last then now else last) deadline
                    next))
        ]
      ]
