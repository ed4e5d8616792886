-- ===== src/HostChild/Serve.antt =====
-- The conversation of the child's program: one response for each request, whatever the handlers do.
use text.Mathlib.Text.{◌==◌ as str_eq}
use plugin_lab.Prelude.{ℕ, true, false, String, List, [], ◌∷◌, ◌++◌, ◌≡◌}
use plugin_lab.Host.{Host}
use plugin_lab.Commands.Action.{Result}
use plugin_lab.Commands.Desk.{Json}
use plugin_lab.Commands.Keeps.{Keeps}
use plugin_lab.HostChild.{
  Program, Child, Handler, Answer, Line, progress, response, handle_command, respond,
}

module _ {h : Host} where
  -- The answers among the lines.
  abbrev pub responses : List (Line h) → List (Result (Answer h))
  responses [] = []
  responses (progress ∷ lines) = responses lines
  responses (response r ∷ lines) = r ∷ responses lines

module _ (j : Json) (h : Host) (d : Program j h) where
  abbrev answers : Child j h d → List (Result (Answer h))
  answers s = responses s.output

  abbrev idle :
      {A : Type 0} {m : Handler j h d A}
      → ((s : Child j h d) → answers (m s).1 ≡ answers s)
      → Keeps answers m
  idle e = record { keeps = e }

  -- The conversation over some lines: empty ones are passed over, and each other one is handled where
  -- the one before it has left off, up to the first after which a stop is requested. The list has the
  -- results of the handlers.
  pub data Serves (fuel : ℕ)
      : List String → Child j h d → List (Result (Answer h)) → Child j h d → Type 0 where
    ended : {s : Child j h d} → Serves fuel [] s [] s
    passed_over :
        {line : String} {lines : List String} {s t : Child j h d}
        {results : List (Result (Answer h))}
        → str_eq (d.trim line) "" ≡ true
        → Serves fuel lines s results t
        → Serves fuel (line ∷ lines) s results t
    answered :
        {line : String} {lines : List String} {s t : Child j h d}
        {results : List (Result (Answer h))}
        → str_eq (d.trim line) "" ≡ false
        → (respond j h d fuel (d.trim line) s).stop_requested ≡ false
        → Serves fuel lines (respond j h d fuel (d.trim line) s) results t
        → Serves fuel (line ∷ lines) s ((handle_command j h d fuel (d.trim line) s).0 ∷ results) t
    stopped :
        {line : String} {lines : List String} {s : Child j h d}
        → str_eq (d.trim line) "" ≡ false
        → (respond j h d fuel (d.trim line) s).stop_requested ≡ true
        → Serves fuel
            (line ∷ lines)
            s
            ((handle_command j h d fuel (d.trim line) s).0 ∷ [])
            (respond j h d fuel (d.trim line) s)

  pub record IsServed (fuel : ℕ) (lines : List String) (s t : Child j h d) : Type 0 where
    pub results : List (Result (Answer h))
    pub serves : Serves fuel lines s results t
    pub are_printed : answers t ≡ answers s ++ results
