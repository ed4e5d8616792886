-- ===== src/Commands/Escape.antt =====
-- How a reader of JSON sees the literals of source/ipc/CommandParser.cpp.
use mathlib.Core.Path.{subst}
use mathlib.Core.List.{append_assoc}
use plugin_lab.Prelude.{
  ℕ, ◌≡◌, refl, sym, ap, ◌∙◌, inl, inr, Bool, true, false, ◌||◌, ◌&&◌, List, [], ◌∷◌, ◌++◌, Option,
  none, some, ltb, leb, ◌==◌, ==_iff, if◌then◌else◌, Bool-cases, arith,
}
use plugin_lab.Commands.{escape_char, escape_json_string}

-- The character that stands behind a backslash; \u is not among them.
abbrev pub unescape : ℕ → Option ℕ
unescape e =
    if e == 34
    then some 34
    else if e == 92
    then some 92
    else if e == 47
    then some 47
    else if e == 98
    then some 8
    else if e == 102
    then some 12
    else if e == 110
    then some 10
    else if e == 114
    then some 13
    else if e == 116
    then some 9
    else none

abbrev pub push : Option ℕ → Option (List ℕ × List ℕ) → Option (List ℕ × List ℕ)
push none read = none
push (some c) none = none
push (some c) (some (text, rest)) = some (c ∷ text, rest)

-- The rest of a JSON string literal, after a backslash or not: its text, and what comes behind the
-- closing quote. Control characters do not stand in it, by RFC 8259.
pub read_literal : Bool → List ℕ → Option (List ℕ × List ℕ)
read_literal after_backslash [] = none
read_literal true (c ∷ cs) = push (unescape c) (read_literal false cs)
read_literal false (c ∷ cs) =
    let escaped = read_literal true cs in
    let rest = read_literal false cs in
    if c == 34
    then some ([], cs)
    else if c == 92
    then escaped
    else if ltb c 32
    then none
    else push (some c) rest

-- The characters that have no need of \u.
abbrev pub is_plain : ℕ → Bool
is_plain c = leb 32 c || (c == 10 || (c == 13 || c == 9))

abbrev pub all_plain : List ℕ → Bool
all_plain [] = true
all_plain (c ∷ cs) = is_plain c && all_plain cs

-- What is to be read: the text, if it is plain.
abbrev pub expected : List ℕ → List ℕ → Option (List ℕ × List ℕ)
expected text rest = if all_plain text then some (text, rest) else none

expected-cons :
    (c : ℕ) (cs rest : List ℕ)
    → (if is_plain c then push (some c) (expected cs rest) else none) ≡ expected (c ∷ cs) rest
expected-cons c cs rest = elim (Bool-cases (is_plain c)) [
  | inl plain ↦ elim (Bool-cases (all_plain cs)) [
    | inl all ↦ rw (plain, all) refl
    | inr some_not ↦ rw (plain, some_not) refl
  ]
  | inr control ↦ rw (control) refl
]

-- One character is read as it was, whether it has been escaped or not.
abbrev IsRead : ℕ → Type 0
IsRead c =
    (cs : List ℕ)
    → read_literal false (escape_char c ++ cs)
      ≡ (if is_plain c then push (some c) (read_literal false cs) else none)

decide_char : (c k : ℕ) → IsRead k → ((c == k) ≡ false → IsRead c) → IsRead c
decide_char c k h other = elim (Bool-cases (c == k)) [
  | inl same ↦ subst IsRead (sym ((==_iff c k).0 same)) h
  | inr ne ↦ other ne
]

special-IsRead :
    (c : ℕ)
    → IsRead 92
    → IsRead 34
    → IsRead 10
    → IsRead 13
    → IsRead 9
    → ((c == 92) ≡ false
        → (c == 34) ≡ false
        → (c == 10) ≡ false
        → (c == 13) ≡ false
        → (c == 9) ≡ false
        → IsRead c)
    → IsRead c
special-IsRead c h92 h34 h10 h13 h9 other = decide_char c 92 h92 (λ n92.
    decide_char c 34 h34 (λ n34.
      decide_char c 10 h10
        (λ n10. decide_char c 13 h13 (λ n13. decide_char c 9 h9 (λ n9. other n92 n34 n10 n13 n9)))))

escape_char-IsRead : (c : ℕ) → IsRead c
unfolding read_literal escape_char
escape_char-IsRead c =
    special-IsRead c (λ cs. refl) (λ cs. refl) (λ cs. refl) (λ cs. refl) (λ cs. refl)
      (λ n92 n34 n10 n13 n9 cs. elim (Bool-cases (leb 32 c)) [
        | inl high ↦
            let not_control : ltb c 32 ≡ false = ground (arith, high) in
            rw (n92, n34, n10, n13, n9) (rw (n34, n92, not_control, high) refl)
        | inr low ↦
            let control : ltb c 32 ≡ true = ground (arith, low) in
            rw (n92, n34, n10, n13, n9) (rw (n34, n92, control, low) refl)
      ])

-- A text that has been escaped, and a closing quote: a reader of JSON gets the same text back and goes
-- on behind the quote, if the text has no control characters but line feeds, carriage returns and
-- tabs; if it has any other, the reader rejects the literal.
pub read-escape_json_string :
    (text rest : List ℕ)
    → read_literal false (escape_json_string text ++ (34 ∷ rest)) ≡ expected text rest
unfolding read_literal escape_json_string
read-escape_json_string [] rest = refl
read-escape_json_string (c ∷ cs) rest =
    ap (read_literal false) (append_assoc (escape_char c) (escape_json_string cs) (34 ∷ rest))
    ∙ escape_char-IsRead c (escape_json_string cs ++ (34 ∷ rest))
    ∙ ap (λ out. if is_plain c then push (some c) out else none) (read-escape_json_string cs rest)
    ∙ expected-cons c cs rest
