-- ===== src/Commands/Tests.antt =====
-- Runs of source/ipc/CommandParser.cpp: the path C:\a in quotes, and a bell.
use plugin_lab.Prelude.{ℕ, ◌≡◌, refl, false, List, [], ◌∷◌, ◌++◌, some}
use plugin_lab.Commands.{escape_json_string, escape_char}
use plugin_lab.Commands.Escape.{read_literal, read-escape_json_string}

abbrev path : List ℕ
path = 67 ∷ 58 ∷ 92 ∷ 97 ∷ []

-- The bell is not escaped.
bell_run : escape_json_string (7 ∷ []) ≡ 7 ∷ []
unfolding escape_json_string escape_char
bell_run = refl

read-escape_json_string_example :
    read_literal false (escape_json_string path ++ (34 ∷ 125 ∷ [])) ≡ some (path, 125 ∷ [])
read-escape_json_string_example = read-escape_json_string path (125 ∷ [])
