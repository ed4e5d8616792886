-- ===== src/Commands.antt =====
-- source/ipc/CommandParser.cpp. This file has escapeJsonString, by which the responses to commands quote
-- texts: here a text is the list of its characters, which are numbers. The commands are in the modules
-- below.
pub mod Action
pub mod Desk
pub mod Fields
pub mod Measure
pub mod Dataset
pub mod Control
pub mod Playback
pub mod Router
pub mod Keeps
mod Ensures
pub mod Steps
mod Escape
mod Tests
pub mod Samples
mod Runs
use plugin_lab.Prelude.{ℕ, List, [], ◌∷◌, ◌++◌, ◌==◌, if◌then◌else◌}

-- The switch: what stands for a character in the literal.
pub escape_char : ℕ → List ℕ
escape_char c =
    if c == 92
    then 92 ∷ 92 ∷ []
    else if c == 34
    then 92 ∷ 34 ∷ []
    else if c == 10
    then 92 ∷ 110 ∷ []
    else if c == 13
    then 92 ∷ 114 ∷ []
    else if c == 9
    then 92 ∷ 116 ∷ []
    else c ∷ []

pub escape_json_string : List ℕ → List ℕ
unfolding escape_char
escape_json_string [] = []
escape_json_string (c ∷ cs) = escape_char c ++ escape_json_string cs
