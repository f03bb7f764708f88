-- ===== src/BackendProcess/Output/Tests.antt =====
-- An output in three chunks, cut inside a separator and inside a line, and the theorem at it.
use mathlib.Core.List.{flatten}
use facenox.Base.{
  ℕ, List, map, ltb, leb, ◌-◌, ◌*◌, ◌+◌, ◌&&◌, ◌≡◌, refl, [], ◌∷◌, ◌++◌, Option, none, some, ◌==◌,
  if◌then◌else◌,
}
use facenox.Base.Text.{Text, codes}
use facenox.BackendProcess.Output.{Output, newline, carriage_return, split_lines, handle_chunks}
use facenox.BackendProcess.Output.Laws.{handle_chunks-flatten}

abbrev untrimmed : Text → Text
untrimmed text = text

-- The text of a JSON object stands for its update; other texts are no JSON.
abbrev parsed : Text → Option Text
parsed [] = none
parsed (c ∷ text) = if c == b'{' then some text else none

abbrev silent : Output Text
silent = record { stdout_buffer = []; logged = []; emitted = [] }

-- UTF-8 with one and two bytes to a character.
abbrev to_string : List ℕ → Text
to_string [] = []
to_string (a ∷ []) = (if ltb a 128 then a else 65533) ∷ []
to_string (a ∷ b ∷ bytes) =
    let long = ((a - 192) * 64 + (b - 128)) ∷ to_string bytes in
    let short = a ∷ to_string (b ∷ bytes) in
    let broken = 65533 ∷ to_string (b ∷ bytes) in
    if ltb a 128 then short else if leb 192 a && (leb 128 b && ltb b 192) then long else broken

abbrev first_chunk : Text
first_chunk = 97 ∷ carriage_return ∷ []

abbrev second_chunk : Text
second_chunk = newline ∷ codes "FACENOX_STARTUP_"

abbrev third_chunk : Text
third_chunk = codes "PROGRESS:{x" ++ newline ∷ codes "b" ++ newline ∷ codes "c"

three_chunks :
    handle_chunks untrimmed parsed to_string (first_chunk ∷ second_chunk ∷ third_chunk ∷ []) silent
    ≡ record {
      stdout_buffer = codes "c";
      logged =
          (codes "[STDOUT] a" ++ newline ∷ [])
          ∷ (codes "[STDOUT] FACENOX_STARTUP_PROGRESS:{x" ++ newline ∷ [])
          ∷ (codes "[STDOUT] b" ++ newline ∷ [])
          ∷ [];
      emitted = codes "x" ∷ [];
    }
unfolding handle_chunks
three_chunks = refl

lone_carriage_return :
    split_lines (97 ∷ carriage_return ∷ 98 ∷ []) ≡ (97 ∷ carriage_return ∷ 98 ∷ []) ∷ []
unfolding split_lines
lone_carriage_return = refl

uncut :
    flatten (map to_string (first_chunk ∷ second_chunk ∷ third_chunk ∷ []))
    ≡ to_string (flatten (first_chunk ∷ second_chunk ∷ third_chunk ∷ []))
unfolding flatten
uncut = refl

handle_chunks-flatten_example :
    handle_chunks untrimmed parsed to_string (first_chunk ∷ second_chunk ∷ third_chunk ∷ []) silent
    ≡ handle_chunks untrimmed parsed to_string
        (flatten (first_chunk ∷ second_chunk ∷ third_chunk ∷ []) ∷ [])
        silent
handle_chunks-flatten_example =
    handle_chunks-flatten untrimmed parsed to_string first_chunk (second_chunk ∷ third_chunk ∷ [])
      silent uncut

-- A character of two bytes that is cut is lost.
cut_character :
    (handle_chunks untrimmed parsed to_string
      ((195 ∷ []) ∷ (169 ∷ newline ∷ []) ∷ [])
      silent).logged
    ≡ (codes "[STDOUT] " ++ 65533 ∷ 65533 ∷ newline ∷ []) ∷ []
unfolding handle_chunks
cut_character = refl

whole_character :
    (handle_chunks untrimmed parsed to_string ((195 ∷ 169 ∷ newline ∷ []) ∷ []) silent).logged
    ≡ (codes "[STDOUT] " ++ 233 ∷ newline ∷ []) ∷ []
unfolding handle_chunks
whole_character = refl
