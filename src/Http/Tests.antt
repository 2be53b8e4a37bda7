-- ===== src/Http/Tests.antt =====
-- Runs of the HTTP reader on concrete bytes, and its theorems at concrete inputs.
use spl_rust.Base.{ℕ, ◌≡◌, refl, List, [], ◌∷◌, ◌++◌, some}
use spl_rust.Http.{crlf, starts_with, position_of, find_subsequence}
use spl_rust.Http.Chunked.{new_chunked, push}
use spl_rust.Http.Split.{resume, push-append}

-- The ASCII text of a line is the line.
abbrev ascii : List ℕ → List ℕ
ascii bytes = bytes

-- A chunk of three bytes, cut inside its data, and the terminal chunk.
abbrev front : List ℕ
front = 51 ∷ crlf ++ 97 ∷ 98 ∷ []

abbrev back : List ℕ
back = 99 ∷ crlf ++ 48 ∷ crlf ++ crlf

push-append_example :
    push ascii new_chunked (front ++ back) ≡ resume ascii (push ascii new_chunked front) back
push-append_example = push-append ascii new_chunked front back

finds_terminator : find_subsequence (97 ∷ crlf) crlf ≡ some 1
unfolding find_subsequence position_of starts_with
finds_terminator = refl
