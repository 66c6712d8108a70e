-- ===== src/Easylib/Tests.antt =====
-- The theorems on src/easylib.cpp, applied to short strings.
use libmaycloud.Common.{ℕ, ◌≡◌, refl, none, some, List, [], ◌∷◌, arith}
use libmaycloud.Easylib.Pieces.{
  matching, explode_loop, explode_pieces, as_int, int_part, explode, implode, str_replace,
}
use libmaycloud.Easylib.Pieces.Explode.{implode-explode}
use libmaycloud.Easylib.Command.{parse_cmd_string}
use libmaycloud.Easylib.Command.Quoted.{cmd_line, parse_cmd_string-cmd_line}
use libmaycloud.Easylib.Pieces.Replace.{str_replace-implode, str_replace_empty}

-- "a--b---c" and the delimiter "--".
abbrev dashed : List ℕ
dashed = 97 ∷ 45 ∷ 45 ∷ 98 ∷ 45 ∷ 45 ∷ 45 ∷ 99 ∷ []

abbrev dashes : List ℕ
dashes = 45 ∷ 45 ∷ []

dashed_run : explode dashes dashed ≡ (97 ∷ []) ∷ (98 ∷ []) ∷ (45 ∷ 99 ∷ []) ∷ []
unfolding explode explode_pieces explode_loop matching as_int int_part
dashed_run = refl

implode-explode_example : implode dashes (explode dashes dashed) ≡ dashed
implode-explode_example = implode-explode dashes dashed (omega arith) (omega arith) (omega arith)

str_replace-implode_example :
    str_replace 9 dashed dashes (43 ∷ []) ≡ some (implode (43 ∷ []) (explode dashes dashed))
str_replace-implode_example =
    str_replace-implode dashed dashes (43 ∷ []) (omega arith) (omega arith) (omega arith)

str_replace_empty_example : str_replace 1000 dashed [] (43 ∷ []) ≡ none
str_replace_empty_example = str_replace_empty 1000 dashed (43 ∷ [])

parse_cmd_string-cmd_line_example :
    parse_cmd_string (cmd_line (97 ∷ 32 ∷ []) ((34 ∷ []) ∷ [])) [] ≡ (97 ∷ 32 ∷ []) ∷ (34 ∷ []) ∷ []
parse_cmd_string-cmd_line_example = parse_cmd_string-cmd_line (97 ∷ 32 ∷ []) ((34 ∷ []) ∷ []) [] (
  (
    (λ e. omega (arith, e), λ e. omega (arith, e), λ e. omega (arith, e)),
    ((λ e. omega (arith, e), λ e. omega (arith, e), λ e. omega (arith, e)), tt),
  ),
  (((λ e. omega (arith, e), λ e. omega (arith, e), λ e. omega (arith, e)), tt), tt),
)
