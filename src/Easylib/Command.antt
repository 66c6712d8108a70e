-- ===== src/Easylib/Command.antt =====
-- parseCmdString of src/easylib.cpp.
pub mod Quoted
use libmaycloud.Common.{
  ℕ, Bool, true, false, not, ◌&&◌, ◌||◌, Option, none, some, List, [], ◌∷◌, ◌++◌, ◌==◌,
  if◌then◌else◌,
}

-- The variables of the loop; `is_open` is `open`.
pub record CmdString : Type 0 where
  pub is_open : Bool
  pub opening : ℕ
  pub arg : List ℕ
  pub args : List (List ℕ)

abbrev pub is_quote : ℕ → Bool
is_quote c = (c == 39) || (c == 34)

-- `pos == 0 or cmd[pos - 1] != '\\'`.
abbrev pub not_escaped : Option ℕ → Bool
not_escaped none = true
not_escaped (some prev) = not (prev == 92)

-- The end of a round: the character goes to the argument, or ends it.
pub take_char : ℕ → CmdString → CmdString
take_char c s =
    if c == 32
    then if not s.is_open
      then record s { args = s.args ++ (s.arg ∷ []); arg = [] }
      else record s { arg = s.arg ++ (c ∷ []) }
    else record s { arg = s.arg ++ (c ∷ []) }

pub cmd_step : Option ℕ → ℕ → CmdString → CmdString
unfolding take_char
cmd_step prev c s =
    if is_quote c && not_escaped prev
    then if not s.is_open
      then record s { opening = c; is_open = true }
      else if c == s.opening
      then record s { opening = 0; is_open = false }
      else take_char c s
    else take_char c s

-- Up to the terminator.
pub cmd_loop : (prev : Option ℕ) → List ℕ → CmdString → CmdString
unfolding cmd_step
cmd_loop prev [] s = s
cmd_loop prev (c ∷ cmd) s =
    let next = cmd_loop (some c) cmd (cmd_step prev c s) in if c == 0 then s else next

pub parse_cmd_string : List ℕ → (args : List (List ℕ)) → List (List ℕ)
unfolding cmd_loop
parse_cmd_string cmd args =
    let s = cmd_loop none cmd (record { is_open = false; opening = 0; arg = []; args = args }) in
    s.args ++ (s.arg ∷ [])
