-- ===== src/Easylib/Pieces.antt =====
-- explode, implode and strReplace of src/easylib.cpp.
pub mod Walk
pub mod Split
pub mod Explode
pub mod Replace
pub mod Implode
use libmaycloud.Common.{
  ℕ, zero, suc, ◌+◌, ◌-◌, ◌%◌, ◌^◌, Option, none, some, List, [], ◌∷◌, ◌++◌, ltb, ◌==◌,
  if◌then◌else◌, length, take, drop,
}

-- The loop that compares: how many characters of the delimiter stand at the start of the string.
unfoldable pub matching : (str delimiter : List ℕ) → ℕ
matching [] delimiter = 0
matching (x ∷ str) [] = 0
matching (x ∷ str) (c ∷ delimiter) = if x == c then suc (matching str delimiter) else 0

abbrev pub substr : List ℕ → (start count : ℕ) → List ℕ
substr str start count = take count (drop start str)

-- The loop over the string, `i` the place and `k` the start of the piece. Each round moves on by at least a
-- character; without fuel the rest is lost.
unfoldable pub explode_loop : (delimiter str : List ℕ) → (fuel i k : ℕ) → List (List ℕ)
unfolding matching
explode_loop delimiter str zero i k = []
explode_loop delimiter str (suc fuel) i k =
    let n = length delimiter in
    let hit = explode_loop delimiter str fuel (i + n) (i + n) in
    let miss = explode_loop delimiter str fuel (i + 1) k in
    if ltb i (length str)
    then if matching (drop i str) delimiter == n then substr str k (i - k) ∷ hit else miss
    else substr str k (i - k) ∷ []

unfoldable pub explode_pieces : (delimiter str : List ℕ) → List (List ℕ)
unfolding explode_loop
explode_pieces delimiter str =
    if length delimiter == 0 then [] else explode_loop delimiter str (length str + 1) 0 0

-- A size_t that is kept in an int of 32 bits: its value, or none where that is negative.
unfoldable pub as_int : ℕ → Option ℕ
as_int n = let r = n % 2 ^ 32 in if ltb r (2 ^ 31) then some r else none

unfoldable pub int_part : List ℕ → List ℕ
unfolding as_int
int_part str = elim (as_int (length str)) [ none ↦ [] | some n ↦ take n str ]

-- explode, whose lengths are ints. A string of a negative length has no round of the loop, and with a delimiter of
-- a negative length every round moves on by a character.
unfoldable pub explode : (delimiter str : List ℕ) → List (List ℕ)
unfolding explode_pieces as_int int_part
explode delimiter str = elim (as_int (length delimiter)) [
  | none ↦ int_part str ∷ []
  | some n ↦ explode_pieces (take n delimiter) (int_part str)
]

-- `result += sep + *it`, for the rest of the list.
unfoldable pub implode_loop : List ℕ → (result : List ℕ) → List (List ℕ) → List ℕ
implode_loop sep result [] = result
implode_loop sep result (s ∷ list) = implode_loop sep (result ++ sep ++ s) list

unfoldable pub implode : List ℕ → List (List ℕ) → List ℕ
unfolding implode_loop
implode sep [] = []
implode sep (s ∷ list) = implode_loop sep s list

-- std::string::find: the first place, from `from` on, where `wanted` stands.
unfoldable pub find_in : (subject wanted : List ℕ) → (from : ℕ) → Option ℕ
unfolding matching
find_in [] wanted from = if length wanted == 0 then some from else none
find_in (x ∷ subject) wanted from =
    let rest = find_in subject wanted (from + 1) in
    if matching (x ∷ subject) wanted == length wanted then some from else rest

unfoldable pub find : (subject wanted : List ℕ) → (from : ℕ) → Option ℕ
unfolding find_in
find subject wanted from =
    if ltb (length subject) from then none else find_in (drop from subject) wanted from

-- The loop of strReplace; without fuel there is no result.
pub str_replace_loop : (fuel : ℕ) → (subject wanted replace : List ℕ) → (from : ℕ) → Option (List ℕ)
unfolding find
str_replace_loop zero subject wanted replace from = none
str_replace_loop (suc fuel) subject wanted replace from = elim (find subject wanted from) [
  | none ↦ some subject
  | some at ↦
      str_replace_loop fuel (take at subject ++ replace ++ drop (at + length wanted) subject) wanted
        replace (at + length replace)
]

pub str_replace : (fuel : ℕ) → (subject wanted replace : List ℕ) → Option (List ℕ)
unfolding str_replace_loop
str_replace fuel subject wanted replace = str_replace_loop fuel subject wanted replace 0
