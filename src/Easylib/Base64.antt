-- ===== src/Easylib/Base64.antt =====
-- base64_decode of src/easylib.cpp.
pub mod RoundTrip
use libmaycloud.Common.{
  ℕ, zero, suc, ◌+◌, ◌-◌, ◌*◌, ◌/◌, ◌%◌, Bool, not, ◌&&◌, ◌||◌, none, some, List, [], ◌∷◌, ◌++◌,
  leb, ◌==◌, if◌then◌else◌, length, get_or, take,
}
use libmaycloud.Easylib.Pieces.{as_int}

-- The codes from `a` on.
unfoldable pub codes : (a count : ℕ) → List ℕ
codes a zero = []
codes a (suc count) = a ∷ codes (a + 1) count

-- base64_chars.
unfoldable pub base64_chars : List ℕ
unfolding codes
base64_chars = codes 65 26 ++ codes 97 26 ++ codes 48 10 ++ (43 ∷ 47 ∷ [])

-- base64_chars.find, and std::string::npos, which is 255 as an unsigned char.
unfoldable pub index_in : List ℕ → (c i : ℕ) → ℕ
index_in [] c i = 255
index_in (x ∷ chars) c i = if x == c then i else index_in chars c (i + 1)

abbrev between : ℕ → ℕ → ℕ → Bool
between lo hi c = leb lo c && leb c hi

unfoldable pub is_base64 : ℕ → Bool
is_base64 c = between 48 57 c || between 65 90 c || between 97 122 c || (c == 43) || (c == 47)

-- The three bytes of char_array_3; `c & 0x30` is c / 16 % 4 * 16, and so on.
unfoldable pub bytes_of : (a b c d : ℕ) → List ℕ
bytes_of a b c d =
    (a * 4 + b / 16 % 4) % 256 ∷ (b % 16 * 16 + c / 4 % 16) % 256 ∷ (c % 4 * 64 + d) % 256 ∷ []

abbrev pub find_char : ℕ → ℕ
unfolding index_in base64_chars
find_char c = index_in base64_chars c 0

-- The characters left behind the last whole group.
unfoldable pub decode_rest : List ℕ → List ℕ
unfolding bytes_of
decode_rest group = take (length group - 1) (
    bytes_of (find_char (get_or group 0 0)) (find_char (get_or group 1 0))
      (find_char (get_or group 2 0)) (find_char (get_or group 3 0)))

-- `group` is char_array_4, of at most three characters.
unfoldable pub decode_loop : (group str : List ℕ) → List ℕ
unfolding decode_rest bytes_of is_base64
decode_loop group [] = decode_rest group
decode_loop [] (x ∷ str) =
    if not (x == 61) && is_base64 x then decode_loop (x ∷ []) str else decode_rest []
decode_loop (a ∷ []) (x ∷ str) =
    if not (x == 61) && is_base64 x then decode_loop (a ∷ x ∷ []) str else decode_rest (a ∷ [])
decode_loop (a ∷ b ∷ []) (x ∷ str) =
    if not (x == 61) && is_base64 x
    then decode_loop (a ∷ b ∷ x ∷ []) str
    else decode_rest (a ∷ b ∷ [])
decode_loop (a ∷ b ∷ c ∷ group) (x ∷ str) =
    if not (x == 61) && is_base64 x
    then bytes_of (find_char a) (find_char b) (find_char c) (find_char x) ++ decode_loop [] str
    else decode_rest (a ∷ b ∷ c ∷ group)

-- `in_len` is an int, and so is `in_`. A string whose length is negative as an int is read up to the first character
-- that stops the loop, at the latest its terminator (where `in_` gets behind 2 ^ 31 - 1 first, the code is undefined).
unfoldable pub base64_decode : List ℕ → List ℕ
unfolding decode_loop as_int
base64_decode str = decode_loop [] (elim (as_int (length str)) [ none ↦ str | some n ↦ take n str ])
