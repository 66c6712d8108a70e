-- ===== src/Easylib/Url.antt =====
-- urldecode and av_tolower of src/easylib.cpp.
pub mod RoundTrip
use libmaycloud.Common.{ℕ, ◌+◌, ◌-◌, ◌*◌, Bool, ◌&&◌, ◌||◌, List, [], ◌∷◌, leb, ◌==◌, if◌then◌else◌}

-- `c ^= 0x20` on a capital letter.
unfoldable pub av_tolower : ℕ → ℕ
av_tolower c = if leb 65 c && leb c 90 then c + 32 else c

unfoldable pub is_xdigit : ℕ → Bool
is_xdigit c = (leb 48 c && leb c 57) || ((leb 65 c && leb c 70) || (leb 97 c && leb c 102))

-- The value of a hexadecimal digit, through tolower of the C locale.
unfoldable pub xdigit_value : ℕ → ℕ
unfolding av_tolower
xdigit_value c = let l = av_tolower c in if leb l 57 then l - 48 else l - 97 + 10

abbrev pub plain : ℕ → ℕ
plain c = if c == 43 then 32 else c

-- The loop, on what is left in front of the terminator.
unfoldable pub decode : List ℕ → List ℕ
unfolding is_xdigit xdigit_value
decode [] = []
decode (c ∷ []) = plain c ∷ []
decode (c ∷ c2 ∷ []) = plain c ∷ plain c2 ∷ []
decode (c ∷ c2 ∷ c3 ∷ url) =
    let next = decode (c2 ∷ c3 ∷ url) in
    let rest = decode url in
    if c == 37
    then if is_xdigit c2 && is_xdigit c3
      then (16 * xdigit_value c2 + xdigit_value c3) ∷ rest
      else c ∷ c2 ∷ c3 ∷ rest
    else plain c ∷ next

-- A string of C: what stands in front of the first terminator.
unfoldable pub c_str : List ℕ → List ℕ
c_str [] = []
c_str (c ∷ s) = let rest = c_str s in if c == 0 then [] else c ∷ rest

-- urldecode of a std::string. The code counts in an int, which has room for 2 ^ 31 - 2 characters. Its one caller,
-- parseQueryString, hands over no more: the value is a piece of explode behind a separator, and the pieces of explode
-- and their separators have an int as their length.
unfoldable pub urldecode : List ℕ → List ℕ
unfolding decode c_str
urldecode url = c_str (decode (c_str url))
