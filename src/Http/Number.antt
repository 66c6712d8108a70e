-- ===== src/Http/Number.antt =====
-- The numbers of src/httprequest.cpp and src/httpresponse.cpp: strtoul of the C library with base 0 on an unsigned
-- long of 64 bits, and std::to_string.
pub mod RoundTrip
use libmaycloud.Common.{
  ℕ, zero, suc, ◌+◌, ◌-◌, ◌*◌, ◌/◌, ◌%◌, ◌^◌, Bool, true, false, ◌&&◌, ◌||◌, List, [], ◌∷◌, ltb,
  leb, ◌==◌, if◌then◌else◌, get_or, drop,
}
use libmaycloud.Easylib.Trim.{skip_space}

-- The value of a character as a digit of a base up to 36, and 36 where it is none.
unfoldable pub digit_of : ℕ → ℕ
digit_of c =
    if leb 48 c && leb c 57
    then c - 48
    else if leb 65 c && leb c 90
    then c - 55
    else if leb 97 c && leb c 122
    then c - 87
    else 36

-- The number in front of the first character that is no digit of the base, behind `acc`.
unfoldable pub digits : (base acc : ℕ) → List ℕ → ℕ
unfolding digit_of
digits base acc [] = acc
digits base acc (c ∷ s) =
    let more = digits base (acc * base + digit_of c) s in
    if ltb (digit_of c) base then more else acc

-- The prefix 0x in front of a hexadecimal digit, the prefix 0, or none.
unfoldable pub magnitude : List ℕ → ℕ
unfolding digits
magnitude [] = 0
magnitude (c ∷ s) =
    if c == 48
    then if ((get_or s 0 0 == 120) || (get_or s 0 0 == 88)) && ltb (digit_of (get_or s 1 0)) 16
      then digits 16 0 (drop 1 s)
      else digits 8 0 s
    else digits 10 0 (c ∷ s)

-- ULONG_MAX where the number does not fit; a minus sign negates it modulo 2 ^ 64.
unfoldable pub signed_value : Bool → ℕ → ℕ
signed_value negative n =
    if ltb n (2 ^ 64) then if negative then (2 ^ 64 - n) % 2 ^ 64 else n else 2 ^ 64 - 1

unfoldable pub strtoul : List ℕ → ℕ
unfolding skip_space magnitude signed_value
strtoul str =
    let s = skip_space str in
    if get_or s 0 0 == 45
    then signed_value true (magnitude (drop 1 s))
    else if get_or s 0 0 == 43
    then signed_value false (magnitude (drop 1 s))
    else signed_value false (magnitude s)

-- The decimal digits of a number in front of a string; a digit more of fuel than the number has suffices.
unfoldable pub decimal : (fuel n : ℕ) → List ℕ → List ℕ
decimal zero n s = s
decimal (suc fuel) n s =
    let more = decimal fuel (n / 10) ((48 + n % 10) ∷ s) in if ltb n 10 then (48 + n) ∷ s else more

-- std::to_string of an unsigned number of 64 bits, which has at most 20 digits.
unfoldable pub to_string : ℕ → List ℕ
unfolding decimal
to_string n = decimal 20 n []
