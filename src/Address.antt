-- ===== src/Address.antt =====
-- The addresses of src/iputils.cpp, src/ipv4.cpp, src/macaddress.cpp and src/macaddress64.cpp: how they are put
-- together from bytes, taken apart, printed and parsed. A string is the list of its characters.
pub mod Mac
mod Tests
use libmaycloud.Common.{
  ℕ, ◌+◌, ◌-◌, ◌*◌, ◌/◌, ◌%◌, ◌^◌, Bool, true, false, ◌&&◌, Option, none, some, List, [], ◌∷◌, ◌++◌,
  ltb, leb, ◌==◌, if◌then◌else◌, length, drop,
}

-- make_ip of four numbers, whose result is an unsigned int.
pub make_ip : (a1 a2 a3 a4 : ℕ) → ℕ
make_ip a1 a2 a3 a4 = (((a1 * 256 + a2) * 256 + a3) * 256 + a4) % 2 ^ 32

-- operator [].
pub ip_index : ℕ → ℕ → ℕ
ip_index ip i =
    if i == 0
    then ip / 16777216 % 256
    else if i == 1
    then ip / 65536 % 256
    else if i == 2
    then ip / 256 % 256
    else if i == 3
    then ip % 256
    else 0

-- The value of a hexadecimal digit, in capitals or not.
pub mac_digit : ℕ → Option ℕ
mac_digit c =
    if leb 48 c && leb c 57
    then some (c - 48)
    else if leb 65 c && leb c 70
    then some (c - 55)
    else if leb 97 c && leb c 102
    then some (c - 87)
    else none

-- The variables of the loop: `crez` is a char, `bytes` what is in rez_mac so far, and bc is how many.
pub record MacParse : Type 0 where
  pub crez : ℕ
  pub cc : ℕ
  pub bytes : List ℕ

pub mac_step : ℕ → MacParse → MacParse
unfolding mac_digit
mac_step c s =
    let s1 : MacParse = elim (mac_digit c) [
      | none ↦ s
      | some v ↦ record s { crez = (s.crez * 16 + v) % 256; cc = s.cc + 1 }
    ] in
    if s1.cc == 2 then record s1 { bytes = s1.bytes ++ (s1.crez ∷ []); cc = 0 } else s1

-- The loop of parse_mac_str, for `n` bytes.
pub mac_loop : (n : ℕ) → List ℕ → MacParse → MacParse
unfolding mac_step
mac_loop n [] s = s
mac_loop n (c ∷ mac) s =
    let next = mac_loop n mac (mac_step c s) in if ltb (length s.bytes) n then next else s

-- parse_mac_str is for 6 bytes, parse_mac8_str for 8; rez_mac keeps what is not written.
pub parse_mac : (n : ℕ) → List ℕ → (rez_mac : List ℕ) → Bool × List ℕ
unfolding mac_loop
parse_mac n mac rez_mac =
    let s = mac_loop n mac (record { crez = 0; cc = 0; bytes = [] }) in
    if ltb (length mac) 17
    then (false, rez_mac)
    else (true, s.bytes ++ drop (length s.bytes) rez_mac)

-- A digit of "%02X".
pub hex_digit : ℕ → ℕ
hex_digit v = if ltb v 10 then v + 48 else v + 55

-- toString.
pub mac_text : List ℕ → List ℕ
unfolding hex_digit
mac_text [] = []
mac_text (b ∷ []) = hex_digit (b / 16) ∷ hex_digit (b % 16) ∷ []
mac_text (b ∷ c ∷ mac) = hex_digit (b / 16) ∷ hex_digit (b % 16) ∷ 58 ∷ mac_text (c ∷ mac)

-- `b ^ 64` on a byte.
abbrev pub xor_64 : ℕ → ℕ
xor_64 b = if b / 64 % 2 == 1 then b - 64 else b + 64

-- getEui64Vector and getEui64Mac64 of the address whose bytes are these.
pub get_eui64_vector : (m0 m1 m2 m3 m4 m5 : ℕ) → List ℕ
get_eui64_vector m0 m1 m2 m3 m4 m5 = xor_64 m0 ∷ m1 ∷ m2 ∷ 255 ∷ 254 ∷ m3 ∷ m4 ∷ m5 ∷ []

pub get_eui64_mac64 : (m0 m1 m2 m3 m4 m5 : ℕ) → List ℕ
get_eui64_mac64 m0 m1 m2 m3 m4 m5 = m0 ∷ m1 ∷ m2 ∷ 255 ∷ 254 ∷ m3 ∷ m4 ∷ m5 ∷ []
