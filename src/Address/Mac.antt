-- ===== src/Address/Mac.antt =====
-- Printing and parsing of src/macaddress.cpp, src/macaddress64.cpp and src/iputils.cpp.
use libmaycloud.Common.{
  ℕ, zero, suc, ◌+◌, ◌*◌, ◌/◌, ◌%◌, ◌≤◌, ◌<◌, ◌≡◌, refl, sym, ap, ◌∙◌, ◌≢◌, true, some, List, [],
  ◌∷◌, ◌++◌, append-nil, append_assoc, arith, lt→ltb, le→ltb, length, get_or, drop, All,
  length-append, IsByte,
}
use libmaycloud.Address.{
  make_ip, ip_index, mac_digit, MacParse, mac_step, mac_loop, parse_mac, hex_digit, mac_text,
  xor_64, get_eui64_vector, get_eui64_mac64,
}

-- The four bytes of an address are those that it was made of.
pub ip_index-make_ip :
    (b1 b2 b3 b4 : ℕ)
    → b1 < 256
    → b2 < 256
    → b3 < 256
    → b4 < 256
    → (ip_index (make_ip b1 b2 b3 b4) 0 ≡ b1)
      × (ip_index (make_ip b1 b2 b3 b4) 1 ≡ b2)
      × (ip_index (make_ip b1 b2 b3 b4) 2 ≡ b3)
      × (ip_index (make_ip b1 b2 b3 b4) 3 ≡ b4)
unfolding ip_index make_ip
ip_index-make_ip b1 b2 b3 b4 l1 l2 l3 l4 = (
  omega (arith, l1, l2, l3, l4),
  omega (arith, l1, l2, l3, l4),
  omega (arith, l1, l2, l3, l4),
  omega (arith, l1, l2, l3, l4),
)

mac_digit-hex_digit : (v : ℕ) → v < 16 → mac_digit (hex_digit v) ≡ some v
unfolding hex_digit mac_digit
mac_digit-hex_digit v l = ground arith

abbrev at : ℕ → ℕ → List ℕ → MacParse
at crez cc bytes = record { crez = crez; cc = cc; bytes = bytes }

mac_step-first :
    (v crez : ℕ) (done : List ℕ)
    → v < 16
    → mac_step (hex_digit v) (at crez 0 done) ≡ at ((crez * 16 + v) % 256) 1 done
unfolding mac_step
mac_step-first v crez done l = rw (mac_digit-hex_digit v l) refl

mac_step-second :
    (v crez : ℕ) (done : List ℕ)
    → v < 16
    → mac_step (hex_digit v) (at crez 1 done)
      ≡ at ((crez * 16 + v) % 256) 0 (done ++ ((crez * 16 + v) % 256 ∷ []))
unfolding mac_step
mac_step-second v crez done l = rw (mac_digit-hex_digit v l) refl

mac_step-colon : (crez : ℕ) (done : List ℕ) → mac_step 58 (at crez 0 done) ≡ at crez 0 done
unfolding mac_step mac_digit
mac_step-colon crez done = refl

mac_loop-step :
    (n c : ℕ) (rest : List ℕ) (s : MacParse)
    → length s.bytes < n
    → mac_loop n (c ∷ rest) s ≡ mac_loop n rest (mac_step c s)
unfolding mac_loop
mac_loop-step n c rest s l = rw (lt→ltb (length s.bytes) n l) refl

-- Two digits are a byte.
mac_loop-byte :
    (n b crez : ℕ) (rest done : List ℕ)
    → b < 256
    → length done < n
    → mac_loop n (hex_digit (b / 16) ∷ hex_digit (b % 16) ∷ rest) (at crez 0 done)
      ≡ mac_loop n rest (at b 0 (done ++ (b ∷ [])))
mac_loop-byte n b crez rest done l room =
    let mid = (crez * 16 + b / 16) % 256 in
    let byte : (mid * 16 + b % 16) % 256 ≡ b = omega (arith, l) in
    mac_loop-step n (hex_digit (b / 16)) (hex_digit (b % 16) ∷ rest) (at crez 0 done) room
    ∙ ap (mac_loop n (hex_digit (b % 16) ∷ rest))
        (mac_step-first (b / 16) crez done (omega (arith, l)))
    ∙ mac_loop-step n (hex_digit (b % 16)) rest (at mid 1 done) room
    ∙ ap (mac_loop n rest) (mac_step-second (b % 16) mid done (omega arith))
    ∙ ap (λ x. mac_loop n rest (at x 0 (done ++ (x ∷ [])))) byte

mac_loop-nil : (n : ℕ) (s : MacParse) → (mac_loop n [] s).bytes ≡ s.bytes
unfolding mac_loop
mac_loop-nil n s = refl

mac_loop-text :
    (n crez : ℕ) (mac done : List ℕ)
    → All IsByte mac
    → length done + length mac ≤ n
    → (mac_loop n (mac_text mac) (at crez 0 done)).bytes ≡ done ++ mac
unfolding mac_text
mac_loop-text n crez [] done v l = mac_loop-nil n (at crez 0 done) ∙ sym (append-nil done)
mac_loop-text n crez (b ∷ []) done v l =
    ap (λ s. s.bytes) (mac_loop-byte n b crez [] done v.0 (omega (arith, l)))
    ∙ mac_loop-nil n (at b 0 (done ++ (b ∷ [])))
mac_loop-text n crez (b ∷ c ∷ mac) done v l =
    let done' = done ++ (b ∷ []) in
    let size : length done' ≡ length done + 1 = omega (arith, length-append done (b ∷ [])) in
    ap (λ s. s.bytes)
      (mac_loop-byte n b crez (58 ∷ mac_text (c ∷ mac)) done v.0 (omega (arith, l))
        ∙ mac_loop-step n 58 (mac_text (c ∷ mac)) (at b 0 done') (omega (arith, l, size))
        ∙ ap (mac_loop n (mac_text (c ∷ mac))) (mac_step-colon b done'))
    ∙ mac_loop-text n b (c ∷ mac) done' v.1 (omega (arith, l, size))
    ∙ append_assoc done (b ∷ []) (c ∷ mac)

length-mac_text : (b : ℕ) (mac : List ℕ) → length (mac_text (b ∷ mac)) ≡ 2 + 3 * length mac
unfolding mac_text
length-mac_text b [] = refl
length-mac_text b (c ∷ mac) = omega (arith, length-mac_text c mac)

drop-all : (n : ℕ) (xs : List ℕ) → length xs ≤ n → drop n xs ≡ []
drop-all zero [] l = refl
drop-all zero (x ∷ xs) l = absurd (omega (arith, l))
drop-all (suc n) [] l = refl
drop-all (suc n) (x ∷ xs) l = drop-all n xs (omega (arith, l))

-- Parsing what toString prints gives back the address, for 6 bytes or more, whatever the array held before.
pub parse_mac-mac_text :
    (b : ℕ) (mac rez_mac : List ℕ)
    → All IsByte (b ∷ mac)
    → 5 ≤ length mac
    → length rez_mac ≡ length (b ∷ mac)
    → parse_mac (length (b ∷ mac)) (mac_text (b ∷ mac)) rez_mac ≡ (true, b ∷ mac)
unfolding parse_mac
parse_mac-mac_text b mac rez_mac v l e =
    let n = length (b ∷ mac) in
    let long = length-mac_text b mac in
    let bytes = mac_loop-text n 0 (b ∷ mac) [] v (omega arith) in
    rw (le→ltb (length (mac_text (b ∷ mac))) 17 (omega (arith, long, l))) (
      ap (λ r. (true, r))
        (ap (λ bs. bs ++ drop (length bs) rez_mac) bytes
          ∙ ap (λ r. (b ∷ mac) ++ r) (drop-all n rez_mac (omega (arith, e)))
          ∙ append-nil (b ∷ mac)))

-- The two conversions of a MAC address to EUI-64 give different addresses, for every address: the one to a vector
-- changes a bit of the first byte, and the other one does not.
pub get_eui64_vector-get_eui64_mac64 :
    (m0 m1 m2 m3 m4 m5 : ℕ)
    → m0 < 256
    → get_eui64_vector m0 m1 m2 m3 m4 m5 ≢ get_eui64_mac64 m0 m1 m2 m3 m4 m5
unfolding get_eui64_vector get_eui64_mac64
get_eui64_vector-get_eui64_mac64 m0 m1 m2 m3 m4 m5 l e =
    let first : xor_64 m0 ≡ m0 = ap (λ xs. get_or xs 0 0) e in ground arith
