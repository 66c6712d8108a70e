-- ===== src/Easylib/Base64/RoundTrip.antt =====
-- base64_decode of src/easylib.cpp against an encoder.
use libmaycloud.Common.{
  ℕ, ◌+◌, ◌*◌, ◌/◌, ◌%◌, ◌≤◌, ◌<◌, ◌≡◌, refl, sym, ap, ap₂, ◌∙◌, ◌≢◌, Bool, true, not, ◌&&◌, none,
  some, List, [], ◌∷◌, arith, ◌==◌, eq→==, ==_iff, true-ne-false, length, get_or, take, All, IsByte,
}
use libmaycloud.Easylib.Base64.{base64_chars, is_base64, find_char, decode_loop, base64_decode}
use libmaycloud.Easylib.Pieces.Explode.{take_all, as_int_small, IsShort}
use libmaycloud.Easylib.Check.{all_below, and-both, all_below-at}

-- The character of six bits.
pub char_of : ℕ → ℕ
char_of v = get_or base64_chars v 0

-- Every character of six bits is one that the decoder takes, and it finds the bits again.
round_trips : ℕ → Bool
unfolding char_of
round_trips v = not (char_of v == 61) && is_base64 (char_of v) && (find_char (char_of v) == v)

all_below_64 : all_below 64 round_trips ≡ true
unfolding round_trips char_of is_base64 all_below base64_chars find_char
all_below_64 = refl

char_of-taken :
    (v : ℕ)
    → v < 64
    → ((not (char_of v == 61) && is_base64 (char_of v)) ≡ true) × (find_char (char_of v) ≡ v)
unfolding round_trips
char_of-taken v l =
    let both =
      and-both (not (char_of v == 61) && is_base64 (char_of v)) (find_char (char_of v) == v)
        (all_below-at 64 round_trips v all_below_64 l) in
    (both.0, (==_iff (find_char (char_of v)) v).0 both.1)

-- The encoder of RFC 4648: three bytes in four characters, and = for what is missing at the end.
unfoldable pub base64_encode : List ℕ → List ℕ
unfolding char_of
base64_encode [] = []
base64_encode (a ∷ []) = char_of (a / 4) ∷ char_of (a % 4 * 16) ∷ 61 ∷ 61 ∷ []
base64_encode (a ∷ b ∷ []) =
    char_of (a / 4) ∷ char_of (a % 4 * 16 + b / 16) ∷ char_of (b % 16 * 4) ∷ 61 ∷ []
base64_encode (a ∷ b ∷ c ∷ rest) =
    char_of (a / 4)
    ∷ char_of (a % 4 * 16 + b / 16)
    ∷ char_of (b % 16 * 4 + c / 64)
    ∷ char_of (c % 64)
    ∷ base64_encode rest

decode_loop-encode :
    (bytes : List ℕ) → All IsByte bytes → decode_loop [] (base64_encode bytes) ≡ bytes
unfolding base64_encode decode_loop
decode_loop-encode [] v = refl
decode_loop-encode (a ∷ []) v =
    let x = char_of-taken (a / 4) (omega (arith, v.0)) in
    let y = char_of-taken (a % 4 * 16) (omega arith) in
    rw (x.0, y.0) (ap (λ k. k ∷ []) (omega (arith, x.1, y.1, v.0)))
decode_loop-encode (a ∷ b ∷ []) v =
    let x = char_of-taken (a / 4) (omega (arith, v.0)) in
    let y = char_of-taken (a % 4 * 16 + b / 16) (omega (arith, v.1.0)) in
    let z = char_of-taken (b % 16 * 4) (omega arith) in
    rw (x.0, y.0, z.0)
      (ap₂ (λ k l. k ∷ l ∷ []) (omega (arith, x.1, y.1, v.0, v.1.0))
        (omega (arith, y.1, z.1, v.1.0)))
decode_loop-encode (a ∷ b ∷ c ∷ rest) v =
    let x = char_of-taken (a / 4) (omega (arith, v.0)) in
    let y = char_of-taken (a % 4 * 16 + b / 16) (omega (arith, v.1.0)) in
    let z = char_of-taken (b % 16 * 4 + c / 64) (omega (arith, v.1.1.0)) in
    let w = char_of-taken (c % 64) (omega arith) in
    rw (x.0, y.0, z.0, w.0, x.1, y.1, z.1, w.1)
      (ap₂ (λ k ks. k ∷ ks) (omega (arith, v.0, v.1.0))
        (ap₂ (λ k ks. k ∷ ks) (omega (arith, v.1.0, v.1.1.0))
          (ap₂ (λ k ks. k ∷ ks) (omega (arith, v.1.1.0)) (decode_loop-encode rest v.1.1.1))))

-- base64_decode gives back every string of bytes from what the encoder of RFC 4648 makes of it, if that has less than
-- 2 ^ 31 characters.
pub base64_decode-encode :
    (bytes : List ℕ)
    → All IsByte bytes
    → IsShort (base64_encode bytes)
    → base64_decode (base64_encode bytes) ≡ bytes
unfolding base64_decode
base64_decode-encode bytes v l =
    let str = base64_encode bytes in
    ap (λ o. decode_loop [] (elim o as (λ _. List ℕ) [ none ↦ str | some n ↦ take n str ]))
      (as_int_small (length str) l)
    ∙ ap (decode_loop []) (take_all str)
    ∙ decode_loop-encode bytes v

-- The encoding is not shorter.
pub length-base64_encode : (bytes : List ℕ) → length bytes ≤ length (base64_encode bytes)
unfolding base64_encode
length-base64_encode [] = omega arith
length-base64_encode (a ∷ []) = omega arith
length-base64_encode (a ∷ b ∷ []) = omega arith
length-base64_encode (a ∷ b ∷ c ∷ rest) = omega (arith, length-base64_encode rest)

no_space : ℕ → Bool
unfolding char_of
no_space v = not (char_of v == 32)

no_space_64 : all_below 64 no_space ≡ true
unfolding no_space char_of all_below base64_chars
no_space_64 = refl

char_of-ne_space : (v : ℕ) → v < 64 → char_of v ≢ 32
unfolding no_space
char_of-ne_space v l e =
    true-ne-false (sym (all_below-at 64 no_space v no_space_64 l) ∙ ap not (eq→== (char_of v) 32 e))

-- The encoding has no space.
pub base64_encode-ne_space :
    (bytes : List ℕ) → All IsByte bytes → All (λ c. c ≢ 32) (base64_encode bytes)
unfolding base64_encode
base64_encode-ne_space [] v = tt
base64_encode-ne_space (a ∷ []) v = (
  char_of-ne_space (a / 4) (omega (arith, v.0)),
  (char_of-ne_space (a % 4 * 16) (omega arith), (omega arith, (omega arith, tt))),
)
base64_encode-ne_space (a ∷ b ∷ []) v = (
  char_of-ne_space (a / 4) (omega (arith, v.0)),
  (
    char_of-ne_space (a % 4 * 16 + b / 16) (omega (arith, v.1.0)),
    (char_of-ne_space (b % 16 * 4) (omega arith), (omega arith, tt)),
  ),
)
base64_encode-ne_space (a ∷ b ∷ c ∷ rest) v = (
  char_of-ne_space (a / 4) (omega (arith, v.0)),
  (
    char_of-ne_space (a % 4 * 16 + b / 16) (omega (arith, v.1.0)),
    (
      char_of-ne_space (b % 16 * 4 + c / 64) (omega (arith, v.1.1.0)),
      (char_of-ne_space (c % 64) (omega arith), base64_encode-ne_space rest v.1.1.1),
    ),
  ),
)
