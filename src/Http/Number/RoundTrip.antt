-- ===== src/Http/Number/RoundTrip.antt =====
-- strtoul of src/httprequest.cpp reads what std::to_string of src/httpresponse.cpp writes.
use libmaycloud.Common.{
  ℕ, zero, suc, ◌+◌, ◌*◌, ◌/◌, ◌%◌, ◌^◌, ◌<◌, ◌≡◌, refl, sym, ap, ◌∙◌, inl, inr, false, List, [],
  ◌∷◌, arith, ltb, ltb→lt, lt→ltb, ltb→le, ne→==_false, Bool-cases, All,
}
use libmaycloud.Easylib.Trim.{is_space, skip_space}
use libmaycloud.Http.Number.{digit_of, digits, magnitude, signed_value, strtoul, decimal, to_string}

power : ℕ → ℕ
power zero = 1
power (suc k) = 10 * power k

digits-step :
    (acc d : ℕ) (s : List ℕ) → d < 10 → digits 10 acc ((48 + d) ∷ s) ≡ digits 10 (acc * 10 + d) s
unfolding digits digit_of
digits-step acc d s l = ground arith

-- The decimal digits of a number in front of a string are read as that number.
digits-decimal :
    (fuel n : ℕ) (s : List ℕ) → n < power fuel → digits 10 0 (decimal fuel n s) ≡ digits 10 n s
unfolding decimal power
digits-decimal zero n s l = ap (λ k. digits 10 k s) (omega (arith, l))
digits-decimal (suc fuel) n s l = elim (Bool-cases (ltb n 10)) [
  | inl t ↦ rw t (digits-step 0 n s (ltb→lt n 10 t) ∙ ap (λ k. digits 10 k s) (omega arith))
  | inr f ↦ rw f (
      digits-decimal fuel (n / 10) ((48 + n % 10) ∷ s) (omega (arith, l))
      ∙ digits-step (n / 10) (n % 10) s (omega arith)
      ∙ ap (λ k. digits 10 k s) (omega arith))
]

-- The first digit is a zero only for the number zero.
decimal-head :
    (fuel n : ℕ) (s : List ℕ)
    → 0 < n
    → n < power fuel
    → (d : ℕ) × (t : List ℕ) × (decimal fuel n s ≡ (48 + d) ∷ t) × (0 < d) × (d < 10)
unfolding decimal power
decimal-head zero n s z l = absurd (omega (arith, z, l))
decimal-head (suc fuel) n s z l = elim (Bool-cases (ltb n 10)) [
  | inl t ↦ (n, s, rw t refl, z, ltb→lt n 10 t)
  | inr f ↦ rw f (
      decimal-head fuel (n / 10) ((48 + n % 10) ∷ s) (omega (arith, ltb→le n 10 f))
        (omega (arith, l)))
]

not_space : (d : ℕ) → is_space (48 + d) ≡ false
unfolding is_space
not_space d = ground arith

-- A number that starts with a digit other than 0 is a decimal one.
strtoul-decimal :
    (d : ℕ) (t : List ℕ)
    → 0 < d
    → strtoul ((48 + d) ∷ t) ≡ signed_value false (digits 10 0 ((48 + d) ∷ t))
unfolding strtoul skip_space magnitude
strtoul-decimal d t z =
    rw
      (
        not_space d,
        ne→==_false (48 + d) 45 (omega arith),
        ne→==_false (48 + d) 43 (omega arith),
        ne→==_false (48 + d) 48 (omega (arith, z)),
      )
      refl

-- strtoul with base 0 reads back every unsigned number of 64 bits that std::to_string writes.
pub strtoul-to_string : (n : ℕ) → n < 2 ^ 64 → strtoul (to_string n) ≡ n
unfolding to_string
strtoul-to_string zero l = unfold strtoul decimal in refl
strtoul-to_string (suc n) l =
    let fits : suc n < power 20 = unfold power in omega (arith, l) in
    let (d, t, e, z, u) = decimal-head 20 (suc n) [] (omega arith) fits in
    ap strtoul e
    ∙ strtoul-decimal d t z
    ∙ ap (λ s. signed_value false (digits 10 0 s)) (sym e)
    ∙ ap (signed_value false) (digits-decimal 20 (suc n) [] fits)
    ∙ unfold signed_value digits in rw (lt→ltb (suc n) (2 ^ 64) l) refl

-- Every character that std::to_string writes is a digit.
decimal-All :
    (P : ℕ → Type 0)
    → ((d : ℕ) → d < 10 → P (48 + d))
    → (fuel n : ℕ) (s : List ℕ) → All P s
    → All P (decimal fuel n s)
unfolding decimal
decimal-All P digit zero n s a = a
decimal-All P digit (suc fuel) n s a = elim (Bool-cases (ltb n 10)) [
  | inl t ↦ rw t (digit n (ltb→lt n 10 t), a)
  | inr f ↦
      rw f (decimal-All P digit fuel (n / 10) ((48 + n % 10) ∷ s) (digit (n % 10) (omega arith), a))
]

pub to_string-All :
    (P : ℕ → Type 0) → ((d : ℕ) → d < 10 → P (48 + d)) → (n : ℕ) → All P (to_string n)
unfolding to_string
to_string-All P digit n = decimal-All P digit 20 n [] tt
