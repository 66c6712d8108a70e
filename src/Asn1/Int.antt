-- ===== src/Asn1/Int.antt =====
-- What the readers of src/asn1reader.cpp make of the bytes of a number.
use libmaycloud.Common.{
  ℕ, zero, suc, ◌+◌, ◌*◌, ◌%◌, ◌^◌, ◌<◌, ◌≡◌, refl, sym, ap, ◌∙◌, ◌⊎◌, Bool, true, ◌||◌, Option,
  none, some, arith, ◌==◌, if◌then◌else◌, eq→==, ◌>>=◌, ℤ, pos,
}
use libmaycloud.Asn1.{
  Header, Outcome, fault, result, poke, read_number, signed, read_header, with_header,
  read_timeticks, fill_value, load_int, int_of, read_int, read_counter64, read_counter_gauge32,
}

-- The `n` bytes from `p` on as one number, the first the highest.
abbrev pub big_endian : (ℕ → ℕ) → (p n : ℕ) → ℕ
big_endian m p zero = 0
big_endian m p (suc n) = m p * 256 ^ n + big_endian m (p + 1) n

-- What an INTEGER is: none, one, two or four bytes in two's complement; of other lengths readInt
-- leaves the bounds of its array.
abbrev pub integer_at : (ℕ → ℕ) → (p n : ℕ) → Option ℤ
integer_at m p n =
    if n == 0
    then some (pos 0)
    else if n == 1 || (n == 2 || n == 4)
    then some (signed (8 * n) (big_endian m p n))
    else none

fill_value-none :
    (m : ℕ → ℕ) (p n slots : ℕ) (value : ℕ → ℕ) → slots < n → fill_value m p n slots value ≡ none
unfolding fill_value
fill_value-none m p zero slots value lt = absurd (omega arith)
fill_value-none m p (suc n) zero value lt = refl
fill_value-none m p (suc n) (suc i) value lt =
    fill_value-none m (p + 1) n i (poke i (m p) value) (omega arith)

abbrev pub outcome : Option ℤ → ℕ → Outcome ℤ
outcome none limit = fault
outcome (some i) limit = result i limit

value_of :
    (m : ℕ → ℕ) (p n limit : ℕ)
    → elim (fill_value m p n 4 (λ i. 0) >>= λ r. int_of r.0 r.1) as (λ _. Outcome ℤ) [
      | none ↦ fault
      | some i ↦ result i limit
    ]
      ≡ outcome (integer_at m p n) limit
unfolding fill_value int_of load_int
value_of m p zero limit = refl
value_of m p (suc zero) limit = ap (λ v. result (signed 8 v) limit) (omega arith)
value_of m p (suc (suc zero)) limit = ap (λ v. result (signed 16 v) limit) (omega arith)
value_of m p (suc (suc (suc zero))) limit = refl
value_of m p (suc (suc (suc (suc zero)))) limit = ap (λ v. result (signed 32 v) limit) (omega arith)
value_of m p (suc (suc (suc (suc (suc n))))) limit = ground arith

pub with_header-some :
    {A : Type 0} (right : ℕ → Bool) (go : Header → Outcome A) (m : ℕ → ℕ) (p limit : ℕ) (h : Header)
    → read_header m p limit ≡ some h
    → right h.type ≡ true
    → with_header right go m p limit ≡ go h
unfolding with_header
with_header-some right go m p limit h r t = rw (r, t, with_header) refl

-- Where an INTEGER's header is in order, readInt returns its bytes in two's complement if there are
-- none, one, two or four of them, and moves behind them; with three bytes, or with more than four, it
-- leaves the bounds of its array of four bytes.
pub read_int-integer_at :
    (m : ℕ → ℕ) (p limit : ℕ) (h : Header)
    → read_header m p limit ≡ some h
    → h.type ≡ 2
    → read_int m p limit ≡ outcome (integer_at m h.data_at h.length) h.limit
unfolding read_int
read_int-integer_at m p limit h r t =
    with_header-some (λ t. t == 2) _ m p limit h r (eq→== h.type 2 t)
    ∙ value_of m h.data_at h.length h.limit

-- The bytes as one number, without an overflow: the first is the highest.
abbrev pub number_at : (ℕ → ℕ) → (p n value : ℕ) → ℕ
number_at m p zero value = value
number_at m p (suc n) value = number_at m (p + 1) n (value * 256 + m p)

module _ (w : ℕ) (m : ℕ → ℕ)
    (step : (a b c : ℕ) → a % 2 ^ w ≡ b % 2 ^ w → (a * 256 + c) % 2 ^ w ≡ (b * 256 + c) % 2 ^ w)
    (twice : (a : ℕ) → (a % 2 ^ w) % 2 ^ w ≡ a % 2 ^ w) where
  read_number-from :
      (p n a b : ℕ)
      → a % 2 ^ w ≡ b % 2 ^ w
      → read_number w m p n a % 2 ^ w ≡ number_at m p n b % 2 ^ w
  unfolding read_number
  read_number-from p zero a b e = e
  read_number-from p (suc n) a b e =
      read_number-from (p + 1) n _ _ (twice (a * 256 + m p) ∙ step a b (m p) e)

  read_number-low :
      (p n a : ℕ) → a % 2 ^ w ≡ a → read_number w m p n a % 2 ^ w ≡ read_number w m p n a
  unfolding read_number
  read_number-low p zero a e = e
  read_number-low p (suc n) a e = read_number-low (p + 1) n _ (twice (a * 256 + m p))

  read_number-mod : (p n : ℕ) → 0 % 2 ^ w ≡ 0 → read_number w m p n 0 ≡ number_at m p n 0 % 2 ^ w
  read_number-mod p n e = sym (read_number-low p n 0 e) ∙ read_number-from p n 0 0 refl

-- Where a COUNTER64's header is in order, readCounter64 returns its bytes as one number modulo 2 ^ 64 and
-- moves behind them.
pub read_counter64-number_at :
    (m : ℕ → ℕ) (p limit : ℕ) (h : Header)
    → read_header m p limit ≡ some h
    → h.type ≡ 70
    → read_counter64 m p limit ≡ result (number_at m h.data_at h.length 0 % 2 ^ 64) h.limit
unfolding read_counter64
read_counter64-number_at m p limit h r t =
    with_header-some (λ t. t == 70) _ m p limit h r (eq→== h.type 70 t)
    ∙ ap (λ v. result v h.limit)
        (read_number-mod 64 m (λ a b c e. omega arith) (λ a. omega arith) h.data_at h.length refl)

-- Where a TIMETICK's header is in order, readTimeticks returns its bytes as one number modulo 2 ^ 16, as a
-- signed short, and moves behind them.
pub read_timeticks-number_at :
    (m : ℕ → ℕ) (p limit : ℕ) (h : Header)
    → read_header m p limit ≡ some h
    → h.type ≡ 67
    → read_timeticks m p limit
      ≡ result (signed 16 (number_at m h.data_at h.length 0 % 2 ^ 16)) h.limit
unfolding read_timeticks
read_timeticks-number_at m p limit h r t =
    with_header-some (λ t. t == 67) _ m p limit h r (eq→== h.type 67 t)
    ∙ ap (λ v. result (signed 16 v) h.limit)
        (read_number-mod 16 m (λ a b c e. omega arith) (λ a. omega arith) h.data_at h.length refl)

-- Where the header of a COUNTER or GAUGE32 is in order, readCounterGauge32 returns its bytes as one number
-- modulo 2 ^ 32 and moves behind them.
pub read_counter_gauge32-number_at :
    (m : ℕ → ℕ) (p limit : ℕ) (h : Header)
    → read_header m p limit ≡ some h
    → (h.type ≡ 65) ⊎ (h.type ≡ 66)
    → read_counter_gauge32 m p limit ≡ result (number_at m h.data_at h.length 0 % 2 ^ 32) h.limit
unfolding read_counter_gauge32
read_counter_gauge32-number_at m p limit h r t =
    with_header-some (λ t. t == 65 || t == 66) _ m p limit h r (ground (arith, t))
    ∙ ap (λ v. result v h.limit)
        (read_number-mod 32 m (λ a b c e. omega arith) (λ a. omega arith) h.data_at h.length refl)
