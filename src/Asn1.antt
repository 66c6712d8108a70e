-- ===== src/Asn1.antt =====
-- The reader of ASN.1 values of src/asn1reader.cpp. A pointer is an address, and `m` is the bytes of the
-- memory; reads below `limit` are the only ones that the reader makes there.
pub mod Bounds
pub mod Int
pub mod Oid
pub mod Short
mod Tests
use libmaycloud.Common.{
  ℕ, zero, suc, ◌+◌, ◌-◌, ◌*◌, ◌/◌, ◌%◌, ◌^◌, Bool, true, ◌||◌, Option, none, some, List, [], ◌∷◌,
  ◌++◌, ltb, leb, ◌==◌, if◌then◌else◌, ◌>>=◌, length, ℤ, pos, negsuc,
}

-- asn1_header_t; `data_at` is its field data.
pub record Header : Type 0 where
  pub type : ℕ
  pub length : ℕ
  pub data_at : ℕ
  pub limit : ℕ

-- What a reader does: leave the bounds of an array or of int (`fault`), return false, or return true
-- with a result and the new position.
pub data Outcome (A : Type 0) : Type 0 where
  fault : Outcome A
  refused : Outcome A
  result : A → ℕ → Outcome A

-- Writing a byte into an array or the memory.
abbrev pub poke : ℕ → ℕ → (ℕ → ℕ) → ℕ → ℕ
poke a v m i = if i == a then v else m i

abbrev pub has_high_bit : ℕ → Bool
has_high_bit b = (b / 128) % 2 == 1

-- `value = value * 256 + *p++` on the `n` bytes from `p` on, in an unsigned type of `w` bits.
pub read_number : (w : ℕ) → (ℕ → ℕ) → (p n value : ℕ) → ℕ
read_number w m p zero value = value
read_number w m p (suc n) value = read_number w m (p + 1) n ((value * 256 + m p) % 2 ^ w)

-- A bit pattern of `w` bits as a signed number.
pub signed : (w v : ℕ) → ℤ
signed w v = if ltb v (2 ^ (w - 1)) then pos v else negsuc (2 ^ w - 1 - v)

-- The end of readHeader: a value that goes past the limit is refused.
pub within : ℕ → Header → Option Header
within limit h = if ltb limit h.limit then none else some h

pub read_header : (ℕ → ℕ) → (p limit : ℕ) → Option Header
unfolding within read_number
read_header m p limit =
    if leb limit (p + 1)
    then none
    else if has_high_bit (m (p + 1))
    then (let c = m (p + 1) % 128 in
        let l = read_number 32 m (p + 2) c 0 in
        if ltb 4 c
        then none
        else if ltb limit (p + 2 + c)
        then none
        else within limit
            (record { type = m p; length = l; data_at = p + 2 + c; limit = p + 2 + c + l }))
    else within limit
        (record { type = m p; length = m (p + 1); data_at = p + 2; limit = p + 2 + m (p + 1) })

-- How every reader starts: the header, and whether its type is right.
pub with_header : {A : Type 0} → (ℕ → Bool) → (Header → Outcome A) → (ℕ → ℕ) → ℕ → ℕ → Outcome A
unfolding read_header
with_header right go m p limit = elim (read_header m p limit) [
  | none ↦ refused
  | some h ↦ if right h.type then go h else refused
]

pub read_timeticks : (ℕ → ℕ) → (p limit : ℕ) → Outcome ℤ
unfolding with_header read_number signed
read_timeticks m =
    with_header (λ t. t == 67)
      (λ h. result (signed 16 (read_number 16 m h.data_at h.length 0)) h.limit) m

-- The loop of readInt, `value[i--] = *p++`, where `slots` is i + 1; a write before the array is a fault.
pub fill_value : (ℕ → ℕ) → (p n slots : ℕ) → (ℕ → ℕ) → Option (ℕ × (ℕ → ℕ))
fill_value m p zero slots value = some (slots, value)
fill_value m p (suc n) zero value = none
fill_value m p (suc n) (suc i) value = fill_value m (p + 1) n i (poke i (m p) value)

-- The int at `value + at` on a little-endian machine; `value` has four bytes.
pub load_int : (ℕ → ℕ) → ℕ → Option ℤ
unfolding signed
load_int value at =
    if ltb 4 (at + 4)
    then none
    else some (
        signed 32
          (value at + 256 * value (at + 1) + 65536 * value (at + 2) + 16777216 * value (at + 3)))

-- What readInt makes of `value` after the loop.
pub int_of : (slots : ℕ) → (ℕ → ℕ) → Option ℤ
unfolding signed load_int
int_of slots value =
    if slots == 3
    then some (signed 8 (value 3))
    else if slots == 2
    then some (signed 16 (value 2 + 256 * value 3))
    else if leb slots 1
    then load_int value slots
    else some (pos 0)

pub read_int : (ℕ → ℕ) → (p limit : ℕ) → Outcome ℤ
unfolding with_header fill_value int_of
read_int m =
    with_header (λ t. t == 2)
      (λ h. elim (fill_value m h.data_at h.length 4 (λ i. 0) >>= λ r. int_of r.0 r.1) [
        | none ↦ fault
        | some i ↦ result i h.limit
      ])
      m

pub read_counter64 : (ℕ → ℕ) → (p limit : ℕ) → Outcome ℕ
unfolding with_header read_number
read_counter64 m =
    with_header (λ t. t == 70) (λ h. result (read_number 64 m h.data_at h.length 0) h.limit) m

pub read_counter_gauge32 : (ℕ → ℕ) → (p limit : ℕ) → Outcome ℕ
unfolding with_header read_number
read_counter_gauge32 m =
    with_header (λ t. t == 65 || t == 66)
      (λ h. result (read_number 32 m h.data_at h.length 0) h.limit) m

-- The `n` bytes from `p` on.
pub bytes_at : (ℕ → ℕ) → (p n : ℕ) → List ℕ
bytes_at m p zero = []
bytes_at m p (suc n) = m p ∷ bytes_at m (p + 1) n

-- The result is what stands in the caller's array, with the 0 behind it.
pub read_string : (ℕ → ℕ) → (p limit : ℕ) → Outcome (List ℕ)
unfolding with_header bytes_at
read_string m =
    with_header (λ t. t == 4)
      (λ h.
        if ltb 255 h.length
        then refused
        else result (bytes_at m h.data_at h.length ++ (0 ∷ [])) h.limit)
      m

pub read_null : (ℕ → ℕ) → (p limit : ℕ) → Outcome Bool
unfolding with_header
read_null m = with_header (λ t. t == 5) (λ h. result true h.limit) m

-- The loop that reads one number of an OID, with at most `n` bytes left; `item` is an int.
pub read_item : (ℕ → ℕ) → (p n item : ℕ) → Option (ℕ × ℕ)
read_item m p zero item = some (item, p)
read_item m p (suc n) item =
    let rest = read_item m (p + 1) n (item * 128 + m p % 128) in
    if leb (2 ^ 31) (item * 128 + m p % 128)
    then none
    else if has_high_bit (m p)
    then rest
    else some (item * 128 + m p % 128, p + 1)

-- The numbers of an OID from the third on: `oid` are those in `result` so far, and `capacity` is the size
-- of the caller's array. Without fuel it is a fault.
pub oid_loop : (capacity : ℕ) → ℕ → (ℕ → ℕ) → (end limit p : ℕ) → List ℕ → Outcome (List ℕ)
unfolding read_item
oid_loop capacity zero m end limit p oid = fault
oid_loop capacity (suc fuel) m end limit p oid =
    let more = read_item m p (limit - p) 0 >>= λ r.
    some (oid_loop capacity fuel m end limit r.1 (oid ++ (r.0 ∷ []))) in
    if leb end p
    then result oid end
    else if ltb 128 (length oid)
    then refused
    else if leb capacity (length oid)
    then fault
    else elim more [ none ↦ fault | some o ↦ o ]

-- readOID(result, len, data, limit), where `result` has room for `capacity` numbers, of which the first
-- two are written at once.
pub read_oid : (capacity : ℕ) → (ℕ → ℕ) → (p limit : ℕ) → Outcome (List ℕ)
unfolding with_header read_item oid_loop
read_oid capacity m p limit =
    with_header (λ t. t == 6)
      (λ h. elim (read_item m h.data_at h.length 0) [
        | none ↦ fault
        | some r ↦
            if ltb capacity 2
            then fault
            else oid_loop capacity (h.length + 1) m h.limit limit r.1 (r.0 / 40 ∷ r.0 % 40 ∷ [])
      ])
      m p limit
