-- ===== src/Asn1/Oid.antt =====
-- readOID of src/asn1reader.cpp on bytes that encode an OID.
use libmaycloud.Common.{
  ℕ, zero, suc, ◌+◌, ◌-◌, ◌*◌, ◌/◌, ◌%◌, ◌^◌, ◌≤◌, ◌<◌, ◌≡◌, refl, sym, ap, ap₂, subst, ◌∙◌, inl,
  inr, true, false, some, List, [], ◌∷◌, ◌++◌, map, append-nil, append_assoc, arith, ltb, leb, ◌==◌,
  if◌then◌else◌, lt→ltb, leb→le, leb→lt, le→leb, lt→leb, le→ltb, eq→==, Bool-cases, length,
  length-append,
}
use libmaycloud.Asn1.{
  Header, Outcome, fault, result, has_high_bit, read_header, read_item, oid_loop, read_oid,
}
use libmaycloud.Asn1.Int.{with_header-some}
use libmaycloud.Asn1.Bounds.{read_header-IsHeader}

-- The memory holds the bytes from `p` on.
abbrev pub Has : (ℕ → ℕ) → ℕ → List ℕ → Type 0
Has m p [] = Unit
Has m p (b ∷ bs) = (m p ≡ b) × Has m (p + 1) bs

pub Has-append :
    (m : ℕ → ℕ) (p : ℕ) (xs ys : List ℕ)
    → Has m p (xs ++ ys)
    → Has m p xs × Has m (p + length xs) ys
Has-append m p [] ys h = (tt, subst (λ q. Has m q ys) (omega arith) h)
Has-append m p (x ∷ xs) ys h =
    let r = Has-append m (p + 1) xs ys h.1 in
    ((h.0, r.0), subst (λ q. Has m q ys) (omega arith) r.1)

-- The high digits of a number to the base 128 and what they stand for, `hi` being the number so far: each
-- byte has the high bit.
abbrev pub high_bytes : List ℕ → List ℕ
high_bytes [] = []
high_bytes (d ∷ ds) = high_bytes ds ++ ((d + 128) ∷ [])

abbrev pub value_of_digits : List ℕ → ℕ
value_of_digits [] = 0
value_of_digits (d ∷ ds) = value_of_digits ds * 128 + d

abbrev pub AreDigits : List ℕ → Type 0
AreDigits [] = Unit
AreDigits (d ∷ ds) = (d < 128) × AreDigits ds

read_item-next :
    (m : ℕ → ℕ) (q n v d : ℕ)
    → m q ≡ d + 128
    → d < 128
    → v * 128 + d < 2 ^ 31
    → read_item m q (suc n) v ≡ read_item m (q + 1) n (v * 128 + d)
unfolding read_item
read_item-next m q n v d e a l =
    let x : m q % 128 ≡ d = omega arith in
    let y : has_high_bit (m q) ≡ true = ground arith in
    let z : leb (2 ^ 31) (v * 128 + d) ≡ false = ground arith in rw (x, y, z) refl

read_item-stop :
    (m : ℕ → ℕ) (q n v d : ℕ)
    → m q ≡ d
    → d < 128
    → v * 128 + d < 2 ^ 31
    → read_item m q (suc n) v ≡ some (v * 128 + d, q + 1)
unfolding read_item
read_item-stop m q n v d e a l =
    let x : m q % 128 ≡ d = omega arith in
    let y : has_high_bit (m q) ≡ false = ground arith in
    let z : leb (2 ^ 31) (v * 128 + d) ≡ false = ground arith in rw (x, y, z) refl

-- The loop of readOID over the high digits.
read_item-high :
    (m : ℕ → ℕ) (p n : ℕ) (ds : List ℕ)
    → Has m p (high_bytes ds)
    → AreDigits ds
    → value_of_digits ds < 2 ^ 31
    → read_item m p (length (high_bytes ds) + n) 0
      ≡ read_item m (p + length (high_bytes ds)) n (value_of_digits ds)
read_item-high m p n [] h a l = ap₂ (λ k q. read_item m q k 0) (omega arith) (omega arith)
read_item-high m p n (d ∷ ds) h a l =
    let s = Has-append m p (high_bytes ds) ((d + 128) ∷ []) h in
    let e = length-append (high_bytes ds) ((d + 128) ∷ []) in
    let q = p + length (high_bytes ds) in
    ap (λ k. read_item m p k 0) (omega (arith, e))
    ∙ read_item-high m p (suc n) ds s.0 a.1 (omega arith)
    ∙ read_item-next m q n (value_of_digits ds) d s.1.0 a.0 l
    ∙ ap (λ k. read_item m k n (value_of_digits ds * 128 + d)) (omega (arith, e))

-- The bytes of a number whose digits to the base 128 are given, the lowest first.
abbrev pub item_bytes : List ℕ → List ℕ
item_bytes [] = 0 ∷ []
item_bytes (d ∷ ds) = high_bytes ds ++ (d ∷ [])

pub read_item-item_bytes :
    (m : ℕ → ℕ) (p n : ℕ) (ds : List ℕ)
    → Has m p (item_bytes ds)
    → AreDigits ds
    → value_of_digits ds < 2 ^ 31
    → read_item m p (length (item_bytes ds) + n) 0
      ≡ some (value_of_digits ds, p + length (item_bytes ds))
read_item-item_bytes m p n [] h a l =
    ap (λ k. read_item m p k 0) (omega arith)
    ∙ read_item-stop m p n 0 0 h.0 (omega arith) (omega arith)
read_item-item_bytes m p n (d ∷ ds) h a l =
    let s = Has-append m p (high_bytes ds) (d ∷ []) h in
    let e = length-append (high_bytes ds) (d ∷ []) in
    let q = p + length (high_bytes ds) in
    ap (λ k. read_item m p k 0) (omega (arith, e))
    ∙ read_item-high m p (suc n) ds s.0 a.1 (omega arith)
    ∙ read_item-stop m q n (value_of_digits ds) d s.1.0 a.0 l
    ∙ ap (λ k. some (value_of_digits ds * 128 + d, k)) (omega (arith, e))

-- Numbers by their digits, encoded one after the other.
abbrev pub items_bytes : List (List ℕ) → List ℕ
items_bytes [] = []
items_bytes (ds ∷ rest) = item_bytes ds ++ items_bytes rest

abbrev pub AreItems : List (List ℕ) → Type 0
AreItems [] = Unit
AreItems (ds ∷ rest) = AreDigits ds × (value_of_digits ds < 2 ^ 31) × AreItems rest

pub item_bytes-some : (ds : List ℕ) → 0 < length (item_bytes ds)
item_bytes-some [] = omega arith
item_bytes-some (d ∷ ds) = omega (arith, length-append (high_bytes ds) (d ∷ []))

oid_loop-more :
    (capacity fuel : ℕ) (m : ℕ → ℕ) (end limit p v q : ℕ) (oid : List ℕ)
    → p < end
    → length oid ≤ 128
    → length oid < capacity
    → read_item m p (limit - p) 0 ≡ some (v, q)
    → oid_loop capacity (suc fuel) m end limit p oid
      ≡ oid_loop capacity fuel m end limit q (oid ++ (v ∷ []))
unfolding oid_loop
oid_loop-more capacity fuel m end limit p v q oid l h c e =
    rw (lt→leb end p l, le→ltb 128 (length oid) h, lt→leb capacity (length oid) c, e, oid_loop) refl

oid_loop-full :
    (capacity fuel : ℕ) (m : ℕ → ℕ) (end limit p : ℕ) (oid : List ℕ)
    → p < end
    → length oid ≤ 128
    → capacity ≤ length oid
    → oid_loop capacity (suc fuel) m end limit p oid ≡ fault
unfolding oid_loop
oid_loop-full capacity fuel m end limit p oid l h c =
    rw (lt→leb end p l, le→ltb 128 (length oid) h, le→leb capacity (length oid) c, oid_loop) refl

-- What a reader of these numbers returns whose array has room for `capacity`.
abbrev pub fits : (capacity : ℕ) → List ℕ → (end : ℕ) → Outcome (List ℕ)
fits capacity oid end = if ltb capacity (length oid) then fault else result oid end

oid_loop-items :
    (capacity fuel : ℕ) (m : ℕ → ℕ) (end limit p : ℕ) (oid : List ℕ) (ds : List (List ℕ))
    → Has m p (items_bytes ds)
    → AreItems ds
    → p + length (items_bytes ds) ≡ end
    → end ≤ limit
    → length oid + length ds ≤ 129
    → length oid ≤ capacity
    → length ds < fuel
    → oid_loop capacity fuel m end limit p oid ≡ fits capacity (oid ++ map value_of_digits ds) end
unfolding oid_loop
oid_loop-items capacity zero m end limit p oid ds h a e le_limit room c f = absurd (omega arith)
oid_loop-items capacity (suc fuel) m end limit p oid [] h a e le_limit room c f =
    rw (le→leb end p (omega arith), append-nil oid, le→ltb capacity (length oid) c) refl
oid_loop-items capacity (suc fuel) m end limit p oid (ds ∷ rest) h a e le_limit room c f =
    let s = Has-append m p (item_bytes ds) (items_bytes rest) h in
    let k = length-append (item_bytes ds) (items_bytes rest) in
    let pos_len = item_bytes-some ds in
    let step : read_item m p (limit - p) 0 ≡ some (value_of_digits ds, p + length (item_bytes ds)) =
      ap (λ n. read_item m p n 0) {x = limit - p} (omega (arith, k))
      ∙ read_item-item_bytes m p (limit - (p + length (item_bytes ds))) ds s.0 a.0 a.1 in
    let v = value_of_digits ds in
    let all = oid ++ (v ∷ map value_of_digits rest) in
    elim (Bool-cases (leb capacity (length oid))) [
      | inl full ↦
          let n = length-append oid (v ∷ map value_of_digits rest) in
          let g = leb→le capacity (length oid) full in
          oid_loop-full capacity fuel m end limit p oid (omega (arith, k)) (omega arith) g
          ∙ sym (
              ap (λ b. if b then fault else result all end)
                (lt→ltb capacity (length all) (omega (arith, n, g))))
      | inr some_room ↦
          let g = leb→lt capacity (length oid) some_room in
          oid_loop-more capacity fuel m end limit p v (p + length (item_bytes ds)) oid
            (omega (arith, k)) (omega arith) g step
          ∙ oid_loop-items capacity fuel m end limit (p + length (item_bytes ds)) (oid ++ (v ∷ []))
              rest s.1 a.2 (omega (arith, k)) le_limit (omega (arith, length-append oid (v ∷ [])))
              (omega (arith, g, length-append oid (v ∷ []))) (omega arith)
          ∙ ap (λ o. fits capacity o end) (append_assoc oid (v ∷ []) (map value_of_digits rest))
    ]

pub length-items_bytes : (ds : List (List ℕ)) → length ds ≤ length (items_bytes ds)
length-items_bytes [] = omega arith
length-items_bytes (ds ∷ rest) = omega (
  arith,
  length-items_bytes rest,
  item_bytes-some ds,
  length-append (item_bytes ds) (items_bytes rest),
)

-- Where an OID's header is in order and its bytes encode at most 128 numbers to the base 128, of which
-- each fits an int, readOID returns the first as its quotient and remainder by 40 and the others behind,
-- and moves behind the OID, if the caller's array has room for them; otherwise it writes past the array.
pub read_oid-items :
    (capacity : ℕ) (m : ℕ → ℕ) (p limit : ℕ) (h : Header) (d : List ℕ) (ds : List (List ℕ))
    → read_header m p limit ≡ some h
    → h.type ≡ 6
    → Has m h.data_at (item_bytes d ++ items_bytes ds)
    → h.length ≡ length (item_bytes d ++ items_bytes ds)
    → AreItems (d ∷ ds)
    → length ds ≤ 127
    → 2 ≤ capacity
    → read_oid capacity m p limit
      ≡ fits capacity
          (value_of_digits d / 40 ∷ value_of_digits d % 40 ∷ map value_of_digits ds)
          h.limit
unfolding read_oid
read_oid-items capacity m p limit h d ds r t bytes len a room two =
    let k = length-append (item_bytes d) (items_bytes ds) in
    let s = Has-append m h.data_at (item_bytes d) (items_bytes ds) bytes in
    let i = read_header-IsHeader m p limit h r in
    let v = value_of_digits d in
    let q = h.data_at + length (item_bytes d) in
    let first : read_item m h.data_at h.length 0 ≡ some (v, q) =
      ap (λ n. read_item m h.data_at n 0) {x = h.length} (omega (arith, k))
      ∙ read_item-item_bytes m h.data_at (length (items_bytes ds)) d s.0 a.0 a.1 in
    with_header-some (λ t. t == 6) _ m p limit h r (eq→== h.type 6 t)
    ∙ rw (first, le→ltb capacity 2 two)
        (oid_loop-items capacity (h.length + 1) m h.limit limit q (v / 40 ∷ v % 40 ∷ []) ds s.1 a.2
          (omega (arith, k, i.whole)) i.inside (omega arith) two
          (omega (arith, k, length-items_bytes ds)))
