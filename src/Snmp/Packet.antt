-- ===== src/Snmp/Packet.antt =====
-- The bytes of a GET packet of SNMP version 2.
use libmaycloud.Asn1.Oid.{
  Has, value_of_digits, item_bytes, items_bytes, length-items_bytes, read_oid-items,
}
use libmaycloud.Common.{
  ℕ, ◌+◌, ◌*◌, ◌/◌, ◌%◌, ◌^◌, ◌≤◌, ◌<◌, ◌≡◌, refl, ap, ap₂, ◌∙◌, List, [], ◌∷◌, ◌++◌, map, arith,
  if◌then◌else◌, le→ltb, length, length-append, length-map,
}
use libmaycloud.Snmp.{digits}
use libmaycloud.Snmp.Encode.{AreInts, digits-int, AreItems-digits, values-digits}
use libmaycloud.Asn1.{fault, result, read_oid}
use libmaycloud.Asn1.Bounds.{read_header-short}

-- The bytes of an OID behind its header; its first two numbers stand in one.
abbrev pub content : List ℕ → List ℕ
content (a ∷ b ∷ rest) = item_bytes (digits 8 (a * 40 + b)) ++ items_bytes (map (digits 8) rest)
content (a ∷ []) = []
content [] = []

-- An OID that the builder and the parser agree on: at least two numbers, the second below 40, and all so
-- small that an int holds what is encoded, in less than 124 bytes.
abbrev pub IsSendable : List ℕ → Type 0
IsSendable (a ∷ b ∷ rest) =
    (b < 40) × (a * 40 + b < 2 ^ 31) × AreInts rest × (length (content (a ∷ b ∷ rest)) < 124)
IsSendable (a ∷ []) = ⊥
IsSendable [] = ⊥

-- readOID on the bytes of such an OID.
pub read_oid-content :
    (m : ℕ → ℕ) (p limit : ℕ) (oid : List ℕ)
    → IsSendable oid
    → m p ≡ 6
    → m (p + 1) ≡ length (content oid)
    → Has m (p + 2) (content oid)
    → p + 2 + length (content oid) ≤ limit
    → read_oid 128 m p limit ≡ result oid (p + 2 + length (content oid))
read_oid-content m p limit [] v t l h r = absurd v
read_oid-content m p limit (a ∷ []) v t l h r = absurd v
read_oid-content m p limit (a ∷ b ∷ rest) v t l h r =
    let n = length (content (a ∷ b ∷ rest)) in
    let end = p + 2 + n in
    let d = digits 8 (a * 40 + b) in
    let ds = map (digits 8) rest in
    let f = digits-int (a * 40 + b) v.1 in
    let x : value_of_digits d / 40 ≡ a = omega (arith, f.1, v.0) in
    let y : value_of_digits d % 40 ≡ b = omega (arith, f.1, v.0) in
    let n1 = length-map (digits 8) rest in
    let n2 = length-map value_of_digits ds in
    let few = length-items_bytes ds in
    let all = length-append (item_bytes d) (items_bytes ds) in
    read_oid-items 128 m p limit _ d ds (read_header-short m p limit 6 n t l (omega (arith, v.3)) r)
      refl h refl (f.0, omega (arith, f.1, v.1), AreItems-digits rest v.2)
      (omega (arith, few, all, v.3)) (omega arith)
    ∙ ap
        (λ b.
          if b
          then fault
          else result (value_of_digits d / 40 ∷ value_of_digits d % 40 ∷ map value_of_digits ds)
              end)
        (le→ltb 128 _ (omega (arith, n2, few, all, v.3)))
    ∙ ap (λ o. result o end) (ap₂ (λ i o. i ∷ o) x (ap₂ (λ i o. i ∷ o) y (values-digits rest v.2)))

-- A binding of an OID to NULL.
abbrev pub null_binding : List ℕ → List ℕ
null_binding oid =
    let n = length (content oid) in 48 ∷ (n + 4) ∷ 6 ∷ n ∷ (content oid ++ (5 ∷ 0 ∷ []))

abbrev pub null_bindings : List (List ℕ) → List ℕ
null_bindings [] = []
null_bindings (oid ∷ oids) = null_binding oid ++ null_bindings oids

-- A length in two bytes.
abbrev pub high : ℕ → ℕ
high n = n / 256 % 256

abbrev pub low : ℕ → ℕ
low n = n % 256

-- The bytes of a request ID.
abbrev pub word : ℕ → List ℕ
word v = v / 16777216 % 256 ∷ v / 65536 % 256 ∷ v / 256 % 256 ∷ v % 256 ∷ []

-- From the request ID on: the error status and index are 0.
abbrev pub message : ℕ → List ℕ → List ℕ
message id bindings =
    let n = length bindings in
    2 ∷ 4 ∷ (word id ++ (2 ∷ 1 ∷ 0 ∷ 2 ∷ 1 ∷ 0 ∷ 48 ∷ 130 ∷ high n ∷ low n ∷ bindings))

abbrev pub command : ℕ → ℕ → List ℕ → List ℕ
command type id bindings =
    let n = 16 + length bindings in type ∷ 130 ∷ high n ∷ low n ∷ message id bindings

-- The whole packet.
abbrev pub packet : List ℕ → ℕ → ℕ → List ℕ → List ℕ
packet community type id bindings =
    let n = 25 + length community + length bindings in
    48
    ∷ 130
    ∷ high n
    ∷ low n
    ∷ 2
    ∷ 1
    ∷ 1
    ∷ 4
    ∷ length community
    ∷ (community ++ command type id bindings)

pub IsSendable-short : (oid : List ℕ) → IsSendable oid → length (content oid) < 124
IsSendable-short [] v = absurd v
IsSendable-short (a ∷ []) v = absurd v
IsSendable-short (a ∷ b ∷ rest) v = v.3
