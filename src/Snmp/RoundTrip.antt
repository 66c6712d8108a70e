-- ===== src/Snmp/RoundTrip.antt =====
-- What src/snmpbuilder.cpp writes, src/asn1reader.cpp reads.
use libmaycloud.Common.{
  ℕ, ◌+◌, ◌-◌, ◌*◌, ◌/◌, ◌%◌, ◌^◌, ◌≤◌, ◌<◌, ◌≡◌, refl, sym, ap, ap₂, subst, ◌∙◌, some,
  some-injective, List, ◌∷◌, ◌++◌, map, arith, if◌then◌else◌, le→ltb, length, length-map,
}
use libmaycloud.Asn1.{fault, result, poke, signed, read_header, read_int, read_oid}
use libmaycloud.Asn1.Bounds.{read_header-short}
use libmaycloud.Asn1.Oid.{Has, value_of_digits, item_bytes, items_bytes, read_oid-items}
use libmaycloud.Asn1.Int.{read_int-integer_at}
use libmaycloud.Snmp.{
  SnmpBuilder, Cursor, write_request_id, digits, save_oid_item, save_items, save_oid,
}
use libmaycloud.Snmp.Encode.{
  Writes, Has-same, Writes-append, save_oid_item-Writes, save_items-Writes, AreInts, digits-int,
  AreItems-digits, values-digits,
}

module _ (a b : ℕ) (rest : List ℕ) (c : Cursor) where
  abbrev start : ℕ
  start = c.1

  abbrev first_digits : List ℕ
  first_digits = digits 8 (a * 40 + b)

  abbrev first_end : Cursor
  first_end = save_oid_item (a * 40 + b) (c.0, start + 2)

  abbrev all_bytes : List ℕ
  all_bytes = item_bytes first_digits ++ items_bytes (map (digits 8) rest)

  -- What saveOID leaves.
  abbrev saved : Cursor
  saved =
      let r = save_items rest first_end in
      (poke (start + 1) ((r.1 - start - 2) % 256) (poke start 6 r.0), r.1)

  items-Writes : Writes (c.0, start + 2) all_bytes (save_items rest first_end)
  items-Writes =
      Writes-append (c.0, start + 2) first_end (save_items rest first_end) (item_bytes first_digits)
        (items_bytes (map (digits 8) rest)) (save_oid_item-Writes (a * 40 + b) (c.0, start + 2))
        (save_items-Writes rest first_end)

  saved-Has : Has saved.0 (start + 2) all_bytes
  saved-Has =
      Has-same (save_items rest first_end).0 saved.0 (start + 2) all_bytes items-Writes.bytes
        (λ i l g. ground arith)

  saved-read_header :
      (limit : ℕ)
      → saved.1 < start + 130
      → saved.1 ≤ limit
      → read_header saved.0 start limit
        ≡ some
            (record { type = 6; length = length all_bytes; data_at = start + 2; limit = saved.1 })
  saved-read_header limit small le_limit =
      let e = items-Writes.moved in
      read_header-short saved.0 start limit 6 (length all_bytes) (ground arith) (ground (arith, e))
        (omega (arith, e)) (omega (arith, e))
      ∙ ap
          (λ q.
            some (record { type = 6; length = length all_bytes; data_at = start + 2; limit = q }))
          (sym e)

  saved-read_oid :
      (capacity limit : ℕ)
      → b < 40
      → a * 40 + b < 2 ^ 31
      → AreInts rest
      → length rest ≤ 127
      → length rest + 2 ≤ capacity
      → saved.1 < start + 130
      → saved.1 ≤ limit
      → read_oid capacity saved.0 start limit ≡ result (a ∷ b ∷ rest) saved.1
  saved-read_oid capacity limit lb lv ints room c small le_limit =
      let f = digits-int (a * 40 + b) lv in
      let k = values-digits rest ints in
      let v = value_of_digits first_digits in
      let x : v / 40 ≡ a = omega (arith, f.1) in
      let y : v % 40 ≡ b = omega (arith, f.1) in
      let n = length-map value_of_digits (map (digits 8) rest) in
      let n' = length-map (digits 8) rest in
      read_oid-items capacity saved.0 start limit _ first_digits (map (digits 8) rest)
        (saved-read_header limit small le_limit) refl saved-Has refl
        (f.0, omega (arith, f.1), AreItems-digits rest ints) (omega (arith, n')) (omega arith)
      ∙ ap
          (λ t.
            if t
            then fault
            else result (v / 40 ∷ v % 40 ∷ map value_of_digits (map (digits 8) rest)) saved.1)
          (le→ltb capacity _ (omega (arith, n, n')))
      ∙ ap (λ o. result o saved.1) (ap₂ (λ i o. i ∷ o) x (ap₂ (λ i o. i ∷ o) y k))

-- saveOID writes an OID that readOID reads: of at least two and at most 129 numbers, for which the
-- reader's array has room, the second below 40 and all so small that an int holds what is encoded, where
-- the encoding has less than 128 bytes behind its header. The reader ends where the writer did.
pub save_oid-read_oid :
    (a b : ℕ) (rest : List ℕ) (c c' : Cursor) (capacity limit : ℕ)
    → save_oid (a ∷ b ∷ rest) c ≡ some c'
    → b < 40
    → a * 40 + b < 2 ^ 31
    → AreInts rest
    → length rest ≤ 127
    → length rest + 2 ≤ capacity
    → c'.1 < c.1 + 130
    → c'.1 ≤ limit
    → read_oid capacity c'.0 c.1 limit ≡ result (a ∷ b ∷ rest) c'.1
unfolding save_oid
save_oid-read_oid a b rest c c' capacity limit run lb lv ints room enough small le_limit =
    subst
      (λ q.
        q.1 < c.1 + 130 → q.1 ≤ limit → read_oid capacity q.0 c.1 limit ≡ result (a ∷ b ∷ rest) q.1)
      (some-injective (saved a b rest c) c' run)
      (saved-read_oid a b rest c capacity limit lb lv ints room enough) small le_limit

-- setRequestID writes the four bytes that readInt reads back, as a signed int, where reset has put the type
-- and the length before them.
pub set_request_id-read_int :
    (value limit p : ℕ) (b : SnmpBuilder)
    → b.request_id_offset ≡ p + 2
    → b.memory p ≡ 2
    → b.memory (p + 1) ≡ 4
    → value < 2 ^ 32
    → p + 6 ≤ limit
    → read_int (write_request_id value b).memory p limit ≡ result (signed 32 value) (p + 6)
unfolding write_request_id
set_request_id-read_int value limit p b place type len l room =
    let m = (write_request_id value b).memory in
    let t : m p ≡ 2 = ground (arith, place) in
    let n : m (p + 1) ≡ 4 = ground (arith, place) in
    let b0 : m (p + 2) ≡ value / 16777216 % 256 = ground (arith, place) in
    let b1 : m (p + 2 + 1) ≡ value / 65536 % 256 = ground (arith, place) in
    let b2 : m (p + 2 + 1 + 1) ≡ value / 256 % 256 = ground (arith, place) in
    let b3 : m (p + 2 + 1 + 1 + 1) ≡ value % 256 = ground (arith, place) in
    read_int-integer_at m p limit _
      (read_header-short m p limit 2 4 t n (omega arith) (omega arith)) refl
    ∙ ap₂ (λ v q. result (signed 32 v) q) (omega (arith, b0, b1, b2, b3)) (omega arith)
