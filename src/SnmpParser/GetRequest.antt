-- ===== src/SnmpParser/GetRequest.antt =====
-- src/snmpparser.cpp on the bytes of a GET packet.
use libmaycloud.Asn1.Bounds.{read_header-short}
use libmaycloud.Asn1.Oid.{Has, Has-append, fits}
use libmaycloud.Asn1.Short.{
  Has-at, Has-drop, read_header-long, read_int-byte, read_int-word, read_string-Has,
  read_null-short,
}
use libmaycloud.Common.{
  ℕ, zero, suc, ◌+◌, ◌*◌, ◌/◌, ◌%◌, ◌^◌, ◌≤◌, ◌<◌, ◌≡◌, refl, sym, ap, subst, ◌∙◌, List, [], ◌∷◌,
  ◌++◌, map, append-nil, append_assoc, arith, lt→ltb, le→ltb, length, length-append, pos,
}
use libmaycloud.Snmp.Packet.{
  content, IsSendable, read_oid-content, null_binding, null_bindings, high, low, message, command,
  packet, IsSendable-short,
}
use libmaycloud.SnmpParser.{
  get_value, SnmpParser, crashed, parsed, raise, value_loop, parse_get_value, parse_get_bindings,
  parse_message, parse_get_request, parse, parse_sized,
}
use libmaycloud.Asn1.{signed}

-- The events of GET bindings.
abbrev pub raise_all : List (List ℕ) → SnmpParser → SnmpParser
raise_all oids s = record s { events = s.events ++ map get_value oids }

abbrev pub AreSendable : List (List ℕ) → Type 0
AreSendable [] = Unit
AreSendable (oid ∷ oids) = IsSendable oid × AreSendable oids

-- One binding.
parse_get_value-binding :
    (m : ℕ → ℕ) (p limit : ℕ) (s : SnmpParser) (oid : List ℕ)
    → IsSendable oid
    → length (content oid) < 124
    → Has m p (null_binding oid)
    → p + length (null_binding oid) ≤ limit
    → parse_get_value m p limit s ≡ parsed (raise (get_value oid) s) (p + length (null_binding oid))
unfolding parse_get_value
parse_get_value-binding m p limit s oid v small h r =
    let c = content oid in
    let bs = null_binding oid in
    let n = length c in
    let end = p + 2 + (n + 4) in
    let k = length-append c (5 ∷ 0 ∷ []) in
    let sub = Has-append m (p + 4) c (5 ∷ 0 ∷ []) (Has-drop m p 4 bs h) in
    let h1 =
      read_header-short m p limit 48 (n + 4) (ap m (omega arith) ∙ Has-at m p bs 0 48 h refl)
        (Has-at m p bs 1 (n + 4) h refl) (omega arith) (omega (arith, k)) in
    let t6 = Has-at m p bs 2 6 h refl in
    let l6 : m (p + 2 + 1) ≡ n = ap m (omega arith) ∙ Has-at m p bs 3 n h refl in
    let h2 =
      read_oid-content m (p + 2) end oid v t6 l6 (subst (λ q. Has m q c) (omega arith) sub.0)
        (omega arith) in
    let q = p + 2 + 2 + n in
    let z = subst (λ q. Has m q (5 ∷ 0 ∷ [])) {y = q} (omega arith) sub.1 in
    let h3 = read_null-short m q end z.0 z.1.0 (omega arith) in
    rw (h1, h2, h3) (ap (λ e. parsed (raise (get_value oid) s) e) (omega (arith, k)))

-- All bindings.
value_loop-bindings :
    (m : ℕ → ℕ) (fuel p end : ℕ) (s : SnmpParser) (oids : List (List ℕ))
    → AreSendable oids
    → Has m p (null_bindings oids)
    → p + length (null_bindings oids) ≡ end
    → length (null_bindings oids) < fuel
    → value_loop crashed (parse_get_value m) fuel p end s ≡ parsed (raise_all oids s) end
unfolding value_loop
value_loop-bindings m zero p end s oids v h e f = absurd (omega arith)
value_loop-bindings m (suc fuel) p end s [] v h e f =
    let x = le→ltb p end (omega arith) in
    rw x (ap (λ l. parsed (record s { events = l }) end) (sym (append-nil s.events)))
value_loop-bindings m (suc fuel) p end s (oid ∷ oids) v h e f =
    let bs = null_binding oid in
    let k = length-append bs (null_bindings oids) in
    let sub = Has-append m p bs (null_bindings oids) h in
    let x = lt→ltb p end (omega (arith, k)) in
    let small = IsSendable-short oid v.0 in
    let g = parse_get_value-binding m p end s oid v.0 small sub.0 (omega (arith, k)) in
    rw (x, g)
      (value_loop-bindings m fuel (p + length bs) end (raise (get_value oid) s) oids v.1 sub.1
          (omega (arith, k)) (omega (arith, k))
        ∙ ap (λ l. parsed (record s { events = l }) end)
            (append_assoc s.events (get_value oid ∷ []) (map get_value oids)))

-- What the parser is after a GET request.
abbrev pub requested : ℕ → List (List ℕ) → SnmpParser → SnmpParser
requested id oids s = record s {
  request_id = signed 32 id;
  error_status = pos 0;
  error_index = pos 0;
  events = s.events ++ map get_value oids;
}

parse_get_request-message :
    (m : ℕ → ℕ) (p limit id : ℕ) (s : SnmpParser) (oids : List (List ℕ))
    → AreSendable oids
    → id < 2 ^ 32
    → length (null_bindings oids) < 65536
    → Has m p (message id (null_bindings oids))
    → p + 16 + length (null_bindings oids) ≤ limit
    → parse_get_request m p limit s
      ≡ parsed (requested id oids s) (p + 16 + length (null_bindings oids))
unfolding parse_get_request parse_message parse_get_bindings
parse_get_request-message m p limit id s oids v small short h r =
    let bs = null_bindings oids in
    let n = length bs in
    let all = message id bs in
    let at = Has-at m p all in
    let b0 = at 2 (id / 16777216 % 256) h refl in
    let b1 : m (p + 2 + 1) ≡ id / 65536 % 256 =
      ap m (omega arith) ∙ at 3 (id / 65536 % 256) h refl in
    let b2 : m (p + 2 + 1 + 1) ≡ id / 256 % 256 =
      ap m (omega arith) ∙ at 4 (id / 256 % 256) h refl in
    let b3 : m (p + 2 + 1 + 1 + 1) ≡ id % 256 = ap m (omega arith) ∙ at 5 (id % 256) h refl in
    let i =
      read_int-word m p limit id (ap m (omega arith) ∙ at 0 2 h refl) (at 1 4 h refl)
        (omega (arith, b0, b1, b2, b3)) (omega arith) in
    let q = p + 6 in
    let j1 : m (q + 1) ≡ 1 = ap m (omega arith) ∙ at 7 1 h refl in
    let j2 : m (q + 2) ≡ 0 = ap m (omega arith) ∙ at 8 0 h refl in
    let j = read_int-byte m q limit 0 (at 6 2 h refl) j1 j2 (omega arith) (omega arith) in
    let q1 = q + 3 in
    let k0 : m q1 ≡ 2 = ap m (omega arith) ∙ at 9 2 h refl in
    let k1 : m (q1 + 1) ≡ 1 = ap m (omega arith) ∙ at 10 1 h refl in
    let k2 : m (q1 + 2) ≡ 0 = ap m (omega arith) ∙ at 11 0 h refl in
    let k = read_int-byte m q1 limit 0 k0 k1 k2 (omega arith) (omega arith) in
    let q2 = q1 + 3 in
    let l0 : m q2 ≡ 48 = ap m (omega arith) ∙ at 12 48 h refl in
    let l1 : m (q2 + 1) ≡ 130 = ap m (omega arith) ∙ at 13 130 h refl in
    let l2 : m (q2 + 2) ≡ high n = ap m (omega arith) ∙ at 14 (high n) h refl in
    let l3 : m (q2 + 3) ≡ low n = ap m (omega arith) ∙ at 15 (low n) h refl in
    let head =
      read_header-long m q2 limit 48 (high n) (low n) l0 l1 l2 l3 (omega arith) (omega arith)
        (omega arith) in
    let sub = Has-drop m p 16 all h in
    let c =
      value_loop-bindings m (high n * 256 + low n + 1) (q2 + 4) (q2 + 4 + (high n * 256 + low n))
        (record s { request_id = signed 32 id; error_status = pos 0; error_index = pos 0 }) oids v
        (subst (λ a. Has m a bs) (omega arith) sub) (omega arith) (omega arith) in
    rw (i, j, k, head) (c ∙ ap (λ e. parsed (requested id oids s) e) (omega arith))

-- A GET packet of version 2 with at most as many bindings as its lengths can say is parsed
-- to its end: the parser has its community and request ID, no error, and asks for its OIDs in order.
pub parse-packet :
    (m : ℕ → ℕ) (p id : ℕ) (s : SnmpParser) (community : List ℕ) (oids : List (List ℕ))
    → AreSendable oids
    → id < 2 ^ 32
    → length community < 128
    → 25 + length community + length (null_bindings oids) < 65536
    → Has m p (packet community 160 id (null_bindings oids))
    → parse_sized m p (length (packet community 160 id (null_bindings oids))) s
      ≡ parsed
          (requested id oids (record s { version = pos 1; community = community ++ (0 ∷ []) }))
          (p + length (packet community 160 id (null_bindings oids)))
unfolding parse_sized parse
parse-packet m p id s community oids v small short fits h =
    let bs = null_bindings oids in
    let n = length bs in
    let nc = length community in
    let tail = command 160 id bs in
    let all = packet community 160 id bs in
    let limit = p + length all in
    let total = length-append community tail in
    let at = Has-at m p all in
    let head =
      read_header-long m p limit 48 (high (25 + nc + n)) (low (25 + nc + n))
        (ap m (omega arith) ∙ at 0 48 h refl) (at 1 130 h refl) (at 2 (high (25 + nc + n)) h refl)
        (at 3 (low (25 + nc + n)) h refl) (omega arith) (omega arith) (omega (arith, total)) in
    let i0 = at 4 2 h refl in
    let i1 : m (p + 4 + 1) ≡ 1 = ap m (omega arith) ∙ at 5 1 h refl in
    let i2 : m (p + 4 + 2) ≡ 1 = ap m (omega arith) ∙ at 6 1 h refl in
    let i = read_int-byte m (p + 4) limit 1 i0 i1 i2 (omega arith) (omega (arith, total)) in
    let q = p + 4 + 3 in
    let c0 : m q ≡ 4 = ap m (omega arith) ∙ at 7 4 h refl in
    let c1 : m (q + 1) ≡ nc = ap m (omega arith) ∙ at 8 nc h refl in
    let sub = Has-append m (p + 9) community tail (Has-drop m p 9 all h) in
    let c =
      read_string-Has m q limit community c0 c1 (subst (λ a. Has m a community) (omega arith) sub.0)
        short (omega (arith, total)) in
    let q1 = q + 2 + nc in
    let rest : Has m q1 tail = subst (λ a. Has m a tail) (omega arith) sub.1 in
    let at1 = Has-at m q1 tail in
    let k =
      read_header-long m q1 limit 160 (high (16 + n)) (low (16 + n))
        (ap m (omega arith) ∙ at1 0 160 rest refl) (at1 1 130 rest refl)
        (at1 2 (high (16 + n)) rest refl) (at1 3 (low (16 + n)) rest refl) (omega arith)
        (omega arith) (omega (arith, total)) in
    let g =
      parse_get_request-message m (q1 + 4) limit id
        (record s { version = pos 1; community = community ++ (0 ∷ []) }) oids v small (omega arith)
        (Has-drop m q1 4 tail rest) (omega (arith, total)) in
    rw (head, i, c, k)
      (g
        ∙ ap
            (λ e.
              parsed
                (requested id oids
                  (record s { version = pos 1; community = community ++ (0 ∷ []) }))
                e)
            (omega (arith, total)))
