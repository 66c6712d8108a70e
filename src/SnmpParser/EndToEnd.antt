-- ===== src/SnmpParser/EndToEnd.antt =====
-- What src/snmpbuilder.cpp builds is what src/snmpparser.cpp reads.
use libmaycloud.Common.{
  ℕ, ◌+◌, ◌-◌, ◌^◌, ◌≤◌, ◌<◌, ◌≡◌, refl, sym, ap, subst, ◌∙◌, true, Option, none, some, List, [],
  ◌∷◌, ◌++◌, append-nil, append_assoc, arith, leb, if◌then◌else◌, le→leb, lt→leb, ◌>>=◌, length,
  All, length-append, IsByte, pos,
}
use libmaycloud.Snmp.{
  SnmpBuilder, write_reset, write_command, write_request_id, write_null, write_commit, reset,
  set_command, set_request_id, add_null, commit,
}
use libmaycloud.SnmpParser.{SnmpParser, parsed, parse_sized}
use libmaycloud.Snmp.Build.{IsBuilt, reset-IsBuilt, set_command-IsBuilt}
use libmaycloud.Snmp.Commit.{
  set_request_id-IsBuilt, add_null-IsBuilt, commit-IsBuilt, commit-offset,
}
use libmaycloud.Snmp.Packet.{null_binding, null_bindings, word, command, packet}
use libmaycloud.SnmpParser.GetRequest.{AreSendable, requested, parse-packet}

module _ (capacity : ℕ) where
  -- The calls of a client that asks for OIDs: addNull for each.
  pub add_nulls : List (List ℕ) → SnmpBuilder → Option SnmpBuilder
  add_nulls [] b = some b
  add_nulls (oid ∷ oids) b = add_null capacity oid b >>= λ r. add_nulls oids r.1

  -- A whole GET request.
  pub build_get :
      (community : List ℕ) (id : ℕ) (oids : List (List ℕ)) → SnmpBuilder → Option SnmpBuilder
  unfolding add_nulls
  build_get community id oids b = reset capacity community b >>= λ r.
      set_command capacity 160 r.1 >>= λ b1.
      set_request_id capacity id b1 >>= λ b2. add_nulls oids b2 >>= λ b3. commit capacity b3

  -- A test of the capacity that holds.
  room :
      {A : Type 0} (n : ℕ) (a : A)
      → n ≤ capacity
      → (if leb n capacity then some a else none) ≡ some a
  room n a l = ap (λ t. if t then some a else none) (le→leb n capacity l)

  reset-room :
      (community : List ℕ) (b : SnmpBuilder)
      → length community < 128
      → (write_reset community b).1.offset ≤ capacity
      → reset capacity community b ≡ some (write_reset community b)
  unfolding reset
  reset-room community b short l =
      let r = write_reset community b in
      ap (λ t. if leb (if t then 8 else r.1.offset - 2) capacity then some r else none)
        (lt→leb 128 (length community) short)
      ∙ room (r.1.offset - 2) r (omega (arith, l))

  add_null-room :
      (oid : List ℕ) (b b' : SnmpBuilder)
      → write_null oid b ≡ some (true, b')
      → b'.offset ≤ capacity
      → add_null capacity oid b ≡ some (true, b')
  unfolding add_null
  add_null-room oid b b' e l =
      ap (λ o. o >>= λ r. if leb r.1.offset capacity then some r else none) e
      ∙ room b'.offset (true, b') l

  commit-room :
      (b : SnmpBuilder)
      → b.cmd_offset + 4 ≤ capacity
      → b.oid_offset + 4 ≤ capacity
      → commit capacity b ≡ some (write_commit b)
  unfolding commit
  commit-room b l k =
      rw
        (
          le→leb (b.oid_offset + 4) capacity k,
          le→leb (b.cmd_offset + 4) capacity l,
          le→leb 4 capacity (omega (arith, l)),
        )
        refl

  add_nulls-IsBuilt :
      (oids : List (List ℕ)) (b : SnmpBuilder) (community : List ℕ) (t : ℕ) (w bs : List ℕ)
      → AreSendable oids
      → IsBuilt b community t w bs
      → 29 + length community + length bs + length (null_bindings oids) ≤ capacity
      → (b' : SnmpBuilder) × (add_nulls oids b ≡ some b')
        × IsBuilt b' community t w (bs ++ null_bindings oids)
  unfolding add_nulls
  add_nulls-IsBuilt [] b community t w bs v built l =
      (b, refl, subst (IsBuilt b community t w) (sym (append-nil bs)) built)
  add_nulls-IsBuilt (oid ∷ oids) b community t w bs v built l =
      let one = add_null-IsBuilt oid b community t w bs v.0 built in
      let size = length-append bs (null_binding oid) in
      let size' = length-append (null_binding oid) (null_bindings oids) in
      let all =
        add_nulls-IsBuilt oids one.0 community t w (bs ++ null_binding oid) v.1 one.2
          (omega (arith, l, size, size')) in
      (
        all.0,
        ap (λ o. o >>= λ r. add_nulls oids r.1)
              (add_null-room oid b one.0 one.1 (omega (arith, l, one.2.offset, size, size')))
            ∙ all.1,
        subst (IsBuilt all.0 community t w)
            (append_assoc bs (null_binding oid) (null_bindings oids)) all.2,
      )

  -- A GET request that the builder makes, on any buffer whose capacity is at least the size of the packet, is built
  -- in full without a write behind the buffer, and the parser on its bytes ends at its end, with the community, the
  -- request ID and no error, and asks its handler for the OIDs in order. The community has less than 128 bytes, the
  -- request ID 32 bits, an OID at least two numbers, the second below 40, that an int holds, in less than 124 bytes,
  -- and the packet fits a length of two bytes.
  pub build_get-parse :
      (community : List ℕ) (id : ℕ) (oids : List (List ℕ)) (b : SnmpBuilder) (s : SnmpParser)
      → All IsByte community
      → length community < 128
      → id < 2 ^ 32
      → AreSendable oids
      → 25 + length community + length (null_bindings oids) < 65536
      → 29 + length community + length (null_bindings oids) ≤ capacity
      → (r : SnmpBuilder) × (build_get community id oids b ≡ some r)
        × (r.offset ≤ capacity)
        × (parse_sized r.memory 0 r.offset s
            ≡ parsed
                (requested id oids
                  (record s { version = pos 1; community = community ++ (0 ∷ []) }))
                r.offset)
  unfolding build_get set_command set_request_id write_command write_request_id
  build_get-parse community id oids b s bytes short small v fits enough =
      let fresh = reset-IsBuilt community b bytes short in
      let b0 = (write_reset community b).1 in
      let b1 = write_command 160 b0 in
      let b2 = write_request_id id b1 in
      let n0 = fresh.2.offset in
      let built1 = set_command-IsBuilt 160 b0 community fresh.0 fresh.1 [] fresh.2 in
      let built2 = set_request_id-IsBuilt id b1 community 160 fresh.1 [] built1 in
      let all =
        add_nulls-IsBuilt oids b2 community 160 (word id) [] v built2 (omega (arith, enough)) in
      let r = write_commit all.0 in
      let bs = null_bindings oids in
      let n = length (packet community 160 id bs) in
      let size : n ≡ r.offset =
        omega
          (arith, all.2.offset, commit-offset all.0, length-append community (command 160 id bs)) in
      let s' =
        requested id oids (record s { version = pos 1; community = community ++ (0 ∷ []) }) in
      (
        r,
        ap
              (λ o. o >>= λ r. set_command capacity 160 r.1 >>= λ b1.
                set_request_id capacity id b1 >>= λ b2.
                add_nulls oids b2 >>= λ b3. commit capacity b3)
              (reset-room community b short (omega (arith, n0, enough)))
            ∙ ap
                (λ o. o >>= λ b1. set_request_id capacity id b1 >>= λ b2.
                  add_nulls oids b2 >>= λ b3. commit capacity b3)
                (room (b0.cmd_offset + 1) b1 (omega (arith, fresh.2.cmd, enough)))
            ∙ ap (λ o. o >>= λ b2. add_nulls oids b2 >>= λ b3. commit capacity b3)
                (room (b1.request_id_offset + 4) b2 (omega (arith, built1.request_id, enough)))
            ∙ ap (λ o. o >>= λ b3. commit capacity b3) all.1
            ∙ commit-room all.0 (omega (arith, all.2.cmd, enough))
                (omega (arith, all.2.oids, enough)),
        omega (arith, commit-offset all.0, all.2.offset, enough),
        subst (λ k. parse_sized r.memory 0 k s ≡ parsed s' k) size
            (parse-packet r.memory 0 id s community oids v small short fits
                (commit-IsBuilt all.0 community 160 id bs all.2)
              ∙ ap (parsed s') {x = 0 + n} (omega arith)),
      )
