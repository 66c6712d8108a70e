-- ===== src/Snmp/Commit.antt =====
-- The bytes of a GET request that src/snmpbuilder.cpp builds: setRequestId, addNull and commit.
use libmaycloud.Common.{
  ℕ, ◌+◌, ◌-◌, ◌*◌, ◌%◌, ◌≤◌, ◌<◌, ◌≡◌, refl, sym, ap, subst, ◌⊎◌, inl, inr, true, some, List, [],
  ◌∷◌, ◌++◌, map, arith, ◌>>=◌, length, length-append,
}
use libmaycloud.Snmp.{
  SnmpBuilder, Cursor, emit, write_request_id, digits, save_oid_item, save_items, save_oid,
  write_null, save_len, write_commit,
}
use libmaycloud.Asn1.Oid.{Has, item_bytes, items_bytes}
use libmaycloud.Snmp.Build.{IsBuilt, Has-poke}
use libmaycloud.Snmp.Encode.{
  Writes, Has-same, Has-join, Writes-append, Writes-emit, save_oid_item-Writes, save_items-Writes,
}
use libmaycloud.Snmp.Packet.{
  content, IsSendable, null_binding, high, low, word, message, command, packet, IsSendable-short,
}
use libmaycloud.Asn1.{poke}

-- setRequestId replaces the four bytes of the request ID.
pub set_request_id-IsBuilt :
    (value : ℕ) (b : SnmpBuilder) (community : List ℕ) (t : ℕ) (w bs : List ℕ)
    → IsBuilt b community t w bs
    → IsBuilt (write_request_id value b) community t (word value) bs
unfolding write_request_id
set_request_id-IsBuilt value b community t w bs v =
    let n = length community in
    let m = (write_request_id value b).memory in
    let keep : (p : ℕ) (xs : List ℕ)
        → (p + length xs ≤ 15 + n) ⊎ (19 + n ≤ p)
        → Has b.memory p xs
        → Has m p xs =
      λ p xs out h. Has-same b.memory m p xs h (λ i l g. ground (arith, v.request_id)) in
    record {
      cmd = v.cmd;
      request_id = v.request_id;
      oids = v.oids;
      offset = v.offset;
      start = keep 0 (48 ∷ 130 ∷ []) (inl (omega arith)) v.start;
      front = keep 4 (2 ∷ 1 ∷ 1 ∷ 4 ∷ n ∷ community) (inl (omega arith)) v.front;
      command = keep (9 + n) (t ∷ 130 ∷ []) (inl (omega arith)) v.command;
      id_header = keep (13 + n) (2 ∷ 4 ∷ []) (inl (omega arith)) v.id_header;
      id = (
        ground (arith, v.request_id),
        (
          ground (arith, v.request_id),
          (ground (arith, v.request_id), (ground (arith, v.request_id), tt)),
        ),
      );
      id_size = refl;
      rest = keep (19 + n) (2 ∷ 1 ∷ 0 ∷ 2 ∷ 1 ∷ 0 ∷ 48 ∷ 130 ∷ []) (inr (omega arith)) v.rest;
      tail = keep (29 + n) bs (inr (omega arith)) v.tail;
    }

-- saveOID of a sendable OID writes its header and its content.
save_oid-Writes :
    (oid : List ℕ) (c : Cursor)
    → IsSendable oid
    → (d : Cursor) × (save_oid oid c ≡ some d) × Writes c (6 ∷ length (content oid) ∷ content oid) d
unfolding save_oid
save_oid-Writes [] c v = absurd v
save_oid-Writes (a ∷ []) c v = absurd v
save_oid-Writes (a ∷ b ∷ rest) c v =
    let from : Cursor = (c.0, c.1 + 2) in
    let mid = save_oid_item (a * 40 + b) from in
    let end = save_items rest mid in
    let xs = content (a ∷ b ∷ rest) in
    let w =
      Writes-append from mid end (item_bytes (digits 8 (a * 40 + b)))
        (items_bytes (map (digits 8) rest)) (save_oid_item-Writes (a * 40 + b) from)
        (save_items-Writes rest mid) in
    let m = poke (c.1 + 1) ((end.1 - c.1 - 2) % 256) (poke c.1 6 end.0) in
    (
      (m, end.1),
      refl,
      record {
        bytes = (
          ground arith,
          (
            ground (arith, w.moved, v.3),
            subst (λ q. Has m q xs) {x = c.1 + 2} (omega arith)
                (Has-same end.0 m (c.1 + 2) xs w.bytes (λ i l g. ground arith)),
          ),
        );
        moved = omega (arith, w.moved);
        kept = λ i l. ground (arith, w.kept i (omega arith));
      },
    )

-- The header of a binding and its NULL around an OID `xs` that is written.
binding-Writes :
    (m : ℕ → ℕ) (start : ℕ) (xs : List ℕ) (mid : Cursor)
    → length xs < 124
    → Writes (poke start 48 m, start + 2) (6 ∷ length xs ∷ xs) mid
    → let e = emit 0 (emit 5 mid) in
      Writes
        (m, start)
        (48 ∷ (length xs + 4) ∷ 6 ∷ length xs ∷ (xs ++ (5 ∷ 0 ∷ [])))
        (poke (start + 1) ((e.1 - start - 2) % 256) e.0, e.1)
binding-Writes m start xs mid small wrote =
    let head = 6 ∷ length xs ∷ xs in
    let e = emit 0 (emit 5 mid) in
    let c : Cursor = (poke start 48 m, start + 2) in
    let nul : Writes mid (5 ∷ 0 ∷ []) e =
      Writes-append mid (emit 5 mid) e (5 ∷ []) (0 ∷ []) (Writes-emit 5 mid (omega arith))
        (Writes-emit 0 (emit 5 mid) (omega arith)) in
    let all = Writes-append c mid e head (5 ∷ 0 ∷ []) wrote nul in
    let len = length-append xs (5 ∷ 0 ∷ []) in
    record {
      bytes = (
        ground (arith, all.kept start (omega arith)),
        (
          ground (arith, nul.moved, wrote.moved, small),
          subst (λ q. Has (poke (start + 1) ((e.1 - start - 2) % 256) e.0) q (head ++ (5 ∷ 0 ∷ [])))
              {x = start + 2} (omega arith)
              (Has-poke e.0 (start + 1) ((e.1 - start - 2) % 256) (start + 2) (head ++ (5 ∷ 0 ∷ []))
                (inl (omega arith)) all.bytes),
        ),
      );
      moved = omega (arith, nul.moved, wrote.moved, len);
      kept = λ i l. ground (arith, all.kept i (omega arith));
    }

-- addNull puts the binding behind the ones so far.
pub add_null-IsBuilt :
    (oid : List ℕ) (b : SnmpBuilder) (community : List ℕ) (t : ℕ) (w bs : List ℕ)
    → IsSendable oid
    → IsBuilt b community t w bs
    → (b' : SnmpBuilder) × (write_null oid b ≡ some (true, b'))
      × IsBuilt b' community t w (bs ++ null_binding oid)
unfolding write_null
add_null-IsBuilt oid b community t w bs sendable v =
    let n = length community in
    let start = b.offset in
    let s = save_oid-Writes oid (poke start 48 b.memory, start + 2) sendable in
    let e = emit 0 (emit 5 s.0) in
    let m = poke (start + 1) ((e.1 - start - 2) % 256) e.0 in
    let wrote =
      binding-Writes b.memory start (content oid) s.0 (IsSendable-short oid sendable) s.2 in
    let keep : (p : ℕ) (xs : List ℕ) → p + length xs ≤ start → Has b.memory p xs → Has m p xs =
      λ p xs out h. Has-same b.memory m p xs h (λ i l g. wrote.kept i (omega (arith, out, g))) in
    (
      record b { memory = m; offset = e.1 },
      ap
          (λ o. o >>= λ r.
            let e = emit 0 (emit 5 r) in
            some (
              true,
              record b { memory = poke (start + 1) ((e.1 - start - 2) % 256) e.0; offset = e.1 },
            ))
          s.1,
      record {
        cmd = v.cmd;
        request_id = v.request_id;
        oids = v.oids;
        offset = omega (arith, wrote.moved, v.offset, length-append bs (null_binding oid));
        start = keep 0 (48 ∷ 130 ∷ []) (omega (arith, v.offset)) v.start;
        front = keep 4 (2 ∷ 1 ∷ 1 ∷ 4 ∷ n ∷ community) (omega (arith, v.offset)) v.front;
        command = keep (9 + n) (t ∷ 130 ∷ []) (omega (arith, v.offset)) v.command;
        id_header = keep (13 + n) (2 ∷ 4 ∷ []) (omega (arith, v.offset)) v.id_header;
        id = keep (15 + n) w (omega (arith, v.offset, v.id_size)) v.id;
        id_size = v.id_size;
        rest =
            keep (19 + n) (2 ∷ 1 ∷ 0 ∷ 2 ∷ 1 ∷ 0 ∷ 48 ∷ 130 ∷ []) (omega (arith, v.offset)) v.rest;
        tail =
            Has-join m (29 + n) bs (null_binding oid)
              (keep (29 + n) bs (omega (arith, v.offset)) v.tail)
              (subst (λ q. Has m q (null_binding oid)) v.offset wrote.bytes);
      },
    )

-- A length of two bytes.
Has-save_len : (p len : ℕ) (m : ℕ → ℕ) → Has (save_len p len m) p (high len ∷ low len ∷ [])
unfolding save_len
Has-save_len p len m = (ground arith, (ground arith, tt))

-- It keeps the bytes elsewhere.
save_len-kept :
    (q len : ℕ) (m : ℕ → ℕ) (p : ℕ) (xs : List ℕ)
    → (p + length xs ≤ q) ⊎ (q + 2 ≤ p)
    → Has m p xs
    → Has (save_len q len m) p xs
unfolding save_len
save_len-kept q len m p xs out h = Has-same m (save_len q len m) p xs h (λ i l g. ground arith)

-- Two runs of bytes, one behind the other.
Has-next :
    (m : ℕ → ℕ) (p q : ℕ) (xs ys : List ℕ)
    → q ≡ p + length xs
    → Has m p xs
    → Has m q ys
    → Has m p (xs ++ ys)
Has-next m p q xs ys e h g = Has-join m p xs ys h (subst (λ a. Has m a ys) e g)

module _ (b : SnmpBuilder) (community : List ℕ) (t id : ℕ) (bs : List ℕ)
    (v : IsBuilt b community t (word id) bs) where
  abbrev n : ℕ
  n = length community

  abbrev once : ℕ → ℕ
  once = save_len 2 (25 + n + length bs) b.memory

  abbrev twice : ℕ → ℕ
  twice = save_len (11 + n) (16 + length bs) once

  abbrev done : ℕ → ℕ
  done = save_len (27 + n) (length bs) twice

  commit-done : (write_commit b).memory ≡ done
  unfolding write_commit
  commit-done =
      let x : b.offset - 4 ≡ 25 + n + length bs = omega (arith, v.offset) in
      let y : b.offset - b.cmd_offset - 4 ≡ 16 + length bs = omega (arith, v.offset, v.cmd) in
      let z : b.offset - b.oid_offset - 4 ≡ length bs = omega (arith, v.offset, v.oids) in
      let c : b.cmd_offset + 2 ≡ 11 + n = omega (arith, v.cmd) in
      let o : b.oid_offset + 2 ≡ 27 + n = omega (arith, v.oids) in rw (x, y, z, c, o)

  keep :
      (p : ℕ) (xs : List ℕ)
      → (p + length xs ≤ 2) ⊎ (2 + 2 ≤ p)
      → (p + length xs ≤ 11 + n) ⊎ (11 + n + 2 ≤ p)
      → (p + length xs ≤ 27 + n) ⊎ (27 + n + 2 ≤ p)
      → Has b.memory p xs
      → Has done p xs
  keep p xs x y z h = save_len-kept (27 + n) (length bs) twice p xs z (
      save_len-kept (11 + n) (16 + length bs) once p xs y
        (save_len-kept 2 (25 + n + length bs) b.memory p xs x h))

  -- The packet from its command on, block by block.
  command-Has : Has done (9 + n) (command t id bs)
  command-Has =
      let l = 16 + length bs in
      let status : List ℕ = 2 ∷ 1 ∷ 0 ∷ 2 ∷ 1 ∷ 0 ∷ 48 ∷ 130 ∷ [] in
      let bindings = high (length bs) ∷ low (length bs) ∷ bs in
      Has-next done (9 + n) (11 + n) (t ∷ 130 ∷ []) (high l ∷ low l ∷ message id bs) (omega arith)
        (keep (9 + n) (t ∷ 130 ∷ []) (inr (omega arith)) (inl (omega arith)) (inl (omega arith))
          v.command)
        (Has-next done (11 + n) (13 + n) (high l ∷ low l ∷ []) (message id bs) (omega arith)
          (save_len-kept (27 + n) (length bs) twice (11 + n) (high l ∷ low l ∷ [])
            (inl (omega arith)) (Has-save_len (11 + n) l once))
          (Has-next done (13 + n) (15 + n) (2 ∷ 4 ∷ []) (word id ++ status ++ bindings)
            (omega arith)
            (keep (13 + n) (2 ∷ 4 ∷ []) (inr (omega arith)) (inr (omega arith)) (inl (omega arith))
              v.id_header)
            (Has-next done (15 + n) (19 + n) (word id) (status ++ bindings) (omega arith)
              (keep (15 + n) (word id) (inr (omega arith)) (inr (omega arith)) (inl (omega arith))
                v.id)
              (Has-next done (19 + n) (27 + n) status bindings (omega arith)
                (keep (19 + n) status (inr (omega arith)) (inr (omega arith)) (inl (omega arith))
                  v.rest)
                (Has-next done (27 + n) (29 + n) (high (length bs) ∷ low (length bs) ∷ []) bs
                  (omega arith) (Has-save_len (27 + n) (length bs) twice)
                  (keep (29 + n) bs (inr (omega arith)) (inr (omega arith)) (inr (omega arith))
                    v.tail))))))

  done-Has : Has done 0 (packet community t id bs)
  done-Has =
      let l = 25 + n + length bs in
      let front = 2 ∷ 1 ∷ 1 ∷ 4 ∷ n ∷ community in
      let rest = front ++ command t id bs in
      Has-next done 0 2 (48 ∷ 130 ∷ []) (high l ∷ low l ∷ rest) refl
        (keep 0 (48 ∷ 130 ∷ []) (inl (omega arith)) (inl (omega arith)) (inl (omega arith)) v.start)
        (Has-next done 2 4 (high l ∷ low l ∷ []) rest refl
          (save_len-kept (27 + n) (length bs) twice 2 (high l ∷ low l ∷ []) (inl (omega arith)) (
            save_len-kept (11 + n) (16 + length bs) once 2 (high l ∷ low l ∷ []) (inl (omega arith))
              (Has-save_len 2 l b.memory)))
          (Has-next done 4 (9 + n) front (command t id bs) (omega arith)
            (keep 4 front (inr (omega arith)) (inl (omega arith)) (inl (omega arith)) v.front)
            command-Has))

  -- commit writes the three lengths, and the buffer holds the packet.
  pub commit-IsBuilt : Has (write_commit b).memory 0 (packet community t id bs)
  commit-IsBuilt = subst (λ m. Has m 0 (packet community t id bs)) (sym commit-done) done-Has

pub commit-offset : (b : SnmpBuilder) → (write_commit b).offset ≡ b.offset
unfolding write_commit
commit-offset b = refl
