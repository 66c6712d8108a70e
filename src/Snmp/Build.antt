-- ===== src/Snmp/Build.antt =====
-- What the operations of src/snmpbuilder.cpp leave in the buffer, from reset to the last binding.
use libmaycloud.Asn1.Oid.{Has}
use libmaycloud.Common.{
  ℕ, ◌+◌, ◌≤◌, ◌<◌, ◌≡◌, refl, sym, ap, subst, ◌⊎◌, inl, inr, true, false, List, [], ◌∷◌, arith,
  if◌then◌else◌, lt→leb, length, All, IsByte,
}
use libmaycloud.Snmp.{SnmpBuilder, Cursor, emit, emit_all, write_reset, write_command}
use libmaycloud.Snmp.Encode.{Writes, Has-same, Has-join, Writes-nil, Writes-append, Writes-emit}
use libmaycloud.Asn1.{poke}

-- A packet before its lengths are written: `w` is the request ID, `bs` the bindings so far.
pub record IsBuilt (b : SnmpBuilder) (community : List ℕ) (t : ℕ) (w bs : List ℕ) : Type 0 where
  pub cmd : b.cmd_offset ≡ 9 + length community
  pub request_id : b.request_id_offset ≡ 15 + length community
  pub oids : b.oid_offset ≡ 25 + length community
  pub offset : b.offset ≡ 29 + length community + length bs
  pub start : Has b.memory 0 (48 ∷ 130 ∷ [])
  pub front : Has b.memory 4 (2 ∷ 1 ∷ 1 ∷ 4 ∷ length community ∷ community)
  pub command : Has b.memory (9 + length community) (t ∷ 130 ∷ [])
  pub id_header : Has b.memory (13 + length community) (2 ∷ 4 ∷ [])
  pub id : Has b.memory (15 + length community) w
  pub id_size : length w ≡ 4
  pub rest : Has b.memory (19 + length community) (2 ∷ 1 ∷ 0 ∷ 2 ∷ 1 ∷ 0 ∷ 48 ∷ 130 ∷ [])
  pub tail : Has b.memory (29 + length community) bs

-- A poke elsewhere keeps bytes.
pub Has-poke :
    (m : ℕ → ℕ) (a v p : ℕ) (bs : List ℕ)
    → (a < p) ⊎ (p + length bs ≤ a)
    → Has m p bs
    → Has (poke a v m) p bs
Has-poke m a v p bs out h = Has-same m (poke a v m) p bs h (λ i l g. ground arith)

emit_all-Writes : (bs : List ℕ) (c : Cursor) → All IsByte bs → Writes c bs (emit_all bs c)
unfolding emit_all
emit_all-Writes [] c a = Writes-nil c
emit_all-Writes (b ∷ bs) c a =
    Writes-append c (emit b c) _ (b ∷ []) bs (Writes-emit b c a.0)
      (emit_all-Writes bs (emit b c) a.1)

bytes_at_four :
    (m : ℕ → ℕ) (p : ℕ) → Has m p (m p ∷ m (p + 1) ∷ m (p + 1 + 1) ∷ m (p + 1 + 1 + 1) ∷ [])
bytes_at_four m p = (refl, (refl, (refl, (refl, tt))))

module _ (community : List ℕ) (b : SnmpBuilder) where
  -- The stages of reset: behind the version, behind the community, behind the error index.
  abbrev opened : Cursor
  opened = (poke 1 130 (poke 0 48 b.memory), 4)

  abbrev versioned : Cursor
  versioned = emit_all (2 ∷ 1 ∷ 1 ∷ 4 ∷ []) opened

  abbrev filled : Cursor
  filled = emit_all community (emit (length community) versioned)

  abbrev marked : Cursor
  marked = (
    poke (filled.1 + 5) 4 (poke (filled.1 + 4) 2 (poke (filled.1 + 1) 130 filled.0)),
    filled.1 + 10,
  )

  abbrev status : Cursor
  status = emit_all (2 ∷ 1 ∷ 0 ∷ 2 ∷ 1 ∷ 0 ∷ []) marked

  abbrev started : SnmpBuilder
  started = record {
    memory = poke (status.1 + 1) 130 (poke status.1 48 status.0);
    offset = status.1 + 4;
    cmd_offset = filled.1;
    request_id_offset = filled.1 + 6;
    oid_offset = status.1;
  }

  reset-started : length community < 128 → write_reset community b ≡ (true, started)
  unfolding write_reset
  reset-started short =
      ap
        (λ t. if t then (false, record b { memory = versioned.0; offset = 0 }) else (true, started))
        (lt→leb 128 (length community) short)

  filled-Writes :
      All IsByte community
      → length community < 128
      → Writes opened (2 ∷ 1 ∷ 1 ∷ 4 ∷ length community ∷ community) filled
  filled-Writes bytes short =
      let four : All IsByte (2 ∷ 1 ∷ 1 ∷ 4 ∷ []) =
        (omega arith, (omega arith, (omega arith, (omega arith, tt)))) in
      let n = length community in
      Writes-append opened versioned filled (2 ∷ 1 ∷ 1 ∷ 4 ∷ []) (n ∷ community)
        (emit_all-Writes (2 ∷ 1 ∷ 1 ∷ 4 ∷ []) opened four)
        (Writes-append versioned (emit n versioned) filled (n ∷ []) community
          (Writes-emit n versioned (omega arith))
          (emit_all-Writes community (emit n versioned) bytes))

  status-Writes : Writes marked (2 ∷ 1 ∷ 0 ∷ 2 ∷ 1 ∷ 0 ∷ []) status
  status-Writes =
      emit_all-Writes (2 ∷ 1 ∷ 0 ∷ 2 ∷ 1 ∷ 0 ∷ []) marked
        (omega arith, (omega arith, (omega arith, (omega arith, (omega arith, (omega arith, tt))))))

  started-IsBuilt :
      All IsByte community
      → length community < 128
      → (t : ℕ) × (w : List ℕ) × IsBuilt started community t w []
  started-IsBuilt bytes short =
      let w = filled-Writes bytes short in
      let v = status-Writes in
      let nc = length community in
      let m = started.memory in
      let cmd : filled.1 ≡ 9 + nc = omega (arith, w.moved) in
      let oids : status.1 ≡ 25 + nc = omega (arith, v.moved, cmd) in
      let keep : (i : ℕ) → i < 19 + nc → m i ≡ marked.0 i =
        λ i l. ground (arith, v.kept i (omega (arith, cmd)), oids) in
      let c = 9 + nc in
      (
        m c,
        m (15 + nc) ∷ m (15 + nc + 1) ∷ m (15 + nc + 1 + 1) ∷ m (15 + nc + 1 + 1 + 1) ∷ [],
        record {
          cmd = cmd;
          request_id = omega (arith, cmd);
          oids = oids;
          offset = omega (arith, oids);
          start = (
            ground (arith, keep 0 (omega arith), cmd, w.kept 0 (omega arith)),
            (ground (arith, keep 1 (omega arith), cmd, w.kept 1 (omega arith)), tt),
          );
          front =
              Has-same filled.0 m 4 (2 ∷ 1 ∷ 1 ∷ 4 ∷ nc ∷ community) w.bytes
                (λ i l g. ground (arith, keep i (omega arith), cmd));
          command = (refl, (ground (arith, keep (c + 1) (omega arith), cmd), tt));
          id_header = (
            ground (arith, keep (13 + nc) (omega arith), cmd),
            (ground (arith, keep (13 + nc + 1) (omega arith), cmd), tt),
          );
          id = bytes_at_four m (15 + nc);
          id_size = refl;
          rest =
              Has-join m (19 + nc) (2 ∷ 1 ∷ 0 ∷ 2 ∷ 1 ∷ 0 ∷ []) (48 ∷ 130 ∷ [])
                (subst (λ q. Has m q (2 ∷ 1 ∷ 0 ∷ 2 ∷ 1 ∷ 0 ∷ [])) {x = filled.1 + 10}
                  (omega (arith, cmd))
                  (Has-same status.0 m (filled.1 + 10) (2 ∷ 1 ∷ 0 ∷ 2 ∷ 1 ∷ 0 ∷ []) v.bytes
                    (λ i l g. ground (arith, oids, cmd))))
                (ground (arith, oids), (ground (arith, oids), tt));
          tail = tt;
        },
      )

-- reset starts a packet without bindings; the command and the request ID are what was there.
pub reset-IsBuilt :
    (community : List ℕ) (b : SnmpBuilder)
    → All IsByte community
    → length community < 128
    → (t : ℕ) × (w : List ℕ) × IsBuilt (write_reset community b).1 community t w []
reset-IsBuilt community b bytes short =
    subst (λ r. (t : ℕ) × (w : List ℕ) × IsBuilt r.1 community t w [])
      (sym (reset-started community b short)) (started-IsBuilt community b bytes short)

-- setCommand sets the command and nothing else.
pub set_command-IsBuilt :
    (type : ℕ) (b : SnmpBuilder) (community : List ℕ) (t : ℕ) (w bs : List ℕ)
    → IsBuilt b community t w bs
    → IsBuilt (write_command type b) community type w bs
unfolding write_command
set_command-IsBuilt type b community t w bs v =
    let keep = Has-poke b.memory b.cmd_offset type in
    let n = length community in
    record {
      cmd = v.cmd;
      request_id = v.request_id;
      oids = v.oids;
      offset = v.offset;
      start = keep 0 (48 ∷ 130 ∷ []) (inr (omega (arith, v.cmd))) v.start;
      front = keep 4 (2 ∷ 1 ∷ 1 ∷ 4 ∷ n ∷ community) (inr (omega (arith, v.cmd))) v.front;
      command = (
        ground (arith, v.cmd),
        keep (9 + n + 1) (130 ∷ []) (inl (omega (arith, v.cmd))) v.command.1,
      );
      id_header = keep (13 + n) (2 ∷ 4 ∷ []) (inl (omega (arith, v.cmd))) v.id_header;
      id = keep (15 + n) w (inl (omega (arith, v.cmd))) v.id;
      id_size = v.id_size;
      rest =
          keep (19 + n) (2 ∷ 1 ∷ 0 ∷ 2 ∷ 1 ∷ 0 ∷ 48 ∷ 130 ∷ []) (inl (omega (arith, v.cmd))) v.rest;
      tail = keep (29 + n) bs (inl (omega (arith, v.cmd))) v.tail;
    }
