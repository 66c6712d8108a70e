-- ===== src/Snmp.antt =====
-- The builder of SNMP packets of src/snmpbuilder.cpp. The buffer starts at the address 0. The source never looks at its
-- capacity: what an operation writes is a function write_... on an unbounded memory, and the operation faults, with
-- the value `none`, where one of these bytes lies behind the buffer. The numbers of an OID are ints that are not negative.
pub mod Encode
pub mod RoundTrip
pub mod Packet
pub mod Build
pub mod Commit
mod Tests
use libmaycloud.Common.{
  ℕ, zero, suc, ◌+◌, ◌-◌, ◌*◌, ◌/◌, ◌%◌, Bool, true, false, ◌&&◌, Option, none, some, List, [], ◌∷◌,
  leb, ◌==◌, if◌then◌else◌, ◌>>=◌, length,
}
use libmaycloud.Asn1.{poke}

pub record SnmpBuilder : Type 0 where
  pub memory : ℕ → ℕ
  pub offset : ℕ
  pub cmd_offset : ℕ
  pub request_id_offset : ℕ
  pub oid_offset : ℕ

-- A memory, and the pointer behind what was written.
abbrev pub Cursor : Type 0
Cursor = (ℕ → ℕ) × ℕ

-- `*offset++ = b`.
abbrev pub emit : ℕ → Cursor → Cursor
emit b c = (poke c.1 (b % 256) c.0, c.1 + 1)

-- Bytes one after the other.
pub emit_all : List ℕ → Cursor → Cursor
emit_all [] c = c
emit_all (b ∷ bs) c = emit_all bs (emit b c)

pub write_reset : List ℕ → SnmpBuilder → Bool × SnmpBuilder
unfolding emit_all
write_reset community b =
    let start = emit_all (2 ∷ 1 ∷ 1 ∷ 4 ∷ []) (poke 1 130 (poke 0 48 b.memory), 4) in
    let filled = emit_all community (emit (length community) start) in
    let cmd = filled.1 in
    let status =
      emit_all (2 ∷ 1 ∷ 0 ∷ 2 ∷ 1 ∷ 0 ∷ [])
        (poke (cmd + 5) 4 (poke (cmd + 4) 2 (poke (cmd + 1) 130 filled.0)), cmd + 10) in
    let oids = status.1 in
    if leb 128 (length community) then (false, record b { memory = start.0; offset = 0 }) else (
      true,
      record {
        memory = poke (oids + 1) 130 (poke oids 48 status.0);
        offset = oids + 4;
        cmd_offset = cmd;
        request_id_offset = cmd + 6;
        oid_offset = oids;
      },
    )

unfoldable pub write_command : ℕ → SnmpBuilder → SnmpBuilder
write_command type b = record b { memory = poke b.cmd_offset type b.memory }

unfoldable pub write_request_id : ℕ → SnmpBuilder → SnmpBuilder
write_request_id value b =
    let p = b.request_id_offset in
    record b {
      memory = poke (p + 3) (value % 256) (
          poke (p + 2) (value / 256 % 256)
            (poke (p + 1) (value / 65536 % 256) (poke p (value / 16777216 % 256) b.memory)));
    }

-- The digits of a number to the base 128, the lowest first: the array `buf`, which has room for 8.
unfoldable pub digits : ℕ → ℕ → List ℕ
digits zero value = []
digits (suc fuel) value =
    let rest = digits fuel (value / 128) in if value == 0 then [] else value % 128 ∷ rest

-- `buf[i] | 0x80` from the highest digit down.
pub emit_high : List ℕ → Cursor → Cursor
emit_high [] c = c
emit_high (d ∷ ds) c = emit (d + 128) (emit_high ds c)

pub emit_digits : List ℕ → Cursor → Cursor
unfolding emit_high
emit_digits [] c = emit 0 c
emit_digits (d ∷ ds) c = emit d (emit_high ds c)

pub save_oid_item : ℕ → Cursor → Cursor
unfolding digits emit_digits
save_oid_item value c = emit_digits (digits 8 value) c

pub save_items : List ℕ → Cursor → Cursor
unfolding save_oid_item
save_items [] c = c
save_items (v ∷ vs) c = save_items vs (save_oid_item v c)

-- The first two numbers stand in one; an OID of less than two numbers is read past its end.
pub save_oid : List ℕ → Cursor → Option Cursor
unfolding save_oid_item save_items
save_oid (a ∷ b ∷ rest) c =
    let start = c.1 in
    let r = save_items rest (save_oid_item (a * 40 + b) (c.0, start + 2)) in
    some (poke (start + 1) ((r.1 - start - 2) % 256) (poke start 6 r.0), r.1)
save_oid (a ∷ []) c = none
save_oid [] c = none

pub write_null : List ℕ → SnmpBuilder → Option (Bool × SnmpBuilder)
unfolding save_oid
write_null oid b =
    let start = b.offset in
    save_oid oid (poke start 48 b.memory, start + 2) >>= λ r.
    let e = emit 0 (emit 5 r) in
    some (true, record b { memory = poke (start + 1) ((e.1 - start - 2) % 256) e.0; offset = e.1 })

pub save_len : (offset len : ℕ) → (ℕ → ℕ) → ℕ → ℕ
save_len offset len m = poke (offset + 1) (len % 256) (poke offset (len / 256 % 256) m)

pub write_commit : SnmpBuilder → SnmpBuilder
unfolding save_len
write_commit b = record b {
  memory = save_len (b.oid_offset + 2) (b.offset - b.oid_offset - 4) (
      save_len (b.cmd_offset + 2) (b.offset - b.cmd_offset - 4)
        (save_len 2 (b.offset - 4) b.memory));
}

-- The operations on a buffer of this capacity, which the constructor fixes.
module _ (capacity : ℕ) where
  -- A community of 128 bytes or more is refused behind the byte in front of it. The two bytes of the size of the
  -- bindings are not written yet.
  unfoldable pub reset : List ℕ → SnmpBuilder → Option (Bool × SnmpBuilder)
  reset community b =
      let r = write_reset community b in
      let top = if leb 128 (length community) then 8 else r.1.offset - 2 in
      if leb top capacity then some r else none

  unfoldable pub set_command : ℕ → SnmpBuilder → Option SnmpBuilder
  set_command type b = if leb (b.cmd_offset + 1) capacity then some (write_command type b) else none

  unfoldable pub set_request_id : ℕ → SnmpBuilder → Option SnmpBuilder
  set_request_id value b =
      if leb (b.request_id_offset + 4) capacity then some (write_request_id value b) else none

  unfoldable pub add_null : List ℕ → SnmpBuilder → Option (Bool × SnmpBuilder)
  add_null oid b = write_null oid b >>= λ r. if leb r.1.offset capacity then some r else none

  unfoldable pub commit : SnmpBuilder → Option SnmpBuilder
  commit b =
      if leb (b.oid_offset + 4) capacity && leb (b.cmd_offset + 4) capacity && leb 4 capacity
      then some (write_commit b)
      else none
