-- ===== src/Snmp/Tests.antt =====
-- The theorems on src/snmpbuilder.cpp, applied to short packets.
use libmaycloud.Common.{◌≡◌, refl, some, [], ◌∷◌}
use libmaycloud.Asn1.{poke}
use libmaycloud.Snmp.{SnmpBuilder, Cursor, save_oid}

-- The OID 1.3.6.1.300, written at the address 10.
abbrev written : Cursor
written = (
  poke 11 5 (poke 10 6 (poke 16 44 (poke 15 130 (poke 14 1 (poke 13 6 (poke 12 43 (λ i. 0))))))),
  17,
)

written_run : save_oid (1 ∷ 3 ∷ 6 ∷ 1 ∷ 300 ∷ []) (λ i. 0, 10) ≡ some written
unfolding save_oid
written_run = refl

abbrev builder : SnmpBuilder
builder = record {
  memory = poke 21 4 (poke 20 2 (λ i. 0));
  offset = 40;
  cmd_offset = 16;
  request_id_offset = 22;
  oid_offset = 36;
}
