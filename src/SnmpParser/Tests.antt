-- ===== src/SnmpParser/Tests.antt =====
-- The theorems on src/snmpparser.cpp, applied to short packets.
use libmaycloud.Common.{ℕ, ◌≤◌, ◌≡◌, some, List, [], ◌∷◌, arith, pos}
use libmaycloud.Snmp.{SnmpBuilder, digits}
use libmaycloud.SnmpParser.{
  SnmpParser, Parsed, crashed, failed, parsed, value_loop, parse_get_value, parse_response_value,
  parse_trap_value, parse_sized,
}
use libmaycloud.SnmpParser.EndToEnd.{build_get, build_get-parse}
use libmaycloud.SnmpParser.GetRequest.{AreSendable, requested}
use libmaycloud.SnmpParser.Loop.{value_loop_fuel}

abbrev fresh : SnmpBuilder
fresh = record {
  memory = λ i. 7;
  offset = 3;
  cmd_offset = 0;
  request_id_offset = 0;
  oid_offset = 0;
}

abbrev unasked : SnmpParser
unasked = record {
  version = pos 0;
  community = [];
  request_id = pos 0;
  error_status = pos 0;
  error_index = pos 0;
  events = [];
}

-- The community "ab" asks for 1.3.6.1 and 1.3.300.
abbrev asked : List (List ℕ)
asked = (1 ∷ 3 ∷ 6 ∷ 1 ∷ []) ∷ (1 ∷ 3 ∷ 300 ∷ []) ∷ []

asked-AreSendable : AreSendable asked
unfolding digits
asked-AreSendable = (
  (omega arith, omega arith, (omega arith, (omega arith, tt)), omega arith),
  ((omega arith, omega arith, (omega arith, tt), omega arith), tt),
)

build_get-parse_example :
    (r : SnmpBuilder) × (build_get 4096 (97 ∷ 98 ∷ []) 70000 asked fresh ≡ some r)
    × (r.offset ≤ 4096)
    × (parse_sized r.memory 0 r.offset unasked
        ≡ parsed
            (requested 70000 asked
              (record unasked { version = pos 1; community = 97 ∷ 98 ∷ 0 ∷ [] }))
            r.offset)
unfolding digits
build_get-parse_example =
    build_get-parse 4096 (97 ∷ 98 ∷ []) 70000 asked fresh unasked (omega arith, (omega arith, tt))
      (omega arith) (omega arith) asked-AreSendable (omega arith) (omega arith)

abbrev zeros : ℕ → ℕ
zeros i = 0

abbrev stopped : Parsed
stopped = failed unasked

value_loop_fuel_example :
    (value_loop crashed (parse_get_value zeros) 9 2 8 unasked
      ≡ value_loop stopped (parse_get_value zeros) 200 2 8 unasked)
    × (value_loop crashed (parse_response_value zeros) 9 2 8 unasked
        ≡ value_loop stopped (parse_response_value zeros) 200 2 8 unasked)
    × (value_loop crashed (parse_trap_value zeros) 9 2 8 unasked
        ≡ value_loop stopped (parse_trap_value zeros) 200 2 8 unasked)
value_loop_fuel_example =
    value_loop_fuel zeros crashed stopped 9 200 2 8 unasked (omega arith) (omega arith)
