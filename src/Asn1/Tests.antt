-- ===== src/Asn1/Tests.antt =====
-- The theorems on src/asn1reader.cpp, applied to short packets.
use libmaycloud.Common.{ℕ, ◌+◌, ◌≡◌, refl, inr, some, [], ◌∷◌, arith}
use libmaycloud.Asn1.{
  Header, result, poke, signed, read_header, read_timeticks, read_counter_gauge32, read_oid,
}
use libmaycloud.Asn1.Bounds.{IsHeader, read_header-IsHeader}
use libmaycloud.Asn1.Int.{read_timeticks-number_at, read_counter_gauge32-number_at}
use libmaycloud.Asn1.Oid.{read_oid-items}

-- A value of the type `t` with the bytes 1, 44, 3 at the address 0, of which `n` count.
abbrev packet : (t n : ℕ) → ℕ → ℕ
packet t n = poke 4 3 (poke 3 44 (poke 2 1 (poke 1 n (poke 0 t (λ i. 0)))))

abbrev packet_header : (t n : ℕ) → Header
packet_header t n = record { type = t; length = n; data_at = 2; limit = 2 + n }

packet_run : read_header (packet 2 3) 0 9 ≡ some (packet_header 2 3)
unfolding read_header
packet_run = refl

counter_run : read_header (packet 70 2) 0 9 ≡ some (packet_header 70 2)
unfolding read_header
counter_run = refl

tick_run : read_header (packet 67 2) 0 9 ≡ some (packet_header 67 2)
unfolding read_header
tick_run = refl

gauge_run : read_header (packet 66 2) 0 9 ≡ some (packet_header 66 2)
unfolding read_header
gauge_run = refl

oid_run : read_header (packet 6 2) 0 9 ≡ some (packet_header 6 2)
unfolding read_header
oid_run = refl

read_header-IsHeader_example : IsHeader (packet 2 3) 0 9 (packet_header 2 3)
read_header-IsHeader_example = read_header-IsHeader (packet 2 3) 0 9 (packet_header 2 3) packet_run

read_timeticks-number_at_example : read_timeticks (packet 67 2) 0 9 ≡ result (signed 16 300) 4
read_timeticks-number_at_example =
    read_timeticks-number_at (packet 67 2) 0 9 (packet_header 67 2) tick_run refl

read_counter_gauge32-number_at_example : read_counter_gauge32 (packet 66 2) 0 9 ≡ result 300 4
read_counter_gauge32-number_at_example =
    read_counter_gauge32-number_at (packet 66 2) 0 9 (packet_header 66 2) gauge_run (inr refl)

read_oid-items_example : read_oid 128 (packet 6 2) 0 9 ≡ result (0 ∷ 1 ∷ 44 ∷ []) 4
read_oid-items_example =
    read_oid-items 128 (packet 6 2) 0 9 (packet_header 6 2) (1 ∷ []) ((44 ∷ []) ∷ []) oid_run refl
      (refl, (refl, tt)) refl ((omega arith, tt), omega arith, ((omega arith, tt), omega arith, tt))
      (omega arith) (omega arith)
