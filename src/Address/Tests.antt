-- ===== src/Address/Tests.antt =====
-- The theorem on addresses, applied to a MAC address of 6 bytes.
use libmaycloud.Common.{◌≡◌, refl, true, [], ◌∷◌, arith}
use libmaycloud.Address.{parse_mac, mac_text}
use libmaycloud.Address.Mac.{parse_mac-mac_text}

parse_mac-mac_text_example :
    parse_mac 6 (mac_text (0 ∷ 27 ∷ 68 ∷ 17 ∷ 58 ∷ 183 ∷ [])) (9 ∷ 9 ∷ 9 ∷ 9 ∷ 9 ∷ 9 ∷ [])
    ≡ (true, 0 ∷ 27 ∷ 68 ∷ 17 ∷ 58 ∷ 183 ∷ [])
parse_mac-mac_text_example =
    parse_mac-mac_text 0 (27 ∷ 68 ∷ 17 ∷ 58 ∷ 183 ∷ []) (9 ∷ 9 ∷ 9 ∷ 9 ∷ 9 ∷ 9 ∷ [])
      (omega arith, (omega arith, (omega arith, (omega arith, (omega arith, (omega arith, tt))))))
      (omega arith) refl
