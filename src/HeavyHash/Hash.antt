-- ===== src/HeavyHash/Hash.antt =====
-- The hash of src/hasher.cpp as a number.
use libmaycloud.Common.{ℕ, ◌+◌, ◌*◌, ◌%◌, ◌^◌, ◌<◌, List, [], ◌∷◌, arith}
use native.Mathlib.Nat.{mod-lt}
use libmaycloud.HeavyHash.{feed_char, feed_data, HeavyHash, get_hash}

-- The hash of bytes is a position of a table, however many there are.
pub feed_data-bound :
    (modulus : ℕ) (s : List ℕ) (hash : ℕ) → hash < modulus → feed_data hash modulus s < modulus
unfolding feed_data feed_char
feed_data-bound modulus [] hash h = h
feed_data-bound modulus (c ∷ s) hash h =
    feed_data-bound modulus s ((hash * 256 + c) % 2 ^ 64 % modulus)
      (mod-lt ((hash * 256 + c) % 2 ^ 64) (omega (arith, h)))

-- getHash of any key is below the capacity, so that no bucket is read outside of the table.
pub get_hash-bound :
    {K V : Type 0} (bytes : K → List ℕ) (key : K) (m : HeavyHash K V)
    → 0 < m.capacity
    → get_hash bytes key m < m.capacity
unfolding get_hash
get_hash-bound bytes key m h = feed_data-bound m.capacity (bytes key) 0 h
