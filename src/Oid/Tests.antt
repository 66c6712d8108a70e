-- ===== src/Oid/Tests.antt =====
-- The theorems on OID of src/oid.cpp, applied to the OID 1.3.6.
use libmaycloud.Common.{ℕ, zero, suc, ◌≤◌, ◌≡◌, refl, [], ◌∷◌, arith, get_or}
use libmaycloud.Oid.{Oid}
use libmaycloud.Oid.Laws.{IsOid}

abbrev internet : Oid
internet = record { oid = λ i. get_or (1 ∷ 3 ∷ 6 ∷ []) i 0; oidlen = 3 }

get_or-far : (i : ℕ) → 3 ≤ i → internet.oid i ≡ 0
get_or-far zero l = absurd (omega arith)
get_or-far (suc zero) l = absurd (omega arith)
get_or-far (suc (suc zero)) l = absurd (omega arith)
get_or-far (suc (suc (suc i))) l = refl

internet-IsOid : IsOid internet
internet-IsOid = record { bound = omega arith; clear = get_or-far }
