-- ===== src/Oid.antt =====
-- OID of src/oid.cpp and src/headers/maycloud/oid.h: an array of 256 ints and how many of them count. An
-- int is its bit pattern, which is what memcmp compares.
pub mod Laws
mod Tests
use libmaycloud.Common.{
  ℕ, zero, suc, ◌-◌, Bool, true, not, ◌&&◌, Option, none, some, List, ltb, ◌==◌, if◌then◌else◌,
  length, get_or,
}

pub record Oid : Type 0 where
  pub oid : ℕ → ℕ
  pub oidlen : ℕ

pub empty : Oid
empty = record { oid = λ i. 0; oidlen = 0 }

-- OID(len, id), and OID(len, ...) likewise; more than 256 numbers go past the array.
pub create : List ℕ → Option Oid
create id =
    if ltb 256 (length id)
    then none
    else some (record { oid = λ i. get_or id i 0; oidlen = length id })

-- The copy constructor and the assignment.
pub copy : Oid → Oid
copy id = record { oid = id.oid; oidlen = id.oidlen }

-- `id[i]`.
pub index : Oid → ℕ → ℕ
index id i = if ltb i id.oidlen then id.oid i else 0

abbrev pub set_number : ℕ → ℕ → (ℕ → ℕ) → ℕ → ℕ
set_number n v oid i = if i == n then v else oid i

-- `id + i`, which changes `id`.
pub append : ℕ → Oid → Oid
append i id =
    if ltb id.oidlen 256
    then record { oid = set_number id.oidlen i id.oid; oidlen = suc id.oidlen }
    else id

-- One round of the loop of `<<`.
abbrev pub shorten : Oid → Oid
shorten id =
    if id.oidlen == 0
    then id
    else record { oid = set_number (id.oidlen - 1) 0 id.oid; oidlen = id.oidlen - 1 }

-- `id << cnt`, which takes the last `cnt` numbers off.
pub remove_last : ℕ → Oid → Oid
remove_last zero id = id
remove_last (suc cnt) id = remove_last cnt (shorten id)

-- memcmp on the first `n` numbers.
pub same_first : ℕ → (ℕ → ℕ) → (ℕ → ℕ) → Bool
same_first zero x y = true
same_first (suc n) x y = same_first n x y && (x n == y n)

-- `a == b` and `a != b`.
pub equal : Oid → Oid → Bool
unfolding same_first
equal a b = same_first b.oidlen a.oid b.oid

pub differ : Oid → Oid → Bool
unfolding same_first
differ a b = not (same_first b.oidlen a.oid b.oid)

-- cpyOIDtoInt(id, len): what the array holds then.
pub copy_to_int : ℕ → (ℕ → ℕ) → Oid → ℕ → ℕ
copy_to_int len out id i =
    if ltb id.oidlen len then out i else if ltb i len then id.oid i else out i
