-- ===== src/NetDaemon/Buffer/Shape.antt =====
-- What a well-formed file buffer of src/netdaemon.cpp is, and the bytes that wait in it.
use libmaycloud.Common.{ℕ, ◌+◌, ◌*◌, ◌≤◌, ◌<◌, ◌≡◌, refl, ap, List, [], ◌∷◌, ◌++◌, arith, length}
use libmaycloud.Pool.{Ptr, null}
use libmaycloud.Pool.Chain.{Cells, has, last_of, Distinct, Chain}
use libmaycloud.Blocks.{block_size, Block, BlockPool}
use libmaycloud.Blocks.Shape.{IsPool}
use libmaycloud.NetDaemon.Buffer.{FdInfo}
use libmaycloud.NetDaemon.Buffer.Bytes.{joined, IsFull}

-- `cs` are the buffer's blocks, `fs` the free ones of the pool, and `content` the bytes that wait: the
-- `size` ones from `offset` on. No block is without such a byte.
pub record IsBuffer (fb : FdInfo) (bp : BlockPool) (cs fs : Cells Block) (content : List ℕ)
    : Type 0 where
  pub pool : IsPool bp fs
  pub chain : Chain bp.heap fb.first cs
  pub apart : Distinct (cs ++ fs)
  pub full : IsFull cs
  pub spare_full : IsFull fs
  pub tail : 0 < length cs → fb.last ≡ last_of null cs
  pub live : 0 < length cs → 0 < fb.size
  pub low : fb.offset < block_size
  pub bound : fb.offset + fb.size ≤ length cs * block_size
  pub tight : length cs * block_size < fb.offset + fb.size + block_size
  pub size : fb.size ≡ length content
  pub before : List ℕ
  pub behind : List ℕ
  pub start_at : fb.offset ≡ length before
  pub split : joined cs ≡ before ++ (content ++ behind)

-- Two lists of blocks at the same addresses.
abbrev pub addrs : Cells Block → List Ptr
addrs [] = []
addrs ((a, b) ∷ xs) = a ∷ addrs xs

pub addrs-append : (xs ys : Cells Block) → addrs (xs ++ ys) ≡ addrs xs ++ addrs ys
addrs-append [] ys = refl
addrs-append ((a, b) ∷ xs) ys = ap (λ zs. a ∷ zs) (addrs-append xs ys)

pub has-addrs : (c : Ptr) (xs ys : Cells Block) → addrs xs ≡ addrs ys → has c xs ≡ has c ys
has-addrs c [] [] e = refl
has-addrs c [] ((b, w) ∷ ys) e = cc
has-addrs c ((a, v) ∷ xs) [] e = cc
has-addrs c ((a, v) ∷ xs) ((b, w) ∷ ys) e =
    let t : addrs xs ≡ addrs ys = cc in ground (arith, has-addrs c xs ys t)

pub Distinct-addrs : (xs ys : Cells Block) → addrs xs ≡ addrs ys → Distinct xs → Distinct ys
Distinct-addrs [] [] e d = tt
Distinct-addrs [] ((b, w) ∷ ys) e d = cc
Distinct-addrs ((a, v) ∷ xs) [] e d = cc
Distinct-addrs ((a, v) ∷ xs) ((b, w) ∷ ys) e d =
    let t : addrs xs ≡ addrs ys = cc in
    let s : a ≡ b = cc in (rw (← s, ← has-addrs a xs ys t) d.0, Distinct-addrs xs ys t d.1)

pub length-addrs : (xs : Cells Block) → length (addrs xs) ≡ length xs
length-addrs [] = refl
length-addrs ((a, v) ∷ xs) = omega (arith, length-addrs xs)

pub last_of-addrs :
    (p : Ptr) (xs ys : Cells Block) → addrs xs ≡ addrs ys → last_of p xs ≡ last_of p ys
last_of-addrs p [] [] e = refl
last_of-addrs p [] ((b, w) ∷ ys) e = cc
last_of-addrs p ((a, v) ∷ xs) [] e = cc
last_of-addrs p ((a, v) ∷ xs) ((b, w) ∷ ys) e =
    let t : addrs xs ≡ addrs ys = cc in let s : a ≡ b = cc in rw s (last_of-addrs b xs ys t)
