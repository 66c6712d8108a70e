-- ===== src/Blocks/Shape.antt =====
-- What a well-formed pool of src/blockpool.cpp is, and how a chain of blocks is cut in two.
use libmaycloud.Common.{◌^◌, ◌≤◌, ◌<◌, ◌≡◌, sym, subst, true, none, [], ◌∷◌, ◌++◌, length}
use libmaycloud.Pool.{Ptr, null, Heap}
use libmaycloud.Pool.Chain.{Cells, has, Distinct, Seg, Chain, Seg-same}
use libmaycloud.Blocks.{Block, BlockPool}

-- `fs` are the free blocks, from the top of the stack down.
pub record IsPool (p : BlockPool) (fs : Cells Block) : Type 0 where
  pub spare : Chain p.heap p.stack fs
  pub apart : Distinct fs
  pub count : p.free_count ≡ length fs
  pub within : p.free_count ≤ p.total_count
  pub fits : p.total_count < 2 ^ 64
  pub guard : p.heap null ≡ none

-- The address of the first item of a list of items that ends at `end`.
abbrev pub start : {A : Type 0} → Ptr → Cells A → Ptr
start end [] = end
start end ((a, v) ∷ xs) = a

module _ {A : Type 0} where
  pub Seg-start : (h : Heap A) (p end : Ptr) (xs : Cells A) → Seg h p xs end → p ≡ start end xs
  Seg-start h p end [] s = s
  Seg-start h p end ((a, v) ∷ xs) (q, e, ne, at, s) = e

  -- A list of items can be cut in two, at the address where the second part starts.
  pub Seg-split :
      (h : Heap A) (p end : Ptr) (xs ys : Cells A)
      → Seg h p (xs ++ ys) end
      → Seg h p xs (start end ys) × Seg h (start end ys) ys end
  Seg-split h p end [] ys s = let e = Seg-start h p end ys s in (e, subst (λ q. Seg h q ys end) e s)
  Seg-split h p end ((a, v) ∷ xs) ys (q, e, ne, at, s) =
      let (l, r) = Seg-split h q end xs ys s in ((q, e, ne, at, l), r)

  -- Two lists of items, the first ending where the second starts, are one.
  pub Seg-join :
      (h : Heap A) (p m end : Ptr) (xs ys : Cells A)
      → Seg h p xs m
      → Seg h m ys end
      → Seg h p (xs ++ ys) end
  Seg-join h p m end [] ys s t = subst (λ q. Seg h q ys end) (sym s) t
  Seg-join h p m end ((a, v) ∷ xs) ys (q, e, ne, at, s) t =
      (q, e, ne, at, Seg-join h q m end xs ys s t)

-- A pool is the same in another memory that agrees on its free blocks.
pub IsPool-same :
    (p : BlockPool) (h : Heap Block) (fs : Cells Block)
    → IsPool p fs
    → ((a : Ptr) → has a fs ≡ true → h a ≡ p.heap a)
    → h null ≡ none
    → IsPool (record p { heap = h }) fs
IsPool-same p h fs s same g = record {
  spare = Seg-same p.heap h p.stack null fs same s.spare;
  apart = s.apart;
  count = s.count;
  within = s.within;
  fits = s.fits;
  guard = g;
}
