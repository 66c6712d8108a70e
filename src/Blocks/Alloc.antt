-- ===== src/Blocks/Alloc.antt =====
-- allocByBlocks and allocBySize of src/blockpool.cpp on well-formed pools.
use libmaycloud.Common.{
  ℕ, zero, suc, ◌+◌, ◌-◌, ◌*◌, ◌^◌, ◌≤◌, ◌<◌, ◌≡◌, refl, sym, ap, subst, ◌∙◌, ◌⊎◌, inl, inr, false,
  some, List, [], ◌∷◌, ◌++◌, arith, ltb, length, length-append,
}
use libmaycloud.Pool.{Ptr, null, item, Heap, assign}
use libmaycloud.Pool.Chain.{Cells, has, last_of, Seg, Chain, Seg-assign}
use libmaycloud.Pool.Distinct.{
  has-last_of, Seg-relink, Distinct-left, Distinct-right, Distinct-apart,
}
use libmaycloud.Blocks.{
  block_size, Block, BlockPool, blocks_for, advance, alloc_by_blocks, alloc_by_size,
}
use libmaycloud.Blocks.Shape.{IsPool, start, Seg-split}

-- `advance` over all items but the last reaches the last one.
advance-last_of :
    (h : Heap Block) (p a end : Ptr) (v : Block) (xs : Cells Block)
    → Seg h p ((a, v) ∷ xs) end
    → advance (length xs) h p ≡ some (last_of a xs)
unfolding advance
advance-last_of h p a end v [] (q, e, ne, at, s) = ap some e
advance-last_of h p a end v ((b, w) ∷ xs) (q, e, ne, at, s) =
    ground (arith, advance-last_of h q b end w xs s)

-- What a call that takes the blocks `xs` off the stack returns: the chain of these blocks, ended by
-- NULL, and a pool with the others, outside of which the memory is the same.
pub record Taken (p : BlockPool) (xs fs : Cells Block) (q : Ptr) (p' : BlockPool) : Type 0 where
  pub chain : Chain p'.heap q xs
  pub left : IsPool p' fs
  pub total : p'.total_count ≡ p.total_count
  pub same : (a : Ptr) → has a xs ≡ false → p'.heap a ≡ p.heap a

module _ (p : BlockPool) where
  alloc_some :
      (a : Ptr) (v : Block) (xs fs : Cells Block)
      → IsPool p (((a, v) ∷ xs) ++ fs)
      → (q : Ptr) × (p' : BlockPool) × (alloc_by_blocks (length ((a, v) ∷ xs)) p ≡ some (q, p'))
        × Taken p ((a, v) ∷ xs) fs q p'
  unfolding alloc_by_blocks
  alloc_some a v xs fs s =
      let ys : Cells Block = (a, v) ∷ xs in
      let (front, back) = Seg-split p.heap p.stack null ys fs s.spare in
      let m = start null fs in
      let dl = Distinct-left ys fs s.apart in
      let (w, at, relinked) = Seg-relink p.heap p.stack m null a v xs dl front in
      let l = last_of a xs in
      let mem = has-last_of a v xs in
      let out = Distinct-apart l ys fs s.apart mem in
      let go = advance-last_of p.heap p.stack a m v xs front in
      let n : ℕ = length xs in
      let e1 : (suc n - 1) ≡ n = omega arith in
      let small : ltb p.free_count (suc n) ≡ false = ground (arith, s.count, length-append ys fs) in
      (
        p.stack,
        record p {
          heap = assign p.heap l (item w null);
          stack = m;
          free_count = p.free_count - suc n;
        },
        rw (small, e1, go, at) (ground arith),
        record {
          chain = relinked;
          left = record {
            spare = Seg-assign p.heap m null l (item w null) fs out back;
            apart = Distinct-right ys fs s.apart;
            count = omega (arith, s.count, length-append ys fs);
            within = omega (arith, s.within);
            fits = s.fits;
            guard = ground (arith, s.guard);
          };
          total = refl;
          same = λ c o. ground arith;
        },
      )

  -- allocByBlocks on a well-formed pool with enough free blocks takes the first `count` blocks off the
  -- stack, in order: they come as a chain ended by NULL, the others stay free, and no other block of
  -- the memory changes. It never faults.
  pub alloc_by_blocks-take :
      (xs fs : Cells Block)
      → IsPool p (xs ++ fs)
      → 0 < length xs
      → (q : Ptr) × (p' : BlockPool) × (alloc_by_blocks (length xs) p ≡ some (q, p'))
        × Taken p xs fs q p'
  alloc_by_blocks-take [] fs s h = absurd (omega arith)
  alloc_by_blocks-take ((a, v) ∷ xs) fs s h = alloc_some a v xs fs s

  -- allocByBlocks gives NULL and keeps the pool when no block is asked for, or more than are free.
  pub alloc_by_blocks-null :
      (count : ℕ) → (count ≡ 0) ⊎ (p.free_count < count) → alloc_by_blocks count p ≡ some (null, p)
  unfolding alloc_by_blocks
  alloc_by_blocks-null count (inl e) = ground arith
  alloc_by_blocks-null count (inr e) = ground arith

-- The blocks of a size hold that many bytes, with less than a block to spare.
pub blocks_for_bounds :
    (size : ℕ)
    → size < 2 ^ 64 - block_size
    → (size ≤ blocks_for size * block_size) × (blocks_for size * block_size < size + block_size)
blocks_for_bounds size h = omega arith

-- A list that is long enough can be cut after `n` items.
pub cut_at :
    {A : Type 0} (n : ℕ) (fs : List A)
    → n ≤ length fs
    → (xs : List A) × (ys : List A) × (fs ≡ xs ++ ys) × (length xs ≡ n)
cut_at zero fs h = ([], fs, refl, refl)
cut_at (suc n) [] h = absurd (omega arith)
cut_at (suc n) (f ∷ fs) h =
    let (xs, ys, e, l) = cut_at n fs (omega arith) in (f ∷ xs, ys, ap (λ zs. f ∷ zs) e, ap suc l)

-- allocBySize takes as many blocks as the size needs, in order, when they are free.
pub alloc_by_size-take :
    (p : BlockPool) (size : ℕ) (fs : Cells Block)
    → IsPool p fs
    → 0 < size
    → size < 2 ^ 63
    → blocks_for size ≤ length fs
    → (xs : Cells Block) × (ys : Cells Block) × (q : Ptr) × (p' : BlockPool) × (fs ≡ xs ++ ys)
      × (length xs ≡ blocks_for size)
      × (alloc_by_size size p ≡ some (q, p'))
      × Taken p xs ys q p'
unfolding alloc_by_size
alloc_by_size-take p size fs s h lim enough =
    let (xs, ys, e, l) = cut_at (blocks_for size) fs enough in
    let (q, p', run, t) = alloc_by_blocks-take p xs ys (subst (IsPool p) e s) (omega (arith, l)) in
    (xs, ys, q, p', e, l, ap (λ n. alloc_by_blocks n p) (sym l) ∙ run, t)

-- allocBySize gives NULL and keeps the pool when too few blocks are free.
pub alloc_by_size-null :
    (p : BlockPool) (size : ℕ) (fs : Cells Block)
    → IsPool p fs
    → length fs < blocks_for size
    → alloc_by_size size p ≡ some (null, p)
unfolding alloc_by_size
alloc_by_size-null p size fs s h =
    alloc_by_blocks-null p (blocks_for size) (inr (omega (arith, s.count)))
