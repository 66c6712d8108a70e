-- ===== src/Blocks/Free.antt =====
-- free of src/blockpool.cpp on well-formed pools, and what is left after an allocation is given back.
use libmaycloud.Common.{
  ℕ, zero, suc, ◌+◌, ◌^◌, ◌≤◌, ◌<◌, ◌≡◌, refl, sym, ◌∙◌, false, some, [], ◌∷◌, ◌++◌, arith, ◌==◌,
  ◌>>=◌, length, length-append, inc64, add64,
}
use libmaycloud.Pool.{Ptr, null, item, Heap, assign}
use libmaycloud.Pool.Chain.{Cells, has, last_of, Distinct, Chain, Seg-assign, has-null}
use libmaycloud.Pool.Distinct.{has-last_of, Seg-relink, Distinct-left, Distinct-apart}
use libmaycloud.Blocks.{Block, BlockPool, alloc_by_blocks, free_walk, free}
use libmaycloud.Blocks.Shape.{IsPool, Seg-join}
use libmaycloud.Blocks.Alloc.{alloc_by_blocks-take}

-- The walk ends at the last block and has counted all of them.
free_walk-last_of :
    (fuel : ℕ) (h : Heap Block) (p a : Ptr) (v : Block) (xs : Cells Block) (n : ℕ)
    → length xs < fuel
    → n + length xs < 2 ^ 64
    → Chain h p ((a, v) ∷ xs)
    → free_walk fuel h p n ≡ some (last_of a xs, n + length xs)
unfolding free_walk
free_walk-last_of zero h p a v xs n f b s = absurd (omega arith)
free_walk-last_of (suc fuel) h p a v [] n f b (q, e, ne, at, s) = ground arith
free_walk-last_of (suc fuel) h p a v ((b', w) ∷ xs) n f b (q, e, ne, at, s) =
    let e' : inc64 n ≡ n + 1 = omega arith in
    ground (arith, free_walk-last_of fuel h q b' w xs (n + 1) (omega arith) (omega arith) s)

module _ (p : BlockPool) where
  -- free on a well-formed pool puts a chain of blocks that are not free on top of the stack, in order.
  -- The walk to its end takes as many rounds as it has blocks, and nothing faults.
  pub free-append :
      (fuel : ℕ) (list : Ptr) (xs fs : Cells Block)
      → IsPool p fs
      → Chain p.heap list xs
      → Distinct (xs ++ fs)
      → p.free_count + length xs ≤ p.total_count
      → length xs ≤ fuel
      → (p' : BlockPool) × (free fuel list p ≡ some p')
        × IsPool p' (xs ++ fs)
        × (p'.total_count ≡ p.total_count)
        × ((a : Ptr) → has a xs ≡ false → p'.heap a ≡ p.heap a)
  unfolding free
  free-append fuel list [] fs s c d w f = (p, ground arith, s, refl, λ a o. refl)
  free-append fuel list ((a, v) ∷ xs) fs s c d w f =
      let ys : Cells Block = (a, v) ∷ xs in
      let walked =
        free_walk-last_of fuel p.heap list a v xs 1 (omega arith) (omega (arith, s.fits)) c in
      let (z, at, relinked) =
        Seg-relink p.heap list null p.stack a v xs (Distinct-left ys fs d) c in
      let l = last_of a xs in
      let mem = has-last_of a v xs in
      let out = Distinct-apart l ys fs d mem in
      let h : Heap Block = assign p.heap l (item z p.stack) in
      let (q, e, ne, at', rest) = c in
      let nl : (list == null) ≡ false = ground arith in
      let nn : (null == l) ≡ false = ground (arith, has-null p.heap list null ys c) in
      (
        record p { heap = h; stack = list; free_count = add64 p.free_count (1 + length xs) },
        rw (nl, walked, at) refl,
        record {
          spare =
              Seg-join h list p.stack null ys fs relinked
                (Seg-assign p.heap p.stack null l (item z p.stack) fs out s.spare);
          apart = d;
          count = omega (arith, s.count, s.fits, length-append ys fs);
          within = omega (arith, s.within, s.fits);
          fits = s.fits;
          guard = ground (arith, s.guard);
        },
        refl,
        λ b o. ground arith,
      )

-- Blocks that are allocated and given back at once are free again, in the order that they had.
pub free-alloc_by_blocks :
    (p : BlockPool) (fuel : ℕ) (xs fs : Cells Block)
    → IsPool p (xs ++ fs)
    → 0 < length xs
    → length xs ≤ fuel
    → (p' : BlockPool) × ((alloc_by_blocks (length xs) p >>= λ r. free fuel r.0 r.1) ≡ some p')
      × IsPool p' (xs ++ fs)
      × (p'.free_count ≡ p.free_count)
free-alloc_by_blocks p fuel xs fs s h f =
    let (q, p1, run, t) = alloc_by_blocks-take p xs fs s h in
    let w : p1.free_count + length xs ≤ p1.total_count =
      omega (arith, t.total, t.left.count, s.count, s.within, length-append xs fs) in
    let (p2, run2, is, total, same) = free-append p1 fuel q xs fs t.left t.chain s.apart w f in
    (p2, rw run run2, is, is.count ∙ sym s.count)
