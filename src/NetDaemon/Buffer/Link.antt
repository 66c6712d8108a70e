-- ===== src/NetDaemon/Buffer/Link.antt =====
-- put of src/netdaemon.cpp on well-formed buffers: what it does to the last block, and what it does
-- with new blocks behind it.
use libmaycloud.Common.{
  ℕ, ◌+◌, ◌-◌, ◌*◌, ◌≤◌, ◌<◌, ◌≡◌, sym, ap, ◌∙◌, false, some, List, [], ◌∷◌, ◌++◌, append_assoc,
  arith, length, drop, length-append, length-drop,
}
use libmaycloud.Pool.{Ptr, null, Item, item, Heap, assign}
use libmaycloud.Pool.Chain.{Cells, has, last_of, assign-other, has-null}
use libmaycloud.Pool.Distinct.{last_of-other, Distinct-left, Distinct-flip}
use libmaycloud.Blocks.{block_size, Block, BlockPool}
use libmaycloud.Blocks.Shape.{IsPool-same}
use libmaycloud.NetDaemon.Buffer.{FdInfo, memcpy_block}
use libmaycloud.NetDaemon.Buffer.Bytes.{length-joined}
use libmaycloud.NetDaemon.Buffer.Shape.{
  IsBuffer, addrs, addrs-append, Distinct-addrs, length-addrs, last_of-addrs,
}
use libmaycloud.NetDaemon.Buffer.Write.{copied, memcpy_block-ok}
use libmaycloud.NetDaemon.Buffer.Tail.{write_last}

-- The bytes of a well-formed buffer fill its blocks up to the part behind them.
pub length-behind :
    {fb : FdInfo} {bp : BlockPool} {cs fs : Cells Block} {content : List ℕ}
    (b : IsBuffer fb bp cs fs content)
    → fb.offset + fb.size + length b.behind ≡ length cs * block_size
length-behind {cs} {content} b = omega (
  arith,
  b.start_at,
  b.size,
  ap length b.split,
  length-joined cs b.full,
  length-append b.before (content ++ b.behind),
  length-append content b.behind,
)

-- The buffer after `src` went into the last block.
pub record Tailed (fb : FdInfo) (bp : BlockPool) (cs fs : Cells Block) (content src : List ℕ)
    (room off : ℕ) : Type 0 where
  pub heap : Heap Block
  pub cs' : Cells Block
  pub run : memcpy_block bp.heap fb.last off src ≡ some heap
  pub buffer :
      IsBuffer
        (record fb { size = fb.size + length src })
        (record bp { heap = heap })
        cs'
        fs
        (content ++ src)
  pub places : addrs cs' ≡ addrs cs
  pub left : length buffer.behind + length src ≡ room
  pub same : (c : Ptr) → has c cs ≡ false → heap c ≡ bp.heap c

put_tail_cons :
    (fb : FdInfo) (bp : BlockPool) (a : Ptr) (v : Block) (xs fs : Cells Block)
    (content src : List ℕ) (off : ℕ) (b : IsBuffer fb bp ((a, v) ∷ xs) fs content)
    → length src ≤ length b.behind
    → off + length b.behind ≡ block_size
    → Tailed fb bp ((a, v) ∷ xs) fs content src (length b.behind) off
put_tail_cons fb bp a v xs fs content src off b len eo =
    let cs : Cells Block = (a, v) ∷ xs in
    let lb = length-behind b in
    let d = Distinct-left cs fs b.apart in
    let l = last_of a xs in
    let r =
      write_last bp.heap src b.behind len (omega arith) fb.first a v xs (b.before ++ content)
        b.chain d b.full (b.split ∙ sym (append_assoc b.before content b.behind)) in
    let eo' : block_size - length b.behind ≡ off = omega arith in
    let new : Item Block = item (copied (block_size - length b.behind) src r.block) null in
    let h : Heap Block = assign bp.heap l new in
    let same =
      λ (c : Ptr) (o : has c cs ≡ false). assign-other bp.heap l c new (last_of-other c a v xs o) in
    let n : length r.cs' ≡ length cs =
      sym (length-addrs r.cs') ∙ ap length r.places ∙ length-addrs cs in
    record {
      heap = h;
      cs' = r.cs';
      run =
          ap (λ p. memcpy_block bp.heap p off src) (b.tail (omega arith))
          ∙ memcpy_block-ok bp.heap l off src r.block null r.at (omega arith)
          ∙ ap (λ k. some (assign bp.heap l (item (copied k src r.block) null))) (sym eo');
      buffer = record {
        pool =
            IsPool-same bp h fs b.pool (λ c i. same c (Distinct-flip c cs fs b.apart i))
              (same null (has-null bp.heap fb.first null cs b.chain) ∙ b.pool.guard);
        chain = r.chain;
        apart =
            Distinct-addrs (cs ++ fs) (r.cs' ++ fs)
              (addrs-append cs fs
                ∙ ap (λ zs. zs ++ addrs fs) (sym r.places)
                ∙ sym (addrs-append r.cs' fs))
              b.apart;
        full = r.full;
        spare_full = b.spare_full;
        tail = λ k. b.tail (omega arith) ∙ last_of-addrs null cs r.cs' (sym r.places);
        live = λ k. omega (arith, b.live (omega arith));
        low = b.low;
        bound = omega (arith, n);
        tight = omega (arith, n, b.tight);
        size = omega (arith, b.size, length-append content src);
        before = b.before;
        behind = drop (length src) b.behind;
        start_at = b.start_at;
        split =
            r.bytes
            ∙ append_assoc b.before content (src ++ drop (length src) b.behind)
            ∙ ap (λ zs. b.before ++ zs)
                (sym (append_assoc content src (drop (length src) b.behind)));
      };
      places = r.places;
      left = omega (arith, length-drop (length src) b.behind);
      same = same;
    }

-- Data that fits behind the bytes of a well-formed buffer goes into its last block; the memcpy stays
-- inside the block.
pub put_tail :
    (fb : FdInfo) (bp : BlockPool) (cs fs : Cells Block) (content src : List ℕ) (off : ℕ)
    (b : IsBuffer fb bp cs fs content)
    → 0 < length src
    → length src ≤ length b.behind
    → off + length b.behind ≡ block_size
    → Tailed fb bp cs fs content src (length b.behind) off
put_tail fb bp [] fs content src off b k len eo = absurd (omega (arith, length-behind b))
put_tail fb bp ((a, v) ∷ xs) fs content src off b k len eo =
    put_tail_cons fb bp a v xs fs content src off b len eo
