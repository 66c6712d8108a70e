-- ===== src/NetDaemon/Buffer/Grow.antt =====
-- put of src/netdaemon.cpp on well-formed buffers: the data goes into new blocks behind the old ones.
use libmaycloud.Common.{
  ℕ, ◌+◌, ◌*◌, ◌^◌, ◌≤◌, ◌<◌, ◌≡◌, refl, sym, ap, ap₂, ◌∙◌, Bool, true, false, Option, some, List,
  ◌++◌, append_assoc, arith, length, length-append,
}
use libmaycloud.Pool.{Ptr, null}
use libmaycloud.Pool.Chain.{
  Cells, has, last_of, Distinct, Seg, Chain, last_of-behind, Seg-same, has-null,
}
use libmaycloud.Pool.Distinct.{
  Distinct-left, Distinct-right, has-append_false, Distinct-apart, Distinct-flip,
}
use libmaycloud.Blocks.{block_size, Block, BlockPool}
use libmaycloud.Blocks.Shape.{IsPool, Seg-join, IsPool-same}
use libmaycloud.NetDaemon.Buffer.{FdInfo, put_blocks}
use libmaycloud.NetDaemon.Buffer.Bytes.{joined, IsFull, joined-append, IsFull-append}
use libmaycloud.NetDaemon.Buffer.Shape.{
  IsBuffer, addrs, addrs-append, Distinct-addrs, length-addrs, last_of-addrs,
}
use libmaycloud.NetDaemon.Buffer.Write.{write_blocks-Filled}

-- A buffer whose blocks `cs` are filled to the end and lead to the new blocks `xs` at `q`.
pub record IsOpen (fb : FdInfo) (bp : BlockPool) (cs xs ys : Cells Block) (q : Ptr)
    (content : List ℕ) : Type 0 where
  pub pool : IsPool bp ys
  pub front : Seg bp.heap fb.first cs q
  pub new : Chain bp.heap q xs
  pub apart : Distinct (cs ++ (xs ++ ys))
  pub full : IsFull cs
  pub new_full : IsFull xs
  pub spare_full : IsFull ys
  pub low : fb.offset < block_size
  pub exact : fb.offset + fb.size ≡ length cs * block_size
  pub size : fb.size ≡ length content
  pub before : List ℕ
  pub start_at : fb.offset ≡ length before
  pub split : joined cs ≡ before ++ content

-- The buffer after a put that was accepted: `content` waits, in blocks `cs'` at `places`, and the
-- memory is the same but for the blocks `touched`.
pub record Put (bp : BlockPool) (ys : Cells Block) (content : List ℕ) (places : List Ptr)
    (touched : Cells Block) (done : Option (Bool × FdInfo × BlockPool)) : Type 0 where
  pub fb' : FdInfo
  pub bp' : BlockPool
  pub cs' : Cells Block
  pub run : done ≡ some (true, fb', bp')
  pub buffer : IsBuffer fb' bp' cs' ys content
  pub at : addrs cs' ≡ places
  pub same : (c : Ptr) → has c touched ≡ false → bp'.heap c ≡ bp.heap c
  pub total : bp'.total_count ≡ bp.total_count

regroup : (a b c d : List ℕ) → (a ++ b) ++ (c ++ d) ≡ a ++ ((b ++ c) ++ d)
regroup a b c d = append_assoc a b (c ++ d) ∙ ap (λ zs. a ++ zs) (sym (append_assoc b c d))

pub put_blocks-Put :
    (fb : FdInfo) (bp : BlockPool) (cs xs ys : Cells Block) (q : Ptr) (content src : List ℕ)
    → IsOpen fb bp cs xs ys q content
    → 0 < length src
    → length src ≤ length xs * block_size
    → length xs * block_size < length src + block_size
    → fb.size + length src < 2 ^ 64
    → Put bp ys (content ++ src) (addrs cs ++ addrs xs) xs (put_blocks bp q src fb)
unfolding put_blocks
put_blocks-Put fb bp cs xs ys q content src b k room tight lim =
    let dr = Distinct-right cs (xs ++ ys) b.apart in
    let (h', run, r) =
      write_blocks-Filled (length src + 1) bp.heap q src fb xs (omega arith) b.new
        (Distinct-left xs ys dr) b.new_full room tight lim in
    let ns = r.ns' in
    let n : length ns ≡ length xs = sym (length-addrs ns) ∙ ap length r.places ∙ length-addrs xs in
    let fb' : FdInfo = record fb { size = fb.size + length src; last = last_of fb.last xs } in
    let keep = λ (c : Ptr) (i : has c cs ≡ true).
      r.same c (has-append_false c xs ys (Distinct-apart c cs (xs ++ ys) b.apart i)).0 in
    let at : addrs (cs ++ ns) ≡ addrs cs ++ addrs xs =
      addrs-append cs ns ∙ ap (λ zs. addrs cs ++ zs) r.places in
    record {
      fb' = fb';
      bp' = record bp { heap = h' };
      cs' = cs ++ ns;
      run = rw run refl;
      buffer = record {
        pool =
            IsPool-same bp h' ys b.pool (λ c i. r.same c (Distinct-flip c xs ys dr i))
              (r.same null (has-null bp.heap q null xs b.new) ∙ b.pool.guard);
        chain =
            Seg-join h' fb.first q null cs ns (Seg-same bp.heap h' fb.first q cs keep b.front)
              r.chain;
        apart =
            Distinct-addrs (cs ++ (xs ++ ys)) ((cs ++ ns) ++ ys)
              (addrs-append cs (xs ++ ys)
                ∙ ap (λ zs. addrs cs ++ zs) (addrs-append xs ys)
                ∙ sym (append_assoc (addrs cs) (addrs xs) (addrs ys))
                ∙ ap (λ zs. zs ++ addrs ys) (sym at)
                ∙ sym (addrs-append (cs ++ ns) ys))
              b.apart;
        full = IsFull-append cs ns b.full r.full;
        spare_full = b.spare_full;
        tail = λ i.
            last_of-addrs fb.last xs ns (sym r.places)
            ∙ sym (last_of-behind null fb.last cs ns (omega arith));
        live = λ i. omega arith;
        low = b.low;
        bound = omega (arith, b.exact, n, length-append cs ns);
        tight = omega (arith, b.exact, n, length-append cs ns);
        size = omega (arith, b.size, length-append content src);
        before = b.before;
        behind = r.behind;
        start_at = b.start_at;
        split =
            joined-append cs ns
            ∙ ap₂ (λ us vs. us ++ vs) b.split r.bytes
            ∙ regroup b.before content src r.behind;
      };
      at = at;
      same = r.same;
      total = refl;
    }
