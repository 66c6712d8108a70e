-- ===== src/NetDaemon/Buffer/Put.antt =====
-- put of src/netdaemon.cpp, all cases together, on well-formed buffers.
use libmaycloud.Common.{
  ℕ, ◌^◌, ◌≤◌, ◌<◌, ◌≡◌, refl, sym, ap, subst, ◌∙◌, false, some, List, [], ◌∷◌, ◌++◌, append-nil,
  arith, ◌==◌, length,
}
use libmaycloud.Pool.{Ptr, null, item, Heap, assign, set_next, linked}
use libmaycloud.Pool.Chain.{
  Cells, has, last_of, Distinct, Chain, assign-other, Seg-assign, Seg-same, has-null,
}
use libmaycloud.Pool.Distinct.{
  has-last_of, last_of-other, Seg-relink, Distinct-left, has-append_false, Distinct-skip,
  Distinct-apart, Distinct-flip,
}
use libmaycloud.Blocks.{Block, BlockPool, blocks_for}
use libmaycloud.Blocks.Shape.{IsPool-same}
use libmaycloud.Blocks.Alloc.{Taken, alloc_by_size-take}
use libmaycloud.NetDaemon.Buffer.{FdInfo, put_first}
use libmaycloud.NetDaemon.Buffer.Bytes.{IsFull, IsFull-parts}
use libmaycloud.NetDaemon.Buffer.Shape.{IsBuffer, addrs}
use libmaycloud.NetDaemon.Buffer.Write.{nil_of_length}
use libmaycloud.NetDaemon.Buffer.Link.{length-behind}
use libmaycloud.NetDaemon.Buffer.Grow.{IsOpen, Put, put_blocks-Put}

-- The last block of a buffer that is filled to the end is linked to new blocks.
pub record Linked (fb : FdInfo) (bp : BlockPool) (cs xs ys : Cells Block) (q : Ptr)
    (content : List ℕ) : Type 0 where
  pub heap : Heap Block
  pub run : set_next bp.heap fb.last q ≡ some heap
  pub open_at : IsOpen (record fb { last = q }) (record bp { heap = heap }) cs xs ys q content
  pub same : (c : Ptr) → has c cs ≡ false → heap c ≡ bp.heap c

pub link_blocks :
    (fb : FdInfo) (bp : BlockPool) (cs xs ys : Cells Block) (q : Ptr) (content : List ℕ)
    (b : IsBuffer fb bp cs ys content)
    → 0 < length cs
    → length b.behind ≡ 0
    → Chain bp.heap q xs
    → Distinct (cs ++ (xs ++ ys))
    → IsFull xs
    → Linked fb bp cs xs ys q content
link_blocks fb bp [] xs ys q content b k full_up s d f = absurd (omega arith)
link_blocks fb bp ((a, v) ∷ zs) xs ys q content b k full_up s d f =
    let cs : Cells Block = (a, v) ∷ zs in
    let (w, at, linked) =
      Seg-relink bp.heap fb.first null q a v zs (Distinct-left cs (xs ++ ys) d) b.chain in
    let l = last_of a zs in
    let h : Heap Block = assign bp.heap l (item w q) in
    let same = λ (c : Ptr) (o : has c cs ≡ false).
      assign-other bp.heap l c (item w q) (last_of-other c a v zs o) in
    let out = Distinct-apart l cs (xs ++ ys) d (has-last_of a v zs) in
    let nil = nil_of_length b.behind full_up in
    let e : fb.last ≡ l = b.tail k in
    record {
      heap = h;
      run = rw (e, at) refl;
      open_at = record {
        pool =
            IsPool-same bp h ys b.pool (λ c i. same c (Distinct-flip c cs ys b.apart i))
              (same null (has-null bp.heap fb.first null cs b.chain) ∙ b.pool.guard);
        front = linked;
        new = Seg-assign bp.heap q null l (item w q) xs (has-append_false l xs ys out).0 s;
        apart = d;
        full = b.full;
        new_full = f;
        spare_full = b.spare_full;
        low = b.low;
        exact = omega (arith, length-behind b);
        size = b.size;
        before = b.before;
        start_at = b.start_at;
        split =
            b.split
            ∙ ap (λ zs. b.before ++ (content ++ zs)) nil
            ∙ ap (λ zs. b.before ++ zs) (append-nil content);
      };
      same = same;
    }

-- The buffer does not notice that other blocks were taken from the pool.
pub IsBuffer-Taken :
    (fb : FdInfo) (bp bp1 : BlockPool) (cs xs ys : Cells Block) (q : Ptr) (content : List ℕ)
    → (b : IsBuffer fb bp cs (xs ++ ys) content) → Taken bp xs ys q bp1
    → IsBuffer fb bp1 cs ys content
IsBuffer-Taken fb bp bp1 cs xs ys q content b t = record {
  pool = t.left;
  chain =
      Seg-same bp.heap bp1.heap fb.first null cs
        (λ c i. t.same c (has-append_false c xs ys (Distinct-apart c cs (xs ++ ys) b.apart i)).0)
        b.chain;
  apart = Distinct-skip cs xs ys b.apart;
  full = b.full;
  spare_full = (IsFull-parts xs ys b.spare_full).1;
  tail = b.tail;
  live = b.live;
  low = b.low;
  bound = b.bound;
  tight = b.tight;
  size = b.size;
  before = b.before;
  behind = b.behind;
  start_at = b.start_at;
  split = b.split;
}

pub Chain-ne_null :
    (h : Heap Block) (q : Ptr) (xs : Cells Block)
    → Chain h q xs
    → 0 < length xs
    → (q == null) ≡ false
Chain-ne_null h q [] s k = absurd (omega arith)
Chain-ne_null h q ((a, v) ∷ xs) (r, e, ne, at, s) k = ground arith

-- put into an empty buffer whose data the pool has room for.
pub put_first-Put :
    (fb : FdInfo) (bp : BlockPool) (fs : Cells Block) (content src : List ℕ)
    → IsBuffer fb bp [] fs content
    → 0 < length src
    → length src < 2 ^ 63
    → blocks_for (length src) ≤ length fs
    → (xs : Cells Block) × (ys : Cells Block) × (fs ≡ xs ++ ys)
      × Put bp ys (content ++ src) (addrs xs) xs (put_first fb src bp)
unfolding put_first
put_first-Put fb bp fs content src b k lim enough =
    let (xs, ys, q, bp1, e, l, run, t) =
      alloc_by_size-take bp (length src) fs b.pool k lim enough in
    let nil = nil_of_length content (omega (arith, b.size, b.bound)) in
    let fb1 : FdInfo = record fb { first = q; offset = 0 } in
    let r =
      put_blocks-Put fb1 bp1 [] xs ys q [] src
        (record {
          pool = t.left;
          front = refl;
          new = t.chain;
          apart = subst Distinct e b.pool.apart;
          full = tt;
          new_full = (IsFull-parts xs ys (subst IsFull e b.spare_full)).0;
          spare_full = (IsFull-parts xs ys (subst IsFull e b.spare_full)).1;
          low = omega arith;
          exact = omega (arith, b.bound);
          size = omega (arith, b.bound);
          before = [];
          start_at = refl;
          split = refl;
        })
        k (omega (arith, l)) (omega (arith, l)) (omega (arith, b.bound)) in
    let some_q = Chain-ne_null bp1.heap q xs t.chain (omega (arith, l)) in
    (
      xs,
      ys,
      e,
      record {
        fb' = r.fb';
        bp' = r.bp';
        cs' = r.cs';
        run = rw (run, some_q) r.run;
        buffer = subst (λ c. IsBuffer r.fb' r.bp' r.cs' ys (c ++ src)) (sym nil) r.buffer;
        at = r.at;
        same = λ c o. r.same c o ∙ t.same c o;
        total = r.total ∙ t.total;
      },
    )
