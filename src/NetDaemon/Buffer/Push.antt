-- ===== src/NetDaemon/Buffer/Push.antt =====
-- push and cleanup of src/netdaemon.cpp on well-formed buffers: the bytes leave in order, and the
-- blocks that they were in go back to the pool.
use libmaycloud.Common.{
  ℕ, ◌+◌, ◌≤◌, ◌≡◌, refl, ap, ◌∙◌, Bool, true, false, Option, none, some, List, [], ◌∷◌, ◌++◌,
  arith, ◌==◌, length,
}
use libmaycloud.Pool.{Ptr, null}
use libmaycloud.Pool.Chain.{Cells, has, Distinct, has-append, Seg-same, has-null}
use libmaycloud.Pool.Distinct.{
  Distinct-put, has-append_false, has-append_left, Distinct-skip, Distinct-flip,
}
use libmaycloud.Blocks.{Block, BlockPool}
use libmaycloud.NetDaemon.Buffer.{FdInfo, Written, push_fd}
use libmaycloud.NetDaemon.Buffer.Shape.{IsBuffer}
use libmaycloud.NetDaemon.Buffer.Loop.{IsWrite, push_loop-Drained}
use libmaycloud.Blocks.Free.{free-append}
use libmaycloud.Blocks.Shape.{IsPool-same}
use libmaycloud.NetDaemon.Buffer.Bytes.{IsFull-append}

-- The buffer after push: the socket took `now`, in order, and `rest` still waits; the answer is
-- whether nothing waits. The blocks `us` went back to the pool, whose others are `fs`, and outside the
-- buffer's blocks the memory is the same.
pub record Pushed (fb : FdInfo) (bp : BlockPool) (cs fs : Cells Block) (content : List ℕ)
    (result : Option (Bool × FdInfo × BlockPool × List ℕ)) : Type 0 where
  pub fb' : FdInfo
  pub bp' : BlockPool
  pub cs' : Cells Block
  pub us : Cells Block
  pub now : List ℕ
  pub rest : List ℕ
  pub run : result ≡ some (length rest == 0, fb', bp', now)
  pub order : content ≡ now ++ rest
  pub buffer : IsBuffer fb' bp' cs' (us ++ fs) rest
  pub members : (c : Ptr) → has c (us ++ cs') ≡ has c cs
  pub same : (c : Ptr) → has c cs ≡ false → bp'.heap c ≡ bp.heap c
  pub kept : (fb'.obj ≡ fb.obj) × (fb'.quota ≡ fb.quota)
  pub count : length us + length cs' ≡ length cs
  pub total : bp'.total_count ≡ bp.total_count

Distinct-swap : (xs ys zs : Cells Block) → Distinct (xs ++ (ys ++ zs)) → Distinct (ys ++ (xs ++ zs))
Distinct-swap [] ys zs d = d
Distinct-swap ((a, b) ∷ xs) ys zs d =
    let (o1, o2) = has-append_false a xs (ys ++ zs) d.0 in
    let (o3, o4) = has-append_false a ys zs o2 in
    Distinct-put a b ys (xs ++ zs) o3 (rw (has-append a xs zs, o1, o4) refl)
      (Distinct-swap xs ys zs d.1)

-- No block is without a byte that waits.
length-le-size :
    {fb : FdInfo} {bp : BlockPool} {cs fs : Cells Block} {content : List ℕ}
    → IsBuffer fb bp cs fs content
    → length cs ≤ fb.size
length-le-size {cs = []} b = omega arith
length-le-size {cs = c ∷ cs} b = omega (arith, b.live (omega arith), b.tight, b.low)

-- push on a well-formed buffer ends, for every behaviour of write that keeps its contract, and never
-- faults. What it writes and what waits afterwards are, joined, what waited before. It answers whether
-- the buffer is empty. The buffer and the pool stay well-formed, no block is lost, and no other block of
-- the memory changes.
pub push_fd-Pushed :
    (write : ℕ → ℕ → Written) (fb : FdInfo) (bp : BlockPool) (cs fs : Cells Block)
    (content : List ℕ)
    → IsWrite write
    → IsBuffer fb bp cs fs content
    → length cs + length fs ≤ bp.total_count
    → Pushed fb bp cs fs content (push_fd write fb bp)
unfolding push_fd
push_fd-Pushed write fb bp cs fs content ok b room =
    let d =
      push_loop-Drained write (fb.size + 1) 0 fb bp.heap null cs [] fs content [] ok
        (omega (arith, length-le-size b))
        (record {
          chain = b.chain;
          used = refl;
          apart = b.apart;
          full = b.full;
          used_full = tt;
          tail = b.tail;
          live = b.live;
          low = b.low;
          bound = b.bound;
          tight = b.tight;
          size = b.size;
          before = b.before;
          behind = b.behind;
          start_at = b.start_at;
          split = b.split;
        }) in
    let st = d.state in
    let bp1 : BlockPool = record bp { heap = d.h' } in
    let out = λ (c : Ptr) (i : has c fs ≡ true). d.same c (Distinct-flip c cs fs b.apart i) in
    let guard : d.h' null ≡ none =
      d.same null (has-null bp.heap fb.first null cs b.chain) ∙ b.pool.guard in
    let pool = IsPool-same bp d.h' fs b.pool out guard in
    let (bp', run, pool', total, same) =
      free-append bp1 (fb.size + 1) d.unused' d.us' fs pool st.used
        (Distinct-skip d.us' d.cs' fs st.apart) (omega (arith, d.count, b.pool.count))
        (omega (arith, d.count, length-le-size b)) in
    record {
      fb' = d.fb';
      bp' = bp';
      cs' = d.cs';
      us = d.us';
      now = d.now;
      rest = d.rest;
      run = rw (d.run, run) (ap (λ n. some (n == 0, d.fb', bp', d.now)) st.size);
      order = d.order;
      buffer = record {
        pool = pool';
        chain =
            Seg-same d.h' bp'.heap d.fb'.first null d.cs'
              (λ c i.
                same c
                  (Distinct-flip c d.us' (d.cs' ++ fs) st.apart (has-append_left c d.cs' fs i)))
              st.chain;
        apart = Distinct-swap d.us' d.cs' fs st.apart;
        full = st.full;
        spare_full = IsFull-append d.us' fs st.used_full b.spare_full;
        tail = st.tail;
        live = st.live;
        low = st.low;
        bound = st.bound;
        tight = st.tight;
        size = st.size;
        before = st.before;
        behind = st.behind;
        start_at = st.start_at;
        split = st.split;
      };
      members = d.members;
      same = λ c o. same c (has-append_false c d.us' d.cs' (d.members c ∙ o)).0 ∙ d.same c o;
      kept = d.kept;
      count = omega (arith, d.count);
      total = total;
    }
