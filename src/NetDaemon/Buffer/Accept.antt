-- ===== src/NetDaemon/Buffer/Accept.antt =====
-- put of src/netdaemon.cpp into a buffer that is not empty: when it needs new blocks and when not.
use libmaycloud.Common.{
  ℕ, ◌+◌, ◌-◌, ◌^◌, ◌≤◌, ◌<◌, ◌≡◌, refl, sym, ap, subst, ◌∙◌, Bool, true, Option, some, List, ◌++◌,
  append_assoc, arith, leb, lt→ltb, le→leb, le→ltb, ne→==_false, length, take, drop,
  take-append-drop, length-drop, add64,
}
use libmaycloud.Pool.{Ptr, null, Heap}
use libmaycloud.Pool.Chain.{Cells, has, Distinct, Seg-same}
use libmaycloud.Pool.Distinct.{has-append_false, Distinct-keep, Distinct-flip}
use libmaycloud.Blocks.{Block, BlockPool, blocks_for}
use libmaycloud.Blocks.Alloc.{Taken}
use libmaycloud.NetDaemon.Buffer.{FdInfo, memcpy_block, put_blocks, put_behind, put_more}
use libmaycloud.NetDaemon.Buffer.Bytes.{IsFull, IsFull-parts, take-all, length-take}
use libmaycloud.NetDaemon.Buffer.Shape.{
  IsBuffer, addrs, addrs-append, has-addrs, Distinct-addrs, length-addrs,
}
use libmaycloud.NetDaemon.Buffer.Link.{length-behind, put_tail}
use libmaycloud.NetDaemon.Buffer.Grow.{Put, put_blocks-Put}
use libmaycloud.NetDaemon.Buffer.Put.{link_blocks, IsBuffer-Taken}
use libmaycloud.NetDaemon.Buffer.More.{
  put_behind-fits, put_behind-more, put_behind-none, tail_offset, tail_room, tail_room-behind,
  tail_offset-add, tail_offset-zero,
}

abbrev sized : FdInfo → BlockPool → Heap Block → ℕ → Option (Bool × FdInfo × BlockPool)
sized fb bp h n = some (true, record fb { size = n }, record bp { heap = h })

module _ (fb : FdInfo) (bp : BlockPool) (cs : Cells Block) (content src : List ℕ) where
  -- Data that fits behind the bytes of the last block needs no new block.
  pub put_more-fits :
      (fs : Cells Block) (b : IsBuffer fb bp cs fs content)
      → 0 < length src
      → fb.size + length src < 2 ^ 63
      → length src ≤ length b.behind
      → Put bp fs (content ++ src) (addrs cs) cs (put_more fb src bp)
  unfolding put_more
  put_more-fits fs b k lim fits =
      let lim' : fb.size < 2 ^ 63 = omega arith in
      let off = tail_offset-add b lim' (omega arith) in
      let r = put_tail fb bp cs fs content src (tail_offset fb) b k fits off in
      let room : leb (length src) (tail_room fb) ≡ true =
        le→leb _ _ (omega (arith, tail_room-behind b lim')) in
      record {
        fb' = record fb { size = fb.size + length src };
        bp' = record bp { heap = r.heap };
        cs' = r.cs';
        run = rw room (
            put_behind-fits fb src (tail_offset fb) (length src) null bp r.heap
              (lt→ltb _ _ (omega (arith, b.tight, length-behind b)))
              (ap (memcpy_block bp.heap fb.last (tail_offset fb)) (take-all _ src (omega arith))
                ∙ r.run)
              (omega arith)
            ∙ ap (sized fb bp r.heap) (omega arith));
        buffer = r.buffer;
        at = r.places;
        same = r.same;
        total = refl;
      }

  module _ (bp1 : BlockPool) (xs ys : Cells Block) (q : Ptr)
      (b : IsBuffer fb bp cs (xs ++ ys) content) (t : Taken bp xs ys q bp1)
      (some_cs : 0 < length cs) (lim : fb.size + length src < 2 ^ 63)
      (more : length b.behind < length src)
      (count : length xs ≡ blocks_for (length src - length b.behind)) where
    apart_all : Distinct (cs ++ (xs ++ ys))
    apart_all = b.apart

    xs_full : IsFull xs
    xs_full = (IsFull-parts xs ys b.spare_full).0

    pub grown_none :
        length b.behind ≡ 0
        → Put bp ys
            (content ++ src)
            (addrs cs ++ addrs xs)
            (cs ++ xs)
            (put_behind fb src (tail_offset fb) (tail_room fb) q bp1)
    grown_none e =
        let b1 = IsBuffer-Taken fb bp bp1 cs xs ys q content b t in
        let l =
          link_blocks fb bp1 cs xs ys q content b1 some_cs
            (omega (arith, length-behind b, length-behind b1)) t.chain apart_all xs_full in
        let r =
          put_blocks-Put (record fb { last = q }) (record bp1 { heap = l.heap }) cs xs ys q content
            src l.open_at (omega arith) (omega (arith, count)) (omega (arith, count))
            (omega arith) in
        let off = tail_offset-zero b (omega arith) e in
        record {
          fb' = r.fb';
          bp' = r.bp';
          cs' = r.cs';
          run =
              put_behind-none fb src (tail_offset fb) (tail_room fb) q bp1 l.heap
                (le→ltb _ _ (omega (arith, off))) l.run
              ∙ r.run;
          buffer = r.buffer;
          at = r.at;
          same = λ c o.
              let (o1, o2) = has-append_false c cs xs o in r.same c o2 ∙ l.same c o1 ∙ t.same c o2;
          total = r.total ∙ t.total;
        }

    pub grown_tail :
        (n : ℕ)
        → n ≡ length b.behind
        → 0 < n
        → Put bp ys
            (content ++ src)
            (addrs cs ++ addrs xs)
            (cs ++ xs)
            (put_behind fb src (tail_offset fb) n q bp1)
    grown_tail n en pos_n =
        let b1 = IsBuffer-Taken fb bp bp1 cs xs ys q content b t in
        let eb : length b1.behind ≡ n = omega (arith, length-behind b, length-behind b1) in
        let lt = length-take n src (omega arith) in
        let ld = length-drop n src in
        let off = tail_offset-add b (omega arith) (omega arith) in
        let r1 =
          put_tail fb bp1 cs ys content (take n src) (tail_offset fb) b1 (omega arith) (omega arith)
            (omega arith) in
        let same1 = λ (c : Ptr) (i : has c xs ≡ true).
          r1.same c (Distinct-flip c cs xs (Distinct-keep cs xs ys apart_all) i) in
        let l =
          link_blocks (record fb { size = fb.size + length (take n src) })
            (record bp1 { heap = r1.heap }) r1.cs' xs ys q (content ++ take n src) r1.buffer
            (omega (arith, ap length r1.places, length-addrs cs, length-addrs r1.cs'))
            (omega (arith, r1.left)) (Seg-same bp1.heap r1.heap q null xs same1 t.chain)
            (Distinct-addrs (cs ++ (xs ++ ys)) (r1.cs' ++ (xs ++ ys))
              (addrs-append cs (xs ++ ys)
                ∙ ap (λ zs. zs ++ addrs (xs ++ ys)) (sym r1.places)
                ∙ sym (addrs-append r1.cs' (xs ++ ys)))
              apart_all)
            xs_full in
        let r =
          put_blocks-Put (record fb { size = fb.size + length (take n src); last = q })
            (record bp1 { heap = l.heap }) r1.cs' xs ys q (content ++ take n src) (drop n src)
            l.open_at (omega arith) (omega (arith, count)) (omega (arith, count)) (omega arith) in
        let whole : (content ++ take n src) ++ drop n src ≡ content ++ src =
          append_assoc content (take n src) (drop n src)
          ∙ ap (λ zs. content ++ zs) (take-append-drop n src) in
        let add : add64 fb.size n ≡ fb.size + length (take n src) = omega arith in
        record {
          fb' = r.fb';
          bp' = r.bp';
          cs' = r.cs';
          run =
              put_behind-more fb src (tail_offset fb) n q bp1 r1.heap l.heap
                (lt→ltb _ _ (omega (arith, b.tight, length-behind b))) r1.run
                (ne→==_false _ _ (omega arith)) l.run
              ∙ ap
                  (λ m.
                    put_blocks (record bp1 { heap = l.heap }) q (drop n src)
                      (record fb { size = m; last = q }))
                  add
              ∙ r.run;
          buffer = subst (λ zs. IsBuffer r.fb' r.bp' r.cs' ys zs) whole r.buffer;
          at = r.at ∙ ap (λ zs. zs ++ addrs xs) r1.places;
          same = λ c o.
              let (o1, o2) = has-append_false c cs xs o in
              r.same c o2
              ∙ l.same c (has-addrs c r1.cs' cs r1.places ∙ o1)
              ∙ r1.same c o1
              ∙ t.same c o2;
          total = r.total ∙ t.total;
        }
