-- ===== src/NetDaemon/Buffer/Fifo.antt =====
-- put of src/netdaemon.cpp: when it accepts data, and that it takes all or nothing.
use libmaycloud.Common.{
  ℕ, ◌+◌, ◌-◌, ◌/◌, ◌^◌, ◌≤◌, ◌<◌, ◌≡◌, refl, sym, ap, subst, ◌∙◌, inl, inr, Bool, true, false, not,
  ◌&&◌, ◌||◌, Option, some, List, [], ◌∷◌, ◌++◌, append-nil, arith, ltb, leb, ◌==◌, if◌then◌else◌,
  lt→ltb, leb→le, leb→lt, lt→leb, le→ltb, ==_iff, Bool-cases, length, add64,
}
use libmaycloud.Pool.{Ptr, null}
use libmaycloud.Pool.Chain.{Cells}
use libmaycloud.Blocks.{block_size, Block, BlockPool, blocks_for, alloc_by_size}
use libmaycloud.Blocks.Alloc.{alloc_by_size-take, alloc_by_size-null}
use libmaycloud.NetDaemon.Buffer.{FdInfo, put_first, put_behind, put_more, put_fd}
use libmaycloud.NetDaemon.Buffer.Shape.{IsBuffer, addrs}
use libmaycloud.NetDaemon.Buffer.Link.{length-behind}
use libmaycloud.NetDaemon.Buffer.Grow.{Put}
use libmaycloud.NetDaemon.Buffer.Put.{Chain-ne_null, put_first-Put}
use libmaycloud.NetDaemon.Buffer.More.{tail_offset, tail_room, tail_room-behind}
use libmaycloud.NetDaemon.Buffer.Accept.{put_more-fits, grown_none, grown_tail}

-- How many blocks `n` bytes take, counted from a block's start.
abbrev pub blocks_up : ℕ → ℕ
blocks_up n = (n + (block_size - 1)) / block_size

-- The new blocks that `n` more bytes need behind those of the buffer.
abbrev pub needed : FdInfo → ℕ → ℕ
needed fb n = blocks_up (fb.offset + fb.size + n) - blocks_up (fb.offset + fb.size)

abbrev pub in_quota : FdInfo → ℕ → Bool
in_quota fb n = (fb.quota == 0) || leb (fb.size + n) fb.quota

-- Whether put of `n` bytes is accepted.
abbrev pub accepts : FdInfo → BlockPool → ℕ → Bool
accepts fb bp n = in_quota fb n && leb (needed fb n) bp.free_count

accepts-parts :
    (fb : FdInfo) (bp : BlockPool) (n : ℕ)
    → accepts fb bp n ≡ true
    → (in_quota fb n ≡ true) × (needed fb n ≤ bp.free_count)
accepts-parts fb bp n e = ground arith

put_fd-in_quota :
    (fb : FdInfo) (src : List ℕ) (bp : BlockPool)
    → fb.size + length src < 2 ^ 63
    → in_quota fb (length src) ≡ true
    → put_fd fb src bp ≡ (if ltb 0 fb.size then put_more fb src bp else put_first fb src bp)
unfolding put_fd
put_fd-in_quota fb src bp lim e = rw (within fb (length src) lim e) refl
  where
    within :
        (fb : FdInfo) (n : ℕ)
        → fb.size + n < 2 ^ 63
        → in_quota fb n ≡ true
        → (not (fb.quota == 0) && ltb fb.quota (add64 fb.size n)) ≡ false
    within fb n lim e = ground arith

put_more-alloc :
    (fb : FdInfo) (src : List ℕ) (bp : BlockPool) (n : ℕ) (q : Ptr) (bp1 : BlockPool)
    → tail_room fb ≡ n
    → n < length src
    → alloc_by_size (length src - n) bp ≡ some (q, bp1)
    → (q == null) ≡ false
    → put_more fb src bp ≡ put_behind fb src (tail_offset fb) n q bp1
unfolding put_more
put_more-alloc fb src bp n q bp1 e more run some_q = rw (e, lt→leb _ _ more, run, some_q) refl

Put-run :
    {bp : BlockPool} {ys : Cells Block} {c : List ℕ} {ps : List Ptr} {ts : Cells Block}
    {m n : Option (Bool × FdInfo × BlockPool)}
    → n ≡ m
    → Put bp ys c ps ts m
    → Put bp ys c ps ts n
Put-run {bp} {ys} {c} {ps} {ts} e p = subst (Put bp ys c ps ts) (sym e) p

put_more-Put :
    (fb : FdInfo) (bp : BlockPool) (cs fs : Cells Block) (content src : List ℕ)
    (b : IsBuffer fb bp cs fs content)
    → 0 < length cs
    → fb.size + length src < 2 ^ 63
    → length b.behind < length src
    → needed fb (length src) ≤ bp.free_count
    → (xs : Cells Block) × (ys : Cells Block) × (fs ≡ xs ++ ys)
      × Put bp ys (content ++ src) (addrs cs ++ addrs xs) (cs ++ xs) (put_more fb src bp)
put_more-Put fb bp cs fs content src b some_cs lim more enough =
    let lb = length-behind b in
    let (xs, ys, q, bp1, e, l, run, t) =
      alloc_by_size-take bp (length src - length b.behind) fs b.pool (omega arith) (omega arith)
        (omega (arith, b.pool.count, b.bound, b.tight, b.low)) in
    let b' : IsBuffer fb bp cs (xs ++ ys) content = subst (λ f. IsBuffer fb bp cs f content) e b in
    let same_room : length b'.behind ≡ length b.behind = omega (arith, lb, length-behind b') in
    let some_q = Chain-ne_null bp1.heap q xs t.chain (omega (arith, l)) in
    let room : tail_room fb ≡ length b.behind = tail_room-behind b (omega arith) in
    let step = put_more-alloc fb src bp (length b.behind) q bp1 room more run some_q in
    let count : length xs ≡ blocks_for (length src - length b'.behind) =
      l ∙ ap (λ n. blocks_for (length src - n)) (sym same_room) in
    (
      xs,
      ys,
      e,
      elim (Bool-cases (length b.behind == 0)) [
        | inl z ↦
            let zero_room = (==_iff _ _).0 z in
            let p =
              grown_none fb bp cs content src bp1 xs ys q b' t some_cs lim (omega arith) count
                (same_room ∙ zero_room) in
            Put-run (step ∙ ap (λ n. put_behind fb src (tail_offset fb) n q bp1) (sym room)) p
        | inr z ↦
            let p =
              grown_tail fb bp cs content src bp1 xs ys q b' t some_cs lim (omega arith) count
                (length b.behind) (sym same_room) (ground arith) in
            Put-run step p
      ],
    )

-- put accepts data on a well-formed buffer when the quota allows it and the pool has the blocks that
-- it needs: then it returns true, all of the data waits behind what waited before, the new blocks are
-- the first free ones, and no other block of the memory changes.
pub put_fd-append :
    (fb : FdInfo) (bp : BlockPool) (cs fs : Cells Block) (content src : List ℕ)
    → IsBuffer fb bp cs fs content
    → 0 < length src
    → fb.size + length src < 2 ^ 63
    → accepts fb bp (length src) ≡ true
    → (xs : Cells Block) × (ys : Cells Block) × (fs ≡ xs ++ ys)
      × Put bp ys (content ++ src) (addrs cs ++ addrs xs) (cs ++ xs) (put_fd fb src bp)
put_fd-append fb bp [] fs content src b k lim ok =
    let (quota, room) = accepts-parts fb bp (length src) ok in
    let (xs, ys, e, p) =
      put_first-Put fb bp fs content src b k (omega arith) (omega (arith, b.bound, b.pool.count)) in
    let step = put_fd-in_quota fb src bp lim quota in
    let no_data = le→ltb 0 fb.size (omega (arith, b.bound)) in
    (
      xs,
      ys,
      e,
      Put-run (step ∙ ap (λ t. if t then put_more fb src bp else put_first fb src bp) no_data) p,
    )
put_fd-append fb bp (c ∷ cs) fs content src b k lim ok =
    let (quota, room) = accepts-parts fb bp (length src) ok in
    let some_data = lt→ltb 0 fb.size (b.live (omega arith)) in
    let step =
      put_fd-in_quota fb src bp lim quota
      ∙ ap (λ t. if t then put_more fb src bp else put_first fb src bp) some_data in
    elim (Bool-cases (leb (length src) (length b.behind))) [
      | inl fits ↦
          let p = put_more-fits fb bp (c ∷ cs) content src fs b k lim (leb→le _ _ fits) in
          (
            [],
            fs,
            refl,
            Put-run step (
                subst (λ ps. Put bp fs (content ++ src) ps ((c ∷ cs) ++ []) (put_more fb src bp))
                  (sym (append-nil (addrs (c ∷ cs))))
                  (subst (λ ts. Put bp fs (content ++ src) (addrs (c ∷ cs)) ts (put_more fb src bp))
                    (sym (append-nil (c ∷ cs))) p)),
          )
      | inr more ↦
          let (xs, ys, e, p) =
            put_more-Put fb bp (c ∷ cs) fs content src b (omega arith) lim (leb→lt _ _ more) room in
          (xs, ys, e, Put-run step p)
    ]

put_more-null :
    (fb : FdInfo) (src : List ℕ) (bp : BlockPool) (n : ℕ)
    → tail_room fb ≡ n
    → n < length src
    → alloc_by_size (length src - n) bp ≡ some (null, bp)
    → put_more fb src bp ≡ some (false, fb, bp)
unfolding put_more
put_more-null fb src bp n e more run = rw (e, lt→leb _ _ more, run) refl

put_first-null :
    (fb : FdInfo) (src : List ℕ) (bp : BlockPool)
    → alloc_by_size (length src) bp ≡ some (null, bp)
    → put_first fb src bp ≡ some (false, fb, bp)
unfolding put_first
put_first-null fb src bp run = rw run refl

no_room :
    (fb : FdInfo) (bp : BlockPool) (cs fs : Cells Block) (content src : List ℕ)
    → IsBuffer fb bp cs fs content
    → 0 < length src
    → fb.size + length src < 2 ^ 63
    → bp.free_count < needed fb (length src)
    → (if ltb 0 fb.size then put_more fb src bp else put_first fb src bp) ≡ some (false, fb, bp)
no_room fb bp [] fs content src b k lim less = rw (le→ltb 0 fb.size (omega (arith, b.bound))) (
    put_first-null fb src bp
      (alloc_by_size-null bp (length src) fs b.pool (omega (arith, b.bound, b.pool.count))))
no_room fb bp (c ∷ cs) fs content src b k lim less = rw (lt→ltb 0 fb.size (b.live (omega arith))) (
    put_more-null fb src bp (length b.behind) (tail_room-behind b (omega arith))
      (omega (arith, length-behind b, b.tight))
      (alloc_by_size-null bp (length src - length b.behind) fs b.pool
        (omega (arith, length-behind b, b.pool.count, b.tight, b.bound))))

over_quota :
    (fb : FdInfo) (src : List ℕ) (bp : BlockPool)
    → fb.size + length src < 2 ^ 63
    → in_quota fb (length src) ≡ false
    → put_fd fb src bp ≡ some (false, fb, bp)
unfolding put_fd
over_quota fb src bp lim e = ground arith

-- put refuses data on a well-formed buffer when the quota forbids it or the pool has too few blocks:
-- then it returns false, and neither the buffer nor the pool changes.
pub put_fd-refused :
    (fb : FdInfo) (bp : BlockPool) (cs fs : Cells Block) (content src : List ℕ)
    → IsBuffer fb bp cs fs content
    → 0 < length src
    → fb.size + length src < 2 ^ 63
    → accepts fb bp (length src) ≡ false
    → put_fd fb src bp ≡ some (false, fb, bp)
put_fd-refused fb bp cs fs content src b k lim no_ok =
    elim (Bool-cases (in_quota fb (length src))) [
      | inl quota ↦
          put_fd-in_quota fb src bp lim quota
          ∙ no_room fb bp cs fs content src b k lim (leb→lt _ _ (second quota no_ok))
      | inr over ↦ over_quota fb src bp lim over
    ]
  where
    second : {p q : Bool} → p ≡ true → (p && q) ≡ false → q ≡ false
    second {p} {q} e f = ground arith
