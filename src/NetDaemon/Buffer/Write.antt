-- ===== src/NetDaemon/Buffer/Write.antt =====
-- The loop of put in src/netdaemon.cpp that fills new blocks.
use libmaycloud.Common.{
  ℕ, zero, suc, ◌+◌, ◌*◌, ◌^◌, ◌≤◌, ◌<◌, ◌≡◌, refl, sym, ap, ap₂, subst, ◌∙◌, ◌≢◌, inl, inr, true,
  false, Option, some, List, [], ◌∷◌, ◌++◌, append-nil, append_assoc, arith, ltb, leb, lt→ltb,
  leb→le, leb→lt, Bool-cases, length, take, drop, take-append-drop, length-drop, add64,
}
use libmaycloud.Pool.{Ptr, null, item, Heap, assign}
use libmaycloud.Pool.Chain.{
  Cells, has, last_of, Distinct, Chain, assign_self, assign-other, not_has-cons, Seg-assign,
}
use libmaycloud.Blocks.{block_size, Block}
use libmaycloud.NetDaemon.Buffer.{FdInfo, write_at, memcpy_block, write_blocks}
use libmaycloud.NetDaemon.Buffer.Bytes.{
  joined, IsFull, drop-all, length-take, write_at-append, length-write_at,
}
use libmaycloud.NetDaemon.Buffer.Shape.{addrs}

-- A block after bytes were copied into it.
abbrev pub copied : ℕ → List ℕ → Block → Block
copied off src b = record { addr = b.addr; bytes = write_at off src b.bytes }

pub memcpy_block-ok :
    (h : Heap Block) (p : Ptr) (off : ℕ) (src : List ℕ) (b : Block) (q : Ptr)
    → h p ≡ some (item b q)
    → off + length src ≤ block_size
    → memcpy_block h p off src ≡ some (assign h p (item (copied off src b) q))
unfolding memcpy_block
memcpy_block-ok h p off src b q at le = ground arith

-- The memory `h'` after `src` was written into the new blocks `ns` from `block` on.
pub record Filled (h : Heap Block) (block : Ptr) (src : List ℕ) (ns : Cells Block) (h' : Heap Block)
    : Type 0 where
  pub ns' : Cells Block
  pub behind : List ℕ
  pub chain : Chain h' block ns'
  pub places : addrs ns' ≡ addrs ns
  pub full : IsFull ns'
  pub bytes : joined ns' ≡ src ++ behind
  pub same : (c : Ptr) → has c ns ≡ false → h' c ≡ h c

write_blocks_full :
    (h : Heap Block) (a q : Ptr) (b : Block) (src : List ℕ) (ns : Cells Block) (h' : Heap Block)
    → a ≢ null
    → length b.bytes ≡ block_size
    → block_size ≤ length src
    → h a ≡ some (item b q)
    → has a ns ≡ false
    → Filled (assign h a (item (copied 0 (take block_size src) b) q)) q (drop block_size src) ns h'
    → Filled h a src ((a, b) ∷ ns) h'
write_blocks_full h a q b src ns h' ne f le at out r =
    let now : List ℕ = take block_size src in
    let lt = length-take block_size src le in
    let at' : h' a ≡ some (item (copied 0 now b) q) = r.same a out ∙ assign_self h a _ in
    let whole : write_at 0 now b.bytes ≡ now =
      write_at-append [] b.bytes now 0 refl
      ∙ ap (λ zs. now ++ zs) (drop-all (length now) b.bytes (omega arith))
      ∙ append-nil now in
    record {
      ns' = (a, copied 0 now b) ∷ r.ns';
      behind = r.behind;
      chain = (q, refl, ne, at', r.chain);
      places = ap (λ zs. a ∷ zs) r.places;
      full = (omega (arith, ap length whole), r.full);
      bytes =
          ap₂ (λ xs ys. xs ++ ys) whole r.bytes
          ∙ sym (append_assoc now (drop block_size src) r.behind)
          ∙ ap (λ zs. zs ++ r.behind) (take-append-drop block_size src);
      same =
          λ c o. let (ne', o') = not_has-cons c a b ns o in r.same c o' ∙ assign-other h a c _ ne';
    }

write_blocks_last :
    (h : Heap Block) (a q : Ptr) (b : Block) (src : List ℕ) (ns : Cells Block)
    → ns ≡ []
    → a ≢ null
    → length b.bytes ≡ block_size
    → length src ≤ block_size
    → h a ≡ some (item b q)
    → Chain h q ns
    → Filled h a src ((a, b) ∷ ns) (assign h a (item (copied 0 src b) q))
write_blocks_last h a q b src (n ∷ ns) none_left ne f le at s = cc
write_blocks_last h a q b src [] none_left ne f le at s = record {
  ns' = (a, copied 0 src b) ∷ [];
  behind = drop (length src) b.bytes;
  chain = (q, refl, ne, assign_self h a _, s);
  places = refl;
  full = (length-write_at 0 src b.bytes (omega arith) ∙ f, tt);
  bytes = append-nil _ ∙ write_at-append [] b.bytes src 0 refl;
  same = λ c o. ground arith;
}

module _ (fuel : ℕ) (h : Heap Block) (block : Ptr) (src : List ℕ) (fb : FdInfo) where
  write_blocks-more :
      (h1 : Heap Block) (b : Block) (q : Ptr)
      → leb block_size (length src) ≡ true
      → memcpy_block h block 0 (take block_size src) ≡ some h1
      → h1 block ≡ some (item b q)
      → write_blocks (suc fuel) h block src fb
        ≡ write_blocks fuel h1 q
            (drop block_size src)
            (record fb { size = add64 fb.size block_size; last = block })
  unfolding write_blocks
  write_blocks-more h1 b q more copy at = rw (more, copy, at) refl

  write_blocks-rest :
      (h1 : Heap Block)
      → leb block_size (length src) ≡ false
      → ltb 0 (length src) ≡ true
      → memcpy_block h block 0 src ≡ some h1
      → write_blocks (suc fuel) h block src fb
        ≡ some (h1, record fb { size = add64 fb.size (length src); last = block })
  unfolding write_blocks
  write_blocks-rest h1 less some_left copy = rw (less, some_left, copy) refl

abbrev resized : FdInfo → Heap Block → ℕ → ℕ → Option (Heap Block × FdInfo)
resized fb h n l = some (h, record fb { size = n; last = l })

pub nil_of_length : {A : Type 0} (xs : List A) → length xs ≡ 0 → xs ≡ []
nil_of_length [] e = refl
nil_of_length (x ∷ xs) e = absurd (omega arith)

-- The loop of put writes all data into new blocks that have the room for it and no block too many; it
-- adds its length to the size, and leaves the last block in `last`. It takes at most one round for
-- each byte, and no memcpy leaves its block.
pub write_blocks-Filled :
    (fuel : ℕ) (h : Heap Block) (block : Ptr) (src : List ℕ) (fb : FdInfo) (ns : Cells Block)
    → length src < fuel
    → Chain h block ns
    → Distinct ns
    → IsFull ns
    → length src ≤ length ns * block_size
    → length ns * block_size < length src + block_size
    → fb.size + length src < 2 ^ 64
    → (h' : Heap Block) × (write_blocks fuel h block src fb
        ≡ some (h', record fb { size = fb.size + length src; last = last_of fb.last ns }))
      × Filled h block src ns h'
unfolding write_blocks
write_blocks-Filled zero h block src fb ns f s d full b t lim = absurd (omega arith)
write_blocks-Filled (suc fuel) h block [] fb [] f s d full b t lim = (
  h,
  ground arith,
  record {
    ns' = [];
    behind = [];
    chain = s;
    places = refl;
    full = tt;
    bytes = refl;
    same = λ c o. refl;
  },
)
write_blocks-Filled (suc fuel) h block (x ∷ src) fb [] f s d full b t lim = absurd (omega arith)
write_blocks-Filled (suc fuel) h block src fb ((a, v) ∷ ns) f (q, e, ne, at, s) d full b t lim =
    elim (Bool-cases (leb block_size (length src))) [
      | inl more ↦
          let le = leb→le block_size (length src) more in
          let now : List ℕ = take block_size src in
          let h1 : Heap Block = assign h a (item (copied 0 now v) q) in
          let lt = length-take block_size src le in
          let ld = length-drop block_size src in
          let (h', run, r) =
            write_blocks-Filled fuel h1 q (drop block_size src)
              (record fb { size = add64 fb.size block_size; last = a }) ns (omega arith)
              (Seg-assign h q null a (item (copied 0 now v) q) ns d.0 s) d.1 full.1 (omega arith)
              (omega arith) (omega arith) in
          (
            h',
            ap (λ p. write_blocks (suc fuel) h p src fb) e
                ∙ write_blocks-more fuel h a src fb h1 (copied 0 now v) q more
                    (memcpy_block-ok h a 0 now v q at (omega arith)) (assign_self h a _)
                ∙ run
                ∙ ap (λ k. resized fb h' k (last_of a ns)) (omega arith),
            subst (λ p. Filled h p src ((a, v) ∷ ns) h') (sym e)
                (write_blocks_full h a q v src ns h' ne full.0 le at d.0 r),
          )
      | inr less ↦
          let lt = leb→lt block_size (length src) less in
          let none_left = nil_of_length ns (omega arith) in
          let r = write_blocks_last h a q v src ns none_left ne full.0 (omega arith) at s in
          (
            assign h a (item (copied 0 src v) q),
            ap (λ p. write_blocks (suc fuel) h p src fb) e
                ∙ write_blocks-rest fuel h a src fb (assign h a (item (copied 0 src v) q)) less
                    (lt→ltb _ _ (omega arith)) (memcpy_block-ok h a 0 src v q at (omega arith))
                ∙ ap₂ (resized fb (assign h a (item (copied 0 src v) q))) (omega arith)
                    (sym (ap (last_of a) none_left)),
            subst (λ p. Filled h p src ((a, v) ∷ ns) (assign h a (item (copied 0 src v) q))) (sym e)
                r,
          )
    ]
