-- ===== src/NetDaemon/Buffer/Drain.antt =====
-- push of src/netdaemon.cpp: one round, on a well-formed buffer with a list of used-up blocks.
use libmaycloud.Common.{
  ℕ, zero, suc, ◌+◌, ◌-◌, ◌*◌, ◌≤◌, ◌<◌, ◌≡◌, refl, sym, ap, ◌∙◌, ◌≢◌, ◌⊎◌, inl, inr, some, List,
  [], ◌∷◌, ◌++◌, append_assoc, arith, ltb, if◌then◌else◌, length, take, drop, length-append,
  take-append-drop, length-drop,
}
use libmaycloud.Pool.{Ptr, null, item, Heap, assign}
use libmaycloud.Pool.Chain.{
  Cells, last_of, Distinct, Chain, assign_self, has-append, last_of-behind, Seg-assign,
}
use libmaycloud.Pool.Distinct.{Distinct-take, has-append_false}
use libmaycloud.Blocks.{block_size, Block}
use libmaycloud.NetDaemon.Buffer.{FdInfo}
use libmaycloud.NetDaemon.Buffer.Bytes.{
  joined, IsFull, drop-all, length-take, drop-append, append-cut,
}
use libmaycloud.NetDaemon.Buffer.Write.{nil_of_length}

-- The state of push: the blocks `cs` hold `content`, the blocks `us` are used up, and the blocks `fs`
-- belong to the pool.
pub record IsDraining (fb : FdInfo) (h : Heap Block) (unused : Ptr) (cs us fs : Cells Block)
    (content : List ℕ) : Type 0 where
  pub chain : Chain h fb.first cs
  pub used : Chain h unused us
  pub apart : Distinct (us ++ (cs ++ fs))
  pub full : IsFull cs
  pub used_full : IsFull us
  pub tail : 0 < length cs → fb.last ≡ last_of null cs
  pub live : 0 < length cs → 0 < fb.size
  pub low : fb.offset < block_size
  pub bound : fb.offset + fb.size ≤ length cs * block_size
  pub tight : length cs * block_size < fb.offset + fb.size + block_size
  pub size : fb.size ≡ length content
  pub before : List ℕ
  pub behind : List ℕ
  pub start_at : fb.offset ≡ length before
  pub split : joined cs ≡ before ++ (content ++ behind)

module _ {A : Type 0} where
  pub take-prefix : (n : ℕ) (xs ys : List A) → n ≤ length xs → take n (xs ++ ys) ≡ take n xs
  take-prefix zero xs ys h = refl
  take-prefix (suc n) [] ys h = absurd (omega arith)
  take-prefix (suc n) (x ∷ xs) ys h = ap (λ zs. x ∷ zs) (take-prefix n xs ys (omega arith))

-- How many bytes the round offers to write.
abbrev pub offered : FdInfo → ℕ
offered fb = if ltb fb.size (block_size - fb.offset) then fb.size else block_size - fb.offset

pub offered_bounds : (fb : FdInfo) → (offered fb ≤ fb.size) × (offered fb ≤ block_size - fb.offset)
offered_bounds fb = ground arith

pub offered_cases :
    (fb : FdInfo)
    → ((offered fb ≡ fb.size) × (fb.size < block_size - fb.offset))
      ⊎ ((offered fb ≡ block_size - fb.offset) × (block_size - fb.offset ≤ fb.size))
offered_cases fb = ground arith

module _ (fb : FdInfo) (h : Heap Block) (unused a : Ptr) (b : Block) (cs us fs : Cells Block)
    (content : List ℕ) (d : IsDraining fb h unused ((a, b) ∷ cs) us fs content) where
  -- The part of the first block from `offset` on, and what it is made of.
  front_part : (u : List ℕ) × (b.bytes ≡ d.before ++ u) × (content ++ d.behind ≡ u ++ joined cs)
  front_part =
      append-cut d.before (content ++ d.behind) b.bytes (joined cs) (sym d.split)
        (omega (arith, d.start_at, d.low, d.full.0))

  length-front : length (front_part.0) + fb.offset ≡ block_size
  length-front =
      let (u, e, e') = front_part in
      omega (arith, ap length e, length-append d.before u, d.start_at, d.full.0)

  -- The bytes that write is given begin with the first ones that wait.
  pub offered-content : (r : ℕ) → r ≤ offered fb → take r (drop fb.offset b.bytes) ≡ take r content
  offered-content r le =
      let (u, e, e') = front_part in
      let bounds = offered_bounds fb in
      ap (λ zs. take r (drop fb.offset zs)) e
      ∙ ap (take r) (drop-append d.before u fb.offset 0 (omega (arith, d.start_at)))
      ∙ sym (take-prefix r u (joined cs) (omega (arith, length-front)))
      ∙ ap (take r) (sym e')
      ∙ take-prefix r content d.behind (omega (arith, d.size))

  -- After all that was offered is written, the other blocks begin with the bytes that still wait.
  rest_at_front : (behind : List ℕ) × (joined cs ≡ drop (offered fb) content ++ behind)
  rest_at_front =
      let (u, e, e') = front_part in
      elim (offered_cases fb) [
        | inl (all, short) ↦ (
          [],
          ap joined (nil_of_length cs (omega (arith, d.tight)))
              ∙ sym (ap (λ zs. zs ++ []) (drop-all (offered fb) content (omega (arith, d.size)))),
        )
        | inr (part, long) ↦
            let (c, p, q) =
              append-cut u (joined cs) content d.behind (sym e')
                (omega (arith, length-front, d.size)) in
            (
              d.behind,
              q
                  ∙ ap (λ zs. zs ++ d.behind)
                      (sym (
                        ap (drop (offered fb)) p
                        ∙ drop-append u c (offered fb) 0 (omega (arith, length-front)))),
            )
      ]

  -- The next state after the whole offer was written.
  pub drained :
      (q : Ptr)
      → Chain h q cs
      → h a ≡ some (item b q)
      → a ≢ null
      → IsDraining
          (record fb { size = fb.size - offered fb; offset = 0; first = q })
          (assign h a (item b unused))
          a
          cs
          ((a, b) ∷ us)
          fs
          (drop (offered fb) content)
  drained q s at ne =
      let (o, o', ap') = Distinct-take a b us (cs ++ fs) d.apart in
      let (oc, of) = has-append_false a cs fs o' in
      let (behind, e) = rest_at_front in
      let bounds = offered_bounds fb in
      let cases = offered_cases fb in
      record {
        chain = Seg-assign h q null a (item b unused) cs oc s;
        used = (
          unused,
          refl,
          ne,
          assign_self h a _,
          Seg-assign h unused null a (item b unused) us o d.used,
        );
        apart = (rw (has-append a us (cs ++ fs), o, o') refl, ap');
        full = d.full.1;
        used_full = (d.full.0, d.used_full);
        tail = λ k. d.tail (omega arith) ∙ last_of-behind a null [] cs k;
        live = λ k. omega (arith, cases, d.tight, d.bound, bounds);
        low = omega arith;
        bound = omega (arith, cases, d.bound, bounds);
        tight = omega (arith, cases, d.tight, bounds);
        size = omega (arith, d.size, length-drop (offered fb) content);
        before = [];
        behind = behind;
        start_at = refl;
        split = e;
      }

  -- The next state after only a part of the offer was written.
  pub partly :
      (r : ℕ)
      → r < offered fb
      → IsDraining
          (record fb { size = fb.size - r; offset = fb.offset + r })
          h
          unused
          ((a, b) ∷ cs)
          us
          fs
          (drop r content)
  partly r less =
      let bounds = offered_bounds fb in
      record {
        chain = d.chain;
        used = d.used;
        apart = d.apart;
        full = d.full;
        used_full = d.used_full;
        tail = d.tail;
        live = λ k. omega (arith, bounds);
        low = omega (arith, bounds);
        bound = omega (arith, bounds, d.bound);
        tight = omega (arith, bounds, d.tight);
        size = omega (arith, d.size, length-drop r content);
        before = d.before ++ take r content;
        behind = d.behind;
        start_at = omega (
          arith,
          d.start_at,
          d.size,
          bounds,
          length-append d.before (take r content),
          length-take r content (omega (arith, d.size, bounds)),
        );
        split =
            d.split
            ∙ ap (λ zs. d.before ++ (zs ++ d.behind)) (sym (take-append-drop r content))
            ∙ ap (λ zs. d.before ++ zs) (append_assoc (take r content) (drop r content) d.behind)
            ∙ sym (append_assoc d.before (take r content) (drop r content ++ d.behind));
      }
