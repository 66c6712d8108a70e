-- ===== src/Queue/Search.antt =====
-- searchAndDel of Queue, on well-formed queues.
use libmaycloud.Common.{
  ℕ, zero, suc, ◌+◌, ◌<◌, ◌≡◌, refl, sym, ap, subst, ◌∙◌, Bool, true, false, some, List, [], ◌∷◌,
  ◌++◌, arith, length, All, length-append, dec64,
}
use libmaycloud.Pool.{Ptr, null, item, Heap, assign}
use libmaycloud.Pool.Chain.{
  Cells, has, values, Distinct, Chain, has-append, values-append, last_of-append, Seg-assign,
  values-split, Seg-same, Seg-ne_null, has-null,
}
use libmaycloud.Pool.Distinct.{Distinct-left, Distinct-move, Distinct-behind}
use libmaycloud.Queue.{Queue, search_loop, search_and_del}
use libmaycloud.Queue.Shape.{IsQueue, Holds}
use libmaycloud.Queue.Pop.{pop-some}

module _ {A : Type 0} (eq : A → A → Bool) (dflt v : A) where
  -- No value of the list is equal to `v`.
  abbrev pub Misses : List A → Type 0
  Misses xs = All (λ x. eq v x ≡ false) xs

  search_miss :
      (fuel : ℕ) (q : Queue A) (p b : Ptr) (u : A) (zs : Cells A)
      → length zs < fuel
      → Misses (values zs)
      → Chain q.heap p ((b, u) ∷ zs)
      → search_loop eq fuel dflt v p q ≡ some (dflt, q)
  unfolding search_loop
  search_miss zero q p b u zs f m s = absurd (omega arith)
  search_miss (suc fuel) q p b u [] f m (r, e, ne, at, s) = ground arith
  search_miss (suc fuel) q p b u ((c, w) ∷ zs) f m (r, e, ne, at, s) =
      ground (arith, search_miss fuel q r c w zs (omega arith) m.1 s)

  -- The heap after the item `a` has been unlinked from behind the items `(b, u) ∷ ms`.
  pub record Unlinked (q : Queue A) (fuel : ℕ) (p : Ptr) (bs ns : Cells A) (a : Ptr) (w : A)
      : Type 0 where
    pub heap : Heap A
    pub run :
        search_loop eq fuel dflt v p q
        ≡ some
            (w, record q { heap = assign heap a (item w q.free); free = a; count = dec64 q.count })
    pub chain : Chain heap p (bs ++ ns)
    pub same : (c : Ptr) → has c bs ≡ false → heap c ≡ q.heap c

  pub search_hit :
      (fuel : ℕ) (q : Queue A) (p b : Ptr) (u : A) (ms : Cells A) (a : Ptr) (w : A) (ns : Cells A)
      → length ms < fuel
      → Misses (values ms)
      → eq v w ≡ true
      → Distinct ((b, u) ∷ (ms ++ ((a, w) ∷ ns)))
      → Chain q.heap p ((b, u) ∷ (ms ++ ((a, w) ∷ ns)))
      → Unlinked q fuel p ((b, u) ∷ ms) ns a w
  unfolding search_loop
  search_hit zero q p b u ms a w ns f m hit d s = absurd (omega arith)
  search_hit (suc fuel) q p b u [] a w ns f m hit (out, d) (r, e, ne, at, (t, e', ne', at', s)) =
      record {
        heap = assign q.heap p (item u t);
        run = ground arith;
        chain = (t, e, ne, ground arith, Seg-assign q.heap t null p (item u t) ns (ground arith) s);
        same = λ c o. ground arith;
      }
  search_hit (suc fuel) q p b u ((c, x) ∷ ms) a w ns f m hit (out, d) (r, e, ne, at, s) =
      let ob : has b ((c, x) ∷ ms) ≡ false = ground (arith, has-append b ms ((a, w) ∷ ns)) in
      let rest = search_hit fuel q r c x ms a w ns (omega arith) m.1 hit d s in
      let (t, e', ne', at', s') = s in
      record {
        heap = rest.heap;
        run = ground (arith, rest.run);
        chain = (r, e, ne, rest.same b ob ∙ at, rest.chain);
        same = λ c' o. rest.same c' (ground arith);
      }

  Unlinked-IsQueue :
      {fuel : ℕ} (q : Queue A) (b : Ptr) (u : A) (ms : Cells A) (a : Ptr) (x : A) (c : Ptr) (y : A)
      (ns fs : Cells A)
      → IsQueue q (((b, u) ∷ ms) ++ ((a, x) ∷ (c, y) ∷ ns)) fs
      → (r : Unlinked q fuel q.first ((b, u) ∷ ms) ((c, y) ∷ ns) a x)
      → IsQueue
          (record q { heap = assign r.heap a (item x q.free); free = a; count = dec64 q.count })
          (((b, u) ∷ ms) ++ ((c, y) ∷ ns))
          ((a, x) ∷ fs)
  Unlinked-IsQueue q b u ms a x c y ns fs s r =
      let bs : Cells A = (b, u) ∷ ms in
      let zs : Cells A = (c, y) ∷ ns in
      let (oy, oz, of, apart) = Distinct-move a x bs zs fs s.apart in
      let ne = Seg-ne_null q.heap q.first null a x bs zs s.used in
      let nn : has null bs ≡ false = ground (
        arith,
        has-null q.heap q.first null (bs ++ ((a, x) ∷ zs)) s.used,
        has-append null bs ((a, x) ∷ zs),
      ) in
      let spare' =
        Seg-same q.heap r.heap q.free null fs
          (λ d i. r.same d (Distinct-behind d bs zs a x fs apart i)) s.spare in
      record {
        used =
            Seg-assign r.heap q.first null a (item x q.free) (bs ++ zs)
              (ground (arith, has-append a bs zs)) r.chain;
        spare = (
          q.free,
          refl,
          ne,
          ground arith,
          Seg-assign r.heap q.free null a (item x q.free) fs of spare',
        );
        apart = apart;
        tail = s.tail ∙ last_of-append null a x bs zs ∙ sym (last_of-append null c y bs ns);
        count =
            omega
              (arith, s.count, s.room, s.fits, length-append ms zs, length-append ms ((a, x) ∷ zs));
        room = omega (arith, s.room, length-append ms zs, length-append ms ((a, x) ∷ zs));
        fits = s.fits;
        guard = ground (arith, s.guard, ne, r.same null nn);
      }

  search_some :
      (q : Queue A) (ys : Cells A) (a : Ptr) (x : A) (c : Ptr) (y : A) (ns fs : Cells A)
      → IsQueue q (ys ++ ((a, x) ∷ (c, y) ∷ ns)) fs
      → Misses (values ys)
      → eq v x ≡ true
      → (q' : Queue A) × (search_and_del eq dflt v q ≡ some (x, q'))
        × IsQueue q' (ys ++ ((c, y) ∷ ns)) ((a, x) ∷ fs)
        × (q'.capacity ≡ q.capacity)
  unfolding search_and_del
  search_some q [] a x c y ns fs s m hit =
      let (q', run, s', k) = pop-some dflt a x ((c, y) ∷ ns) fs s in
      (q', ground (arith, s.used), s', k)
  search_some q ((b, u) ∷ ms) a x c y ns fs s m hit =
      let zs : Cells A = (c, y) ∷ ns in
      let r =
        search_hit (q.count + 1) q q.first b u ms a x zs
          (omega (arith, s.count, length-append ms ((a, x) ∷ zs))) m.1 hit
          (Distinct-left (((b, u) ∷ ms) ++ ((a, x) ∷ zs)) fs s.apart) s.used in
      (_, ground (arith, s.used, r.run), Unlinked-IsQueue q b u ms a x c y ns fs s r, refl)

  search_none :
      (q : Queue A) (xs fs : Cells A)
      → IsQueue q xs fs
      → Misses (values xs)
      → search_and_del eq dflt v q ≡ some (dflt, q)
  unfolding search_and_del
  search_none q [] fs s m = ground (arith, s.used)
  search_none q ((b, u) ∷ xs) fs s m = ground (
    arith,
    s.used,
    search_miss (q.count + 1) q q.first b u xs (omega (arith, s.count)) m.1 s.used,
  )

  -- searchAndDel keeps a well-formed queue in which no value is equal to the one sought, and returns
  -- the default value.
  pub search_and_del-miss :
      (q : Queue A) (cap : ℕ) (vs : List A)
      → Holds q cap vs
      → Misses vs
      → search_and_del eq dflt v q ≡ some (dflt, q)
  search_and_del-miss q cap vs (xs, fs, s, e, c) m = search_none q xs fs s (subst Misses (sym e) m)

  -- searchAndDel takes the first value that is equal to the one sought out of a well-formed queue,
  -- returns it and keeps the others in order, provided that another value stands behind it.
  pub search_and_del-erase :
      (q : Queue A) (cap : ℕ) (us : List A) (x y : A) (ws : List A)
      → Holds q cap (us ++ (x ∷ y ∷ ws))
      → Misses us
      → eq v x ≡ true
      → (q' : Queue A) × (search_and_del eq dflt v q ≡ some (x, q')) × Holds q' cap (us ++ (y ∷ ws))
  search_and_del-erase q cap us x y ws (xs, fs, s, e, c) m hit =
      let (ys, zs, p, e', e'') = values-split xs us (x ∷ y ∷ ws) e in
      go ys zs (subst (λ xs. IsQueue q xs fs) p s) e' e''
    where
      go :
          (ys zs : Cells A)
          → IsQueue q (ys ++ zs) fs
          → values ys ≡ us
          → values zs ≡ x ∷ y ∷ ws
          → (q' : Queue A) × (search_and_del eq dflt v q ≡ some (x, q'))
            × Holds q' cap (us ++ (y ∷ ws))
      go ys [] s e' e'' = cc
      go ys ((a, x') ∷ []) s e' e'' = cc
      go ys ((a, x') ∷ (b, y') ∷ ns) s e' e'' =
          let ex : x' ≡ x = cc in
          let (q', run, s', k) =
            search_some q ys a x' b y' ns fs s (subst Misses (sym e') m) (rw ex hit) in
          (
            q',
            run ∙ ap (λ z. some (z, q')) ex,
            (
              ys ++ ((b, y') ∷ ns),
              (a, x') ∷ fs,
              s',
              ground (arith, values-append ys ((b, y') ∷ ns)),
              k ∙ c,
            ),
          )
