-- ===== src/Queue/Push.antt =====
-- push and pushFirst of Queue, on well-formed queues.
use libmaycloud.Common.{
  ℕ, ◌≡◌, refl, sym, ◌∙◌, ◌≢◌, false, some, List, [], ◌∷◌, ◌++◌, arith, ltb, ◌==◌, if◌then◌else◌,
  length, length-append, inc64,
}
use libmaycloud.Pool.{Ptr, null, item, Heap, assign}
use libmaycloud.Pool.Chain.{
  Cells, last_of, has-append, values-append, length-values, last_of-append, Seg-assign, Seg-snoc,
}
use libmaycloud.Pool.Distinct.{
  Distinct-take, Distinct-put, has-last_of, Seg-relink, Distinct-left, Distinct-apart,
  Distinct-snoc,
}
use libmaycloud.Queue.{Queue, push, push_first}
use libmaycloud.Queue.Shape.{IsQueue, Holds}

module _ {A : Type 0} (v : A) {q : Queue A} where
  -- A full queue keeps its state.
  push_full : {xs : Cells A} → IsQueue q xs [] → push v q ≡ some q
  unfolding push
  push_full s = ground (arith, s.spare)

  push_empty :
      (a : Ptr) (w : A) (fs : Cells A)
      → IsQueue q [] ((a, w) ∷ fs)
      → (q' : Queue A) × (push v q ≡ some q')
        × IsQueue q' ((a, v) ∷ []) fs
        × (q'.capacity ≡ q.capacity)
  unfolding push
  push_empty a w fs s =
      let (r, e, ne, at, rest) = s.spare in
      let h : Heap A = assign q.heap a (item v r) in
      let h' : Heap A = assign h a (item v null) in
      (
        record q { heap = h'; free = r; first = a; last = a; count = inc64 q.count },
        ground (arith, s.used),
        record {
          used = (null, refl, ne, ground arith, refl);
          spare =
              Seg-assign h r null a _ fs s.apart.0 (Seg-assign q.heap r null a _ fs s.apart.0 rest);
          apart = s.apart;
          tail = refl;
          count = omega (arith, s.count);
          room = omega (arith, s.room);
          fits = s.fits;
          guard = ground (arith, s.guard);
        },
        refl,
      )

  push-some :
      (a b : Ptr) (w u : A) (xs fs : Cells A)
      → IsQueue q ((b, u) ∷ xs) ((a, w) ∷ fs)
      → (q' : Queue A) × (push v q ≡ some q')
        × IsQueue q' (((b, u) ∷ xs) ++ ((a, v) ∷ [])) fs
        × (q'.capacity ≡ q.capacity)
  unfolding push
  push-some a b w u xs fs s =
      let (r, e, ne, at, rest) = s.spare in
      let (out, out', apart) = Distinct-take a w ((b, u) ∷ xs) fs s.apart in
      let h : Heap A = assign q.heap a (item v r) in
      let h' : Heap A = assign h a (item v null) in
      let used =
        Seg-assign h q.first null a (item v null) ((b, u) ∷ xs) out
          (Seg-assign q.heap q.first null a (item v r) ((b, u) ∷ xs) out s.used) in
      let (z, at', relinked) =
        Seg-relink h' q.first null a b u xs (Distinct-left ((b, u) ∷ xs) fs apart) used in
      let l = last_of b xs in
      let mem = has-last_of b u xs in
      let ne' : (l == a) ≡ false = ground arith in
      let out'' = Distinct-apart l ((b, u) ∷ xs) fs apart mem in
      let h'' : Heap A = assign h' l (item z a) in
      (
        record q { heap = h''; free = r; last = a; count = inc64 q.count },
        ground (arith, s.tail, s.guard),
        record {
          used = Seg-snoc h'' q.first a null v ((b, u) ∷ xs) ne (ground arith) relinked;
          spare = Seg-assign h' r null l (item z a) fs out'' (
              Seg-assign h r null a (item v null) fs out'
                (Seg-assign q.heap r null a (item v r) fs out' rest));
          apart =
              Distinct-snoc a v ((b, u) ∷ xs) fs (Distinct-put a v ((b, u) ∷ xs) fs out out' apart);
          tail = sym (last_of-append b a v xs []);
          count = omega (arith, s.count, length-append ((b, u) ∷ xs) ((a, v) ∷ []));
          room = omega (arith, s.room, length-append ((b, u) ∷ xs) ((a, v) ∷ []));
          fits = s.fits;
          guard = ground (arith, s.guard);
        },
        refl,
      )

  -- push on a well-formed queue appends the value, or keeps the queue when every item is taken. It
  -- never faults.
  pub push-append :
      (cap : ℕ) (vs : List A)
      → Holds q cap vs
      → (q' : Queue A) × (push v q ≡ some q')
        × Holds q' cap (if ltb (length vs) cap then vs ++ (v ∷ []) else vs)
  push-append cap vs (xs, [], s, e, c) =
      (q, push_full s, (xs, [], s, ground (arith, s.room, length-values xs), c))
  push-append cap vs ([], (a, w) ∷ fs, s, e, c) =
      let (q', run, s', c') = push_empty a w fs s in
      (q', run, ((a, v) ∷ [], fs, s', ground (arith, s.room), c' ∙ c))
  push-append cap vs ((b, u) ∷ xs, (a, w) ∷ fs, s, e, c) =
      let (q', run, s', c') = push-some a b w u xs fs s in
      (
        q',
        run,
        (
          ((b, u) ∷ xs) ++ ((a, v) ∷ []),
          fs,
          s',
          ground (arith, s.room, length-values xs, values-append xs ((a, v) ∷ [])),
          c' ∙ c,
        ),
      )

  push_first-some :
      (a b : Ptr) (w u : A) (xs fs : Cells A)
      → IsQueue q ((b, u) ∷ xs) ((a, w) ∷ fs)
      → (q' : Queue A) × (push_first v q ≡ some q')
        × IsQueue q' ((a, v) ∷ (b, u) ∷ xs) fs
        × (q'.capacity ≡ q.capacity)
  unfolding push_first
  push_first-some a b w u xs fs s =
      let (r, e, ne, at, rest) = s.spare in
      let (out, out', apart) = Distinct-take a w ((b, u) ∷ xs) fs s.apart in
      let h : Heap A = assign q.heap a (item v r) in
      let h' : Heap A = assign h a (item v q.first) in
      let ys : Cells A = (b, u) ∷ xs in
      (
        record q { heap = h'; free = r; first = a; count = inc64 q.count },
        ground arith,
        record {
          used = (
            q.first,
            refl,
            ne,
            ground arith,
            Seg-assign h q.first null a (item v q.first) ys out
                (Seg-assign q.heap q.first null a (item v r) ys out s.used),
          );
          spare =
              Seg-assign h r null a (item v q.first) fs out'
                (Seg-assign q.heap r null a (item v r) fs out' rest);
          apart = (rw (has-append a ys fs) (ground arith), apart);
          tail = s.tail;
          count = omega (arith, s.count);
          room = omega (arith, s.room);
          fits = s.fits;
          guard = ground (arith, s.guard);
        },
        refl,
      )

  push_first_full : {xs : Cells A} → IsQueue q xs [] → push_first v q ≡ some q
  unfolding push_first
  push_first_full s = ground (arith, s.spare)

  -- pushFirst on a well-formed queue that is not empty puts the value in front, or keeps the queue
  -- when every item is taken. It never faults.
  pub push_first-cons :
      (cap : ℕ) (vs : List A)
      → Holds q cap vs
      → vs ≢ []
      → (q' : Queue A) × (push_first v q ≡ some q')
        × Holds q' cap (if ltb (length vs) cap then v ∷ vs else vs)
  push_first-cons cap vs (xs, [], s, e, c) ne =
      (q, push_first_full s, (xs, [], s, ground (arith, s.room, length-values xs), c))
  push_first-cons cap vs ([], (a, w) ∷ fs, s, e, c) ne = absurd (ne (sym e))
  push_first-cons cap vs ((b, u) ∷ xs, (a, w) ∷ fs, s, e, c) ne =
      let (q', run, s', c') = push_first-some a b w u xs fs s in
      (q', run, ((a, v) ∷ (b, u) ∷ xs, fs, s', ground (arith, s.room, length-values xs), c' ∙ c))
