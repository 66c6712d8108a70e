-- ===== src/Queue/Defects.antt =====
-- Two classes of well-formed queues that Queue of src/headers/maycloud/queue.h damages.
use libmaycloud.Common.{
  ℕ, suc, ◌+◌, ◌<◌, ◌≡◌, refl, sym, ap, subst, ◌∙◌, ◌≢◌, Bool, true, false, none, some, List, [],
  ◌∷◌, ◌++◌, append-nil, arith, length, length-append, inc64, dec64,
}
use libmaycloud.Pool.{Ptr, null, item, Heap, assign}
use libmaycloud.Pool.Chain.{
  Cells, has, values, Chain, has-append, values-append, length-values, last_of-append, Seg-assign,
  values-split, Seg-ne_null,
}
use libmaycloud.Pool.Distinct.{Distinct-left, Distinct-move}
use libmaycloud.Queue.{Queue, push, push_first, search_and_del}
use libmaycloud.Queue.Shape.{IsQueue, Holds}
use libmaycloud.Queue.Search.{Misses, search_hit}

-- pushFirst on an empty queue does not set `last`: on every well-formed empty queue with two items
-- or more, a push after a pushFirst writes through NULL.
pub push-push_first_empty :
    {A : Type 0} (v w : A) {q : Queue A} (cap : ℕ)
    → Holds q cap []
    → 1 < cap
    → (q' : Queue A) × (push_first v q ≡ some q') × (push w q' ≡ none)
unfolding push_first push
push-push_first_empty v w {q} cap ((a, x) ∷ xs, fs, s, e, c) h = cc
push-push_first_empty v w {q} cap ([], [], s, e, c) h = absurd (omega (arith, s.room))
push-push_first_empty v w {q} cap ([], (a, x) ∷ [], s, e, c) h = absurd (omega (arith, s.room))
push-push_first_empty v w {q} cap ([], (a, x) ∷ (b, y) ∷ fs, s, e, c) h =
    let (r, e', ne, at, (t, e'', ne', at', rest)) = s.spare in
    let hp : Heap _ = assign q.heap a (item v r) in
    (
      record q { heap = assign hp a (item v q.first); free = r; first = a; count = inc64 q.count },
      ground arith,
      ground (arith, s.tail, s.guard, s.apart),
    )

-- A push where `last` is the free item `a`, which the list from `first` does not reach.
push_stale :
    {A : Type 0} (w : A) (q : Queue A) (a r : Ptr) (x : A) (bs : Cells A)
    → q.free ≡ a
    → q.last ≡ a
    → a ≢ null
    → q.first ≢ null
    → q.heap a ≡ some (item x r)
    → has a bs ≡ false
    → Chain q.heap q.first bs
    → (q2 : Queue A) × (push w q ≡ some q2) × (q2.count ≡ inc64 q.count) × Chain q2.heap q2.first bs
unfolding push
push_stale w q a r x bs ef el ne nf at out s =
    let h1 : Heap _ = assign q.heap a (item w r) in
    let h2 : Heap _ = assign h1 a (item w null) in
    let s1 = Seg-assign q.heap q.first null a (item w r) bs out s in
    let s2 = Seg-assign h1 q.first null a (item w null) bs out s1 in
    (
      record q { heap = assign h2 a (item w a); free = r; last = a; count = inc64 q.count },
      ground arith,
      refl,
      Seg-assign h2 q.first null a (item w a) bs out s2,
    )

-- searchAndDel does not move `last` off the item that it gives back: on every well-formed queue of
-- two values or more in which only the last value is equal to the one sought, the next push writes
-- its value into an item that the list from `first` does not reach, and counts it.
pub push-search_and_del_last :
    {A : Type 0} (eq : A → A → Bool) (dflt v : A) {q : Queue A} (cap : ℕ) (u : A) (us : List A)
    (x : A)
    → Holds q cap (u ∷ (us ++ (x ∷ [])))
    → Misses eq dflt v (u ∷ us)
    → eq v x ≡ true
    → (q1 : Queue A) × (search_and_del eq dflt v q ≡ some (x, q1))
      × ((w : A)
          → (q2 : Queue A) × (push w q1 ≡ some q2)
            × (q2.count ≡ suc (length (u ∷ us)))
            × ((xs : Cells A) × Chain q2.heap q2.first xs × (values xs ≡ u ∷ us)))
unfolding search_and_del push
push-search_and_del_last eq dflt v {q} cap u us x ([], fs, s, e, c) m hit = cc
push-search_and_del_last {A} eq dflt v {q} cap u us x ((b, u') ∷ xs, fs, s, e, c) m hit =
    let (ys, zs, p, e', e'') = values-split xs us (x ∷ []) (ground arith) in
    go ys zs (subst (λ xs. IsQueue q ((b, u') ∷ xs) fs) p s) e' e'' (ground arith)
  where
    go :
        (ys zs : Cells A)
        → IsQueue q ((b, u') ∷ (ys ++ zs)) fs
        → values ys ≡ us
        → values zs ≡ x ∷ []
        → u' ≡ u
        → (q1 : Queue A) × (search_and_del eq dflt v q ≡ some (x, q1))
          × ((w : A)
              → (q2 : Queue A) × (push w q1 ≡ some q2)
                × (q2.count ≡ suc (length (u ∷ us)))
                × ((xs : Cells A) × Chain q2.heap q2.first xs × (values xs ≡ u ∷ us)))
    go ys [] s e' e'' d = cc
    go ys (z ∷ z' ∷ zs) s e' e'' d = cc
    go ys ((a, x') ∷ []) s e' e'' d =
        let bs : Cells A = (b, u') ∷ ys in
        let ex : x' ≡ x = cc in
        let (oy, oz, of, apart) = Distinct-move a x' bs [] fs s.apart in
        let ne = Seg-ne_null q.heap q.first null a x' bs [] s.used in
        let r =
          search_hit eq dflt v (q.count + 1) q q.first b u' ys a x' []
            (omega (arith, s.count, length-append ys ((a, x') ∷ [])))
            (subst (Misses eq dflt v) (sym e') m.1) (rw ex hit)
            (Distinct-left (bs ++ ((a, x') ∷ [])) fs s.apart) s.used in
        (
          record q { heap = assign r.heap a (item x' q.free); free = a; count = dec64 q.count },
          ground (arith, s.used, r.run, m.0, ex, d),
          λ w.
              let (q2, run, cnt, chain) =
                push_stale w
                  (record q {
                    heap = assign r.heap a (item x' q.free);
                    free = a;
                    count = dec64 q.count;
                  })
                  a q.free x' (bs ++ []) refl (s.tail ∙ last_of-append null a x' bs []) ne
                  (ground (arith, s.used)) (ground arith) (ground (arith, has-append a bs []))
                  (Seg-assign r.heap q.first null a (item x' q.free) (bs ++ [])
                    (ground (arith, has-append a bs [])) r.chain) in
              (
                q2,
                run,
                omega (
                  arith,
                  cnt,
                  s.count,
                  s.fits,
                  s.room,
                  length-append ys ((a, x') ∷ []),
                  length-values ys,
                  ap length e',
                ),
                (bs ++ [], chain, ground (arith, values-append bs [], append-nil us)),
              ),
        )
