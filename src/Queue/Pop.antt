-- ===== src/Queue/Pop.antt =====
-- pop, GetFirst, GetLast and freeAll of Queue, on well-formed queues.
use libmaycloud.Common.{
  ℕ, zero, suc, ◌+◌, ◌<◌, ◌≡◌, refl, ◌∙◌, false, some, List, [], ◌∷◌, arith, ◌==◌, if◌then◌else◌,
  length, get_or, drop, dec64,
}
use libmaycloud.Pool.{Ptr, null, item, Heap, assign}
use libmaycloud.Pool.Chain.{Cells, has, values, last_of, Seg, Chain, has-append, Seg-assign}
use libmaycloud.Pool.Distinct.{Distinct-put, has-last_of}
use libmaycloud.Queue.{Queue, pop, get_first, get_last, free_loop, free_all}
use libmaycloud.Queue.Shape.{IsQueue, Holds}

-- The last value of a list, `dflt` where there is none.
unfoldable pub last_or : {A : Type 0} → A → List A → A
last_or dflt [] = dflt
last_or dflt (v ∷ []) = v
last_or dflt (v ∷ w ∷ vs) = last_or dflt (w ∷ vs)

Seg-last :
    {A : Type 0} (h : Heap A) (p end a : Ptr) (v : A) (xs : Cells A) (dflt : A)
    → Seg h p ((a, v) ∷ xs) end
    → h (last_of a xs) ≡ some (item (last_or dflt (v ∷ values xs)) end)
unfolding last_or
Seg-last h p end a v [] dflt (q, e, ne, at, s) = ground arith
Seg-last h p end a v ((b, w) ∷ xs) dflt (q, e, ne, at, s) = Seg-last h q end b w xs dflt s

-- The new `last`, where `r` is the item behind the first one, `a`.
pop_tail :
    {A : Type 0} (h : Heap A) (a r first last : Ptr) (xs : Cells A)
    → first ≡ a
    → last ≡ last_of a xs
    → has a xs ≡ false
    → Chain h r xs
    → (if first == last then r else last) ≡ last_of null xs
pop_tail h a r first last [] e f out s = ground arith
pop_tail h a r first last ((b, w) ∷ xs) e f out s = ground (arith, has-last_of b w xs)

module _ {A : Type 0} (dflt : A) {q : Queue A} where
  pop_nil : {fs : Cells A} → IsQueue q [] fs → pop dflt q ≡ some (dflt, q)
  unfolding pop
  pop_nil s = ground (arith, s.used)

  pub pop-some :
      (a : Ptr) (v : A) (xs fs : Cells A)
      → IsQueue q ((a, v) ∷ xs) fs
      → (q' : Queue A) × (pop dflt q ≡ some (v, q'))
        × IsQueue q' xs ((a, v) ∷ fs)
        × (q'.capacity ≡ q.capacity)
  unfolding pop
  pop-some a v xs fs s =
      let (r, e, ne, at, rest) = s.used in
      let out : has a xs ≡ false = ground (arith, has-append a xs fs, s.apart) in
      let out' : has a fs ≡ false = ground (arith, has-append a xs fs, s.apart) in
      let h : Heap A = assign q.heap a (item v q.free) in
      (
        record q {
          heap = h;
          free = a;
          first = r;
          last = if q.first == q.last then r else q.last;
          count = dec64 q.count;
        },
        ground arith,
        record {
          used = Seg-assign q.heap r null a (item v q.free) xs out rest;
          spare = (
            q.free,
            refl,
            ne,
            ground arith,
            Seg-assign q.heap q.free null a (item v q.free) fs out' s.spare,
          );
          apart = Distinct-put a v xs fs out out' s.apart.1;
          tail = pop_tail q.heap a r q.first q.last xs e s.tail out rest;
          count = omega (arith, s.count, s.room, s.fits);
          room = omega (arith, s.room);
          fits = s.fits;
          guard = ground (arith, s.guard);
        },
        refl,
      )

  -- pop takes the first value off a well-formed queue; from an empty one it returns the default
  -- value and keeps the state. It never faults.
  pub pop-uncons :
      (cap : ℕ) (vs : List A)
      → Holds q cap vs
      → (q' : Queue A) × (pop dflt q ≡ some (get_or vs 0 dflt, q')) × Holds q' cap (drop 1 vs)
  pop-uncons cap vs ([], fs, s, e, c) = rw (← e) (q, pop_nil s, ([], fs, s, refl, c))
  pop-uncons cap vs ((a, v) ∷ xs, fs, s, e, c) =
      let (q', run, s', c') = pop-some a v xs fs s in
      rw (← e) (q', run, (xs, (a, v) ∷ fs, s', refl, c' ∙ c))

  get_last-some :
      (a : Ptr) (v : A) (xs fs : Cells A)
      → IsQueue q ((a, v) ∷ xs) fs
      → get_last dflt q ≡ some (last_or dflt (v ∷ values xs))
  unfolding get_last
  get_last-some a v xs fs s =
      let (r, e, ne, at, rest) = s.used in
      ground (arith, Seg-last q.heap q.first null a v xs dflt s.used, s.tail)

  -- GetFirst and GetLast of a well-formed queue are its first and its last value, the default value
  -- on an empty queue. Neither faults.
  pub get_ends :
      (cap : ℕ) (vs : List A)
      → Holds q cap vs
      → (get_first dflt q ≡ some (get_or vs 0 dflt)) × (get_last dflt q ≡ some (last_or dflt vs))
  unfolding get_first get_last last_or
  get_ends cap vs ([], fs, s, e, c) = rw (← e) (ground (arith, s.used), ground (arith, s.used))
  get_ends cap vs ((a, v) ∷ xs, fs, s, e, c) =
      rw (← e) (ground (arith, s.used), get_last-some a v xs fs s)

module _ {A : Type 0} (dflt : A) where
  free_loop-nil :
      (fuel : ℕ) (q : Queue A) (xs fs : Cells A)
      → length xs < fuel
      → IsQueue q xs fs
      → (q' : Queue A) × (free_loop fuel dflt q ≡ some q')
        × (q'.capacity ≡ q.capacity)
        × ((gs : Cells A) × IsQueue q' [] gs)
  unfolding free_loop
  free_loop-nil zero q xs fs f s = absurd (omega arith)
  free_loop-nil (suc fuel) q [] fs f s = (q, ground (arith, s.used), refl, (fs, s))
  free_loop-nil (suc fuel) q ((a, v) ∷ xs) fs f s =
      let (q', run, s', c) = pop-some dflt a v xs fs s in
      let (q'', run', c', t) = free_loop-nil fuel q' xs ((a, v) ∷ fs) (omega arith) s' in
      (q'', ground (arith, s.used), c' ∙ c, t)

  -- freeAll takes every value off a well-formed queue, whatever its length: it ends, never faults,
  -- and leaves a well-formed empty queue of the same capacity.
  pub free_all-nil :
      (cap : ℕ) (vs : List A) (q : Queue A)
      → Holds q cap vs
      → (q' : Queue A) × (free_all dflt q ≡ some q') × Holds q' cap []
  unfolding free_all
  free_all-nil cap vs q (xs, fs, s, e, c) =
      let (q', run, c', (gs, s')) =
        free_loop-nil (q.count + 1) q xs fs (omega (arith, s.count)) s in
      (q', run, ([], gs, s', refl, c' ∙ c))
