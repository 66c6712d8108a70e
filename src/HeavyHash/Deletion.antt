-- ===== src/HeavyHash/Deletion.antt =====
-- What hashDelete of src/headers/maycloud/heavyhash.h does for the searches behind it.
use libmaycloud.Common.{
  ℕ, ◌+◌, ◌<◌, ◌≡◌, refl, sym, ap, subst, ◌∙◌, ◌≢◌, ◌↔◌, inl, inr, Bool, true, false, Option, none,
  some, [], ◌∷◌, ◌++◌, arith, ◌==◌, if◌then◌else◌, eq→==, Bool-cases, length,
}
use libmaycloud.Pool.{Ptr, null, item, assign}
use libmaycloud.Pool.Chain.{
  Cells, has, Distinct, Chain, assign_self, assign-other, not_has-cons, Seg-assign,
}
use libmaycloud.HeavyHash.{HeavyHash, set_table, hash_delete}
use libmaycloud.HeavyHash.Cells.{
  has-inside, has-outside, place_ne, lookup_cell, place_of, lookup_nil, lookup_hit, lookup_miss,
}
use libmaycloud.HeavyHash.Remove.{
  remove_cell, has-remove_cell, Distinct-remove_cell, at_miss, at_hit, place_of-remove_cell,
}
use libmaycloud.HeavyHash.Once.{Once, Once-remove_cell, lookup-remove_cell}
use libmaycloud.HeavyHash.Shape.{
  IsHash, put_bucket, view, put_bucket-all, view-put_bucket, Distinct-front,
}
use libmaycloud.HeavyHash.Unlink.{delete_loop-Chain}
use libmaycloud.HeavyHash.Delete.{free-IsHash}
use libmaycloud.HeavyHash.Release.{
  unlinked, delete_behind-run, delete_behind-none, hash_delete-empty, hash_delete-first,
  hash_delete-behind,
}

-- The items that the deletion of a key with this value frees.
abbrev pub freed : {V : Type 0} → Option V → ℕ
freed none = 0
freed (some w) = 1

module _ {K V : Type 0} (same : K → K → Bool) (hash : K → ℕ)
    (same_iff : (k j : K) → (same k j ≡ true) ↔ (k ≡ j)) where
  -- The table `m'` says of every key what the buckets `b` say, but nothing of `key`.
  abbrev pub Removed :
      K → HeavyHash K V → (ℕ → Cells (K × V)) → Cells (K × V) → Option V → HeavyHash K V → Type 0
  Removed key m b fs o m' =
      (b' : ℕ → Cells (K × V)) × (fs' : Cells (K × V)) × IsHash m' b' fs'
      × (length fs' ≡ length fs + freed o)
      × ((k : K) → view same hash b' k ≡ (if same key k then none else view same hash b k))
      × (((h : ℕ) → Once same hash (b h)) → (h : ℕ) → Once same hash (b' h))

  module _ (m : HeavyHash K V) (b : ℕ → Cells (K × V)) (fs : Cells (K × V)) (is : IsHash m b fs)
      (key : K) where
    -- Without the key nothing changes.
    not_there : view same hash b key ≡ none → Removed key m b fs none m
    not_there l = (
      b,
      fs,
      is,
      omega arith,
      λ k. elim (Bool-cases (same key k)) [
        | inl e ↦
            ap (view same hash b) (sym ((same_iff key k).0 e))
            ∙ l
            ∙ ap (λ c. if c then none else view same hash b k) (sym e)
        | inr n ↦ ap (λ c. if c then none else view same hash b k) (sym n)
      ],
      λ u. u,
    )

    -- The bucket without the item of the key, which is free.
    removed :
        (w : V) (kv : K × V) (r : Ptr) (m' : HeavyHash K V)
        → Once same hash (b (hash key))
        → IsHash m'
            (put_bucket b (hash key) (remove_cell same hash key (b (hash key))))
            ((r, kv) ∷ fs)
        → Removed key m b fs (some w) m'
    removed w kv r m' u is' = (
      put_bucket b (hash key) (remove_cell same hash key (b (hash key))),
      (r, kv) ∷ fs,
      is',
      omega arith,
      view-put_bucket same hash same_iff b (remove_cell same hash key (b (hash key))) key none
          (lookup-remove_cell same hash same_iff key (b (hash key)) u),
      λ all.
          put_bucket-all b (hash key) (remove_cell same hash key (b (hash key)))
            (λ i ys. Once same hash ys) (Once-remove_cell same hash key (b (hash key)) u)
            (λ i f. all i),
    )

    -- A table in which the item of the key in the bucket `zs` is taken out and free.
    abbrev Ready : Cells (K × V) → V → HeavyHash K V → Ptr → Cells (K × V) → Type 0
    Ready zs w m' r ys =
        (lookup_cell same hash key zs ≡ some w)
        × Chain m'.heap (m'.table (hash key)) ys
        × (m'.free ≡ r)
        × ((kv : K × V) × (m'.heap r ≡ some (item kv m.free)))
        × ((c : Ptr) → has c zs ≡ false → m'.heap c ≡ m.heap c)

    abbrev Cut : Cells (K × V) → V → HeavyHash K V → Type 0
    Cut zs w m' = Ready zs w m' (place_of same hash key zs) (remove_cell same hash key zs)

    cut :
        (w : V) (m' : HeavyHash K V)
        → Once same hash (b (hash key))
        → ((j : ℕ) → (j == hash key) ≡ false → m'.table j ≡ m.table j)
        → Cut (b (hash key)) w m'
        → Removed key m b fs (some w) m'
    cut w m' u others (l, chain, first, (kv, at), heap') =
        let zs = b (hash key) in
        let r = place_of same hash key zs in
        let (inside, gone) =
          place_of-remove_cell same hash key w zs (Distinct-front zs fs (is.each (hash key))) l in
        let set : r ≢ null =
          place_ne m.heap (m.table (hash key)) r zs (is.chains (hash key)) inside in
        removed w kv r m' u (
          free-IsHash m m' b fs is (hash key) r kv (remove_cell same hash key zs) inside gone
            (λ c. has-remove_cell same hash key c zs)
            (Distinct-remove_cell same hash key zs fs (is.each (hash key))) chain others first set
            at heap')

    module _ (fuel : ℕ) (enough : length (b (hash key)) < fuel)
        (u : Once same hash (b (hash key))) where
      module _ (a q : Ptr) (kv : K × V) (xs : Cells (K × V)) (e : b (hash key) ≡ (a, kv) ∷ xs)
          (first : m.table (hash key) ≡ a) (ne : a ≢ null) (at : m.heap a ≡ some (item kv q))
          (s : Chain m.heap q xs) (distinct : Distinct ((a, kv) ∷ xs)) where
        -- The key stands in the first item.
        hash_delete-hit :
            same kv.0 key ≡ true
            → (m' : HeavyHash K V) × (hash_delete same hash fuel key m ≡ some m')
              × Removed key m b fs (lookup_cell same hash key ((a, kv) ∷ xs)) m'
        hash_delete-hit t =
            let m' = record (set_table (hash key) q m) {
              heap = assign m.heap a (item kv m.free);
              free = a;
            } in
            let l = lookup_hit same hash key a kv xs t in
            (
              m',
              hash_delete-first same hash fuel key m a (item kv q) first ne at t,
              subst (λ o. Removed key m b fs o m') (sym l)
                  (cut kv.1 m' u (λ j f. rw f refl)
                    (subst (λ zs. Cut zs kv.1 m') (sym e)
                      (at_hit same hash key (Ready ((a, kv) ∷ xs) kv.1 m') a kv xs t (
                        l,
                        rw (eq→== (hash key) (hash key) refl)
                            (Seg-assign m.heap q null a (item kv m.free) xs distinct.0 s),
                        refl,
                        (kv, assign_self m.heap a (item kv m.free)),
                        λ c o.
                            assign-other m.heap a c (item kv m.free) (not_has-cons c a kv xs o).0,
                      )))),
            )

        -- The key stands behind the first item, or nowhere.
        hash_delete-miss :
            same kv.0 key ≡ false
            → (m' : HeavyHash K V) × (hash_delete same hash fuel key m ≡ some m')
              × Removed key m b fs (lookup_cell same hash key ((a, kv) ∷ xs)) m'
        hash_delete-miss f =
            let chain : Chain m.heap a ((a, kv) ∷ xs) = (q, refl, ne, at, s) in
            let miss = lookup_miss same hash key a kv xs f in
            let on = hash_delete-behind same hash fuel key m a (item kv q) first ne at f in
            elim (delete_loop-Chain same hash key fuel m.heap a a kv xs chain distinct
              (omega (arith, enough, ap length e))) [
                | inl (n, run) ↦ (
                  m,
                  on ∙ delete_behind-none same hash fuel key m a run,
                  subst (λ o. Removed key m b fs o m) (sym (miss ∙ n))
                      (not_there (ap (lookup_cell same hash key) e ∙ miss ∙ n)),
                )
                | inr (w, o, l, run, un) ↦
                    let r = place_of same hash key xs in
                    let (c, d, ho, n, hr, i, ro, chains) = un in
                    let inside =
                      has-inside r a kv xs
                        (place_of-remove_cell same hash key w xs distinct.1 l).0 in
                    let m' = unlinked same hash fuel key m o r c d in
                    (
                      m',
                      on
                          ∙ delete_behind-run same hash fuel key m a o r c d run
                              (place_ne m.heap a o ((a, kv) ∷ xs) chain i) ho n hr ro,
                      subst (λ z. Removed key m b fs z m') (sym (miss ∙ l))
                          (cut w m' u (λ j g. refl)
                            (subst (λ zs. Cut zs w m') (sym e)
                              (at_miss same hash key (Ready ((a, kv) ∷ xs) w m') a kv xs f (
                                miss ∙ l,
                                subst
                                    (λ p. Chain m'.heap p ((a, kv) ∷ remove_cell same hash key xs))
                                    (sym first) (chains m.free),
                                refl,
                                (
                                  d.value,
                                  assign_self (assign m.heap o (item c.value d.next)) r
                                      (item d.value m.free),
                                ),
                                λ z out.
                                    assign-other (assign m.heap o (item c.value d.next)) r z
                                      (item d.value m.free)
                                      (has-outside z r ((a, kv) ∷ xs) out inside)
                                    ∙ assign-other m.heap o z (item c.value d.next)
                                        (has-outside z o ((a, kv) ∷ xs) out i),
                              )))),
                    )
              ]

      hash_delete-case :
          (xs : Cells (K × V))
          → b (hash key) ≡ xs
          → (m' : HeavyHash K V) × (hash_delete same hash fuel key m ≡ some m')
            × Removed key m b fs (lookup_cell same hash key xs) m'
      hash_delete-case [] e = (
        m,
        hash_delete-empty same hash fuel key m
            (subst (Chain m.heap (m.table (hash key))) e (is.chains (hash key))),
        subst (λ o. Removed key m b fs o m) (sym (lookup_nil same hash key))
            (not_there (ap (lookup_cell same hash key) e ∙ lookup_nil same hash key)),
      )
      hash_delete-case ((a, kv) ∷ xs) e =
          let (q, first, ne, at, s) =
            subst (Chain m.heap (m.table (hash key))) e (is.chains (hash key)) in
          let distinct =
            Distinct-front ((a, kv) ∷ xs) fs
              (subst (λ zs. Distinct (zs ++ fs)) e (is.each (hash key))) in
          elim (Bool-cases (same kv.0 key)) [
            | inl t ↦ hash_delete-hit a q kv xs e first ne at s distinct t
            | inr f ↦ hash_delete-miss a q kv xs e first ne at s distinct f
          ]

      pub hash_delete-Removed :
          (m' : HeavyHash K V) × (hash_delete same hash fuel key m ≡ some m')
          × Removed key m b fs (view same hash b key) m'
      hash_delete-Removed = hash_delete-case (b (hash key)) refl
