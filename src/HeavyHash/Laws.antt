-- ===== src/HeavyHash/Laws.antt =====
-- Search and insertion in src/headers/maycloud/heavyhash.h on well-formed tables.
use libmaycloud.Common.{
  ℕ, ◌<◌, ◌≡◌, refl, sym, ap, subst, ◌∙◌, ◌≢◌, ◌↔◌, inl, inr, Bool, true, none, some, [], ◌∷◌,
  if◌then◌else◌, ne→==_false, true-ne-false, length,
}
use libmaycloud.Pool.{Ptr, null, item, assign}
use libmaycloud.Pool.Chain.{Cells, has, Chain, has-null}
use libmaycloud.HeavyHash.{
  HeavyHash, alloc_cell, set_table, find_loop, find_key, hash_search, add_value, hash_insert,
  hash_replace,
}
use libmaycloud.HeavyHash.Cells.{
  lookup_cell, place_of, update_cell, find_loop-Chain, replace-Chain, has-update_cell,
  Distinct-update_cell, place_of-lookup, place_of-none, lookup-update_cell,
}
use libmaycloud.HeavyHash.Once.{Once, Once-update_cell}
use libmaycloud.HeavyHash.Shape.{
  IsHash, put_bucket, view, or_default, put_bucket-all, view-put_bucket, Distinct-front,
  rewrite-IsHash,
}
use libmaycloud.HeavyHash.Insert.{grown, linked_in, add-IsHash, add_value-run}

-- Keys are compared by their value.
module _ {K V : Type 0} (same : K → K → Bool) (hash : K → ℕ)
    (same_iff : (k j : K) → (same k j ≡ true) ↔ (k ≡ j)) where
  module _ (m : HeavyHash K V) (b : ℕ → Cells (K × V)) (fs : Cells (K × V))
      (is : IsHash m b fs) where
    -- hashSearch returns the value of a key, and the default one where the key is not there; with more rounds than
    -- the bucket has items it ends.
    pub hash_search-view :
        (fuel : ℕ) (dflt : V) (key : K)
        → length (b (hash key)) < fuel
        → hash_search same hash fuel dflt key m ≡ some (or_default dflt (view same hash b key))
    unfolding hash_search find_key
    hash_search-view fuel dflt key l =
        let found =
          find_loop-Chain same hash key fuel m.heap (m.table (hash key)) (b (hash key))
            (is.chains (hash key)) l in
        elim (place_of-lookup same hash key m.heap (m.table (hash key)) (b (hash key))
          (is.chains (hash key))) [
            | inl absent ↦ rw (found, absent.1, absent.0) refl
            | inr (w, there, ne, (q, k, at)) ↦
                rw (found, ne→==_false (place_of same hash key (b (hash key))) null ne, at, there)
                  refl
          ]

  -- The table that hash_insert leaves holds the value of the key, and those of the other keys as before.
  abbrev pub Inserted : K → V → HeavyHash K V → (ℕ → Cells (K × V)) → ℕ → HeavyHash K V → Type 0
  Inserted key v m b spare m' =
      (b' : ℕ → Cells (K × V)) × (fs' : Cells (K × V)) × IsHash m' b' fs'
      × (length fs' ≡ spare)
      × ((k : K) → view same hash b' k ≡ (if same key k then some v else view same hash b k))
      × (((h : ℕ) → Once same hash (b h)) → (h : ℕ) → Once same hash (b' h))

  module _ (m : HeavyHash K V) (b : ℕ → Cells (K × V)) (fs : Cells (K × V)) (is : IsHash m b fs)
      (fuel : ℕ) (key : K) (v : V) (enough : length (b (hash key)) < fuel) where
    found :
        find_loop same hash fuel m.heap (m.table (hash key)) key
        ≡ some (place_of same hash key (b (hash key)))
    found =
        find_loop-Chain same hash key fuel m.heap (m.table (hash key)) (b (hash key))
          (is.chains (hash key)) enough

    -- hashInsert of a key that is there writes its value.
    pub hash_insert-there :
        (w : V)
        → view same hash b key ≡ some w
        → (m' : HeavyHash K V) × (hash_insert same hash fuel key v m ≡ some m')
          × (hash_replace same hash fuel key v m ≡ some m')
          × Inserted key v m b (length fs) m'
    unfolding hash_insert hash_replace find_key
    hash_insert-there w l =
        let o : Ptr = place_of same hash key (b (hash key)) in
        let distinct = is.each (hash key) in
        let (c, at, inside, chain) =
          replace-Chain same hash key v w m.heap (m.table (hash key)) (b (hash key))
            (is.chains (hash key)) (Distinct-front (b (hash key)) fs distinct) l in
        let set : o ≢ null = λ e. true-ne-false (
          sym inside
          ∙ ap (λ p. has p (b (hash key))) e
          ∙ has-null m.heap (m.table (hash key)) null (b (hash key)) (is.chains (hash key))) in
        (
          record m { heap = assign m.heap o (item (c.value.0, v) c.next) },
          rw (found, ne→==_false o null set, at) refl,
          rw (found, ne→==_false o null set, at) refl,
          (
            put_bucket b (hash key) (update_cell same hash key v (b (hash key))),
            fs,
            rewrite-IsHash m b fs is (hash key) o (item (c.value.0, v) c.next)
                (update_cell same hash key v (b (hash key))) inside chain
                (Distinct-update_cell same hash key v (b (hash key)) fs distinct)
                (λ a. has-update_cell same hash key v a (b (hash key))),
            refl,
            view-put_bucket same hash same_iff b (update_cell same hash key v (b (hash key))) key
                (some v) (lookup-update_cell same hash same_iff key v w (b (hash key)) l),
            λ u.
                put_bucket-all b (hash key) (update_cell same hash key v (b (hash key)))
                  (λ i ys. Once same hash ys)
                  (Once-update_cell same hash key v (b (hash key)) (u (hash key))) (λ i f. u i),
          ),
        )

    -- Without a free item a new key is not stored, and nothing tells.
    pub hash_insert-full :
        fs ≡ [] → view same hash b key ≡ none → hash_insert same hash fuel key v m ≡ some m
    unfolding hash_insert find_key add_value alloc_cell
    hash_insert-full e l =
        rw
          (
            found,
            place_of-none same hash key m.heap (m.table (hash key)) (b (hash key))
                (is.chains (hash key)) l,
            subst (Chain m.heap m.free) e is.spare,
          )
          refl

  -- hashInsert of a key that is not there takes a free item for it.
  pub hash_insert-new :
      (m : HeavyHash K V) (b : ℕ → Cells (K × V)) (a : Ptr) (w : K × V) (fs : Cells (K × V))
      → IsHash m b ((a, w) ∷ fs)
      → (fuel : ℕ) (key : K) (v : V) → length (b (hash key)) < fuel
      → view same hash b key ≡ none
      → (m' : HeavyHash K V) × (hash_insert same hash fuel key v m ≡ some m')
        × Inserted key v m b (length fs) m'
  unfolding hash_insert find_key lookup_cell
  hash_insert-new m b a w fs is fuel key v enough l =
      let (r, first, ne, at, rest) = is.spare in
      (
        set_table (hash key) a
            (record m { heap = linked_in m b a w fs is (hash key) (key, v) r; free = r }),
        rw
            (
              found m b ((a, w) ∷ fs) is fuel key v enough,
              place_of-none same hash key m.heap (m.table (hash key)) (b (hash key))
                  (is.chains (hash key)) l,
            )
            (add_value-run same hash key v m a r w first ne at),
        (
          grown m b a w fs is (hash key) (key, v),
          fs,
          add-IsHash m b a w fs is (hash key) (key, v) r r ne rest,
          refl,
          view-put_bucket same hash same_iff b ((a, (key, v)) ∷ b (hash key)) key (some v)
              (λ k. refl),
          λ u.
              put_bucket-all b (hash key) ((a, (key, v)) ∷ b (hash key)) (λ i ys. Once same hash ys)
                (l, u (hash key)) (λ i f. u i),
        ),
      )
