-- ===== src/HeavyHash/Refinement.antt =====
-- What hashInsert and hashDelete of src/headers/maycloud/heavyhash.h do for the searches behind it.
use libmaycloud.Common.{
  ℕ, ◌+◌, ◌<◌, ◌≡◌, refl, ap, ◌∙◌, ◌↔◌, ◌⊎◌, inl, inr, Bool, true, Option, none, some, [], ◌∷◌,
  arith, if◌then◌else◌, length,
}
use libmaycloud.Pool.Chain.{Cells}
use libmaycloud.HeavyHash.{HeavyHash, hash_search, hash_insert, hash_delete}
use libmaycloud.HeavyHash.Once.{Once}
use libmaycloud.HeavyHash.Shape.{IsHash, view, or_default}
use libmaycloud.HeavyHash.Laws.{
  hash_search-view, hash_insert-there, hash_insert-full, hash_insert-new,
}
use libmaycloud.HeavyHash.Deletion.{freed, hash_delete-Removed}

module _ {K V : Type 0} (same : K → K → Bool) (hash : K → ℕ)
    (same_iff : (k j : K) → (same k j ≡ true) ↔ (k ≡ j)) where
  -- A well-formed table `m` of the buckets `b`, in which no key stands twice.
  abbrev pub IsMap : HeavyHash K V → (ℕ → Cells (K × V)) → Cells (K × V) → Type 0
  IsMap m b fs = IsHash m b fs × ((h : ℕ) → Once same hash (b h))

  -- Every search on `m'`, with more rounds than the bucket of the key has items, finds what `said` says.
  abbrev pub Finds : (K → Option V) → (ℕ → Cells (K × V)) → HeavyHash K V → Type 0
  Finds said b' m' =
      (fuel : ℕ) (dflt : V) (k : K)
      → length (b' (hash k)) < fuel
      → hash_search same hash fuel dflt k m' ≡ some (or_default dflt (said k))

  -- A table `m'` with `spare` free items that says `said`.
  abbrev pub Says : (K → Option V) → ℕ → HeavyHash K V → Type 0
  Says said spare m' =
      (b' : ℕ → Cells (K × V)) × (fs' : Cells (K × V)) × IsMap m' b' fs'
      × (length fs' ≡ spare)
      × ((k : K) → view same hash b' k ≡ said k)
      × Finds said b' m'

  says :
      (said : K → Option V) (spare : ℕ) (m' : HeavyHash K V) (b' : ℕ → Cells (K × V))
      (fs' : Cells (K × V))
      → IsMap m' b' fs'
      → length fs' ≡ spare
      → ((k : K) → view same hash b' k ≡ said k)
      → Says said spare m'
  says said spare m' b' fs' is' room views = (
    b',
    fs',
    is',
    room,
    views,
    λ fuel dflt k l.
        hash_search-view same hash same_iff m' b' fs' is'.0 fuel dflt k l
        ∙ ap (λ o. some (or_default dflt o)) (views k),
  )

  -- The map with a new value for a key, and without a key.
  abbrev pub with_key : K → V → (K → Option V) → K → Option V
  with_key key v said k = if same key k then some v else said k

  abbrev pub without_key : K → (K → Option V) → K → Option V
  without_key key said k = if same key k then none else said k

  -- A key that is there takes no item, a new one takes one.
  abbrev pub InsertResult :
      K
      → V
      → HeavyHash K V
      → (ℕ → Cells (K × V))
      → Cells (K × V)
      → Option V
      → HeavyHash K V
      → Type 0
  InsertResult key v m b fs none m' =
      ((fs ≡ []) × (m' ≡ m))
      ⊎ ((n : ℕ) × (length fs ≡ n + 1) × Says (with_key key v (view same hash b)) n m')
  InsertResult key v m b fs (some w) m' = Says (with_key key v (view same hash b)) (length fs) m'

  module _ (m : HeavyHash K V) (b : ℕ → Cells (K × V)) (fuel : ℕ) (key : K)
      (enough : length (b (hash key)) < fuel) where
    hash_insert-case :
        (v : V) (fs : Cells (K × V))
        → IsMap m b fs
        → (o : Option V) → view same hash b key ≡ o
        → (m' : HeavyHash K V) × (hash_insert same hash fuel key v m ≡ some m')
          × InsertResult key v m b fs o m'
    hash_insert-case v fs (is, u) (some w) l =
        let (m', run, replaced, (b', fs', is', room, views, once)) =
          hash_insert-there same hash same_iff m b fs is fuel key v enough w l in
        (
          m',
          run,
          says (with_key key v (view same hash b)) (length fs) m' b' fs' (is', once u) room views,
        )
    hash_insert-case v [] (is, u) none l = (
      m,
      hash_insert-full same hash same_iff m b [] is fuel key v enough refl l,
      inl (refl, refl),
    )
    hash_insert-case v ((a, w) ∷ fs) (is, u) none l =
        let (m', run, (b', fs', is', room, views, once)) =
          hash_insert-new same hash same_iff m b a w fs is fuel key v enough l in
        (
          m',
          run,
          inr (
            length fs,
            omega arith,
            says (with_key key v (view same hash b)) (length fs) m' b' fs' (is', once u) room views,
          ),
        )

    -- hashInsert on a well-formed table, with more rounds than the bucket of the key has items, ends. If the key is
    -- not there and no item is free, the table stays as it is and nothing tells. In every other case the table is
    -- well formed again, a new key has taken one free item and a known one none, and hashSearch finds the new value
    -- for the key, and for every other key what it found before.
    pub hash_insert-InsertResult :
        (v : V) (fs : Cells (K × V))
        → IsMap m b fs
        → (m' : HeavyHash K V) × (hash_insert same hash fuel key v m ≡ some m')
          × InsertResult key v m b fs (view same hash b key) m'
    hash_insert-InsertResult v fs is = hash_insert-case v fs is (view same hash b key) refl

    -- hashDelete on a well-formed table, with more rounds than the bucket of the key has items, ends. The table is
    -- well formed again, a key that was there has given its item back, and hashSearch finds the default value
    -- for the key, and for every other key what it found before.
    pub hash_delete-Says :
        (fs : Cells (K × V))
        → IsMap m b fs
        → (m' : HeavyHash K V) × (hash_delete same hash fuel key m ≡ some m')
          × Says (without_key key (view same hash b)) (length fs + freed (view same hash b key)) m'
    hash_delete-Says fs (is, u) =
        let (m', run, (b', fs', is', room, views, once)) =
          hash_delete-Removed same hash same_iff m b fs is key fuel enough (u (hash key)) in
        (
          m',
          run,
          says (without_key key (view same hash b)) (length fs + freed (view same hash b key)) m' b'
              fs' (is', once u) room views,
        )
