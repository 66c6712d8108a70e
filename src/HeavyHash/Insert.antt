-- ===== src/HeavyHash/Insert.antt =====
-- A new item in a table of src/headers/maycloud/heavyhash.h.
use libmaycloud.Common.{
  ℕ, ◌≡◌, refl, sym, ap, ◌∙◌, ◌≢◌, inl, inr, Bool, true, false, ◌||◌, some, ◌∷◌, ◌++◌, arith, ◌==◌,
  if◌then◌else◌, ne→==_false, eq→==, ==_iff, Bool-cases, true-ne-false,
}
use libmaycloud.Pool.{Ptr, null, item, Heap, assign}
use libmaycloud.Pool.Chain.{Cells, has, Distinct, Chain, assign_self, has-append, Seg-assign}
use libmaycloud.Pool.Distinct.{Distinct-take}
use libmaycloud.HeavyHash.{HeavyHash, alloc_cell, set_table, add_value}
use libmaycloud.HeavyHash.Shape.{IsHash, put_bucket, put_bucket-all}

module _ {K V : Type 0} (m : HeavyHash K V) (b : ℕ → Cells (K × V)) (a : Ptr) (w : K × V)
    (fs : Cells (K × V)) (is : IsHash m b ((a, w) ∷ fs)) where
  -- The first free item is in no bucket.
  free-outside : (i : ℕ) → has a (b i) ≡ false
  free-outside i = (Distinct-take a w (b i) fs (is.each i)).0

  module _ (h : ℕ) (kv : K × V) where
    -- The bucket `h` with the first free item in front, and the memory that links it there.
    abbrev pub grown : ℕ → Cells (K × V)
    grown = put_bucket b h ((a, kv) ∷ b h)

    abbrev pub linked_in : Ptr → Heap (K × V)
    linked_in q = assign (assign m.heap a (item kv q)) a (item kv (m.table h))

    -- An address of a bucket `i` is not in front of a bucket.
    older : (i : ℕ) (c : Ptr) → has c (b i) ≡ true → (c == a) ≡ false
    older i c t = elim (Bool-cases (c == a)) [
      | inl e ↦
          absurd (true-ne-false (sym t ∙ ap (λ o. has o (b i)) ((==_iff c a).0 e) ∙ free-outside i))
      | inr f ↦ f
    ]

    -- The new bucket against the others.
    front-apart : (j : ℕ) → h ≢ j → (c : Ptr) → has c ((a, kv) ∷ b h) ≡ true → has c (b j) ≡ false
    front-apart j ne c t = elim (Bool-cases (c == a)) [
      | inl e ↦ ap (λ o. has o (b j)) ((==_iff c a).0 e) ∙ free-outside j
      | inr f ↦ is.apart h j ne c (ap (λ d. d || has c (b h)) (sym f) ∙ t)
    ]

    behind-apart : (i : ℕ) → i ≢ h → (c : Ptr) → has c (b i) ≡ true → has c ((a, kv) ∷ b h) ≡ false
    behind-apart i ne c t = rw (older i c t) (is.apart i h ne c t)

    grown-apart : (i j : ℕ) → i ≢ j → (c : Ptr) → has c (grown i) ≡ true → has c (grown j) ≡ false
    grown-apart i =
        put_bucket-all b h ((a, kv) ∷ b h)
          (λ i ys. (j : ℕ) → i ≢ j → (c : Ptr) → has c ys ≡ true → has c (grown j) ≡ false)
          (put_bucket-all b h ((a, kv) ∷ b h)
            (λ j ys. h ≢ j → (c : Ptr) → has c ((a, kv) ∷ b h) ≡ true → has c ys ≡ false)
            (λ ne. absurd (ne refl)) (λ j f. front-apart j))
          (λ i f.
            put_bucket-all b h ((a, kv) ∷ b h)
              (λ j ys. i ≢ j → (c : Ptr) → has c (b i) ≡ true → has c ys ≡ false) (behind-apart i)
              (λ j g ne c t. is.apart i j ne c t))
          i

    survives :
        (q p : Ptr) (xs : Cells (K × V))
        → has a xs ≡ false
        → Chain m.heap p xs
        → Chain (linked_in q) p xs
    survives q p xs out s =
        Seg-assign (assign m.heap a (item kv q)) p null a (item kv (m.table h)) xs out
          (Seg-assign m.heap p null a (item kv q) xs out s)

    -- The item in front of a bucket.
    pub add-IsHash :
        (q r : Ptr)
        → a ≢ null
        → Chain m.heap r fs
        → IsHash (set_table h a (record m { heap = linked_in q; free = r })) grown fs
    add-IsHash q r ne rest = record {
      chains =
          put_bucket-all b h ((a, kv) ∷ b h)
            (λ i ys. Chain (linked_in q) (if i == h then a else m.table i) ys)
            (rw (eq→== h h refl) (
              m.table h,
              refl,
              ne,
              assign_self (assign m.heap a (item kv q)) a (item kv (m.table h)),
              survives q (m.table h) (b h) (free-outside h) (is.chains h),
            ))
            (λ i f. rw f (survives q (m.table i) (b i) (free-outside i) (is.chains i)));
      spare = survives q r fs (Distinct-take a w (b h) fs (is.each h)).1 rest;
      each =
          put_bucket-all b h ((a, kv) ∷ b h) (λ i ys. Distinct (ys ++ fs))
            (
              rw (has-append a (b h) fs) ground
                  (arith, free-outside h, (Distinct-take a w (b h) fs (is.each h)).1),
              (Distinct-take a w (b h) fs (is.each h)).2,
            )
            (λ i f. (Distinct-take a w (b i) fs (is.each i)).2);
      apart = grown-apart;
    }

-- addValue with the free item `a`, behind which the list of free items goes on at `r`.
pub add_value-run :
    {K V : Type 0} (same : K → K → Bool) (hash : K → ℕ) (key : K) (v : V) (m : HeavyHash K V)
    (a r : Ptr) (w : K × V)
    → m.free ≡ a
    → a ≢ null
    → m.heap a ≡ some (item w r)
    → add_value same hash key v m
      ≡ some (
          set_table (hash key) a (record m {
            heap =
                assign (assign m.heap a (item (key, v) r)) a (item (key, v) (m.table (hash key)));
            free = r;
          }))
unfolding add_value alloc_cell
add_value-run same hash key v m a r w first ne at =
    rw (first, ne→==_false a null ne, at, at, eq→== a a refl, ne→==_false a null ne) refl
