-- ===== src/HeavyHash/Shape.antt =====
-- What a well-formed table of src/headers/maycloud/heavyhash.h is.
use libmaycloud.Common.{
  ℕ, ◌≡◌, refl, sym, ap, subst, ◌∙◌, ◌≢◌, ◌↔◌, inl, inr, Bool, true, false, Option, none, some, [],
  ◌∷◌, ◌++◌, arith, ◌==◌, if◌then◌else◌, eq→==, ==_iff, Bool-cases, true-ne-false,
}
use libmaycloud.Pool.{Ptr, null, Item, assign}
use libmaycloud.Pool.Chain.{Cells, has, Distinct, Chain, has-append, Seg-assign}
use libmaycloud.HeavyHash.{HeavyHash}
use libmaycloud.HeavyHash.Cells.{lookup_cell}

-- `b h` are the items of the bucket `h`, and `fs` the free ones; no item is in two of these lists, or twice in
-- one.
pub record IsHash {K V : Type 0} (m : HeavyHash K V) (b : ℕ → Cells (K × V)) (fs : Cells (K × V))
    : Type 0 where
  pub chains : (h : ℕ) → Chain m.heap (m.table h) (b h)
  pub spare : Chain m.heap m.free fs
  pub each : (h : ℕ) → Distinct (b h ++ fs)
  pub apart : (h i : ℕ) → h ≢ i → (a : Ptr) → has a (b h) ≡ true → has a (b i) ≡ false

-- The buckets with another list in one.
abbrev pub put_bucket : {A : Type 0} → (ℕ → A) → ℕ → A → ℕ → A
put_bucket b h xs i = if i == h then xs else b i

-- What the table says of a key.
abbrev pub view : {K V : Type 0} → (K → K → Bool) → (K → ℕ) → (ℕ → Cells (K × V)) → K → Option V
view same hash b key = lookup_cell same hash key (b (hash key))

abbrev pub or_default : {V : Type 0} → V → Option V → V
or_default dflt none = dflt
or_default dflt (some v) = v

module _ {A : Type 0} (b : ℕ → Cells A) (h : ℕ) (xs : Cells A) where
  pub bucket_here : (i : ℕ) → (i == h) ≡ true → put_bucket b h xs i ≡ xs
  bucket_here i t = rw t refl

  pub bucket_other : (i : ℕ) → (i == h) ≡ false → put_bucket b h xs i ≡ b i
  bucket_other i f = rw f refl

  -- A list with the same addresses.
  pub has-put_bucket :
      ((a : Ptr) → has a xs ≡ has a (b h))
      → (a : Ptr) (i : ℕ) → has a (put_bucket b h xs i) ≡ has a (b i)
  has-put_bucket e a i = elim (Bool-cases (i == h)) [
    | inl t ↦ ap (has a) (bucket_here i t) ∙ e a ∙ ap (λ j. has a (b j)) (sym ((==_iff i h).0 t))
    | inr f ↦ ap (has a) (bucket_other i f)
  ]

  -- What holds of every bucket.
  pub put_bucket-all :
      (P : ℕ → Cells A → Type 0)
      → P h xs
      → ((i : ℕ) → (i == h) ≡ false → P i (b i))
      → (i : ℕ) → P i (put_bucket b h xs i)
  put_bucket-all P here other i = elim (Bool-cases (i == h)) [
    | inl t ↦
        subst (P i) (sym (bucket_here i t)) (subst (λ j. P j xs) (sym ((==_iff i h).0 t)) here)
    | inr f ↦ subst (P i) (sym (bucket_other i f)) (other i f)
  ]

-- The value of a key behind the change of one bucket.
pub view-put_bucket :
    {K V : Type 0} (same : K → K → Bool) (hash : K → ℕ)
    → ((k j : K) → (same k j ≡ true) ↔ (k ≡ j))
    → (b : ℕ → Cells (K × V)) (xs : Cells (K × V)) (key : K) (o : Option V)
    → ((k : K)
        → lookup_cell same hash k xs
          ≡ (if same key k then o else lookup_cell same hash k (b (hash key))))
    → (k : K)
    → view same hash (put_bucket b (hash key) xs) k ≡ (if same key k then o else view same hash b k)
view-put_bucket same hash same_iff b xs key o at k = elim (Bool-cases (hash k == hash key)) [
  | inl t ↦
      ap (lookup_cell same hash k) (bucket_here b (hash key) xs (hash k) t)
      ∙ at k
      ∙ ap (λ i. if same key k then o else lookup_cell same hash k (b i))
          (sym ((==_iff (hash k) (hash key)).0 t))
  | inr f ↦
      let other : same key k ≡ false = elim (Bool-cases (same key k)) [
        | inl e ↦ absurd (
            true-ne-false
              (sym (eq→== (hash k) (hash key) (ap hash (sym ((same_iff key k).0 e)))) ∙ f))
        | inr g ↦ g
      ] in
      ap (lookup_cell same hash k) (bucket_other b (hash key) xs (hash k) f)
      ∙ ap (λ c. if c then o else view same hash b k) (sym other)
]

module _ {A : Type 0} where
  -- An address in the front of two disjoint lists is not in the one behind.
  pub Distinct-split :
      (a : Ptr) (xs fs : Cells A) → Distinct (xs ++ fs) → has a xs ≡ true → has a fs ≡ false
  Distinct-split a [] fs d h = absurd (true-ne-false (sym h))
  Distinct-split a ((p, v) ∷ xs) fs d h =
      ground (arith, has-append p xs fs, Distinct-split a xs fs d.1)

  pub Distinct-front : (xs fs : Cells A) → Distinct (xs ++ fs) → Distinct xs
  Distinct-front [] fs d = tt
  Distinct-front ((p, v) ∷ xs) fs d = ground (arith, has-append p xs fs, Distinct-front xs fs d.1)

-- Changing the values of a bucket in place, at an address `o` of the bucket, leaves a well-formed table.
pub rewrite-IsHash :
    {K V : Type 0} (m : HeavyHash K V) (b : ℕ → Cells (K × V)) (fs : Cells (K × V))
    → IsHash m b fs
    → (h : ℕ) (o : Ptr) (c : Item (K × V)) (xs : Cells (K × V)) → has o (b h) ≡ true
    → Chain (assign m.heap o c) (m.table h) xs
    → Distinct (xs ++ fs)
    → ((a : Ptr) → has a xs ≡ has a (b h))
    → IsHash (record m { heap = assign m.heap o c }) (put_bucket b h xs) fs
rewrite-IsHash m b fs is h o c xs inside chain d alike = record {
  chains =
      put_bucket-all b h xs (λ i ys. Chain (assign m.heap o c) (m.table i) ys) chain
        (λ i f.
          Seg-assign m.heap (m.table i) null o c (b i)
            (is.apart h i (λ e. true-ne-false (sym (eq→== i h (sym e)) ∙ f)) o inside)
            (is.chains i));
  spare =
      Seg-assign m.heap m.free null o c fs (Distinct-split o (b h) fs (is.each h) inside) is.spare;
  each = put_bucket-all b h xs (λ i ys. Distinct (ys ++ fs)) d (λ i f. is.each i);
  apart = λ i j ne a t.
      has-put_bucket b h xs alike a j
      ∙ is.apart i j ne a (sym (has-put_bucket b h xs alike a i) ∙ t);
}
