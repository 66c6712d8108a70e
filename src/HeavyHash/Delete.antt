-- ===== src/HeavyHash/Delete.antt =====
-- The table of src/headers/maycloud/heavyhash.h with an item of a bucket freed.
use libmaycloud.Common.{
  ℕ, ◌≡◌, refl, sym, subst, ◌∙◌, ◌≢◌, inl, inr, true, false, some, ◌∷◌, ◌++◌, ◌==◌, eq→==,
  Bool-cases, true-ne-false,
}
use libmaycloud.Pool.{Ptr, null, item}
use libmaycloud.Pool.Chain.{Cells, has, Distinct, Chain, Seg-same}
use libmaycloud.Pool.Distinct.{Distinct-put}
use libmaycloud.HeavyHash.{HeavyHash}
use libmaycloud.HeavyHash.Shape.{IsHash, put_bucket, put_bucket-all, Distinct-split}

-- A table `m'` in which the item `r` of the bucket `i` is free, and no item outside of that bucket was written.
module _ {K V : Type 0} (m m' : HeavyHash K V) (b : ℕ → Cells (K × V)) (fs : Cells (K × V))
    (is : IsHash m b fs) (i : ℕ) (r : Ptr) (kv : K × V) (ys : Cells (K × V))
    (taken : has r (b i) ≡ true) (gone : has r ys ≡ false)
    (less : (c : Ptr) → has c (b i) ≡ false → has c ys ≡ false) (rest : Distinct (ys ++ fs))
    (chain : Chain m'.heap (m'.table i) ys)
    (others : (j : ℕ) → (j == i) ≡ false → m'.table j ≡ m.table j) (first : m'.free ≡ r)
    (ne : r ≢ null) (at : m'.heap r ≡ some (item kv m.free))
    (same_heap : (c : Ptr) → has c (b i) ≡ false → m'.heap c ≡ m.heap c) where
  -- An address of another list is none of the bucket.
  foreign : (j : ℕ) → i ≢ j → (c : Ptr) → has c (b j) ≡ true → has c (b i) ≡ false
  foreign j n c t = is.apart j i (λ e. n (sym e)) c t

  spare_foreign : (c : Ptr) → has c fs ≡ true → has c (b i) ≡ false
  spare_foreign c t = elim (Bool-cases (has c (b i))) [
    | inl h ↦ absurd (true-ne-false (sym t ∙ Distinct-split c (b i) fs (is.each i) h))
    | inr f ↦ f
  ]

  free_out : has r fs ≡ false
  free_out = Distinct-split r (b i) fs (is.each i) taken

  differs : (j : ℕ) → (j == i) ≡ false → i ≢ j
  differs j f e = true-ne-false (sym (eq→== j i (sym e)) ∙ f)

  -- A bucket that loses items meets the others no more than before.
  here-apart : (j : ℕ) → i ≢ j → (c : Ptr) → has c ys ≡ true → has c (b j) ≡ false
  here-apart j n c t = elim (Bool-cases (has c (b i))) [
    | inl h ↦ is.apart i j n c h
    | inr f ↦ absurd (true-ne-false (sym t ∙ less c f))
  ]

  free-apart :
      (j k : ℕ)
      → j ≢ k
      → (c : Ptr) → has c (put_bucket b i ys j) ≡ true
      → has c (put_bucket b i ys k) ≡ false
  free-apart j =
      put_bucket-all b i ys
        (λ j zs.
          (k : ℕ) → j ≢ k → (c : Ptr) → has c zs ≡ true → has c (put_bucket b i ys k) ≡ false)
        (put_bucket-all b i ys (λ k zs. i ≢ k → (c : Ptr) → has c ys ≡ true → has c zs ≡ false)
          (λ n. absurd (n refl)) (λ k f. here-apart k))
        (λ j f.
          put_bucket-all b i ys (λ k zs. j ≢ k → (c : Ptr) → has c (b j) ≡ true → has c zs ≡ false)
            (λ n c t. less c (foreign j (differs j f) c t)) (λ k g n c t. is.apart j k n c t))
        j

  pub free-IsHash : IsHash m' (put_bucket b i ys) ((r, kv) ∷ fs)
  free-IsHash = record {
    chains =
        put_bucket-all b i ys (λ j zs. Chain m'.heap (m'.table j) zs) chain
          (λ j f.
            subst (λ p. Chain m'.heap p (b j)) (sym (others j f))
              (Seg-same m.heap m'.heap (m.table j) null (b j)
                (λ c t. same_heap c (foreign j (differs j f) c t)) (is.chains j)));
    spare = (
      m.free,
      first,
      ne,
      at,
      Seg-same m.heap m'.heap m.free null fs (λ c t. same_heap c (spare_foreign c t)) is.spare,
    );
    each =
        put_bucket-all b i ys (λ j zs. Distinct (zs ++ ((r, kv) ∷ fs)))
          (Distinct-put r kv ys fs gone free_out rest)
          (λ j f.
            Distinct-put r kv (b j) fs (is.apart i j (differs j f) r taken) free_out (is.each j));
    apart = free-apart;
  }
