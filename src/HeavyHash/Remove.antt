-- ===== src/HeavyHash/Remove.antt =====
-- A chain of src/headers/maycloud/heavyhash.h without the first item of a key.
use libmaycloud.Common.{
  ℕ, ◌≡◌, refl, sym, subst, ◌∙◌, inl, inr, Bool, true, false, some, none-ne-some, [], ◌∷◌, ◌++◌,
  arith, if◌then◌else◌, Bool-cases,
}
use libmaycloud.Pool.{Ptr}
use libmaycloud.Pool.Chain.{Cells, has, Distinct, not_has-cons, has-append}
use libmaycloud.HeavyHash.Cells.{
  apart_sym, has-inside, has-here, outside_cons, has-outside, lookup_cell, place_of, lookup_nil,
  lookup_miss, place_hit, place_miss,
}

module _ {K V : Type 0} (same : K → K → Bool) (hash : K → ℕ) (key : K) where
  unfoldable pub remove_cell : Cells (K × V) → Cells (K × V)
  remove_cell [] = []
  remove_cell ((p, kv) ∷ xs) = if same kv.0 key then xs else (p, kv) ∷ remove_cell xs

  pub remove_hit :
      (a : Ptr) (kv : K × V) (xs : Cells (K × V))
      → same kv.0 key ≡ true
      → remove_cell ((a, kv) ∷ xs) ≡ xs
  unfolding remove_cell
  remove_hit a kv xs t = rw t refl

  pub remove_miss :
      (a : Ptr) (kv : K × V) (xs : Cells (K × V))
      → same kv.0 key ≡ false
      → remove_cell ((a, kv) ∷ xs) ≡ (a, kv) ∷ remove_cell xs
  unfolding remove_cell
  remove_miss a kv xs f = rw f refl

  -- What is left is among what was there.
  pub has-remove_cell :
      (c : Ptr) (xs : Cells (K × V)) → has c xs ≡ false → has c (remove_cell xs) ≡ false
  unfolding remove_cell
  has-remove_cell c [] o = o
  has-remove_cell c ((p, kv) ∷ xs) o =
      let (o1, o2) = not_has-cons c p kv xs o in
      elim (Bool-cases (same kv.0 key)) [
        | inl t ↦ rw (remove_hit p kv xs t) o2
        | inr f ↦ rw (remove_miss p kv xs f, o1) (has-remove_cell c xs o2)
      ]

  behind_cell :
      (c : Ptr) (xs fs : Cells (K × V))
      → has c (xs ++ fs) ≡ false
      → has c (remove_cell xs ++ fs) ≡ false
  behind_cell c xs fs o =
      let front : has c xs ≡ false = ground (arith, has-append c xs fs) in
      ground
        (arith, has-append c xs fs, has-append c (remove_cell xs) fs, has-remove_cell c xs front)

  pub Distinct-remove_cell :
      (xs fs : Cells (K × V)) → Distinct (xs ++ fs) → Distinct (remove_cell xs ++ fs)
  unfolding remove_cell
  Distinct-remove_cell [] fs d = d
  Distinct-remove_cell ((p, kv) ∷ xs) fs d = elim (Bool-cases (same kv.0 key)) [
    | inl t ↦ rw (remove_hit p kv xs t) d.1
    | inr f ↦ rw (remove_miss p kv xs f) (behind_cell p xs fs d.0, Distinct-remove_cell xs fs d.1)
  ]

  -- What holds at the item of the key behind other items.
  pub at_miss :
      (P : Ptr → Cells (K × V) → Type 0) (a : Ptr) (kv : K × V) (xs : Cells (K × V))
      → same kv.0 key ≡ false
      → P (place_of same hash key xs) ((a, kv) ∷ remove_cell xs)
      → P (place_of same hash key ((a, kv) ∷ xs)) (remove_cell ((a, kv) ∷ xs))
  at_miss P a kv xs f x =
      subst (λ o. P o (remove_cell ((a, kv) ∷ xs))) (sym (place_miss same hash key a kv xs f))
        (subst (P (place_of same hash key xs)) (sym (remove_miss a kv xs f)) x)

  -- What holds at the item of the key in front.
  pub at_hit :
      (P : Ptr → Cells (K × V) → Type 0) (a : Ptr) (kv : K × V) (xs : Cells (K × V))
      → same kv.0 key ≡ true
      → P a xs
      → P (place_of same hash key ((a, kv) ∷ xs)) (remove_cell ((a, kv) ∷ xs))
  at_hit P a kv xs t x =
      subst (λ o. P o (remove_cell ((a, kv) ∷ xs))) (sym (place_hit same hash key a kv xs t))
        (subst (P a) (sym (remove_hit a kv xs t)) x)

  -- The item of the key was there and is not left.
  pub place_of-remove_cell :
      (w : V) (xs : Cells (K × V))
      → Distinct xs
      → lookup_cell same hash key xs ≡ some w
      → (has (place_of same hash key xs) xs ≡ true)
        × (has (place_of same hash key xs) (remove_cell xs) ≡ false)
  place_of-remove_cell w [] d l = absurd (none-ne-some w (sym (lookup_nil same hash key) ∙ l))
  place_of-remove_cell w ((a, kv) ∷ xs) d l =
      let P =
        λ (o : Ptr) (ys : Cells (K × V)). (has o ((a, kv) ∷ xs) ≡ true) × (has o ys ≡ false) in
      elim (Bool-cases (same kv.0 key)) [
        | inl t ↦ at_hit P a kv xs t (has-here a kv xs, d.0)
        | inr f ↦
            let (i, o) =
              place_of-remove_cell w xs d.1 (sym (lookup_miss same hash key a kv xs f) ∙ l) in
            at_miss P a kv xs f (
              has-inside (place_of same hash key xs) a kv xs i,
              outside_cons (place_of same hash key xs) a kv (remove_cell xs)
                  (apart_sym a (place_of same hash key xs)
                    (has-outside a (place_of same hash key xs) xs d.0 i))
                  o,
            )
      ]
