-- ===== src/HeavyHash/Cells.antt =====
-- The chain of a bucket of src/headers/maycloud/heavyhash.h.
use libmaycloud.Common.{
  ℕ, zero, suc, ◌<◌, ◌≡◌, refl, sym, ap, subst, ◌∙◌, ◌≢◌, ◌↔◌, ◌⊎◌, inl, inr, Bool, true, false,
  ◌||◌, Option, none, some, none-ne-some, [], ◌∷◌, ◌++◌, arith, ◌==◌, if◌then◌else◌, ne→==_false,
  eq→==, ==_iff, Bool-cases, true-ne-false, length,
}
use libmaycloud.Pool.{Ptr, null, Item, item, Heap, assign}
use libmaycloud.Pool.Chain.{
  Cells, has, Distinct, Chain, assign_self, assign-other, has-append, Seg-assign, has-null,
}
use libmaycloud.HeavyHash.{find_loop}

pub apart_sym : (a b : Ptr) → (a == b) ≡ false → (b == a) ≡ false
apart_sym a b n = ground arith

module _ {A : Type 0} where
  pub has-inside : (b a : Ptr) (v : A) (xs : Cells A) → has b xs ≡ true → has b ((a, v) ∷ xs) ≡ true
  has-inside b a v xs h = elim (Bool-cases (b == a)) [ inl t ↦ rw t refl | inr f ↦ rw f h ]

  pub has-here : (a : Ptr) (v : A) (xs : Cells A) → has a ((a, v) ∷ xs) ≡ true
  has-here a v xs = rw (eq→== a a refl) refl

  pub outside_cons :
      (b a : Ptr) (v : A) (xs : Cells A)
      → (b == a) ≡ false
      → has b xs ≡ false
      → has b ((a, v) ∷ xs) ≡ false
  outside_cons b a v xs n h = rw (n, h) refl

  -- An address in a list is none that is outside of it.
  pub has-outside :
      (a b : Ptr) (xs : Cells A) → has a xs ≡ false → has b xs ≡ true → (a == b) ≡ false
  has-outside a b xs o i = elim (Bool-cases (a == b)) [
    | inl t ↦ absurd (true-ne-false (sym i ∙ ap (λ x. has x xs) (sym ((==_iff a b).0 t)) ∙ o))
    | inr f ↦ f
  ]

-- The address of an item is not NULL.
pub place_ne :
    {A : Type 0} (h : Heap A) (p o : Ptr) (xs : Cells A) → Chain h p xs → has o xs ≡ true → o ≢ null
place_ne h p o xs c i e = true-ne-false (sym i ∙ ap (λ z. has z xs) e ∙ has-null h p null xs c)

module _ {K V : Type 0} (same : K → K → Bool) (hash : K → ℕ) (key : K) where
  unfoldable pub lookup_cell : Cells (K × V) → Option V
  lookup_cell [] = none
  lookup_cell ((p, kv) ∷ xs) = if same kv.0 key then some kv.1 else lookup_cell xs

  unfoldable pub place_of : Cells (K × V) → Ptr
  place_of [] = null
  place_of ((p, kv) ∷ xs) = if same kv.0 key then p else place_of xs

  unfoldable pub update_cell : V → Cells (K × V) → Cells (K × V)
  update_cell v [] = []
  update_cell v ((p, kv) ∷ xs) =
      if same kv.0 key then (p, (kv.0, v)) ∷ xs else (p, kv) ∷ update_cell v xs

  pub lookup_nil : lookup_cell [] ≡ none
  unfolding lookup_cell
  lookup_nil = refl

  -- The three at a cell with the key, and at one without it.
  module _ (a : Ptr) (kv : K × V) (xs : Cells (K × V)) where
    pub lookup_hit : same kv.0 key ≡ true → lookup_cell ((a, kv) ∷ xs) ≡ some kv.1
    unfolding lookup_cell
    lookup_hit t = rw t refl

    pub lookup_miss : same kv.0 key ≡ false → lookup_cell ((a, kv) ∷ xs) ≡ lookup_cell xs
    unfolding lookup_cell
    lookup_miss f = rw f refl

    pub place_hit : same kv.0 key ≡ true → place_of ((a, kv) ∷ xs) ≡ a
    unfolding place_of
    place_hit t = rw t refl

    pub place_miss : same kv.0 key ≡ false → place_of ((a, kv) ∷ xs) ≡ place_of xs
    unfolding place_of
    place_miss f = rw f refl

    pub update_hit :
        (v : V) → same kv.0 key ≡ true → update_cell v ((a, kv) ∷ xs) ≡ (a, (kv.0, v)) ∷ xs
    unfolding update_cell
    update_hit v t = rw t refl

    pub update_miss :
        (v : V) → same kv.0 key ≡ false → update_cell v ((a, kv) ∷ xs) ≡ (a, kv) ∷ update_cell v xs
    unfolding update_cell
    update_miss v f = rw f refl

  pub find_loop-Chain :
      (fuel : ℕ) (h : Heap (K × V)) (p : Ptr) (xs : Cells (K × V))
      → Chain h p xs
      → length xs < fuel
      → find_loop same hash fuel h p key ≡ some (place_of xs)
  unfolding find_loop place_of
  find_loop-Chain zero h p xs c l = absurd (omega (arith, l))
  find_loop-Chain (suc fuel) h p [] c l = rw (eq→== p null c) refl
  find_loop-Chain (suc fuel) h p ((a, kv) ∷ xs) (q, e, ne, at, s) l =
      let rest = find_loop-Chain fuel h q xs s (omega (arith, l)) in
      rw (e, ne→==_false a null ne, at)
        (elim (Bool-cases (same kv.0 key)) [ inl t ↦ rw t (ap some e) | inr f ↦ rw f rest ])

  -- The write of the value at `o` leaves the items `ys`.
  abbrev pub Written : V → Heap (K × V) → Ptr → Cells (K × V) → Ptr → Cells (K × V) → Type 0
  Written v h p xs o ys =
      (c : Item (K × V)) × (h o ≡ some c)
      × (has o xs ≡ true)
      × Chain (assign h o (item (c.value.0, v) c.next)) p ys

  pub replace-Chain :
      (v w : V) (h : Heap (K × V)) (p : Ptr) (xs : Cells (K × V))
      → Chain h p xs
      → Distinct xs
      → lookup_cell xs ≡ some w
      → Written v h p xs (place_of xs) (update_cell v xs)
  replace-Chain v w h p [] c d l = absurd (none-ne-some w (sym lookup_nil ∙ l))
  replace-Chain v w h p ((a, kv) ∷ xs) (q, e, ne, at, s) d l = elim (Bool-cases (same kv.0 key)) [
    | inl t ↦
        subst (λ o. Written v h p ((a, kv) ∷ xs) o (update_cell v ((a, kv) ∷ xs)))
          (sym (place_hit a kv xs t))
          (subst (Written v h p ((a, kv) ∷ xs) a) (sym (update_hit a kv xs v t)) (
            item kv q,
            at,
            has-here a kv xs,
            (
              q,
              e,
              ne,
              assign_self h a (item (kv.0, v) q),
              Seg-assign h q null a (item (kv.0, v) q) xs d.0 s,
            ),
          ))
    | inr f ↦
        let l' : lookup_cell xs ≡ some w = sym (lookup_miss a kv xs f) ∙ l in
        let (c, found, inside, rest) = replace-Chain v w h q xs s d.1 l' in
        subst (λ o. Written v h p ((a, kv) ∷ xs) o (update_cell v ((a, kv) ∷ xs)))
          (sym (place_miss a kv xs f))
          (subst (Written v h p ((a, kv) ∷ xs) (place_of xs)) (sym (update_miss a kv xs v f)) (
            c,
            found,
            has-inside (place_of xs) a kv xs inside,
            (
              q,
              e,
              ne,
              assign-other h (place_of xs) a (item (c.value.0, v) c.next)
                    (has-outside a (place_of xs) xs d.0 inside)
                  ∙ at,
              rest,
            ),
          ))
  ]

  pub has-update_cell : (v : V) (a : Ptr) (xs : Cells (K × V)) → has a (update_cell v xs) ≡ has a xs
  unfolding update_cell
  has-update_cell v a [] = refl
  has-update_cell v a ((p, kv) ∷ xs) = elim (Bool-cases (same kv.0 key)) [
    | inl t ↦ rw (update_hit p kv xs v t) refl
    | inr f ↦ rw (update_miss p kv xs v f) (ap (λ b. (a == p) || b) (has-update_cell v a xs))
  ]

  pub Distinct-update_cell :
      (v : V) (xs fs : Cells (K × V)) → Distinct (xs ++ fs) → Distinct (update_cell v xs ++ fs)
  unfolding update_cell
  Distinct-update_cell v [] fs d = d
  Distinct-update_cell v ((p, kv) ∷ xs) fs d = elim (Bool-cases (same kv.0 key)) [
    | inl t ↦ rw (update_hit p kv xs v t) d
    | inr f ↦ rw (update_miss p kv xs v f) (
      has-append p (update_cell v xs) fs
          ∙ ap (λ b. b || has p fs) (has-update_cell v p xs)
          ∙ sym (has-append p xs fs)
          ∙ d.0,
      Distinct-update_cell v xs fs d.1,
    )
  ]

  -- The place of a key is NULL exactly if it has no value.
  pub place_of-lookup :
      (h : Heap (K × V)) (p : Ptr) (xs : Cells (K × V))
      → Chain h p xs
      → ((lookup_cell xs ≡ none) × (place_of xs ≡ null))
        ⊎ ((w : V) × (lookup_cell xs ≡ some w)
            × (place_of xs ≢ null)
            × ((q : Ptr) × (k : K) × (h (place_of xs) ≡ some (item (k, w) q))))
  unfolding lookup_cell place_of
  place_of-lookup h p [] c = inl (refl, refl)
  place_of-lookup h p ((a, kv) ∷ xs) (q, e, ne, at, s) = elim (Bool-cases (same kv.0 key)) [
    | inl t ↦ rw t (inr (kv.1, refl, ne, (q, kv.0, at)))
    | inr f ↦ rw f (place_of-lookup h q xs s)
  ]

  pub place_of-none :
      (h : Heap (K × V)) (p : Ptr) (xs : Cells (K × V))
      → Chain h p xs
      → lookup_cell xs ≡ none
      → place_of xs ≡ null
  place_of-none h p xs c l = elim (place_of-lookup h p xs c) [
    | inl (n, e) ↦ e
    | inr (w, t, ne, rest) ↦ absurd (none-ne-some w (sym l ∙ t))
  ]

-- What the update of a key that is there does to the values of all keys.
pub lookup-update_cell :
    {K V : Type 0} (same : K → K → Bool) (hash : K → ℕ)
    → ((k j : K) → (same k j ≡ true) ↔ (k ≡ j))
    → (key : K) (v w : V) (xs : Cells (K × V)) → lookup_cell same hash key xs ≡ some w
    → (k : K)
    → lookup_cell same hash k (update_cell same hash key v xs)
      ≡ (if same key k then some v else lookup_cell same hash k xs)
lookup-update_cell same hash same_iff key v w [] l k =
    absurd (none-ne-some w (sym (lookup_nil same hash key) ∙ l))
lookup-update_cell same hash same_iff key v w ((a, kv) ∷ xs) l k =
    elim (Bool-cases (same kv.0 key)) [
      | inl t ↦
          let alike : same kv.0 k ≡ same key k = ap (λ j. same j k) ((same_iff kv.0 key).0 t) in
          rw (update_hit same hash key a kv xs v t) (elim (Bool-cases (same key k)) [
            | inl e ↦ rw e (lookup_hit same hash k a (kv.0, v) xs (alike ∙ e))
            | inr n ↦ rw n (
                lookup_miss same hash k a (kv.0, v) xs (alike ∙ n)
                ∙ sym (lookup_miss same hash k a kv xs (alike ∙ n)))
          ])
      | inr f ↦
          let rest =
            lookup-update_cell same hash same_iff key v w xs
              (sym (lookup_miss same hash key a kv xs f) ∙ l) k in
          rw (update_miss same hash key a kv xs v f) (elim (Bool-cases (same kv.0 k)) [
            | inl e ↦
                let n : same key k ≡ false = elim (Bool-cases (same key k)) [
                  | inl e' ↦ absurd (
                      true-ne-false (
                        sym (
                          (same_iff kv.0 key).1
                            ((same_iff kv.0 k).0 e ∙ sym ((same_iff key k).0 e')))
                        ∙ f))
                  | inr n ↦ n
                ] in
                lookup_hit same hash k a kv (update_cell same hash key v xs) e
                ∙ sym (lookup_hit same hash k a kv xs e)
                ∙ ap (λ c. if c then some v else lookup_cell same hash k ((a, kv) ∷ xs)) (sym n)
            | inr n ↦
                lookup_miss same hash k a kv (update_cell same hash key v xs) n
                ∙ rest
                ∙ ap (λ r. if same key k then some v else r)
                    (sym (lookup_miss same hash k a kv xs n))
          ])
    ]
