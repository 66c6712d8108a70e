-- ===== src/HeavyHash/Once.antt =====
-- The keys in a bucket of src/headers/maycloud/heavyhash.h.
use libmaycloud.Common.{
  ℕ, ◌≡◌, refl, sym, ap, ◌∙◌, ◌↔◌, inl, inr, Bool, true, false, Option, none, none-ne-some, [], ◌∷◌,
  if◌then◌else◌, Bool-cases, true-ne-false,
}
use libmaycloud.Pool.{Ptr}
use libmaycloud.Pool.Chain.{Cells}
use libmaycloud.HeavyHash.Cells.{
  lookup_cell, update_cell, lookup_hit, lookup_miss, update_hit, update_miss,
}
use libmaycloud.HeavyHash.Remove.{remove_cell, remove_hit, remove_miss}

-- No key stands twice in a bucket.
abbrev pub Once : {K V : Type 0} → (K → K → Bool) → (K → ℕ) → Cells (K × V) → Type 0
Once same hash [] = Unit
Once same hash ((p, kv) ∷ xs) = (lookup_cell same hash kv.0 xs ≡ none) × Once same hash xs

module _ {K V : Type 0} (same : K → K → Bool) (hash : K → ℕ) (key : K) where
  -- A key without a value is none of the keys of the items.
  no_hit :
      (k : K) (a : Ptr) (kv : K × V) (xs : Cells (K × V))
      → lookup_cell same hash k ((a, kv) ∷ xs) ≡ none
      → (same kv.0 k ≡ false) × (lookup_cell same hash k xs ≡ none)
  no_hit k a kv xs l = elim (Bool-cases (same kv.0 k)) [
    | inl t ↦ absurd (none-ne-some kv.1 (sym l ∙ lookup_hit same hash k a kv xs t))
    | inr f ↦ (f, sym (lookup_miss same hash k a kv xs f) ∙ l)
  ]

  lookup_none-update_cell :
      (k : K) (v : V) (xs : Cells (K × V))
      → lookup_cell same hash k xs ≡ none
      → lookup_cell same hash k (update_cell same hash key v xs) ≡ none
  unfolding update_cell
  lookup_none-update_cell k v [] l = l
  lookup_none-update_cell k v ((a, kv) ∷ xs) l =
      let (f, rest) = no_hit k a kv xs l in
      elim (Bool-cases (same kv.0 key)) [
        | inl t ↦
            rw (update_hit same hash key a kv xs v t)
              (lookup_miss same hash k a (kv.0, v) xs f ∙ rest)
        | inr n ↦ rw (update_miss same hash key a kv xs v n) (
            lookup_miss same hash k a kv (update_cell same hash key v xs) f
            ∙ lookup_none-update_cell k v xs rest)
      ]

  lookup_none-remove_cell :
      (k : K) (xs : Cells (K × V))
      → lookup_cell same hash k xs ≡ none
      → lookup_cell same hash k (remove_cell same hash key xs) ≡ none
  unfolding remove_cell
  lookup_none-remove_cell k [] l = l
  lookup_none-remove_cell k ((a, kv) ∷ xs) l =
      let (f, rest) = no_hit k a kv xs l in
      elim (Bool-cases (same kv.0 key)) [
        | inl t ↦ rw (remove_hit same hash key a kv xs t) rest
        | inr n ↦ rw (remove_miss same hash key a kv xs n) (
            lookup_miss same hash k a kv (remove_cell same hash key xs) f
            ∙ lookup_none-remove_cell k xs rest)
      ]

  pub Once-update_cell :
      (v : V) (xs : Cells (K × V))
      → Once same hash xs
      → Once same hash (update_cell same hash key v xs)
  unfolding update_cell
  Once-update_cell v [] u = u
  Once-update_cell v ((a, kv) ∷ xs) u = elim (Bool-cases (same kv.0 key)) [
    | inl t ↦ rw (update_hit same hash key a kv xs v t) u
    | inr n ↦
        rw (update_miss same hash key a kv xs v n)
          (lookup_none-update_cell kv.0 v xs u.0, Once-update_cell v xs u.1)
  ]

  pub Once-remove_cell :
      (xs : Cells (K × V)) → Once same hash xs → Once same hash (remove_cell same hash key xs)
  unfolding remove_cell
  Once-remove_cell [] u = u
  Once-remove_cell ((a, kv) ∷ xs) u = elim (Bool-cases (same kv.0 key)) [
    | inl t ↦ rw (remove_hit same hash key a kv xs t) u.1
    | inr n ↦
        rw (remove_miss same hash key a kv xs n)
          (lookup_none-remove_cell kv.0 xs u.0, Once-remove_cell xs u.1)
  ]

none_either : {V : Type 0} → (c : Bool) → Path (Option V) none (if c then none else none)
none_either true = refl
none_either false = refl

-- Without its item a key has no value, and the others have theirs.
pub lookup-remove_cell :
    {K V : Type 0} (same : K → K → Bool) (hash : K → ℕ)
    → ((k j : K) → (same k j ≡ true) ↔ (k ≡ j))
    → (key : K) (xs : Cells (K × V)) → Once same hash xs
    → (k : K)
    → lookup_cell same hash k (remove_cell same hash key xs)
      ≡ (if same key k then none else lookup_cell same hash k xs)
unfolding remove_cell lookup_cell
lookup-remove_cell same hash same_iff key [] u k = none_either (same key k)
lookup-remove_cell same hash same_iff key ((a, kv) ∷ xs) u k = elim (Bool-cases (same kv.0 key)) [
  | inl t ↦
      let alike : same kv.0 k ≡ same key k = ap (λ j. same j k) ((same_iff kv.0 key).0 t) in
      rw (remove_hit same hash key a kv xs t) (elim (Bool-cases (same key k)) [
        | inl e ↦
            rw e
              (ap (λ j. lookup_cell same hash j xs) (sym ((same_iff kv.0 k).0 (alike ∙ e))) ∙ u.0)
        | inr n ↦ rw n (sym (lookup_miss same hash k a kv xs (alike ∙ n)))
      ])
  | inr f ↦
      let rest = lookup-remove_cell same hash same_iff key xs u.1 k in
      rw (remove_miss same hash key a kv xs f) (elim (Bool-cases (same kv.0 k)) [
        | inl e ↦
            let n : same key k ≡ false = elim (Bool-cases (same key k)) [
              | inl e' ↦ absurd (
                  true-ne-false (
                    sym
                      ((same_iff kv.0 key).1 ((same_iff kv.0 k).0 e ∙ sym ((same_iff key k).0 e')))
                    ∙ f))
              | inr n ↦ n
            ] in
            lookup_hit same hash k a kv (remove_cell same hash key xs) e
            ∙ sym (lookup_hit same hash k a kv xs e)
            ∙ ap (λ c. if c then none else lookup_cell same hash k ((a, kv) ∷ xs)) (sym n)
        | inr n ↦
            lookup_miss same hash k a kv (remove_cell same hash key xs) n
            ∙ rest
            ∙ ap (λ r. if same key k then none else r) (sym (lookup_miss same hash k a kv xs n))
      ])
]
