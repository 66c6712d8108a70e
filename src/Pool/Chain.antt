-- ===== src/Pool/Chain.antt =====
-- What a list of items stands for, and what the writes through its pointers do to it.
use libmaycloud.Common.{
  ◌<◌, ◌≡◌, refl, sym, ◌∙◌, ◌≢◌, Bool, true, false, ◌||◌, some, List, [], ◌∷◌, ◌++◌, arith, ◌==◌,
  length,
}
use libmaycloud.Pool.{Ptr, null, Item, item, Heap, assign}

-- The address and the value of each item, in order.
abbrev pub Cells : Type 0 → Type 0
Cells A = List (Ptr × A)

module _ {A : Type 0} where
  abbrev pub has : Ptr → Cells A → Bool
  has a [] = false
  has a ((p, v) ∷ xs) = (a == p) || has a xs

  abbrev pub values : Cells A → List A
  values [] = []
  values ((p, v) ∷ xs) = v ∷ values xs

  -- The address of the last item, NULL where there is none.
  abbrev pub last_of : Ptr → Cells A → Ptr
  last_of p [] = p
  last_of p ((q, v) ∷ xs) = last_of q xs

  -- No address occurs twice.
  abbrev pub Distinct : Cells A → Type 0
  Distinct [] = Unit {0}
  Distinct ((p, v) ∷ xs) = (has p xs ≡ false) × Distinct xs

  -- From `p` the `next` pointers lead through the items `xs` to `end`.
  abbrev pub Seg : Heap A → Ptr → Cells A → Ptr → Type 0
  Seg h p [] end = p ≡ end
  Seg h p ((a, v) ∷ xs) end =
      (q : Ptr) × (p ≡ a) × (a ≢ null) × (h a ≡ some (item v q)) × Seg h q xs end

  abbrev pub Chain : Heap A → Ptr → Cells A → Type 0
  Chain h p xs = Seg h p xs null

  pub assign_self : (h : Heap A) (a : Ptr) (c : Item A) → assign h a c a ≡ some c
  assign_self h a c = ground arith

  pub assign-other : (h : Heap A) (a b : Ptr) (c : Item A) → (b == a) ≡ false → assign h a c b ≡ h b
  assign-other h a b c e = rw e refl

  pub not_has-cons :
      (c a : Ptr) (v : A) (xs : Cells A)
      → has c ((a, v) ∷ xs) ≡ false
      → ((c == a) ≡ false) × (has c xs ≡ false)
  not_has-cons c a v xs o = ground arith

  pub has-append : (a : Ptr) (xs ys : Cells A) → has a (xs ++ ys) ≡ (has a xs || has a ys)
  has-append a [] ys = refl
  has-append a ((p, v) ∷ xs) ys = ground (arith, has-append a xs ys)

  pub values-append : (xs ys : Cells A) → values (xs ++ ys) ≡ values xs ++ values ys
  values-append [] ys = refl
  values-append ((p, v) ∷ xs) ys = ground (arith, values-append xs ys)

  pub length-values : (xs : Cells A) → length (values xs) ≡ length xs
  length-values [] = refl
  length-values ((p, v) ∷ xs) = omega (arith, length-values xs)

  pub last_of-append :
      (p a : Ptr) (v : A) (xs ys : Cells A) → last_of p (xs ++ ((a, v) ∷ ys)) ≡ last_of a ys
  last_of-append p a v [] ys = refl
  last_of-append p a v ((q, w) ∷ xs) ys = last_of-append q a v xs ys

  pub last_of-behind :
      (p r : Ptr) (xs ys : Cells A) → 0 < length ys → last_of p (xs ++ ys) ≡ last_of r ys
  last_of-behind p r xs [] k = absurd (omega arith)
  last_of-behind p r xs ((a, v) ∷ ys) k = last_of-append p a v xs ys

  -- A list of items survives a write outside it.
  pub Seg-assign :
      (h : Heap A) (p end a : Ptr) (c : Item A) (xs : Cells A)
      → has a xs ≡ false
      → Seg h p xs end
      → Seg (assign h a c) p xs end
  Seg-assign h p end a c [] out s = s
  Seg-assign h p end a c ((b, v) ∷ xs) out (q, e, ne, at, s) =
      (q, e, ne, ground arith, Seg-assign h q end a c xs (ground arith) s)

  -- A list of items that ends at an item can be continued by that item.
  pub Seg-snoc :
      (h : Heap A) (p a q : Ptr) (v : A) (xs : Cells A)
      → a ≢ null
      → h a ≡ some (item v q)
      → Seg h p xs a
      → Seg h p (xs ++ ((a, v) ∷ [])) q
  Seg-snoc h p a q v [] ne at s = (q, s, ne, at, refl)
  Seg-snoc h p a q v ((b, w) ∷ xs) ne at (r, e, nb, bt, s) =
      (r, e, nb, bt, Seg-snoc h r a q v xs ne at s)

  -- A list of items leads to NULL at once exactly when it is empty.
  pub Chain-null : (h : Heap A) (p : Ptr) (xs : Cells A) → Chain h p xs → p ≡ null → xs ≡ []
  Chain-null h p [] s e = refl
  Chain-null h p ((a, v) ∷ xs) (q, e', ne, at, s) e = absurd (ne (sym e' ∙ e))

  -- A list of items whose values are two lists joined is two lists of items joined.
  pub values-split :
      (xs : Cells A) (us ws : List A)
      → values xs ≡ us ++ ws
      → (ys : Cells A) × (zs : Cells A) × (xs ≡ ys ++ zs) × (values ys ≡ us) × (values zs ≡ ws)
  values-split xs [] ws e = ([], xs, refl, refl, e)
  values-split [] (u ∷ us) ws e = cc
  values-split ((a, x) ∷ xs) (u ∷ us) ws e =
      let (ys, zs, p, p', p'') = values-split xs us ws (ground arith) in
      ((a, x) ∷ ys, zs, ground arith, ground arith, p'')

  -- A list of items is the same in two heaps that agree on its items.
  pub Seg-same :
      (h g : Heap A) (p end : Ptr) (xs : Cells A)
      → ((a : Ptr) → has a xs ≡ true → g a ≡ h a)
      → Seg h p xs end
      → Seg g p xs end
  Seg-same h g p end [] same s = s
  Seg-same h g p end ((a, v) ∷ xs) same (q, e, ne, at, s) =
      (q, e, ne, same a (ground arith) ∙ at, Seg-same h g q end xs (λ b i. same b (ground arith)) s)

  pub Seg-ne_null :
      (h : Heap A) (p end a : Ptr) (v : A) (xs ys : Cells A)
      → Seg h p (xs ++ ((a, v) ∷ ys)) end
      → a ≢ null
  Seg-ne_null h p end a v [] ys (q, e, ne, at, s) = ne
  Seg-ne_null h p end a v ((b, w) ∷ xs) ys (q, e, ne, at, s) = Seg-ne_null h q end a v xs ys s

  -- No item stands at NULL.
  pub has-null : (h : Heap A) (p end : Ptr) (xs : Cells A) → Seg h p xs end → has null xs ≡ false
  has-null h p end [] s = refl
  has-null h p end ((a, v) ∷ xs) (q, e, ne, at, s) = ground (arith, has-null h q end xs s)
