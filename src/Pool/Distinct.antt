-- ===== src/Pool/Distinct.antt =====
-- Moving one item between two lists of items, and relinking the last one.
use libmaycloud.Common.{
  ◌≡◌, refl, sym, subst, true, false, some, [], ◌∷◌, ◌++◌, append_assoc, arith, ◌==◌, Bool-cases,
}
use libmaycloud.Pool.{Ptr, item, Heap, assign}
use libmaycloud.Pool.Chain.{Cells, has, last_of, Distinct, Seg, has-append}

module _ {A : Type 0} where
  -- An item in the middle occurs neither before nor behind, and the others stay distinct.
  pub Distinct-take :
      (a : Ptr) (v : A) (xs fs : Cells A)
      → Distinct (xs ++ ((a, v) ∷ fs))
      → (has a xs ≡ false) × (has a fs ≡ false) × Distinct (xs ++ fs)
  Distinct-take a v [] fs d = (refl, d.0, d.1)
  Distinct-take a v ((b, w) ∷ xs) fs d =
      ground (arith, has-append b xs ((a, v) ∷ fs), has-append b xs fs, Distinct-take a v xs fs d.1)

  pub Distinct-put :
      (a : Ptr) (v : A) (xs fs : Cells A)
      → has a xs ≡ false
      → has a fs ≡ false
      → Distinct (xs ++ fs)
      → Distinct (xs ++ ((a, v) ∷ fs))
  Distinct-put a v [] fs p q d = (q, d)
  Distinct-put a v ((b, w) ∷ xs) fs p q d = ground (
    arith,
    has-append b xs ((a, v) ∷ fs),
    has-append b xs fs,
    Distinct-put a v xs fs (ground arith) q d.1,
  )

  pub has-last_of : (a : Ptr) (v : A) (xs : Cells A) → has (last_of a xs) ((a, v) ∷ xs) ≡ true
  has-last_of a v [] = ground arith
  has-last_of a v ((b, w) ∷ xs) = ground (arith, has-last_of b w xs)

  -- An address that occurs nowhere is not that of the last item.
  pub last_of-other :
      (c a : Ptr) (v : A) (xs : Cells A) → has c ((a, v) ∷ xs) ≡ false → (c == last_of a xs) ≡ false
  last_of-other c a v [] o = ground arith
  last_of-other c a v ((b, w) ∷ xs) o = last_of-other c b w xs (ground arith)

  -- The last item of a list that ends at `end`, and the list after its pointer is set to `t`.
  pub Seg-relink :
      (h : Heap A) (p end t a : Ptr) (v : A) (xs : Cells A)
      → Distinct ((a, v) ∷ xs)
      → Seg h p ((a, v) ∷ xs) end
      → (w : A) × (h (last_of a xs) ≡ some (item w end))
        × Seg (assign h (last_of a xs) (item w t)) p ((a, v) ∷ xs) t
  Seg-relink h p end t a v [] d (q, e, ne, at, s) =
      (v, ground arith, (t, e, ne, ground arith, refl))
  Seg-relink h p end t a v ((b, u) ∷ xs) d (q, e, ne, at, s) =
      let (w, last, rest) = Seg-relink h q end t b u xs d.1 s in
      (w, last, (q, e, ne, ground (arith, has-last_of b u xs), rest))

  pub Distinct-left : (xs fs : Cells A) → Distinct (xs ++ fs) → Distinct xs
  Distinct-left [] fs d = tt
  Distinct-left ((b, w) ∷ xs) fs d = ground (arith, has-append b xs fs, Distinct-left xs fs d.1)

  pub Distinct-right : (xs fs : Cells A) → Distinct (xs ++ fs) → Distinct fs
  Distinct-right [] fs d = d
  Distinct-right (x ∷ xs) fs d = Distinct-right xs fs d.1

  pub has-append_false :
      (c : Ptr) (xs ys : Cells A)
      → has c (xs ++ ys) ≡ false
      → (has c xs ≡ false) × (has c ys ≡ false)
  has-append_false c xs ys o = ground (arith, has-append c xs ys, Bool-cases (has c xs))

  pub Distinct-keep : (xs ys zs : Cells A) → Distinct (xs ++ (ys ++ zs)) → Distinct (xs ++ ys)
  Distinct-keep xs ys zs d =
      Distinct-left (xs ++ ys) zs (subst Distinct (sym (append_assoc xs ys zs)) d)

  pub has-append_left : (c : Ptr) (xs ys : Cells A) → has c xs ≡ true → has c (xs ++ ys) ≡ true
  has-append_left c xs ys i = ground (arith, has-append c xs ys)

  -- Items that are left out in the middle leave the others distinct.
  pub Distinct-skip : (xs ys zs : Cells A) → Distinct (xs ++ (ys ++ zs)) → Distinct (xs ++ zs)
  Distinct-skip [] ys zs d = Distinct-right ys zs d
  Distinct-skip ((b, w) ∷ xs) ys zs d = ground (
    arith,
    has-append b xs (ys ++ zs),
    has-append b ys zs,
    has-append b xs zs,
    Distinct-skip xs ys zs d.1,
  )

  -- An item of the front part does not occur in the back part.
  pub Distinct-apart :
      (a : Ptr) (xs fs : Cells A) → Distinct (xs ++ fs) → has a xs ≡ true → has a fs ≡ false
  Distinct-apart a [] fs d i = cc
  Distinct-apart a ((b, w) ∷ xs) fs d i =
      ground (arith, has-append b xs fs, Distinct-apart a xs fs d.1)

  -- An item of the back part does not occur in the front part.
  pub Distinct-flip :
      (a : Ptr) (xs fs : Cells A) → Distinct (xs ++ fs) → has a fs ≡ true → has a xs ≡ false
  Distinct-flip a xs fs d i = ground (arith, Bool-cases (has a xs), Distinct-apart a xs fs d)

  pub Distinct-snoc :
      (a : Ptr) (v : A) (xs fs : Cells A)
      → Distinct (xs ++ ((a, v) ∷ fs))
      → Distinct ((xs ++ ((a, v) ∷ [])) ++ fs)
  Distinct-snoc a v xs fs d = rw append_assoc d

  -- Moving an item from the middle of one list to the front of the next keeps the items distinct.
  pub Distinct-move :
      (a : Ptr) (v : A) (xs ys fs : Cells A)
      → Distinct ((xs ++ ((a, v) ∷ ys)) ++ fs)
      → (has a xs ≡ false)
        × (has a ys ≡ false)
        × (has a fs ≡ false)
        × Distinct ((xs ++ ys) ++ ((a, v) ∷ fs))
  Distinct-move a v xs ys fs d =
      let d' : Distinct (xs ++ ((a, v) ∷ (ys ++ fs))) = rw append_assoc at d in
      let (p, q, r) = Distinct-take a v xs (ys ++ fs) d' in
      let q' : has a ys ≡ false = ground (arith, has-append a ys fs) in
      let q'' : has a fs ≡ false = ground (arith, has-append a ys fs) in
      (
        p,
        q',
        q'',
        Distinct-put a v (xs ++ ys) fs (ground (arith, has-append a xs ys)) q'' (rw append_assoc r),
      )

  -- An item of the last list occurs in none of the lists in front.
  pub Distinct-behind :
      (d : Ptr) (xs ys : Cells A) (a : Ptr) (v : A) (fs : Cells A)
      → Distinct ((xs ++ ys) ++ ((a, v) ∷ fs))
      → has d fs ≡ true
      → has d xs ≡ false
  Distinct-behind d xs ys a v fs p i = ground (
    arith,
    Bool-cases (has d xs),
    has-append d xs ys,
    Distinct-apart d (xs ++ ys) ((a, v) ∷ fs) p,
  )
