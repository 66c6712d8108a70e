-- ===== src/SafeMap/Shape.antt =====
-- What a well-formed map of src/headers/maycloud/safemap.h is.
use libmaycloud.Common.{◌≡◌, refl, ap, ◌≢◌, Bool, false, none, some, List, [], ◌∷◌, ◌++◌, arith}
use libmaycloud.Pool.{Ptr, null, Item, item, Heap, assign}
use libmaycloud.Pool.Chain.{Cells, has, Distinct, Chain}
use libmaycloud.SafeMap.{SafeMap}

-- A key, the place of its item, and the item.
abbrev pub Entry : Type 0 → Type 0 → Type 0
Entry K V = K × Ptr × V

module _ {K V : Type 0} where
  abbrev pub places : List (Entry K V) → List (K × Ptr)
  places [] = []
  places ((k, p, v) ∷ xs) = (k, p) ∷ places xs

  abbrev pub cells : List (Entry K V) → Cells V
  cells [] = []
  cells ((k, p, v) ∷ xs) = (p, v) ∷ cells xs

  -- Every item stands at its place.
  abbrev pub Stored : Heap V → List (Entry K V) → Type 0
  Stored h [] = Unit
  Stored h ((k, p, v) ∷ xs) = (p ≢ null) × ((q : Ptr) × (h p ≡ some (item v q))) × Stored h xs

  -- No entry has the key.
  abbrev pub Absent : (K → K → Bool) → K → List (Entry K V) → Type 0
  Absent same key [] = Unit
  Absent same key ((k, p, v) ∷ xs) = (same k key ≡ false) × Absent same key xs

  -- `xs` are the entries and `fs` the free items: no place occurs twice.
  pub record IsMap (m : SafeMap K V) (xs : List (Entry K V)) (fs : Cells V) : Type 0 where
    pub index : m.index ≡ places xs
    pub stored : Stored m.heap xs
    pub spare : Chain m.heap m.free fs
    pub apart : Distinct (cells xs ++ fs)
    pub guard : m.heap null ≡ none

  pub cells-append : (xs ys : List (Entry K V)) → cells (xs ++ ys) ≡ cells xs ++ cells ys
  cells-append [] ys = refl
  cells-append ((k, p, v) ∷ xs) ys = ap (λ zs. (p, v) ∷ zs) (cells-append xs ys)

  pub places-append : (xs ys : List (Entry K V)) → places (xs ++ ys) ≡ places xs ++ places ys
  places-append [] ys = refl
  places-append ((k, p, v) ∷ xs) ys = ap (λ zs. (k, p) ∷ zs) (places-append xs ys)

  -- Items elsewhere stay.
  pub Stored-assign :
      (h : Heap V) (a : Ptr) (c : Item V) (xs : List (Entry K V))
      → has a (cells xs) ≡ false
      → Stored h xs
      → Stored (assign h a c) xs
  Stored-assign h a c [] o s = tt
  Stored-assign h a c ((k, p, v) ∷ xs) o s =
      (s.0, (s.1.0, ground (arith, o, s.1.1)), Stored-assign h a c xs (ground (arith, o)) s.2)

  pub Stored-append :
      (h : Heap V) (xs ys : List (Entry K V)) → Stored h xs → Stored h ys → Stored h (xs ++ ys)
  Stored-append h [] ys s t = t
  Stored-append h ((k, p, v) ∷ xs) ys s t = (s.0, s.1, Stored-append h xs ys s.2 t)

  pub Stored-parts :
      (h : Heap V) (xs ys : List (Entry K V)) → Stored h (xs ++ ys) → Stored h xs × Stored h ys
  Stored-parts h [] ys s = (tt, s)
  Stored-parts h ((k, p, v) ∷ xs) ys s = let r = Stored-parts h xs ys s.2 in ((s.0, s.1, r.0), r.1)
