-- ===== src/SafeMap/Laws.antt =====
-- find, add and remove of src/headers/maycloud/safemap.h on well-formed maps.
use libmaycloud.Common.{
  ℕ, zero, suc, ◌+◌, ◌≡◌, refl, sym, ap, subst, ◌∙◌, Bool, true, false, some, List, [], ◌∷◌, ◌++◌,
  arith, if◌then◌else◌, ne→==_false, length,
}
use libmaycloud.Pool.{Ptr, null, Item, item, assign, linked}
use libmaycloud.Pool.Chain.{Cells, has, Distinct, Chain, has-append, Seg-assign}
use libmaycloud.SafeMap.{
  SafeMap, index_find, index_put, index_erase, create, remove_item, find, dirty_add, add, remove,
}
use libmaycloud.SafeMap.Shape.{
  Entry, cells, Absent, IsMap, cells-append, Stored-assign, Stored-append, Stored-parts,
}
use libmaycloud.Pool.Distinct.{
  Distinct-take, Distinct-put, has-append_false, Distinct-snoc, Distinct-move,
}
use libmaycloud.Pool.Linked.{all_items, length-all_items, Distinct-all_items, Chain-linked}
use libmaycloud.SafeMap.Index.{
  index_find-Absent, index_put-Absent, index_find-at, index_put-at, index_erase-at,
}

Absent-append :
    {K V : Type 0} (same : K → K → Bool) (key : K) (xs ys : List (Entry K V))
    → Absent same key xs
    → Absent same key ys
    → Absent same key (xs ++ ys)
Absent-append same key [] ys o o' = o'
Absent-append same key ((k, p, v) ∷ xs) ys o o' = (o.0, Absent-append same key xs ys o.1 o')

-- add of a key that is not there, on a well-formed map with a free item: it returns the first free item, with
-- the value, under that key. The other keys keep their items and values, the place is not free any more, and the
-- map stays well-formed.
pub add-append :
    {K V : Type 0} (same : K → K → Bool) (key : K) (v : V) (m : SafeMap K V) (xs : List (Entry K V))
    (a : Ptr) (w : V) (fs : Cells V)
    → IsMap m xs ((a, w) ∷ fs)
    → Absent same key xs
    → (m' : SafeMap K V) × (add same key v m ≡ some (a, m'))
      × IsMap m' (xs ++ ((key, a, v) ∷ [])) fs
unfolding add dirty_add
add-append same key v m xs a w fs is o =
    let (r, e, ne, at, rest) = is.spare in
    let (out, out', apart) = Distinct-take a w (cells xs) fs is.apart in
    let c : Item _ = item v r in
    (
      record m {
        heap = assign m.heap a c;
        free = r;
        index = index_put same key a m.index;
        count = m.count + 1;
      },
      rw (e, ne→==_false a null ne, at, ne→==_false a null ne, at) refl,
      record {
        index = ap (index_put same key a) is.index ∙ index_put-Absent same key a v xs o;
        stored =
            Stored-append (assign m.heap a c) xs ((key, a, v) ∷ [])
              (Stored-assign m.heap a c xs out is.stored) (ne, (r, ground arith), tt);
        spare = Seg-assign m.heap r null a c fs out' rest;
        apart =
            subst (λ zs. Distinct (zs ++ fs)) (sym (cells-append xs ((key, a, v) ∷ [])))
              (Distinct-snoc a v (cells xs) fs (Distinct-put a v (cells xs) fs out out' apart));
        guard = ground (arith, is.guard, ne);
      },
    )

-- remove of a key on a well-formed map that has it once: its item is the first free one then, the
-- key is not found any more, the other entries keep their places and values, and the map stays
-- well-formed.
pub remove-erase :
    {K V : Type 0} (same : K → K → Bool) (key : K) (v : V) (m : SafeMap K V)
    (xs ys : List (Entry K V)) (a : Ptr) (fs : Cells V)
    → same key key ≡ true
    → IsMap m (xs ++ ((key, a, v) ∷ ys)) fs
    → Absent same key xs
    → Absent same key ys
    → (m' : SafeMap K V) × (remove same key m ≡ some m')
      × IsMap m' (xs ++ ys) ((a, v) ∷ fs)
      × (find same key m' ≡ null)
unfolding remove remove_item find
remove-erase same key v m xs ys a fs eq is o o' =
    let parts = Stored-parts m.heap xs ((key, a, v) ∷ ys) is.stored in
    let ne = parts.1.0 in
    let at = parts.1.1.1 in
    let (out, out1, out2, apart) =
      Distinct-move a v (cells xs) (cells ys) fs
        (subst (λ zs. Distinct (zs ++ fs)) (cells-append xs ((key, a, v) ∷ ys)) is.apart) in
    let c : Item _ = item v m.free in
    let index = ap (index_erase same key) is.index ∙ index_erase-at same key eq a v ys xs o in
    let where_at = ap (index_find same key) is.index ∙ index_find-at same key eq a v ys xs o in
    (
      record m { heap = assign m.heap a c; free = a; index = index_erase same key m.index },
      rw (where_at, ne→==_false a null ne, at) refl,
      record {
        index = index;
        stored =
            Stored-append (assign m.heap a c) xs ys (Stored-assign m.heap a c xs out parts.0)
              (Stored-assign m.heap a c ys out1 parts.1.2);
        spare =
            (m.free, refl, ne, ground arith, Seg-assign m.heap m.free null a c fs out2 is.spare);
        apart = subst (λ zs. Distinct (zs ++ ((a, v) ∷ fs))) (sym (cells-append xs ys)) apart;
        guard = ground (arith, is.guard, ne);
      },
      ap (index_find same key) index
          ∙ index_find-Absent same key (xs ++ ys) (Absent-append same key xs ys o o'),
    )

-- find of a key that is there gives its place, and of one that is not NULL.
pub find-places :
    {K V : Type 0} (same : K → K → Bool) (key : K) (v : V) (m : SafeMap K V)
    (xs ys : List (Entry K V)) (a : Ptr) (fs : Cells V)
    → same key key ≡ true
    → IsMap m (xs ++ ((key, a, v) ∷ ys)) fs
    → Absent same key xs
    → find same key m ≡ a
unfolding find
find-places same key v m xs ys a fs eq is o =
    ap (index_find same key) is.index ∙ index_find-at same key eq a v ys xs o

-- add on a full map gives NULL and changes nothing.
pub add_full-null :
    {K V : Type 0} (same : K → K → Bool) (key : K) (v : V) (m : SafeMap K V) (xs : List (Entry K V))
    → IsMap m xs []
    → add same key v m ≡ some (null, m)
unfolding add dirty_add
add_full-null same key v m xs is = rw is.spare refl

Distinct-insert :
    {V : Type 0} (a : Ptr) (v : V) (xs ys fs : Cells V)
    → has a xs ≡ false
    → has a (ys ++ fs) ≡ false
    → Distinct ((xs ++ ys) ++ fs)
    → Distinct ((xs ++ ((a, v) ∷ ys)) ++ fs)
Distinct-insert a v [] ys fs o o' d = (o', d)
Distinct-insert a v ((b, w) ∷ xs) ys fs o o' d =
    let front = has-append b (xs ++ ((a, v) ∷ ys)) fs in
    let front1 = has-append b xs ((a, v) ∷ ys) in
    let whole = has-append b (xs ++ ys) fs in
    let whole1 = has-append b xs ys in
    (
      ground (arith, front, front1, whole, whole1, d.0, o),
      Distinct-insert a v xs ys fs (ground (arith, o)) o' d.1,
    )

-- add of a key that is there already takes a second item for it, `b`, the first free one: behind this call the first one,
-- `a`, is neither under a key nor free. The map stays well-formed, with `b` in the place of `a`.
pub add-lost :
    {K V : Type 0} (same : K → K → Bool) (key : K) (v w u : V) (m : SafeMap K V)
    (xs ys : List (Entry K V)) (a b : Ptr) (fs : Cells V)
    → same key key ≡ true
    → IsMap m (xs ++ ((key, a, w) ∷ ys)) ((b, u) ∷ fs)
    → Absent same key xs
    → (m' : SafeMap K V) × (add same key v m ≡ some (b, m'))
      × IsMap m' (xs ++ ((key, b, v) ∷ ys)) fs
      × (has a (cells (xs ++ ((key, b, v) ∷ ys)) ++ fs) ≡ false)
unfolding add dirty_add
add-lost same key v w u m xs ys a b fs eq is o =
    let parts = Stored-parts m.heap xs ((key, a, w) ∷ ys) is.stored in
    let (r, e, ne, at, rest) = is.spare in
    let c : Item _ = item v r in
    let cx = cells xs in
    let cy = cells ys in
    let (ax, ay, af, d1) = Distinct-move a w cx cy ((b, u) ∷ fs) (
      subst (λ zs. Distinct (zs ++ ((b, u) ∷ fs))) (cells-append xs ((key, a, w) ∷ ys)) is.apart) in
    let d2 = (Distinct-take a w (cx ++ cy) ((b, u) ∷ fs) d1).2 in
    let (bxy, bf, d3) = Distinct-take b u (cx ++ cy) fs d2 in
    let (bx, by) = has-append_false b cx cy bxy in
    let put = cells-append xs ((key, b, v) ∷ ys) in
    let gone : has a ((cx ++ ((b, v) ∷ cy)) ++ fs) ≡ false =
      ground
        (arith, has-append a (cx ++ ((b, v) ∷ cy)) fs, has-append a cx ((b, v) ∷ cy), ax, ay, af) in
    (
      record m {
        heap = assign m.heap b c;
        free = r;
        index = index_put same key b m.index;
        count = m.count + 1;
      },
      rw (e, ne→==_false b null ne, at, ne→==_false b null ne, at) refl,
      record {
        index = ap (index_put same key b) is.index ∙ index_put-at same key eq a w ys b v xs o;
        stored =
            Stored-append (assign m.heap b c) xs ((key, b, v) ∷ ys)
              (Stored-assign m.heap b c xs bx parts.0)
              (ne, (r, ground arith), Stored-assign m.heap b c ys by parts.1.2);
        spare = Seg-assign m.heap r null b c fs bf rest;
        apart =
            subst (λ zs. Distinct (zs ++ fs)) (sym put)
              (Distinct-insert b v cx cy fs bx (rw (has-append b cy fs, by, bf) refl) d3);
        guard = ground (arith, is.guard, ne);
      },
      ap (λ zs. has a (zs ++ fs)) put ∙ gone,
    )

-- The constructor makes a well-formed empty map in which every item is free.
pub create-IsMap :
    {K V : Type 0} (garbage : V) (maxlen : ℕ)
    → (fs : Cells V) × IsMap {K = K} (create garbage maxlen) [] fs × (length fs ≡ maxlen)
unfolding create
create-IsMap garbage zero =
    ([], record { index = refl; stored = tt; spare = refl; apart = tt; guard = refl }, refl)
create-IsMap garbage (suc n) = (
  all_items garbage (suc n) 1,
  record {
    index = refl;
    stored = tt;
    spare =
        subst (λ p. Chain (linked garbage (suc n) null) p (all_items garbage (suc n) 1))
          (sym (ap (λ b. if b then null else 1) (ne→==_false (suc n) 0 (λ e. omega (arith, e)))))
          (Chain-linked garbage n (suc n) 1 (omega arith) (omega arith));
    apart = Distinct-all_items garbage (suc n) 1;
    guard = refl;
  },
  length-all_items garbage (suc n) 1,
)
