-- ===== src/SafeMap/Index.antt =====
-- The index of src/headers/maycloud/safemap.h on well-formed maps.
use libmaycloud.Common.{◌≡◌, refl, ap, Bool, true, List, [], ◌∷◌, ◌++◌}
use libmaycloud.Pool.{Ptr, null}
use libmaycloud.SafeMap.{index_find, index_put, index_erase}
use libmaycloud.SafeMap.Shape.{Entry, places, Absent}

module _ {K V : Type 0} (same : K → K → Bool) (key : K) where
  pub index_find-Absent :
      (xs : List (Entry K V)) → Absent same key xs → index_find same key (places xs) ≡ null
  unfolding index_find
  index_find-Absent [] o = refl
  index_find-Absent ((k, p, v) ∷ xs) o = rw o.0 (index_find-Absent xs o.1)

  pub index_put-Absent :
      (q : Ptr) (v : V) (xs : List (Entry K V))
      → Absent same key xs
      → index_put same key q (places xs) ≡ places (xs ++ ((key, q, v) ∷ []))
  unfolding index_put
  index_put-Absent q v [] o = refl
  index_put-Absent q v ((k, p, w) ∷ xs) o =
      rw o.0 (ap (λ r. (k, p) ∷ r) (index_put-Absent q v xs o.1))

  module _ (refl_at : same key key ≡ true) (a : Ptr) (w : V) (ys : List (Entry K V)) where
    pub index_find-at :
        (xs : List (Entry K V))
        → Absent same key xs
        → index_find same key (places (xs ++ ((key, a, w) ∷ ys))) ≡ a
    unfolding index_find
    index_find-at [] o = rw refl_at refl
    index_find-at ((k, p, v) ∷ xs) o = rw o.0 (index_find-at xs o.1)

    pub index_put-at :
        (q : Ptr) (u : V) (xs : List (Entry K V))
        → Absent same key xs
        → index_put same key q (places (xs ++ ((key, a, w) ∷ ys)))
          ≡ places (xs ++ ((key, q, u) ∷ ys))
    unfolding index_put
    index_put-at q u [] o = rw refl_at refl
    index_put-at q u ((k, p, v) ∷ xs) o = rw o.0 (ap (λ r. (k, p) ∷ r) (index_put-at q u xs o.1))

    pub index_erase-at :
        (xs : List (Entry K V))
        → Absent same key xs
        → index_erase same key (places (xs ++ ((key, a, w) ∷ ys))) ≡ places (xs ++ ys)
    unfolding index_erase
    index_erase-at [] o = rw refl_at refl
    index_erase-at ((k, p, v) ∷ xs) o = rw o.0 (ap (λ r. (k, p) ∷ r) (index_erase-at xs o.1))
