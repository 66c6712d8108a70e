-- ===== src/SafeMap/Tests.antt =====
-- A map of two items with one key, and the theorems on src/headers/maycloud/safemap.h at it.
use libmaycloud.Common.{
  ℕ, ◌≡◌, refl, Bool, false, none, some, [], ◌∷◌, ◌++◌, arith, ◌==◌, if◌then◌else◌,
}
use libmaycloud.Pool.{item}
use libmaycloud.Pool.Chain.{has}
use libmaycloud.SafeMap.{SafeMap, find, add, remove}
use libmaycloud.SafeMap.Shape.{cells, IsMap}
use libmaycloud.SafeMap.Laws.{add-append, remove-erase, add-lost}

abbrev same : ℕ → ℕ → Bool
same a b = a == b

abbrev one : SafeMap ℕ ℕ
one = record {
  count = 1;
  capacity = 2;
  heap = λ a. if a == 1 then some (item 50 2) else if a == 2 then some (item 9 0) else none;
  free = 2;
  index = (7, 1) ∷ [];
}

one-IsMap : IsMap one ((7, 1, 50) ∷ []) ((2, 9) ∷ [])
one-IsMap = record {
  index = refl;
  stored = ((λ e. omega (arith, e)), (2, refl), tt);
  spare = (0, refl, ground arith, refl, refl);
  apart = (refl, (refl, tt));
  guard = refl;
}

add-append_example :
    (m : SafeMap ℕ ℕ) × (add same 8 60 one ≡ some (2, m))
    × IsMap m ((7, 1, 50) ∷ (8, 2, 60) ∷ []) []
add-append_example = add-append same 8 60 one ((7, 1, 50) ∷ []) 2 9 [] one-IsMap (refl, tt)

remove-erase_example :
    (m : SafeMap ℕ ℕ) × (remove same 7 one ≡ some m)
    × IsMap m [] ((1, 50) ∷ (2, 9) ∷ [])
    × (find same 7 m ≡ 0)
remove-erase_example = remove-erase same 7 50 one [] [] 1 ((2, 9) ∷ []) refl one-IsMap tt tt

add-lost_example :
    (m : SafeMap ℕ ℕ) × (add same 7 60 one ≡ some (2, m))
    × IsMap m ((7, 2, 60) ∷ []) []
    × (has {A = ℕ} 1 (cells {K = ℕ} ((7, 2, 60) ∷ []) ++ []) ≡ false)
add-lost_example = add-lost same 7 60 50 9 one [] [] 1 2 [] refl one-IsMap tt
