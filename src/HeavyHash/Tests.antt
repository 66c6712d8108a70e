-- ===== src/HeavyHash/Tests.antt =====
-- The constructor, insertion and search of src/headers/maycloud/heavyhash.h at concrete inputs.
use libmaycloud.Common.{
  ℕ, ◌%◌, ◌≡◌, refl, sym, Bool, Option, none, some, List, [], ◌∷◌, arith, ◌==◌, ==_iff, ◌>>=◌,
  true-ne-false,
}
use libmaycloud.Pool.{null}
use libmaycloud.Pool.Chain.{Cells}
use libmaycloud.Pool.Linked.{all_items, Distinct-all_items, Chain-linked}
use libmaycloud.HeavyHash.{
  feed_data, HeavyHash, new_hash, set_table, hash_search, hash_insert, hash_replace, hash_delete,
}
use libmaycloud.HeavyHash.Cells.{lookup_cell}
use libmaycloud.HeavyHash.Once.{Once}
use libmaycloud.HeavyHash.Insert.{linked_in, add-IsHash}
use libmaycloud.HeavyHash.Shape.{IsHash, put_bucket, view, put_bucket-all}
use libmaycloud.HeavyHash.Refinement.{
  IsMap, Says, without_key, InsertResult, hash_insert-InsertResult, hash_delete-Says,
}

-- Two items, and a table whose memory is zero.
abbrev two_cells : HeavyHash ℕ ℕ
two_cells = new_hash (0, 0) null (λ h. null) 2

abbrev parity : ℕ → ℕ
parity k = k % 2

abbrev two_free : Cells (ℕ × ℕ)
two_free = (1, (0, 0)) ∷ (2, (0, 0)) ∷ []

abbrev same_key : ℕ → ℕ → Bool
same_key k j = k == j

two_cells-IsHash : IsHash two_cells (λ h. []) two_free
unfolding new_hash all_items
two_cells-IsHash = record {
  chains = λ h. refl;
  spare = Chain-linked {A = ℕ × ℕ} (0, 0) 1 2 1 (omega arith) (omega arith);
  each = λ h. Distinct-all_items {A = ℕ × ℕ} (0, 0) 2 1;
  apart = λ h i ne a t. absurd (true-ne-false (sym t));
}

hash_insert-InsertResult_example :
    (m' : HeavyHash ℕ ℕ) × (hash_insert same_key parity 1 7 40 two_cells ≡ some m')
    × InsertResult same_key parity ==_iff 7 40 two_cells (λ h. []) two_free none m'
unfolding lookup_cell
hash_insert-InsertResult_example =
    hash_insert-InsertResult same_key parity ==_iff two_cells (λ h. []) 1 7 (omega arith) 40
      two_free (two_cells-IsHash, λ h. tt)

-- The table with 40 for 7.
abbrev one_key : HeavyHash ℕ ℕ
one_key = set_table 1 1 (record two_cells {
  heap = linked_in two_cells (λ h. []) 1 (0, 0) ((2, (0, 0)) ∷ []) two_cells-IsHash 1 (7, 40) 2;
  free = 2;
})

abbrev one_bucket : ℕ → Cells (ℕ × ℕ)
one_bucket = put_bucket (λ h. []) 1 ((1, (7, 40)) ∷ [])

one_key-IsMap : IsMap same_key parity ==_iff one_key one_bucket ((2, (0, 0)) ∷ [])
unfolding lookup_cell new_hash
one_key-IsMap = (
  add-IsHash two_cells (λ h. []) 1 (0, 0) ((2, (0, 0)) ∷ []) two_cells-IsHash 1 (7, 40) 2 2
      (omega arith) (0, refl, omega arith, refl, refl),
  put_bucket-all {A = ℕ × ℕ} (λ h. []) 1 ((1, (7, 40)) ∷ []) (λ i xs. Once same_key parity xs)
      (refl, tt) (λ i f. tt),
)

hash_delete-Says_example :
    (m' : HeavyHash ℕ ℕ) × (hash_delete same_key parity 2 7 one_key ≡ some m')
    × Says same_key parity ==_iff
        (without_key same_key parity ==_iff 7 (view same_key parity one_bucket))
        2
        m'
unfolding lookup_cell
hash_delete-Says_example =
    hash_delete-Says same_key parity ==_iff one_key one_bucket 2 7 (omega arith) ((2, (0, 0)) ∷ [])
      one_key-IsMap

-- Keys 7 and 9 share a bucket, and no item is left for 11.
abbrev insert_three : Option (HeavyHash ℕ ℕ)
insert_three =
    hash_insert (λ k j. k == j) parity 3 7 40 two_cells
    >>= hash_insert (λ k j. k == j) parity 3 9 50
    >>= hash_insert (λ k j. k == j) parity 3 11 60

abbrev search_three : Option (HeavyHash ℕ ℕ) → List (Option ℕ)
search_three t =
    (t >>= hash_search (λ k j. k == j) parity 3 0 7)
    ∷ (t >>= hash_search (λ k j. k == j) parity 3 0 9)
    ∷ (t >>= hash_search (λ k j. k == j) parity 3 0 11)
    ∷ []

search_inserted : search_three insert_three ≡ some 40 ∷ some 50 ∷ some 0 ∷ []
unfolding hash_insert new_hash hash_search
search_inserted = refl

-- The item of 7, which stands behind 9, serves 11 after its deletion.
search_deleted :
    search_three (
      insert_three
      >>= hash_delete (λ k j. k == j) parity 3 7
      >>= hash_insert (λ k j. k == j) parity 3 11 60)
    ≡ some 0 ∷ some 50 ∷ some 60 ∷ []
unfolding hash_insert hash_delete new_hash hash_search
search_deleted = refl

search_replaced :
    search_three (
      insert_three
      >>= hash_replace (λ k j. k == j) parity 3 9 51
      >>= hash_replace (λ k j. k == j) parity 3 11 61)
    ≡ some 40 ∷ some 51 ∷ some 0 ∷ []
unfolding hash_insert hash_replace new_hash hash_search
search_replaced = refl

hash_bytes : feed_data 0 1000 (1 ∷ 2 ∷ 3 ∷ []) ≡ 51
unfolding feed_data
hash_bytes = refl
