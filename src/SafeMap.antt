-- ===== src/SafeMap.antt =====
-- class SafeMap of src/headers/maycloud/safemap.h. Its arrays `items` and `refs` have the same places, so they
-- are one heap here: the value of an item stands in `items`, its next pointer in `refs`. The index is a
-- std::map, an association list here; `same` says whether two keys are the same to it.
pub mod Shape
pub mod Index
pub mod Laws
mod Tests
use libmaycloud.Common.{ℕ, ◌+◌, Bool, Option, some, List, [], ◌∷◌, ◌==◌, if◌then◌else◌, ◌>>=◌}
use libmaycloud.Pool.{Ptr, null, item, Heap, set_next, set_value, linked}

pub record SafeMap (K V : Type 0) : Type 0 where
  pub count : ℕ
  pub capacity : ℕ
  pub heap : Heap V
  pub free : Ptr
  pub index : List (K × Ptr)

module _ {K : Type 0} (same : K → K → Bool) where
  -- index.find, index[key] = item and index.erase; a key that is not there is found at NULL.
  pub index_find : K → List (K × Ptr) → Ptr
  index_find key [] = null
  index_find key ((k, p) ∷ index) = if same k key then p else index_find key index

  pub index_put : K → Ptr → List (K × Ptr) → List (K × Ptr)
  index_put key q [] = (key, q) ∷ []
  index_put key q ((k, p) ∷ index) =
      if same k key then (k, q) ∷ index else (k, p) ∷ index_put key q index

  pub index_erase : K → List (K × Ptr) → List (K × Ptr)
  index_erase key [] = []
  index_erase key ((k, p) ∷ index) = if same k key then index else (k, p) ∷ index_erase key index

module _ {K V : Type 0} where
  -- The constructor: `refs` is linked from its end, so its first item is the first free one.
  pub create : V → ℕ → SafeMap K V
  create garbage maxlen = record {
    count = 0;
    capacity = maxlen;
    heap = linked garbage maxlen null;
    free = if maxlen == 0 then null else 1;
    index = [];
  }

  -- remove(item), which puts a place on the free list.
  pub remove_item : Ptr → SafeMap K V → Option (SafeMap K V)
  remove_item item m =
      set_next m.heap item m.free >>= λ h. some (record m { heap = h; free = item })

module _ {K V : Type 0} (same : K → K → Bool) where
  pub find : K → SafeMap K V → Ptr
  unfolding index_find
  find key m = index_find same key m.index

  pub dirty_add : K → SafeMap K V → Option (Ptr × SafeMap K V)
  unfolding index_put
  dirty_add key m =
      if m.free == null
      then some (null, m)
      else (m.heap m.free >>= λ c. some (
        m.free,
        record m { free = c.next; index = index_put same key m.free m.index; count = m.count + 1 },
      ))

  -- add(key, init).
  pub add : K → V → SafeMap K V → Option (Ptr × SafeMap K V)
  unfolding dirty_add
  add key init m = dirty_add key m >>= λ r.
      if r.0 == null
      then some r
      else (set_value r.1.heap r.0 init >>= λ h. some (r.0, record (r.1) { heap = h }))

  -- remove(key).
  pub remove : K → SafeMap K V → Option (SafeMap K V)
  unfolding find remove_item index_erase
  remove key m =
      let item = find key m in
      if item == null
      then some m
      else (remove_item item m >>= λ m'. some (record m' { index = index_erase same key m'.index }))
