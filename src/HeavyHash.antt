-- ===== src/HeavyHash.antt =====
-- class Hasher of src/hasher.cpp and class HeavyHash of src/headers/maycloud/heavyhash.h. An item holds a key and a value.
-- The table is a function, 0 (NULL) outside its bounds, where it is never read: a hash is below the capacity. The
-- field `count` is never read or written, and has no field here.
pub mod Hash
pub mod Cells
pub mod Shape
pub mod Insert
pub mod Remove
pub mod Once
pub mod Unlink
pub mod Delete
pub mod Release
pub mod Laws
pub mod Deletion
pub mod Refinement
mod Tests
use libmaycloud.Common.{
  ℕ, zero, suc, ◌+◌, ◌*◌, ◌%◌, ◌^◌, Bool, true, false, Option, none, some, List, [], ◌∷◌, ◌==◌,
  if◌then◌else◌, ◌>>=◌,
}
use libmaycloud.Pool.{Ptr, null, item, Heap, assign, set_next, set_value, linked}

-- Hasher::feedChar on a size_t of 64 bits, and feedData. A modulus 0 is a division by zero in the code.
pub feed_char : (hash modulus : ℕ) → (c : ℕ) → ℕ
feed_char hash modulus c = (hash * 256 + c) % 2 ^ 64 % modulus

pub feed_data : (hash modulus : ℕ) → List ℕ → ℕ
unfolding feed_char
feed_data hash modulus [] = hash
feed_data hash modulus (c ∷ s) = feed_data (feed_char hash modulus c) modulus s

pub record HeavyHash (K V : Type 0) : Type 0 where
  pub capacity : ℕ
  pub heap : Heap (K × V)
  pub free : Ptr
  pub table : ℕ → Ptr

-- The constructor: neither the table nor the last pointer is set, they are what is in memory.
unfoldable pub new_hash :
    {K V : Type 0} → (garbage : K × V) → (last : Ptr) → (table : ℕ → Ptr) → ℕ → HeavyHash K V
new_hash garbage last table cap = record {
  capacity = cap;
  heap = linked garbage cap last;
  free = 1;
  table = table;
}

-- getHash; `bytes` is the memory of a key.
pub get_hash : {K V : Type 0} → (bytes : K → List ℕ) → K → HeavyHash K V → ℕ
unfolding feed_data
get_hash bytes key m = feed_data 0 m.capacity (bytes key)

module _ {K V : Type 0} where
  unfoldable pub alloc_cell : HeavyHash K V → Option (Ptr × HeavyHash K V)
  alloc_cell m =
      if m.free == null
      then some (null, m)
      else (m.heap m.free >>= λ c. some (m.free, record m { free = c.next }))

  unfoldable pub release_cell : Ptr → HeavyHash K V → Option (HeavyHash K V)
  release_cell p m = set_next m.heap p m.free >>= λ h. some (record m { heap = h; free = p })

  abbrev pub set_table : ℕ → Ptr → HeavyHash K V → HeavyHash K V
  set_table hash p m = record m { table = λ i. if i == hash then p else m.table i }

-- `same` is operator == of the keys, `hash` is getHash on a table of this capacity. Without fuel the loops do not end.
module _ {K V : Type 0} (same : K → K → Bool) (hash : K → ℕ) where
  unfoldable pub find_loop : (fuel : ℕ) → Heap (K × V) → Ptr → K → Option Ptr
  find_loop zero h p key = none
  find_loop (suc fuel) h p key =
      if p == null
      then some null
      else (h p >>= λ c. elim (same c.value.0 key) [
        | true ↦ some p
        | false ↦ find_loop fuel h c.next key
      ])

  unfoldable pub find_key : (fuel : ℕ) → K → HeavyHash K V → Option Ptr
  unfolding find_loop
  find_key fuel key m = find_loop fuel m.heap (m.table (hash key)) key

  -- `dflt` is itemtype().
  unfoldable pub hash_search : (fuel : ℕ) → (dflt : V) → K → HeavyHash K V → Option V
  unfolding find_key
  hash_search fuel dflt key m = find_key fuel key m >>= λ p.
      if p == null then some dflt else (m.heap p >>= λ c. some c.value.1)

  unfoldable pub add_value : K → V → HeavyHash K V → Option (HeavyHash K V)
  unfolding alloc_cell
  add_value key v m = alloc_cell m >>= λ r.
      if r.0 == null
      then some m
      else (set_value r.1.heap r.0 (key, v) >>= λ h. set_next h r.0 (r.1.table (hash key)) >>= λ h'.
          some (set_table (hash key) r.0 (record (r.1) { heap = h' })))

  -- `p->value = value`.
  abbrev pub replace_at : Ptr → V → HeavyHash K V → Option (HeavyHash K V)
  replace_at p v m =
      m.heap p >>= λ c. some (record m { heap = assign m.heap p (item (c.value.0, v) c.next) })

  unfoldable pub hash_insert : (fuel : ℕ) → K → V → HeavyHash K V → Option (HeavyHash K V)
  unfolding find_key add_value
  hash_insert fuel key v m =
      find_key fuel key m >>= λ p. if p == null then add_value key v m else replace_at p v m

  unfoldable pub hash_replace : (fuel : ℕ) → K → V → HeavyHash K V → Option (HeavyHash K V)
  unfolding find_key
  hash_replace fuel key v m =
      find_key fuel key m >>= λ p. if p == null then some m else replace_at p v m

  -- The item in front of the one with the key, or NULL.
  unfoldable pub delete_loop : (fuel : ℕ) → Heap (K × V) → Ptr → K → Option Ptr
  delete_loop zero h p key = none
  delete_loop (suc fuel) h p key =
      if p == null
      then some null
      else (h p >>= λ c. elim (c.next == null) [
        | true ↦ delete_loop fuel h c.next key
        | false ↦ h c.next >>= λ d. elim (same d.value.0 key) [
          | true ↦ some p
          | false ↦ delete_loop fuel h c.next key
        ]
      ])

  -- What hashDelete does behind the test of the first item.
  unfoldable pub delete_behind : (fuel : ℕ) → Ptr → K → HeavyHash K V → Option (HeavyHash K V)
  unfolding delete_loop release_cell
  delete_behind fuel first key m = delete_loop fuel m.heap first key >>= λ p.
      if p == null
      then some m
      else (m.heap p >>= λ c. m.heap c.next >>= λ d.
          set_next m.heap p d.next >>= λ h. release_cell c.next (record m { heap = h }))

  unfoldable pub hash_delete : (fuel : ℕ) → K → HeavyHash K V → Option (HeavyHash K V)
  unfolding delete_behind release_cell
  hash_delete fuel key m =
      let p = m.table (hash key) in
      if p == null
      then some m
      else (m.heap p >>= λ c.
          if same c.value.0 key
          then release_cell p (set_table (hash key) c.next m)
          else delete_behind fuel p key m)
