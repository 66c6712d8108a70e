-- ===== src/HeavyHash/Release.antt =====
-- What hashDelete of src/headers/maycloud/heavyhash.h runs behind its loop, and on which tests it branches.
use libmaycloud.Common.{
  ℕ, ◌≡◌, refl, ap, ◌∙◌, ◌≢◌, Bool, true, false, Option, some, ◌==◌, if◌then◌else◌, ne→==_false,
  ◌>>=◌,
}
use libmaycloud.Pool.{Ptr, null, Item, item, assign, set_next}
use libmaycloud.Pool.Chain.{assign-other}
use libmaycloud.HeavyHash.{
  HeavyHash, release_cell, set_table, delete_loop, delete_behind, hash_delete,
}

module _ {K V : Type 0} (same : K → K → Bool) (hash : K → ℕ) (m : HeavyHash K V) where
  -- releaseItem of an item that is there.
  pub release-run :
      (a : Ptr) (c : Item (K × V))
      → m.heap a ≡ some c
      → release_cell a m
        ≡ some (record m { heap = assign m.heap a (item c.value m.free); free = a })
  unfolding release_cell
  release-run a c at =
      ap
        (λ o. (o >>= λ d. some (assign m.heap a (item d.value m.free))) >>= λ h.
          some (record m { heap = h; free = a }))
        at

module _ {K V : Type 0} (same : K → K → Bool) (hash : K → ℕ) (fuel : ℕ) (key : K)
    (m : HeavyHash K V) where
  -- The table when the item `r` behind `o` is taken out and released.
  abbrev pub unlinked : Ptr → Ptr → Item (K × V) → Item (K × V) → HeavyHash K V
  unlinked o r c d = record m {
    heap = assign (assign m.heap o (item c.value d.next)) r (item d.value m.free);
    free = r;
  }

  abbrev at_items : Ptr → Option (Item (K × V)) → Option (HeavyHash K V)
  at_items o x = x >>= λ c. m.heap c.next >>= λ d.
      set_next m.heap o d.next >>= λ h. release_cell c.next (record m { heap = h })

  abbrev at_behind : Ptr → Item (K × V) → Ptr → Option (Item (K × V)) → Option (HeavyHash K V)
  at_behind o c r x =
      x >>= λ d. set_next m.heap o d.next >>= λ h. release_cell r (record m { heap = h })

  abbrev at_place : Ptr → Bool → Option (HeavyHash K V)
  at_place o stop = if stop then some m else at_items o (m.heap o)

  unlink-run :
      (o r : Ptr) (c d : Item (K × V))
      → m.heap o ≡ some c
      → c.next ≡ r
      → m.heap r ≡ some d
      → (r == o) ≡ false
      → at_items o (m.heap o) ≡ some (unlinked o r c d)
  unlink-run o r c d ho n hr ro =
      ap (at_items o) ho
      ∙ ap (λ z. at_behind o c z (m.heap z)) n
      ∙ ap (at_behind o c r) hr
      ∙ ap
          (λ x. (x >>= λ e. some (assign m.heap o (item e.value d.next))) >>= λ h.
            release_cell r (record m { heap = h }))
          ho
      ∙ release-run same hash (record m { heap = assign m.heap o (item c.value d.next) }) r d
          (assign-other m.heap o r (item c.value d.next) ro ∙ hr)

  pub delete_behind-run :
      (first o r : Ptr) (c d : Item (K × V))
      → delete_loop same hash fuel m.heap first key ≡ some o
      → o ≢ null
      → m.heap o ≡ some c
      → c.next ≡ r
      → m.heap r ≡ some d
      → (r == o) ≡ false
      → delete_behind same hash fuel first key m ≡ some (unlinked o r c d)
  unfolding delete_behind
  delete_behind-run first o r c d run ne ho n hr ro =
      ap (λ x. x >>= λ p. at_place p (p == null)) run
      ∙ ap (at_place o) (ne→==_false o null ne)
      ∙ unlink-run o r c d ho n hr ro

  pub delete_behind-none :
      (first : Ptr)
      → delete_loop same hash fuel m.heap first key ≡ some null
      → delete_behind same hash fuel first key m ≡ some m
  unfolding delete_behind
  delete_behind-none first run = ap (λ x. x >>= λ p. at_place p (p == null)) run

  -- The tests of hashDelete at the first item.
  abbrev at_first : Ptr → Item (K × V) → Bool → Option (HeavyHash K V)
  at_first p c hit =
      if hit
      then release_cell p (set_table (hash key) c.next m)
      else delete_behind same hash fuel p key m

  abbrev at_bucket : Ptr → Bool → Option (HeavyHash K V)
  at_bucket p stop = if stop then some m else (m.heap p >>= λ c. at_first p c (same c.value.0 key))

  hash_delete-tests :
      hash_delete same hash fuel key m ≡ at_bucket (m.table (hash key)) (m.table (hash key) == null)
  unfolding hash_delete
  hash_delete-tests = refl

  pub hash_delete-empty : m.table (hash key) ≡ null → hash_delete same hash fuel key m ≡ some m
  hash_delete-empty e = hash_delete-tests ∙ ap (λ p. at_bucket p (p == null)) e

  module _ (a : Ptr) (c : Item (K × V)) (e : m.table (hash key) ≡ a) (ne : a ≢ null)
      (at : m.heap a ≡ some c) where
    to_first : hash_delete same hash fuel key m ≡ at_first a c (same c.value.0 key)
    to_first =
        hash_delete-tests
        ∙ ap (λ p. at_bucket p (p == null)) e
        ∙ ap (at_bucket a) (ne→==_false a null ne)
        ∙ ap (λ o. o >>= λ d. at_first a d (same d.value.0 key)) at

    pub hash_delete-first :
        same c.value.0 key ≡ true
        → hash_delete same hash fuel key m
          ≡ some (record (set_table (hash key) c.next m) {
            heap = assign m.heap a (item c.value m.free);
            free = a;
          })
    hash_delete-first t =
        to_first
        ∙ ap (at_first a c) t
        ∙ release-run same hash (set_table (hash key) c.next m) a c at

    pub hash_delete-behind :
        same c.value.0 key ≡ false
        → hash_delete same hash fuel key m ≡ delete_behind same hash fuel a key m
    hash_delete-behind f = to_first ∙ ap (at_first a c) f
