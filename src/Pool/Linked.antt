-- ===== src/Pool/Linked.antt =====
-- The array as the constructors of Queue, Stack and HeavyHash leave it: one list of all its items.
use libmaycloud.Common.{ℕ, zero, suc, ◌+◌, ◌<◌, ◌≡◌, refl, false, [], ◌∷◌, arith, length}
use libmaycloud.Pool.{Ptr, null, linked}
use libmaycloud.Pool.Chain.{Cells, has, Distinct, Chain}

module _ {A : Type 0} (garbage : A) where
  -- The `n` items from `i` on.
  unfoldable pub all_items : ℕ → Ptr → Cells A
  all_items zero i = []
  all_items (suc n) i = (i, garbage) ∷ all_items n (i + 1)

  pub length-all_items : (n : ℕ) (i : Ptr) → length (all_items n i) ≡ n
  unfolding all_items
  length-all_items zero i = refl
  length-all_items (suc n) i = omega (arith, length-all_items n (i + 1))

  has-all_items : (n : ℕ) (i a : Ptr) → a < i → has a (all_items n i) ≡ false
  unfolding all_items
  has-all_items zero i a h = refl
  has-all_items (suc n) i a h = ground (arith, has-all_items n (i + 1) a)

  pub Distinct-all_items : (n : ℕ) (i : Ptr) → Distinct (all_items n i)
  unfolding all_items
  Distinct-all_items zero i = tt
  Distinct-all_items (suc n) i =
      (has-all_items n (i + 1) i (omega arith), Distinct-all_items n (i + 1))

  pub Chain-linked :
      (n cap : ℕ) (i : Ptr)
      → 0 < i
      → i + n ≡ cap
      → Chain (linked garbage cap null) i (all_items (suc n) i)
  unfolding all_items
  Chain-linked zero cap i h e = (null, refl, ground arith, ground arith, refl)
  Chain-linked (suc n) cap i h e = (
    i + 1,
    refl,
    ground arith,
    ground arith,
    Chain-linked n cap (i + 1) (omega arith) (omega arith),
  )
