-- ===== src/Blocks/Tests.antt =====
-- Pools of two blocks, and the theorems about src/blockpool.cpp at them.
use libmaycloud.Common.{ℕ, ◌≡◌, refl, none, some, [], ◌∷◌, ◌++◌, arith, ◌==◌, if◌then◌else◌}
use libmaycloud.Pool.{Ptr, item}
use libmaycloud.Pool.Chain.{Cells}
use libmaycloud.Blocks.{Block, BlockPool, create, alloc_by_blocks}
use libmaycloud.Blocks.Shape.{IsPool}
use libmaycloud.Blocks.Alloc.{Taken, alloc_by_blocks-take}

abbrev block : ℕ → Block
block a = record { addr = a; bytes = [] }

abbrev both : BlockPool
both = record {
  heap = λ a.
      if a == 8208
      then some (item (block 16384) 8192)
      else if a == 8192
      then some (item (block 12288) 0)
      else none;
  total_count = 2;
  free_count = 2;
  pool_size = 8192;
  stack = 8208;
  pools = record { data_at = 8192; blocks = 2 } ∷ [];
}

abbrev front : Cells Block
front = (8208, block 16384) ∷ []

abbrev back : Cells Block
back = (8192, block 12288) ∷ []

both-IsPool : IsPool both (front ++ back)
both-IsPool = record {
  spare = (8192, refl, ground arith, refl, (0, refl, ground arith, refl, refl));
  apart = (refl, (refl, tt));
  count = refl;
  within = omega arith;
  fits = omega arith;
  guard = refl;
}

-- `both` after one block was taken.
abbrev one_left : BlockPool
one_left = record both {
  heap = λ a.
      if a == 8208
      then some (item (block 16384) 0)
      else if a == 8192
      then some (item (block 12288) 0)
      else none;
  free_count = 1;
  stack = 8192;
}

one_left-IsPool : IsPool one_left back
one_left-IsPool = record {
  spare = (0, refl, ground arith, refl, refl);
  apart = (refl, tt);
  count = refl;
  within = omega arith;
  fits = omega arith;
  guard = refl;
}

empty_pool : IsPool (create (λ a. none)) []
unfolding create
empty_pool = record {
  spare = refl;
  apart = tt;
  count = refl;
  within = omega arith;
  fits = omega arith;
  guard = refl;
}

alloc_by_blocks-take_example :
    (q : Ptr) × (p' : BlockPool) × (alloc_by_blocks 1 both ≡ some (q, p'))
    × Taken both front back q p'
alloc_by_blocks-take_example = alloc_by_blocks-take both front back both-IsPool (omega arith)
