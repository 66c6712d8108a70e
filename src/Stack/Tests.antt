-- ===== src/Stack/Tests.antt =====
-- A stack of two items with one value, and the theorems about class Stack of
-- src/headers/maycloud/stack.h at it.
use libmaycloud.Common.{ℕ, refl, none, some, [], ◌∷◌, arith, ◌==◌, if◌then◌else◌}
use libmaycloud.Pool.{item}
use libmaycloud.Stack.{Stack}
use libmaycloud.Stack.Laws.{Holds}

abbrev one : Stack ℕ
one = record {
  capacity = 2;
  heap = λ a. if a == 1 then some (item 5 0) else if a == 2 then some (item 9 0) else none;
  free = 2;
  top = 1;
}

one-Holds : Holds one 2 (5 ∷ [])
one-Holds = (
  (1, 5) ∷ [],
  (2, 9) ∷ [],
  record {
    used = (0, refl, ground arith, refl, refl);
    spare = (0, refl, ground arith, refl, refl);
    apart = (refl, (refl, tt));
    room = refl;
    guard = refl;
  },
  refl,
  refl,
)

abbrev full : Stack ℕ
full = record {
  capacity = 1;
  heap = λ a. if a == 1 then some (item 5 0) else none;
  free = 0;
  top = 1;
}

full-Holds : Holds full 1 (5 ∷ [])
full-Holds = (
  (1, 5) ∷ [],
  [],
  record {
    used = (0, refl, ground arith, refl, refl);
    spare = refl;
    apart = (refl, tt);
    room = refl;
    guard = refl;
  },
  refl,
  refl,
)
