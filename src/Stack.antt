-- ===== src/Stack.antt =====
-- class Stack of src/headers/maycloud/stack.h: a stack whose items come from its own array. Its field
-- `count` is never read or written, and has no field here.
pub mod Laws
mod Tests
use libmaycloud.Common.{ℕ, Bool, Option, none, some, ◌==◌, if◌then◌else◌, ◌>>=◌}
use libmaycloud.Pool.{Ptr, null, Heap, set_next, set_value, linked}

pub record Stack (A : Type 0) : Type 0 where
  pub capacity : ℕ
  pub heap : Heap A
  pub free : Ptr
  pub top : Ptr

module _ {A : Type 0} where
  -- The constructor; with capacity 0 it writes outside the array.
  pub create : A → ℕ → Option (Stack A)
  create garbage cap =
      if cap == 0
      then none
      else some (record { capacity = cap; heap = linked garbage cap null; free = 1; top = null })

  -- No test for NULL: with no free item the read of `p->next` faults.
  pub alloc_item : Stack A → Option (Ptr × Stack A)
  alloc_item s = s.heap s.free >>= λ c. some (s.free, record s { free = c.next })

  pub release_item : Ptr → Stack A → Option (Stack A)
  release_item p s = set_next s.heap p s.free >>= λ h. some (record s { heap = h; free = p })

  pub is_empty : Stack A → Bool
  is_empty s = s.top == null

  pub push : A → Stack A → Option (Stack A)
  unfolding alloc_item
  push v s = alloc_item s >>= λ r. set_value r.1.heap r.0 v >>= λ h1.
      set_next h1 r.0 r.1.top >>= λ h2. some (record (r.1) { heap = h2; top = r.0 })

  pub pop : A → Stack A → Option (A × Stack A)
  unfolding is_empty release_item
  pop dflt s =
      if is_empty s
      then some (dflt, s)
      else s.heap s.top >>= λ c.
          release_item s.top (record s { top = c.next }) >>= λ s'. some (c.value, s')
