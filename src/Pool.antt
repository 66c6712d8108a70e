-- ===== src/Pool.antt =====
-- The "heap" that src/headers/maycloud/queue.h, stack.h and heavyhash.h and src/blockpool.cpp carry:
-- an array of items, each with a value and a pointer to the next item. A pointer is a number, 0 for
-- NULL and i + 1 for &heap[i]; the array is a function that is `none` outside its bounds, so a read
-- or a write through NULL or out of bounds is a fault, the value `none` of a command.
pub mod Chain
pub mod Distinct
pub mod Linked
use libmaycloud.Common.{ℕ, ◌+◌, Option, none, some, ltb, ◌==◌, if◌then◌else◌, ◌>>=◌}

abbrev pub Ptr : Type 0
Ptr = ℕ

abbrev pub null : Ptr
null = 0

pub record Item (A : Type 0) : Type 0 where
  pub value : A
  pub next : Ptr

abbrev pub item : {A : Type 0} → A → Ptr → Item A
item v q = record { value = v; next = q }

abbrev pub Heap : Type 0 → Type 0
Heap A = Ptr → Option (Item A)

module _ {A : Type 0} where
  -- The array after `*p = c`.
  abbrev pub assign : Heap A → Ptr → Item A → Heap A
  assign h p c a = if a == p then some c else h a

  -- `p->next = q` and `p->value = v`.
  abbrev pub set_next : Heap A → Ptr → Ptr → Option (Heap A)
  set_next h p q = h p >>= λ c. some (assign h p (item c.value q))

  abbrev pub set_value : Heap A → Ptr → A → Option (Heap A)
  set_value h p v = h p >>= λ c. some (assign h p (item v c.next))

  -- The constructors' loop: item i points to item i + 1, and the last one to `end`. `garbage` is
  -- what `new` leaves in a value.
  abbrev pub linked : A → ℕ → Ptr → Heap A
  linked garbage capacity end a =
      if a == 0
      then none
      else if ltb a capacity
      then some (item garbage (a + 1))
      else if a == capacity
      then some (item garbage end)
      else none
