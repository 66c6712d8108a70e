-- ===== src/Queue.antt =====
-- class Queue of src/headers/maycloud/queue.h: a queue whose items come from its own array. The
-- parameter `dflt` is the value `type()` of the item type, and `eq` its operator ==.
pub mod Shape
pub mod Create
pub mod Push
pub mod Pop
pub mod Search
pub mod Defects
mod Tests
use libmaycloud.Common.{
  ℕ, zero, suc, ◌+◌, Bool, Option, none, some, ◌==◌, if◌then◌else◌, ◌>>=◌, inc64, dec64,
}
use libmaycloud.Pool.{Ptr, null, Heap, set_next, set_value, linked}

pub record Queue (A : Type 0) : Type 0 where
  pub capacity : ℕ
  pub count : ℕ
  pub heap : Heap A
  pub free : Ptr
  pub first : Ptr
  pub last : Ptr

module _ {A : Type 0} where
  -- The constructor; with capacity 0 it writes outside the array.
  pub create : A → ℕ → Option (Queue A)
  create garbage cap =
      if cap == 0
      then none
      else some (record {
        capacity = cap;
        count = 0;
        heap = linked garbage cap null;
        free = 1;
        first = null;
        last = null;
      })

  pub is_empty : Queue A → Bool
  is_empty q = q.first == null

  pub alloc_item : Queue A → Option (Ptr × Queue A)
  alloc_item q =
      if q.free == null
      then some (null, q)
      else q.heap q.free >>= λ c. some (q.free, record q { free = c.next; count = inc64 q.count })

  pub release_item : Ptr → Queue A → Option (Queue A)
  release_item p q = set_next q.heap p q.free >>= λ h.
      some (record q { heap = h; free = p; count = dec64 q.count })

  -- What `push` does with the item that it got.
  link_last : A → Ptr → Queue A → Option (Queue A)
  unfolding is_empty
  link_last v p q = set_value q.heap p v >>= λ h1. set_next h1 p null >>= λ h2.
      (if is_empty q then some h2 else set_next h2 q.last p) >>= λ h3.
      some (record q { heap = h3; first = if is_empty q then p else q.first; last = p })

  pub push : A → Queue A → Option (Queue A)
  unfolding alloc_item link_last
  push v q = alloc_item q >>= λ r. if r.0 == null then some r.1 else link_last v r.0 r.1

  pub push_first : A → Queue A → Option (Queue A)
  unfolding alloc_item
  push_first v q = alloc_item q >>= λ r.
      if r.0 == null
      then some r.1
      else set_value r.1.heap r.0 v >>= λ h1.
          set_next h1 r.0 r.1.first >>= λ h2. some (record (r.1) { heap = h2; first = r.0 })

  pub pop : A → Queue A → Option (A × Queue A)
  unfolding is_empty release_item
  pop dflt q =
      if is_empty q
      then some (dflt, q)
      else q.heap q.first >>= λ c.
          release_item q.first
            (record q { last = if q.first == q.last then c.next else q.last; first = c.next })
          >>= λ q'. some (c.value, q')

  pub get_first : A → Queue A → Option A
  unfolding is_empty
  get_first dflt q = if is_empty q then some dflt else q.heap q.first >>= λ c. some c.value

  pub get_last : A → Queue A → Option A
  unfolding is_empty
  get_last dflt q = if is_empty q then some dflt else q.heap q.last >>= λ c. some c.value

  -- The loop of `freeAll`; without fuel it is `none`.
  free_loop : ℕ → A → Queue A → Option (Queue A)
  unfolding is_empty pop
  free_loop zero dflt q = none
  free_loop (suc fuel) dflt q =
      let rest = pop dflt q >>= λ r. free_loop fuel dflt r.1 in if is_empty q then some q else rest

  -- No queue holds more than `count` items.
  pub free_all : A → Queue A → Option (Queue A)
  unfolding free_loop
  free_all dflt q = free_loop (q.count + 1) dflt q

  module _ (eq : A → A → Bool) where
    -- The loop of `searchAndDel`, at the item `p`; without fuel it is `none`.
    pub search_loop : ℕ → A → A → Ptr → Queue A → Option (A × Queue A)
    unfolding release_item
    search_loop zero dflt v p q = none
    search_loop (suc fuel) dflt v p q = q.heap p >>= λ c.
        if c.next == null
        then some (dflt, q)
        else q.heap c.next >>= λ d.
            let rest = search_loop fuel dflt v c.next q in
            let found = set_next q.heap p d.next >>= λ h.
            release_item c.next (record q { heap = h }) >>= λ q'. some (d.value, q') in
            if eq v d.value then found else rest

    pub search_and_del : A → A → Queue A → Option (A × Queue A)
    unfolding is_empty pop search_loop
    search_and_del dflt v q =
        if is_empty q
        then some (dflt, q)
        else q.heap q.first >>= λ c.
            if eq v c.value then pop dflt q else search_loop (q.count + 1) dflt v q.first q
