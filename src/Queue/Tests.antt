-- ===== src/Queue/Tests.antt =====
-- A queue of three items with two values, and the theorems about class Queue of
-- src/headers/maycloud/queue.h at it.
use libmaycloud.Common.{ℕ, ◌≡◌, refl, none, some, [], ◌∷◌, arith, ◌==◌, if◌then◌else◌}
use libmaycloud.Pool.{item, Heap, linked}
use libmaycloud.Pool.Chain.{Cells, values, Chain}
use libmaycloud.Queue.{Queue, push, push_first, get_first, get_last, search_and_del}
use libmaycloud.Queue.Shape.{IsQueue, Holds}
use libmaycloud.Queue.Push.{push-append}
use libmaycloud.Queue.Pop.{last_or, get_ends}
use libmaycloud.Queue.Defects.{push-push_first_empty, push-search_and_del_last}

abbrev cells : Heap ℕ
cells a =
    if a == 1
    then some (item 5 2)
    else if a == 2
    then some (item 6 0)
    else if a == 3
    then some (item 0 0)
    else none

abbrev two : Queue ℕ
two = record { capacity = 3; count = 2; heap = cells; free = 3; first = 1; last = 2 }

abbrev two_used : Cells ℕ
two_used = (1, 5) ∷ (2, 6) ∷ []

abbrev two_free : Cells ℕ
two_free = (3, 0) ∷ []

two-IsQueue : IsQueue two two_used two_free
two-IsQueue = record {
  used = (2, refl, ground arith, refl, (0, refl, ground arith, refl, refl));
  spare = (0, refl, ground arith, refl, refl);
  apart = (refl, (refl, (refl, tt)));
  tail = refl;
  count = refl;
  room = refl;
  fits = omega arith;
  guard = refl;
}

two-Holds : Holds two 3 (5 ∷ 6 ∷ [])
two-Holds = (two_used, two_free, two-IsQueue, refl, refl)

abbrev none_yet : Queue ℕ
none_yet = record { capacity = 2; count = 0; heap = linked 0 2 0; free = 1; first = 0; last = 0 }

none_yet-Holds : Holds none_yet 2 []
none_yet-Holds = (
  [],
  (1, 0) ∷ (2, 0) ∷ [],
  record {
    used = refl;
    spare = (2, refl, ground arith, refl, (0, refl, ground arith, refl, refl));
    apart = (refl, (refl, tt));
    tail = refl;
    count = refl;
    room = refl;
    fits = omega arith;
    guard = refl;
  },
  refl,
  refl,
)

push-append_example : (q : Queue ℕ) × (push 7 two ≡ some q) × Holds q 3 (5 ∷ 6 ∷ 7 ∷ [])
push-append_example = push-append 7 3 (5 ∷ 6 ∷ []) two-Holds

get_ends_example : (get_first 0 two ≡ some 5) × (get_last 0 two ≡ some 6)
unfolding last_or
get_ends_example = get_ends 0 3 (5 ∷ 6 ∷ []) two-Holds

push-push_first_empty_example : (q : Queue ℕ) × (push_first 7 none_yet ≡ some q) × (push 8 q ≡ none)
push-push_first_empty_example = push-push_first_empty 7 8 2 none_yet-Holds (omega arith)

push-search_and_del_last_example :
    (q1 : Queue ℕ) × (search_and_del ◌==◌ 0 6 two ≡ some (6, q1))
    × ((w : ℕ)
        → (q2 : Queue ℕ) × (push w q1 ≡ some q2)
          × (q2.count ≡ 2)
          × ((xs : Cells ℕ) × Chain q2.heap q2.first xs × (values xs ≡ 5 ∷ [])))
push-search_and_del_last_example =
    push-search_and_del_last ◌==◌ 0 6 3 5 [] 6 two-Holds (refl, tt) refl
