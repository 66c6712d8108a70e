-- ===== src/Queue/Shape.antt =====
-- What a well-formed Queue of src/headers/maycloud/queue.h is, and the values that it stands for.
use libmaycloud.Common.{ℕ, ◌+◌, ◌^◌, ◌<◌, ◌≡◌, none, List, ◌++◌, length}
use libmaycloud.Pool.{null}
use libmaycloud.Pool.Chain.{Cells, values, last_of, Distinct, Chain}
use libmaycloud.Queue.{Queue}

-- `xs` are the queued items from first to last, and `fs` the free ones.
pub record IsQueue {A : Type 0} (q : Queue A) (xs fs : Cells A) : Type 0 where
  pub used : Chain q.heap q.first xs
  pub spare : Chain q.heap q.free fs
  pub apart : Distinct (xs ++ fs)
  pub tail : q.last ≡ last_of null xs
  pub count : q.count ≡ length xs
  pub room : q.capacity ≡ length xs + length fs
  pub fits : q.capacity < 2 ^ 64
  pub guard : q.heap null ≡ none

-- A well-formed queue with the values `vs`, whose array has `cap` items.
abbrev pub Holds : {A : Type 0} → Queue A → ℕ → List A → Type 0
Holds {A} q cap vs =
    (xs : Cells A) × (fs : Cells A) × IsQueue q xs fs × (values xs ≡ vs) × (q.capacity ≡ cap)
