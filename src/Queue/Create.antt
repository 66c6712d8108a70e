-- ===== src/Queue/Create.antt =====
-- The constructor of Queue.
use libmaycloud.Common.{ℕ, zero, suc, ◌^◌, ◌<◌, ◌≡◌, refl, some, [], arith}
use libmaycloud.Pool.{null, linked}
use libmaycloud.Pool.Linked.{all_items, length-all_items, Distinct-all_items, Chain-linked}
use libmaycloud.Queue.{Queue, create}
use libmaycloud.Queue.Shape.{Holds}

-- The constructor makes a well-formed empty queue of any capacity from 1 on.
pub create-nil :
    {A : Type 0} (garbage : A) (cap : ℕ)
    → 0 < cap
    → cap < 2 ^ 64
    → (q : Queue A) × (create garbage cap ≡ some q) × Holds q cap []
unfolding create
create-nil garbage zero h fits = elim h [ ]
create-nil garbage (suc n) h fits = (
  record {
    capacity = suc n;
    count = 0;
    heap = linked garbage (suc n) null;
    free = 1;
    first = null;
    last = null;
  },
  ground arith,
  (
    [],
    all_items garbage (suc n) 1,
    record {
      used = refl;
      spare = Chain-linked garbage n (suc n) 1 (omega arith) (omega arith);
      apart = Distinct-all_items garbage (suc n) 1;
      tail = refl;
      count = refl;
      room = omega (arith, length-all_items garbage (suc n) 1);
      fits = fits;
      guard = refl;
    },
    refl,
    refl,
  ),
)
