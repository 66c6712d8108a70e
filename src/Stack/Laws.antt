-- ===== src/Stack/Laws.antt =====
-- push and pop of class Stack (src/headers/maycloud/stack.h) on well-formed stacks.
use libmaycloud.Common.{
  ℕ, zero, suc, ◌+◌, ◌<◌, ◌≡◌, refl, ap, ◌∙◌, false, none, some, List, [], ◌∷◌, ◌++◌, arith, length,
  get_or, drop,
}
use libmaycloud.Pool.{Ptr, null, item, Heap, assign, linked}
use libmaycloud.Pool.Distinct.{Distinct-take, Distinct-put}
use libmaycloud.Pool.Chain.{
  Cells, has, values, Distinct, Chain, has-append, length-values, Seg-assign,
}
use libmaycloud.Pool.Linked.{all_items, length-all_items, Distinct-all_items, Chain-linked}
use libmaycloud.Stack.{Stack, create, push, pop}

-- `xs` are the stacked items from the top down, and `fs` the free ones.
pub record IsStack {A : Type 0} (s : Stack A) (xs fs : Cells A) : Type 0 where
  pub used : Chain s.heap s.top xs
  pub spare : Chain s.heap s.free fs
  pub apart : Distinct (xs ++ fs)
  pub room : s.capacity ≡ length xs + length fs
  pub guard : s.heap null ≡ none

-- A well-formed stack with the values `vs`, top first, whose array has `cap` items.
abbrev pub Holds : {A : Type 0} → Stack A → ℕ → List A → Type 0
Holds {A} s cap vs =
    (xs : Cells A) × (fs : Cells A) × IsStack s xs fs × (values xs ≡ vs) × (s.capacity ≡ cap)

-- The constructor makes a well-formed empty stack of any capacity from 1 on.
pub create-Holds :
    {A : Type 0} (garbage : A) (cap : ℕ)
    → 0 < cap
    → (s : Stack A) × (create garbage cap ≡ some s) × Holds s cap []
unfolding create
create-Holds garbage zero h = elim h [ ]
create-Holds garbage (suc n) h = (
  record { capacity = suc n; heap = linked garbage (suc n) null; free = 1; top = null },
  ground arith,
  (
    [],
    all_items garbage (suc n) 1,
    record {
      used = refl;
      spare = Chain-linked garbage n (suc n) 1 (omega arith) (omega arith);
      apart = Distinct-all_items garbage (suc n) 1;
      room = omega (arith, length-all_items garbage (suc n) 1);
      guard = refl;
    },
    refl,
    refl,
  ),
)

module _ {A : Type 0} (v : A) {s : Stack A} where
  push-some :
      (a : Ptr) (w : A) (xs fs : Cells A)
      → IsStack s xs ((a, w) ∷ fs)
      → (s' : Stack A) × (push v s ≡ some s')
        × IsStack s' ((a, v) ∷ xs) fs
        × (s'.capacity ≡ s.capacity)
  unfolding push
  push-some a w xs fs is =
      let (r, e, ne, at, rest) = is.spare in
      let (out, out', apart) = Distinct-take a w xs fs is.apart in
      let h : Heap A = assign s.heap a (item v r) in
      (
        record s { heap = assign h a (item v s.top); free = r; top = a },
        ground arith,
        record {
          used = (
            s.top,
            refl,
            ne,
            ground arith,
            Seg-assign h s.top null a (item v s.top) xs out
                (Seg-assign s.heap s.top null a (item v r) xs out is.used),
          );
          spare =
              Seg-assign h r null a (item v s.top) fs out'
                (Seg-assign s.heap r null a (item v r) fs out' rest);
          apart = (rw (has-append a xs fs) (ground arith), apart);
          room = omega (arith, is.room);
          guard = ground (arith, is.guard);
        },
        refl,
      )

  -- push on a well-formed stack that is not full puts the value on top and keeps the others.
  pub push-cons :
      (cap : ℕ) (vs : List A)
      → Holds s cap vs
      → length vs < cap
      → (s' : Stack A) × (push v s ≡ some s') × Holds s' cap (v ∷ vs)
  push-cons cap vs (xs, [], is, e, c) h =
      absurd (omega (arith, is.room, length-values xs, ap length e))
  push-cons cap vs (xs, (a, w) ∷ fs, is, e, c) h =
      let (s', run, is', c') = push-some a w xs fs is in
      (s', run, ((a, v) ∷ xs, fs, is', ap (λ us. v ∷ us) e, c' ∙ c))

  -- push on a well-formed stack that is full faults: allocItem reads the next item through NULL.
  pub push_full-none : (cap : ℕ) (vs : List A) → Holds s cap vs → length vs ≡ cap → push v s ≡ none
  unfolding push
  push_full-none cap vs (xs, [], is, e, c) h = ground (arith, is.spare, is.guard)
  push_full-none cap vs (xs, (a, w) ∷ fs, is, e, c) h =
      absurd (omega (arith, is.room, length-values xs, ap length e))

module _ {A : Type 0} (dflt : A) {s : Stack A} where
  pop-some :
      (a : Ptr) (v : A) (xs fs : Cells A)
      → IsStack s ((a, v) ∷ xs) fs
      → (s' : Stack A) × (pop dflt s ≡ some (v, s'))
        × IsStack s' xs ((a, v) ∷ fs)
        × (s'.capacity ≡ s.capacity)
  unfolding pop
  pop-some a v xs fs is =
      let (r, e, ne, at, rest) = is.used in
      let out : has a xs ≡ false = ground (arith, has-append a xs fs, is.apart) in
      let out' : has a fs ≡ false = ground (arith, has-append a xs fs, is.apart) in
      (
        record s { heap = assign s.heap a (item v s.free); free = a; top = r },
        ground arith,
        record {
          used = Seg-assign s.heap r null a (item v s.free) xs out rest;
          spare = (
            s.free,
            refl,
            ne,
            ground arith,
            Seg-assign s.heap s.free null a (item v s.free) fs out' is.spare,
          );
          apart = Distinct-put a v xs fs out out' is.apart.1;
          room = omega (arith, is.room);
          guard = ground (arith, is.guard);
        },
        refl,
      )

  pop_nil : {fs : Cells A} → IsStack s [] fs → pop dflt s ≡ some (dflt, s)
  unfolding pop
  pop_nil is = ground (arith, is.used)

  -- pop takes the top value off a well-formed stack; from an empty one it returns the default value
  -- and keeps the state. It never faults.
  pub pop-drop :
      (cap : ℕ) (vs : List A)
      → Holds s cap vs
      → (s' : Stack A) × (pop dflt s ≡ some (get_or vs 0 dflt, s')) × Holds s' cap (drop 1 vs)
  pop-drop cap vs ([], fs, is, e, c) = rw (← e) (s, pop_nil is, ([], fs, is, refl, c))
  pop-drop cap vs ((a, v) ∷ xs, fs, is, e, c) =
      let (s', run, is', c') = pop-some a v xs fs is in
      rw (← e) (s', run, (xs, (a, v) ∷ fs, is', refl, c' ∙ c))
