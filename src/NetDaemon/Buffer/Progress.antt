-- ===== src/NetDaemon/Buffer/Progress.antt =====
-- push of src/netdaemon.cpp makes progress where the socket does, and repeated it empties the buffer.
use libmaycloud.Common.{
  ℕ, zero, suc, ◌+◌, ◌-◌, ◌≤◌, ◌<◌, ◌≡◌, refl, sym, ap, inl, inr, Bool, true, Option, none, some,
  some-injective, none-ne-some, List, ◌++◌, arith, ltb, ◌==◌, if◌then◌else◌, ltb→lt, lt→ltb, ==_iff,
  Bool-cases, ◌>>=◌, take, drop,
}
use libmaycloud.Pool.{Ptr, Item, Heap, set_next}
use libmaycloud.NetDaemon.Buffer.{FdInfo, Written, after_write, push_loop}
use libmaycloud.Blocks.{block_size, Block}
use libmaycloud.NetDaemon.Buffer.Loop.{Option-cases}

-- A chain that has a result went through its first step.
pub through :
    {A : Type 0} {B : Type 0} {P : Type 0} (o : Option A) (f : A → Option B) (b : B)
    → (o >>= f) ≡ some b
    → ((a : A) → o ≡ some a → f a ≡ some b → P)
    → P
through none f b e k = absurd (none-ne-some b e)
through (some a) f b e k = k a refl e

-- A block that is used up leaves the buffer.
abbrev used_up : FdInfo → ℕ → Item Block → FdInfo
used_up fb r c = record fb { size = fb.size - r; offset = 0; first = c.next }

after_write-size :
    (fb : FdInfo) (h : Heap Block) (unused : Ptr) (rest r : ℕ)
    (s : FdInfo × Heap Block × Ptr × Bool)
    → after_write fb h unused rest r ≡ some s
    → s.0.size ≡ fb.size - r
unfolding after_write
after_write-size fb h unused rest r s e = elim (Bool-cases (r == rest)) [
  | inl t ↦
      through (h fb.first)
        (λ c. set_next h fb.first unused >>= λ h1. some (used_up fb r c, h1, fb.first, true)) s
        (rw t at e)
        (λ c at e1.
          through (set_next h fb.first unused) (λ h1. some (used_up fb r c, h1, fb.first, true)) s
            e1 (λ h1 at1 e2. ap (λ q. q.0.size) (sym (some-injective _ _ e2))))
  | inr f ↦ ap (λ q. q.0.size) (sym (some-injective _ _ (rw f at e)))
]

-- How many bytes a round of push offers to write.
abbrev pub offered : FdInfo → ℕ
offered fb = if ltb fb.size (block_size - fb.offset) then fb.size else block_size - fb.offset

module _ (write : ℕ → ℕ → Written) where
  -- A round behind its call of write.
  finish :
      ℕ
      → ℕ
      → FdInfo
      → List ℕ
      → ℕ
      → Item Block
      → FdInfo × Heap Block × Ptr × Bool
      → Option (FdInfo × Heap Block × Ptr × List ℕ)
  finish fuel i fb sent k b s =
      let sent' : List ℕ = sent ++ take k (drop fb.offset b.value.bytes) in
      let more = push_loop write fuel (i + 1) s.0 s.1 s.2 sent' in
      if s.3 then more else some (s.0, s.1, s.2, sent')

  unfoldable pub Shrinks : ℕ → Type 0
  Shrinks fuel =
      (i : ℕ) (fb : FdInfo) (h : Heap Block) (unused : Ptr) (sent : List ℕ)
      (r : FdInfo × Heap Block × Ptr × List ℕ)
      → push_loop write fuel i fb h unused sent ≡ some r
      → r.0.size ≤ fb.size

  finish-size :
      (fuel : ℕ)
      → Shrinks fuel
      → (i : ℕ) (fb : FdInfo) (sent : List ℕ) (k : ℕ) (b : Item Block)
        (s : FdInfo × Heap Block × Ptr × Bool) (r : FdInfo × Heap Block × Ptr × List ℕ)
      → finish fuel i fb sent k b s ≡ some r
      → r.0.size ≤ s.0.size
  unfolding finish Shrinks
  finish-size fuel ih i fb sent k b s r e = elim (Bool-cases s.3) [
    | inl t ↦ ih (i + 1) s.0 s.1 s.2 (sent ++ take k (drop fb.offset b.value.bytes)) r (rw t at e)
    | inr f ↦ omega (arith, ap (λ q. q.0.size) (some-injective _ _ (rw f at e)))
  ]

  -- The bytes that write takes are counted off.
  pub round-size :
      (fuel : ℕ)
      → Shrinks fuel
      → (i : ℕ) (fb : FdInfo) (h : Heap Block) (unused : Ptr) (sent : List ℕ)
        (r : FdInfo × Heap Block × Ptr × List ℕ) (k : ℕ)
      → 0 < fb.size
      → write i (offered fb) ≡ some k
      → push_loop write (suc fuel) i fb h unused sent ≡ some r
      → r.0.size ≤ fb.size - k
  unfolding push_loop finish
  round-size fuel ih i fb h unused sent r k l w e =
      let e1 = rw (lt→ltb 0 fb.size l, w) at e in
      elim (Bool-cases (k == 0)) [
        | inl t ↦
            omega (arith, ap (λ q. q.0.size) (some-injective _ _ (rw t at e1)), (==_iff k 0).0 t)
        | inr f ↦
            through (h fb.first)
              (λ b. after_write fb h unused (offered fb) k >>= λ s. finish fuel i fb sent k b s) r
              (rw f at e1)
              (λ b at e2.
                through (after_write fb h unused (offered fb) k) (λ s. finish fuel i fb sent k b s)
                  r e2
                  (λ s at1 e3. omega (
                    arith,
                    after_write-size fb h unused (offered fb) k s at1,
                    finish-size fuel ih i fb sent k b s r e3,
                  )))
      ]

  pub push_loop-Shrinks : (fuel : ℕ) → Shrinks fuel
  unfolding push_loop Shrinks
  push_loop-Shrinks zero i fb h unused sent r e = absurd (none-ne-some r e)
  push_loop-Shrinks (suc fuel) i fb h unused sent r e = elim (Bool-cases (ltb 0 fb.size)) [
    | inl t ↦ elim (Option-cases (write i (offered fb))) [
      | inl no_write ↦
          omega (arith, ap (λ q. q.0.size) (some-injective _ _ (rw (t, no_write) at e)))
      | inr wrote ↦ omega (
        arith,
        round-size fuel (push_loop-Shrinks fuel) i fb h unused sent r wrote.0 (ltb→lt 0 fb.size t)
            wrote.1 e,
      )
    ]
    | inr f ↦ omega (arith, ap (λ q. q.0.size) (some-injective _ _ (rw f at e)))
  ]
