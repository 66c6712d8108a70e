-- ===== src/NetDaemon/Buffer/Steps.antt =====
-- push of src/netdaemon.cpp the rounds of its loop, one by one.
use libmaycloud.Common.{
  ℕ, suc, ◌+◌, ◌-◌, ◌≡◌, refl, ◌⊎◌, inl, inr, true, false, none, some, List, ◌++◌, ltb, ◌==◌, take,
  drop,
}
use libmaycloud.Pool.{Ptr, item, Heap, assign}
use libmaycloud.Blocks.{Block}
use libmaycloud.NetDaemon.Buffer.{FdInfo, Written, push_loop}
use libmaycloud.NetDaemon.Buffer.Drain.{offered}

module _ (write : ℕ → ℕ → Written) (fuel i : ℕ) (fb : FdInfo) (h : Heap Block) (unused : Ptr)
    (sent : List ℕ) where
  pub loop_empty :
      ltb 0 fb.size ≡ false
      → push_loop write (suc fuel) i fb h unused sent ≡ some (fb, h, unused, sent)
  unfolding push_loop
  loop_empty e = rw e refl

  pub loop_stopped :
      ltb 0 fb.size ≡ true
      → (write i (offered fb) ≡ none) ⊎ (write i (offered fb) ≡ some 0)
      → push_loop write (suc fuel) i fb h unused sent ≡ some (fb, h, unused, sent)
  unfolding push_loop
  loop_stopped e (inl w) = rw (e, w, push_loop) refl
  loop_stopped e (inr w) = rw (e, w, push_loop) refl

  module _ (r : ℕ) (b : Block) (q : Ptr) (some_left : ltb 0 fb.size ≡ true)
      (w : write i (offered fb) ≡ some r) (moved : (r == 0) ≡ false)
      (at : h fb.first ≡ some (item b q)) where
    pub loop_whole :
        (r == offered fb) ≡ true
        → push_loop write (suc fuel) i fb h unused sent
          ≡ push_loop write fuel
              (i + 1)
              (record fb { size = fb.size - r; offset = 0; first = q })
              (assign h fb.first (item b unused))
              fb.first
              (sent ++ take r (drop fb.offset b.bytes))
    unfolding push_loop
    loop_whole e = rw (some_left, w, push_loop, moved, at, e) refl

    pub loop_part :
        (r == offered fb) ≡ false
        → push_loop write (suc fuel) i fb h unused sent
          ≡ some (
            record fb { size = fb.size - r; offset = fb.offset + r },
            h,
            unused,
            sent ++ take r (drop fb.offset b.bytes),
          )
    unfolding push_loop
    loop_part e = rw (some_left, w, push_loop, moved, at, e) refl
