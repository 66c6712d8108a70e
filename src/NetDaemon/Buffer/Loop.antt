-- ===== src/NetDaemon/Buffer/Loop.antt =====
-- push of src/netdaemon.cpp its loop on well-formed buffers.
use libmaycloud.Common.{
  ℕ, zero, suc, ◌+◌, ◌-◌, ◌≤◌, ◌<◌, ◌≡◌, refl, sym, ap, ◌∙◌, ◌⊎◌, inl, inr, false, Option, none,
  some, List, [], ◌∷◌, ◌++◌, append-nil, append_assoc, arith, ◌==◌, lt→ltb, le→ltb, ne→==_false,
  eq→==, ==_iff, Bool-cases, length, take, drop, take-append-drop,
}
use libmaycloud.Pool.{Ptr, item, Heap, assign}
use libmaycloud.Blocks.{Block}
use libmaycloud.NetDaemon.Buffer.{FdInfo, Written, push_loop}
use libmaycloud.NetDaemon.Buffer.Drain.{IsDraining, offered, offered-content, drained, partly}
use libmaycloud.Pool.Chain.{Cells, has, assign-other, not_has-cons, has-append}
use libmaycloud.NetDaemon.Buffer.Steps.{loop_empty, loop_stopped, loop_whole, loop_part}

-- The file buffer after its first block was written to the end.
abbrev pub emptied : FdInfo → ℕ → Ptr → FdInfo
emptied fb r q = record fb { size = fb.size - r; offset = 0; first = q }

-- What is known of write: it takes no more bytes than it is given.
abbrev pub IsWrite : (ℕ → ℕ → Written) → Type 0
IsWrite write = (i n r : ℕ) → write i n ≡ some r → r ≤ n

-- The end of the loop: `now` of the bytes that waited were written, in order, and `rest` still waits.
pub record Drained (fb : FdInfo) (h : Heap Block) (cs us fs : Cells Block) (content sent : List ℕ)
    (result : Option (FdInfo × Heap Block × Ptr × List ℕ)) : Type 0 where
  pub fb' : FdInfo
  pub h' : Heap Block
  pub unused' : Ptr
  pub cs' : Cells Block
  pub us' : Cells Block
  pub now : List ℕ
  pub rest : List ℕ
  pub run : result ≡ some (fb', h', unused', sent ++ now)
  pub order : content ≡ now ++ rest
  pub state : IsDraining fb' h' unused' cs' us' fs rest
  pub members : (c : Ptr) → has c (us' ++ cs') ≡ has c (us ++ cs)
  pub count : length us' + length cs' ≡ length us + length cs
  pub same : (c : Ptr) → has c (us ++ cs) ≡ false → h' c ≡ h c
  pub kept : (fb'.obj ≡ fb.obj) × (fb'.quota ≡ fb.quota)

pub Option-cases : {A : Type 0} (o : Option A) → (o ≡ none) ⊎ ((a : A) × (o ≡ some a))
Option-cases none = inl refl
Option-cases (some a) = inr (a, refl)

module _ (write : ℕ → ℕ → Written) where
  stays :
      (fb : FdInfo) (h : Heap Block) (unused : Ptr) (cs us fs : Cells Block) (content sent : List ℕ)
      (result : Option (FdInfo × Heap Block × Ptr × List ℕ))
      → IsDraining fb h unused cs us fs content
      → result ≡ some (fb, h, unused, sent)
      → Drained fb h cs us fs content sent result
  stays fb h unused cs us fs content sent result d e = record {
    fb' = fb;
    h' = h;
    unused' = unused;
    cs' = cs;
    us' = us;
    now = [];
    rest = content;
    run = e ∙ ap (λ zs. some (fb, h, unused, zs)) (sym (append-nil sent));
    order = refl;
    state = d;
    members = λ c. refl;
    count = refl;
    same = λ c o. refl;
    kept = (refl, refl);
  }

  has-move :
      (c a : Ptr) (b : Block) (us cs : Cells Block)
      → has c (((a, b) ∷ us) ++ cs) ≡ has c (us ++ ((a, b) ∷ cs))
  has-move c a b us cs =
      ground (arith, has-append c us cs, has-append c us ((a, b) ∷ cs), Bool-cases (has c us))

  after_part :
      (fuel i : ℕ) (fb : FdInfo) (h : Heap Block) (unused a : Ptr) (b : Block)
      (cs us fs : Cells Block) (content sent : List ℕ) (r : ℕ)
      → IsDraining fb h unused ((a, b) ∷ cs) us fs content
      → write i (offered fb) ≡ some r
      → (r == 0) ≡ false
      → r < offered fb
      → Drained fb h
          ((a, b) ∷ cs)
          us
          fs
          content
          sent
          (push_loop write (suc fuel) i fb h unused sent)
  after_part fuel i fb h unused a b cs us fs content sent r d w moved less =
      let (q, e, ne, at, s) = d.chain in
      let bytes = offered-content fb h unused a b cs us fs content d r (omega arith) in
      record {
        fb' = record fb { size = fb.size - r; offset = fb.offset + r };
        h' = h;
        unused' = unused;
        cs' = (a, b) ∷ cs;
        us' = us;
        now = take r content;
        rest = drop r content;
        run =
            loop_part write fuel i fb h unused sent r b q (lt→ltb _ _ (d.live (omega arith))) w
              moved (ap h e ∙ at) (ne→==_false _ _ (omega arith))
            ∙ ap
                (λ zs.
                  some (
                    record fb { size = fb.size - r; offset = fb.offset + r },
                    h,
                    unused,
                    sent ++ zs,
                  ))
                bytes;
        order = sym (take-append-drop r content);
        state = partly fb h unused a b cs us fs content d r less;
        members = λ c. refl;
        count = refl;
        same = λ c o. refl;
        kept = (refl, refl);
      }

  after_whole :
      (fuel i : ℕ) (fb : FdInfo) (h : Heap Block) (unused a q : Ptr) (b : Block)
      (cs us fs : Cells Block) (content sent : List ℕ) (r : ℕ)
      → IsDraining fb h unused ((a, b) ∷ cs) us fs content
      → write i (offered fb) ≡ some r
      → (r == 0) ≡ false
      → r ≡ offered fb
      → Drained
          (emptied fb (offered fb) q)
          (assign h a (item b unused))
          cs
          ((a, b) ∷ us)
          fs
          (drop (offered fb) content)
          (sent ++ take r content)
          (push_loop write fuel
            (i + 1)
            (emptied fb (offered fb) q)
            (assign h a (item b unused))
            a
            (sent ++ take r content))
      → fb.first ≡ a
      → h a ≡ some (item b q)
      → Drained fb h
          ((a, b) ∷ cs)
          us
          fs
          content
          sent
          (push_loop write (suc fuel) i fb h unused sent)
  after_whole fuel i fb h unused a q b cs us fs content sent r d w moved er p e at =
      let n = offered fb in
      let bytes = offered-content fb h unused a b cs us fs content d r (omega arith) in
      let round = λ (m : ℕ) (l : Ptr) (zs : List ℕ).
        push_loop write fuel (i + 1) (emptied fb m q) (assign h l (item b unused)) l (sent ++ zs) in
      record {
        fb' = p.fb';
        h' = p.h';
        unused' = p.unused';
        cs' = p.cs';
        us' = p.us';
        now = take r content ++ p.now;
        rest = p.rest;
        run =
            loop_whole write fuel i fb h unused sent r b q (lt→ltb _ _ (d.live (omega arith))) w
              moved (ap h e ∙ at) (eq→== _ _ er)
            ∙ ap (λ zs. round r fb.first zs) bytes
            ∙ ap (λ m. round m fb.first (take r content)) er
            ∙ ap (λ l. round n l (take r content)) e
            ∙ p.run
            ∙ ap (λ zs. some (p.fb', p.h', p.unused', zs))
                (append_assoc sent (take r content) p.now);
        order =
            sym (take-append-drop n content)
            ∙ ap (λ zs. take n content ++ zs) p.order
            ∙ sym (append_assoc (take n content) p.now p.rest)
            ∙ ap (λ m. (take m content ++ p.now) ++ p.rest) (sym er);
        state = p.state;
        members = λ c. p.members c ∙ has-move c a b us cs;
        count = omega (arith, p.count);
        same = λ c o.
            let o' = has-move c a b us cs ∙ o in
            p.same c o' ∙ assign-other h a c _ (not_has-cons c a b (us ++ cs) o').0;
        kept = p.kept;
      }

  -- The loop of push ends after at most as many rounds as the buffer has blocks, and one.
  pub push_loop-Drained :
      (fuel i : ℕ) (fb : FdInfo) (h : Heap Block) (unused : Ptr) (cs us fs : Cells Block)
      (content sent : List ℕ)
      → IsWrite write
      → length cs < fuel
      → IsDraining fb h unused cs us fs content
      → Drained fb h cs us fs content sent (push_loop write fuel i fb h unused sent)
  push_loop-Drained zero i fb h unused cs us fs content sent ok f d = absurd (omega arith)
  push_loop-Drained (suc fuel) i fb h unused [] us fs content sent ok f d =
      stays fb h unused [] us fs content sent _ d
        (loop_empty write fuel i fb h unused sent (le→ltb _ _ (omega (arith, d.bound))))
  push_loop-Drained (suc fuel) i fb h unused ((a, b) ∷ cs) us fs content sent ok f d =
      let some_left = lt→ltb 0 fb.size (d.live (omega arith)) in
      let all : Cells Block = (a, b) ∷ cs in
      elim (Option-cases (write i (offered fb))) [
        | inl w ↦
            stays fb h unused all us fs content sent _ d
              (loop_stopped write fuel i fb h unused sent some_left (inl w))
        | inr (r, w) ↦ elim (Bool-cases (r == 0)) [
          | inl z ↦ stays fb h unused all us fs content sent _ d (
              loop_stopped write fuel i fb h unused sent some_left
                (inr (w ∙ ap some ((==_iff r 0).0 z))))
          | inr moved ↦ elim (Bool-cases (r == offered fb)) [
            | inl whole ↦
                let (q, e, ne, at, s) = d.chain in
                let er = (==_iff r (offered fb)).0 whole in
                let next = drained fb h unused a b cs us fs content d q s at ne in
                after_whole fuel i fb h unused a q b cs us fs content sent r d w moved er
                  (push_loop-Drained fuel (i + 1) (emptied fb (offered fb) q)
                    (assign h a (item b unused)) a cs ((a, b) ∷ us) fs (drop (offered fb) content)
                    (sent ++ take r content) ok (omega arith) next)
                  e at
            | inr part ↦
                after_part fuel i fb h unused a b cs us fs content sent r d w moved
                  (lt_of_part (ok i (offered fb) r w) part)
          ]
        ]
      ]
    where
      lt_of_part : {m n : ℕ} → m ≤ n → (m == n) ≡ false → m < n
      lt_of_part {m} {n} le e = ground arith
