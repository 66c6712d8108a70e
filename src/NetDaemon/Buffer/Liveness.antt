-- ===== src/NetDaemon/Buffer/Liveness.antt =====
-- Repeated push of src/netdaemon.cpp, as the event loop calls it, empties a buffer.
use libmaycloud.Common.{
  ℕ, zero, suc, ◌+◌, ◌-◌, ◌≤◌, ◌<◌, ◌≡◌, sym, ap, subst, ◌∙◌, inl, inr, Bool, Option, some,
  some-injective, List, [], ◌∷◌, ◌++◌, append-nil, append_assoc, arith, ltb, ◌==◌, ltb→lt, ltb→le,
  Bool-cases, ◌>>=◌, length, length-append,
}
use libmaycloud.Pool.{null}
use libmaycloud.NetDaemon.Buffer.{FdInfo, Written, push_loop, push_fd}
use libmaycloud.Blocks.{block_size, BlockPool, free}
use libmaycloud.NetDaemon.Buffer.Loop.{IsWrite}
use libmaycloud.NetDaemon.Buffer.Progress.{through, offered, Shrinks, round-size, push_loop-Shrinks}
use libmaycloud.NetDaemon.Buffer.Trace.{IsReady, push_fd-IsReady}

push_fd-size :
    (write : ℕ → ℕ → Written) (fb fb' : FdInfo) (bp bp' : BlockPool) (empty : Bool) (now : List ℕ)
    (k : ℕ)
    → push_fd write fb bp ≡ some (empty, fb', bp', now)
    → 0 < fb.size
    → write 0 (offered fb) ≡ some (suc k)
    → fb'.size < fb.size
unfolding push_fd Shrinks
push_fd-size write fb fb' bp bp' empty now k e l w =
    through (push_loop write (fb.size + 1) 0 fb bp.heap null [])
      (λ r. free (fb.size + 1) r.2 (record bp { heap = r.1 }) >>= λ bp'.
        some (r.0.size == 0, r.0, bp', r.3))
      (empty, fb', bp', now) e
      (λ r at e1.
        through (free (fb.size + 1) r.2 (record bp { heap = r.1 }))
          (λ bp'. some (r.0.size == 0, r.0, bp', r.3)) (empty, fb', bp', now) e1
          (λ q at1 e2.
            let one : fb.size + 1 ≡ suc fb.size = omega arith in
            omega (
              arith,
              ap (λ t. t.1.size) (some-injective _ _ e2),
              round-size write fb.size (push_loop-Shrinks write fb.size) 0 fb bp.heap null [] r
                  (suc k) l w (subst (λ f. push_loop write f 0 fb bp.heap null [] ≡ some r) one at),
            )))

offered-positive : (fb : FdInfo) → fb.offset < block_size → 0 < fb.size → 0 < offered fb
offered-positive fb low l = ground arith

-- push called again and again; `writes` is the behaviour of write in each call. The bytes that were
-- written are put behind `sent`.
pub push_all :
    (writes : ℕ → ℕ → ℕ → Written)
    → (rounds i : ℕ) → FdInfo
    → BlockPool
    → List ℕ
    → Option (FdInfo × BlockPool × List ℕ)
push_all writes zero i fb bp sent = some (fb, bp, sent)
push_all writes (suc rounds) i fb bp sent =
    push_fd (writes i) fb bp >>= λ r. push_all writes rounds (i + 1) r.1 r.2 (sent ++ r.3)

-- A socket that takes at least a byte of what push offers first, in every push.
abbrev pub IsLive : (ℕ → ℕ → ℕ → Written) → Type 0
IsLive writes =
    (i : ℕ) → IsWrite (writes i) × ((n : ℕ) → 0 < n → (k : ℕ) × (writes i 0 n ≡ some (suc k)))

push_fd-shorter :
    (write : ℕ → ℕ → Written) (fb fb1 : FdInfo) (bp bp1 : BlockPool) (empty : Bool)
    (content now rest : List ℕ)
    → ((n : ℕ) → 0 < n → (k : ℕ) × (write 0 n ≡ some (suc k)))
    → IsReady fb bp content
    → IsReady fb1 bp1 rest
    → content ≡ now ++ rest
    → push_fd write fb bp ≡ some (empty, fb1, bp1, now)
    → length rest ≤ length content - 1
push_fd-shorter write fb fb1 bp bp1 empty content now rest live v ready split run =
    let size = v.buffer.size in
    let size1 = ready.buffer.size in
    let parts = length-append now rest in
    elim (Bool-cases (ltb 0 fb.size)) [
      | inl t ↦
          let l = ltb→lt 0 fb.size t in
          let w = live (offered fb) (offered-positive fb v.buffer.low l) in
          omega (arith, size, size1, push_fd-size write fb fb1 bp bp1 empty now w.0 run l w.1)
      | inr f ↦ omega (arith, size, ltb→le 0 fb.size f, ap length split, parts)
    ]

push_all-nil :
    (writes : ℕ → ℕ → ℕ → Written) (live : IsLive writes) (rounds i : ℕ) (fb : FdInfo)
    (bp : BlockPool) (content sent : List ℕ)
    → IsReady fb bp content
    → length content ≤ rounds
    → (fb' : FdInfo) × (bp' : BlockPool) × (push_all writes rounds i fb bp sent
        ≡ some (fb', bp', sent ++ content))
      × IsReady fb' bp' []
unfolding push_all
push_all-nil writes live zero i fb bp [] sent v l =
    (fb, bp, ap (λ r. some (fb, bp, r)) (sym (append-nil sent)), v)
push_all-nil writes live zero i fb bp (c ∷ content) sent v l = absurd (omega (arith, l))
push_all-nil writes live (suc rounds) i fb bp content sent v l =
    let (fb1, bp1, now, rest, run, split, (ready, out)) =
      push_fd-IsReady (writes i) fb bp content (live i).0 v in
    let less : length rest ≤ rounds = omega (
      arith,
      l,
      push_fd-shorter (writes i) fb fb1 bp bp1 _ content now rest (live i).1 v ready split run,
    ) in
    let (fb', bp', go, done) =
      push_all-nil writes live rounds (i + 1) fb1 bp1 rest (sent ++ now) ready less in
    (
      fb',
      bp',
      ap (λ o. o >>= λ r. push_all writes rounds (i + 1) r.1 r.2 (sent ++ r.3)) run
          ∙ go
          ∙ ap (λ r. some (fb', bp', r))
              (append_assoc sent now rest ∙ ap (λ r. sent ++ r) (sym split)),
      done,
    )

-- Where the socket takes at least a byte in every push, as many pushes as bytes wait empty a well-formed
-- buffer: none fails, everything is written, in order, and the buffer stays well-formed.
pub push_all-empties :
    (writes : ℕ → ℕ → ℕ → Written) (fb : FdInfo) (bp : BlockPool) (content : List ℕ)
    → IsLive writes
    → IsReady fb bp content
    → (fb' : FdInfo) × (bp' : BlockPool) × (push_all writes (length content) 0 fb bp []
        ≡ some (fb', bp', content))
      × IsReady fb' bp' []
push_all-empties writes fb bp content live v =
    push_all-nil writes live (length content) 0 fb bp content [] v (omega arith)
