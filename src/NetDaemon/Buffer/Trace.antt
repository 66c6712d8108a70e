-- ===== src/NetDaemon/Buffer/Trace.antt =====
-- The life of one file buffer of src/netdaemon.cpp: calls of put and push in any order.
use libmaycloud.Pool.{Ptr}
use libmaycloud.Pool.Chain.{Cells, has, has-append}
use libmaycloud.Pool.Distinct.{has-append_false}
use libmaycloud.NetDaemon.Buffer.Shape.{IsBuffer, addrs, addrs-append, has-addrs, length-addrs}
use libmaycloud.Common.{
  ℕ, ◌+◌, ◌^◌, ◌≤◌, ◌<◌, ◌≡◌, refl, sym, ap, ap₂, subst, ◌∙◌, ◌⊎◌, inl, inr, Bool, true, false,
  Option, some, some-injective, List, [], ◌++◌, append-nil, append_assoc, arith, ◌==◌, Bool-cases,
  true-ne-false, length, length-append,
}
use libmaycloud.NetDaemon.Buffer.{FdInfo, put_fd, Written, push_fd}
use libmaycloud.Blocks.{Block, BlockPool}
use libmaycloud.NetDaemon.Buffer.Fifo.{accepts, put_fd-append, put_fd-refused}
use libmaycloud.NetDaemon.Buffer.Loop.{IsWrite}
use libmaycloud.NetDaemon.Buffer.Push.{push_fd-Pushed}

-- What the calls so far make of a buffer and its pool, with the bytes that put accepted and those that
-- push wrote, each in order. `write` may behave otherwise in every push.
pub data Trace (fb0 : FdInfo) (bp0 : BlockPool)
    : FdInfo → BlockPool → (accepted sent : List ℕ) → Type 0 where
  begun : Trace fb0 bp0 fb0 bp0 [] []
  putting :
      {fb fb' : FdInfo} {bp bp' : BlockPool} {accepted sent : List ℕ} (src : List ℕ)
      → Trace fb0 bp0 fb bp accepted sent
      → 0 < length src
      → fb.size + length src < 2 ^ 63
      → put_fd fb src bp ≡ some (true, fb', bp')
      → Trace fb0 bp0 fb' bp' (accepted ++ src) sent
  refusing :
      {fb fb' : FdInfo} {bp bp' : BlockPool} {accepted sent : List ℕ} (src : List ℕ)
      → Trace fb0 bp0 fb bp accepted sent
      → 0 < length src
      → fb.size + length src < 2 ^ 63
      → put_fd fb src bp ≡ some (false, fb', bp')
      → Trace fb0 bp0 fb' bp' accepted sent
  pushing :
      {fb fb' : FdInfo} {bp bp' : BlockPool} {accepted sent now : List ℕ} {empty : Bool}
      (write : ℕ → ℕ → Written)
      → Trace fb0 bp0 fb bp accepted sent
      → IsWrite write
      → push_fd write fb bp ≡ some (empty, fb', bp', now)
      → Trace fb0 bp0 fb' bp' accepted (sent ++ now)

-- A well-formed buffer whose pool counts at least the blocks of both.
pub record IsReady (fb : FdInfo) (bp : BlockPool) (content : List ℕ) : Type 0 where
  pub cs : Cells Block
  pub fs : Cells Block
  pub buffer : IsBuffer fb bp cs fs content
  pub room : length cs + length fs ≤ bp.total_count

-- A memory `bp'` that differs from `bp` in blocks of the buffer and free ones at most, and these stay theirs: no block
-- `cs`, `fs` is not one of, is written, or comes into the buffer or among the free ones `cs'`, `fs'`.
abbrev pub Outside : (bp bp' : BlockPool) (cs fs cs' fs' : Cells Block) → Type 0
Outside bp bp' cs fs cs' fs' =
    (c : Ptr) → has c (cs ++ fs) ≡ false → (bp'.heap c ≡ bp.heap c) × (has c (cs' ++ fs') ≡ false)

outside_put :
    (bp bp' : BlockPool) (cs fs xs ys cs' : Cells Block)
    → fs ≡ xs ++ ys
    → addrs cs' ≡ addrs cs ++ addrs xs
    → ((c : Ptr) → has c (cs ++ xs) ≡ false → bp'.heap c ≡ bp.heap c)
    → Outside bp bp' cs fs cs' ys
outside_put bp bp' cs fs xs ys cs' e at same c o =
    let (o1, o2) = has-append_false c cs fs o in
    let (o3, o4) = has-append_false c xs ys (ap (has c) (sym e) ∙ o2) in
    let front : has c (cs ++ xs) ≡ false = rw (has-append c cs xs, o1, o3) refl in
    let moved : has c cs' ≡ false =
      has-addrs c cs' (cs ++ xs) (at ∙ sym (addrs-append cs xs)) ∙ front in
    (same c front, rw (has-append c cs' ys, moved, o4) refl)

outside_push :
    (bp bp' : BlockPool) (cs fs us cs' : Cells Block)
    → ((c : Ptr) → has c (us ++ cs') ≡ has c cs)
    → ((c : Ptr) → has c cs ≡ false → bp'.heap c ≡ bp.heap c)
    → Outside bp bp' cs fs cs' (us ++ fs)
outside_push bp bp' cs fs us cs' members same c o =
    let (o1, o2) = has-append_false c cs fs o in
    let (o3, o4) = has-append_false c us cs' (members c ∙ o1) in
    (same c o1, rw (has-append c cs' (us ++ fs), has-append c us fs, o4, o3, o2) refl)

pub put_fd-IsReady :
    (fb : FdInfo) (bp : BlockPool) (content src : List ℕ)
    → (v : IsReady fb bp content) → 0 < length src
    → fb.size + length src < 2 ^ 63
    → ((put_fd fb src bp ≡ some (false, fb, bp)))
      ⊎ ((fb' : FdInfo) × (bp' : BlockPool) × (put_fd fb src bp ≡ some (true, fb', bp'))
          × ((v' : IsReady fb' bp' (content ++ src)) × Outside bp bp' v.cs v.fs v'.cs v'.fs))
put_fd-IsReady fb bp content src v k lim = elim (Bool-cases (accepts fb bp (length src))) [
  | inl ok ↦
      let (xs, ys, e, p) = put_fd-append fb bp v.cs v.fs content src v.buffer k lim ok in
      let count : length p.cs' ≡ length v.cs + length xs =
        sym (length-addrs p.cs')
        ∙ ap length p.at
        ∙ length-append (addrs v.cs) (addrs xs)
        ∙ ap₂ (λ m n. m + n) (length-addrs v.cs) (length-addrs xs) in
      inr (
        p.fb',
        p.bp',
        p.run,
        (
          record {
            cs = p.cs';
            fs = ys;
            buffer = p.buffer;
            room = omega (arith, count, p.total, v.room, ap length e, length-append xs ys);
          },
          outside_put bp p.bp' v.cs v.fs xs ys p.cs' e p.at p.same,
        ),
      )
  | inr refused ↦ inl (put_fd-refused fb bp v.cs v.fs content src v.buffer k lim refused)
]

pub push_fd-IsReady :
    (write : ℕ → ℕ → Written) (fb : FdInfo) (bp : BlockPool) (content : List ℕ)
    → IsWrite write
    → (v : IsReady fb bp content)
    → (fb' : FdInfo) × (bp' : BlockPool) × (now : List ℕ) × (rest : List ℕ) × (push_fd write fb bp
        ≡ some (length rest == 0, fb', bp', now))
      × (content ≡ now ++ rest)
      × ((v' : IsReady fb' bp' rest) × Outside bp bp' v.cs v.fs v'.cs v'.fs)
push_fd-IsReady write fb bp content ok v =
    let p = push_fd-Pushed write fb bp v.cs v.fs content ok v.buffer v.room in
    (
      p.fb',
      p.bp',
      p.now,
      p.rest,
      p.run,
      p.order,
      (
        record {
          cs = p.cs';
          fs = p.us ++ v.fs;
          buffer = p.buffer;
          room = omega (arith, p.count, p.total, v.room, length-append p.us v.fs);
        },
        outside_push bp p.bp' v.cs v.fs p.us p.cs' p.members p.same,
      ),
    )

-- What a call returns is what it is known to return.
IsReady-same :
    {fb fb' : FdInfo} {bp bp' : BlockPool} {content : List ℕ} {b b' : Bool}
    {o : Option (Bool × FdInfo × BlockPool)}
    → o ≡ some (b, fb, bp)
    → o ≡ some (b', fb', bp')
    → IsReady fb bp content
    → (b ≡ b') × IsReady fb' bp' content
IsReady-same {content = content} e e' v =
    let same = some-injective _ _ (sym e ∙ e') in
    (ap (λ t. t.0) same, subst (λ t. IsReady t.1 t.2 content) same v)

-- Whatever the calls of put and push and their order, and however write behaves within its
-- contract, on a buffer that is well-formed at first, stays below 2 ^ 63 bytes and is given at
-- least a byte in each put: it stays well-formed, and what push wrote followed by what still waits
-- is what waited at the start followed by what put accepted.
pub Trace-IsReady :
    {fb0 : FdInfo} {bp0 : BlockPool} (content : List ℕ) {fb : FdInfo} {bp : BlockPool}
    {accepted sent : List ℕ}
    → IsReady fb0 bp0 content
    → Trace fb0 bp0 fb bp accepted sent
    → (rest : List ℕ) × IsReady fb bp rest × (content ++ accepted ≡ sent ++ rest)
Trace-IsReady content v begun = (content, v, append-nil content)
Trace-IsReady content v (putting {accepted = accepted} {sent = sent} src t k lim e) =
    let (rest, ready, order) = Trace-IsReady content v t in
    elim (put_fd-IsReady _ _ rest src ready k lim) [
      | inl said ↦ absurd (true-ne-false (sym (IsReady-same said e ready).0))
      | inr made ↦ (
        rest ++ src,
        (IsReady-same made.2 e made.3.0).1,
        sym (append_assoc content accepted src)
            ∙ ap (λ xs. xs ++ src) order
            ∙ append_assoc sent rest src,
      )
    ]
Trace-IsReady content v (refusing src t k lim e) =
    let (rest, ready, order) = Trace-IsReady content v t in
    elim (put_fd-IsReady _ _ rest src ready k lim) [
      | inl said ↦ (rest, (IsReady-same said e ready).1, order)
      | inr made ↦ absurd (true-ne-false (IsReady-same made.2 e made.3.0).0)
    ]
Trace-IsReady content v (pushing {sent = sent} write t ok e) =
    let (rest, ready, order) = Trace-IsReady content v t in
    let (fb', bp', now, left, run, split, (ready', out)) =
      push_fd-IsReady write _ _ rest ok ready in
    let same = some-injective _ _ (sym run ∙ e) in
    (
      left,
      subst (λ r. IsReady r.1 r.2 left) same ready',
      order
          ∙ ap (λ r. sent ++ r) split
          ∙ sym (append_assoc sent now left)
          ∙ ap (λ r. (sent ++ r.3) ++ left) same,
    )
