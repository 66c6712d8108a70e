-- ===== src/NetDaemon/Stream/Composition.antt =====
-- AsyncStream of src/asyncstream.cpp on the file buffers of src/netdaemon.cpp.
use libmaycloud.Pool.{Ptr, null}
use libmaycloud.Pool.Chain.{Cells, has, Chain, Seg-same}
use libmaycloud.NetDaemon.Buffer.Shape.{IsBuffer}
use libmaycloud.NetDaemon.Buffer.Trace.{IsReady, Outside, put_fd-IsReady, push_fd-IsReady}
use libmaycloud.Blocks.{Block, BlockPool}
use libmaycloud.Common.{
  ℕ, ◌+◌, ◌^◌, ◌≤◌, ◌<◌, ◌≡◌, refl, sym, ap, subst, ◌∙◌, ◌≢◌, inl, inr, Bool, true, false, Option,
  none, some, List, [], ◌++◌, arith, ◌==◌, if◌then◌else◌, lt→ltb, ne→==_false, eq→==, Bool-cases,
  ◌>>=◌, length, pos,
}
use libmaycloud.NetDaemon.Objects.{
  NetDaemon, fd_index, set_fd_info, event_mask, reset_object, modify_object,
}
use libmaycloud.NetDaemon.Objects.System.{Kernel}
use libmaycloud.NetDaemon.Buffer.{FdInfo, put_fd, Written, push_fd}
use libmaycloud.NetDaemon.Stream.{on_empty, shutdown, Client, put_in_buffer, handle_write}
use libmaycloud.NetDaemon.Buffer.Loop.{IsWrite}
use libmaycloud.NetDaemon.Descriptors.{put, push}

module _ (k : Kernel) where
  -- A result that differs from `d` in the interest list of epoll at most.
  abbrev SameBuffers : NetDaemon k → Bool × NetDaemon k → Type 0
  SameBuffers d r = (r.1.fds ≡ d.fds) × (r.1.bp ≡ d.bp)

  watched_as : (d : NetDaemon k) → Option (k.Epoll) → Bool × NetDaemon k
  watched_as d e = elim e [ none ↦ (false, d) | some e ↦ (true, record d { epoll = e }) ]

  watched_as-same : (d : NetDaemon k) (e : Option (k.Epoll)) → SameBuffers d (watched_as d e)
  unfolding watched_as
  watched_as-same d none = (refl, refl)
  watched_as-same d (some e) = (refl, refl)

  reset_object-same : (o n : ℕ) (d : NetDaemon k) → SameBuffers d (reset_object k o n d)
  unfolding reset_object watched_as
  reset_object-same o n d =
      watched_as-same d (k.modify n (event_mask k (d.fds n) (d.objects o)) d.epoll)

  modify_at : (o : ℕ) (d : NetDaemon k) → Option ℕ → Bool × NetDaemon k
  modify_at o d f = elim f [
    | none ↦ (false, d)
    | some n ↦ if (d.fds n).obj == o then reset_object k o n d else (false, d)
  ]

  modify_at-same : (o : ℕ) (d : NetDaemon k) (f : Option ℕ) → SameBuffers d (modify_at o d f)
  unfolding modify_at
  modify_at-same o d none = (refl, refl)
  modify_at-same o d (some n) = elim (Bool-cases ((d.fds n).obj == o)) [
    | inl t ↦ rw t (reset_object-same o n d)
    | inr f ↦ rw f (refl, refl)
  ]

  modify_object-same : (o : ℕ) (d : NetDaemon k) → SameBuffers d (modify_object k o d)
  unfolding modify_object modify_at
  modify_object-same o d = modify_at-same o d (fd_index k d.limit (d.objects o).fd)

  -- The stream `o` has the daemon and the descriptor `n`.
  pub record IsAttached (o n : ℕ) (d : NetDaemon k) : Type 0 where
    pub attached : (d.objects o).attached ≡ true
    pub fd : (d.objects o).fd ≡ pos n
    pub low : n < d.limit

  fd_index-open :
      (o n : ℕ) (d : NetDaemon k) → IsAttached o n d → fd_index k d.limit (d.objects o).fd ≡ some n
  unfolding fd_index
  fd_index-open o n d v =
      ap (fd_index k d.limit) v.fd ∙ ap (λ b. if b then some n else none) (lt→ltb n d.limit v.low)

  -- The blocks `xs` of another descriptor `i`, none of which is one of `cs` and `fs`, still follow each other from its
  -- first one on, with the bytes that they had, and its record is the same: it keeps its buffer.
  abbrev pub Keeps : (d d' : NetDaemon k) → ℕ → (cs fs : Cells Block) → Type 0
  Keeps d d' n cs fs =
      (i : ℕ)
      → i ≢ n
      → (xs : Cells Block) → ((c : Ptr) → has c xs ≡ true → has c (cs ++ fs) ≡ false)
      → Chain d.bp.heap (d.fds i).first xs
      → (d'.fds i ≡ d.fds i) × Chain d'.bp.heap (d'.fds i).first xs

  -- The buffer of `n`, whose blocks were `cs` and the free ones `fs` in `d`, holds `content`. The other descriptors
  -- have the records that they had in `d`, and keep their buffers.
  pub record Holds (d d' : NetDaemon k) (n : ℕ) (cs fs : Cells Block) (content : List ℕ)
      : Type 0 where
    pub ready : IsReady (d'.fds n) d'.bp content
    pub outside : Outside d.bp d'.bp cs fs ready.cs ready.fs
    pub others : (i : ℕ) → i ≢ n → d'.fds i ≡ d.fds i
    pub keeps : Keeps d d' n cs fs

  others-Keeps :
      (d d' : NetDaemon k) (n : ℕ) (cs fs cs' fs' : Cells Block)
      → Outside d.bp d'.bp cs fs cs' fs'
      → ((i : ℕ) → i ≢ n → d'.fds i ≡ d.fds i)
      → Keeps d d' n cs fs
  others-Keeps d d' n cs fs cs' fs' out others i ne xs apart chain = (
    others i ne,
    subst (λ fb. Chain d'.bp.heap fb.first xs) (sym (others i ne))
        (Seg-same d.bp.heap d'.bp.heap (d.fds i).first null xs (λ c t. (out c (apart c t)).0)
          chain),
  )

  Holds-set :
      (d : NetDaemon k) (n : ℕ) (fb : FdInfo) (bp : BlockPool) (cs fs : Cells Block)
      (content : List ℕ)
      → (v : IsReady fb bp content) → Outside d.bp bp cs fs v.cs v.fs
      → Holds d (record d { fds = set_fd_info k d.fds n fb; bp = bp }) n cs fs content
  Holds-set d n fb bp cs fs content v out =
      let d' = record d { fds = set_fd_info k d.fds n fb; bp = bp } in
      let others = λ (i : ℕ) (e : i ≢ n). ap (λ b. if b then fb else d.fds i) (ne→==_false i n e) in
      let at = ap (λ b. if b then fb else d.fds n) (eq→== n n refl) in
      record {
        ready = record {
          cs = v.cs;
          fs = v.fs;
          buffer = subst (λ x. IsBuffer x bp v.cs v.fs content) (sym at) v.buffer;
          room = v.room;
        };
        outside = out;
        others = others;
        keeps = others-Keeps d d' n cs fs v.cs v.fs out others;
      }

  Holds-modify :
      (o n : ℕ) (d d1 : NetDaemon k) (cs fs : Cells Block) (content : List ℕ)
      → Holds d d1 n cs fs content
      → Holds d (modify_object k o d1).1 n cs fs content
  Holds-modify o n d d1 cs fs content v =
      let (fds, bp) = modify_object-same o d1 in
      let d' = (modify_object k o d1).1 in
      let others = λ (i : ℕ) (e : i ≢ n). ap (λ f. f i) fds ∙ v.others i e in
      let out = subst (λ p. Outside d.bp p cs fs v.ready.cs v.ready.fs) (sym bp) v.outside in
      record {
        ready = record {
          cs = v.ready.cs;
          fs = v.ready.fs;
          buffer =
              subst (λ f. IsBuffer (f n) d'.bp v.ready.cs v.ready.fs content) (sym fds)
                (subst (λ p. IsBuffer (d1.fds n) p v.ready.cs v.ready.fs content) (sym bp)
                  v.ready.buffer);
          room =
              subst (λ p. length v.ready.cs + length v.ready.fs ≤ p.total_count) (sym bp)
                v.ready.room;
        };
        outside = out;
        others = others;
        keeps = others-Keeps d d' n cs fs v.ready.cs v.ready.fs out others;
      }

  put-open :
      (o n : ℕ) (d : NetDaemon k) (src : List ℕ) (b : Bool) (fb : FdInfo) (bp : BlockPool)
      → IsAttached o n d
      → 0 < length src
      → put_fd (d.fds n) src d.bp ≡ some (b, fb, bp)
      → put k (d.objects o).fd src d
        ≡ some (b, record d { fds = set_fd_info k d.fds n fb; bp = bp })
  unfolding put
  put-open o n d src b fb bp v l e =
      ap
        (λ f. elim f as (λ x. Option (Bool × NetDaemon k)) [
          | none ↦ some (false, d)
          | some n ↦
              if length src == 0
              then some (true, d)
              else put_fd (d.fds n) src d.bp >>= λ r.
                  some (r.0, record d { fds = set_fd_info k d.fds n r.1; bp = r.2 })
        ])
        (fd_index-open o n d v)
      ∙ rw (ne→==_false (length src) 0 (λ z. omega (arith, z, l)), e) refl

  push-open :
      (write : ℕ → ℕ → Written) (o n : ℕ) (d : NetDaemon k) (b : Bool) (fb : FdInfo)
      (bp : BlockPool) (now : List ℕ)
      → IsAttached o n d
      → push_fd write (d.fds n) d.bp ≡ some (b, fb, bp, now)
      → push k write (d.objects o).fd d
        ≡ some (b, record d { fds = set_fd_info k d.fds n fb; bp = bp }, now)
  unfolding push
  push-open write o n d b fb bp now v e =
      ap
        (λ f. elim f as (λ x. Option (Bool × NetDaemon k × List ℕ)) [
          | none ↦ some (false, d, [])
          | some n ↦ push_fd write (d.fds n) d.bp >>= λ r.
              some (r.0, record d { fds = set_fd_info k d.fds n r.1; bp = r.2 }, r.3)
        ])
        (fd_index-open o n d v)
      ∙ rw e refl

  -- putInBuffer of at least a byte on a stream that has a daemon and a correct descriptor, whose
  -- buffer is well-formed and stays below 2 ^ 63 bytes, never fails: it takes all of the data, which
  -- waits behind what waited before, or nothing. Other descriptors keep their records, and their buffers
  -- if none of their blocks was one of this descriptor or free.
  pub put_in_buffer-append :
      (o n : ℕ) (d : NetDaemon k) (content src : List ℕ)
      → IsAttached o n d
      → (w : IsReady (d.fds n) d.bp content) → 0 < length src
      → (d.fds n).size + length src < 2 ^ 63
      → (b : Bool) × (d' : NetDaemon k) × (put_in_buffer k o src d ≡ some (b, d'))
        × Holds d d' n w.cs w.fs (if b then content ++ src else content)
  unfolding put_in_buffer
  put_in_buffer-append o n d content src v ready some_data lim =
      let fb = d.fds n in
      elim (put_fd-IsReady fb d.bp content src ready some_data lim) [
        | inl said ↦ (
          false,
          record d { fds = set_fd_info k d.fds n fb; bp = d.bp },
          rw (v.attached, put-open o n d src false fb d.bp v some_data said) refl,
          Holds-set d n fb d.bp ready.cs ready.fs content ready (λ c o. (refl, o)),
        )
        | inr made ↦
            let d1 : NetDaemon k = record d { fds = set_fd_info k d.fds n made.0; bp = made.1 } in
            (
              true,
              (modify_object k o d1).1,
              rw (v.attached, put-open o n d src true made.0 made.1 v some_data made.2) refl,
              Holds-modify o n d d1 ready.cs ready.fs (content ++ src) (
                  Holds-set d n made.0 made.1 ready.cs ready.fs (content ++ src) made.3.0 made.3.1),
            )
      ]

  -- handleWrite of a stream that has a daemon and a correct descriptor, whose buffer is well-formed:
  -- push writes `now`, the front of what waits, and onEmpty is called, on the state behind push,
  -- exactly if nothing waits any more. Other descriptors keep their records, and their buffers if none of
  -- their blocks was one of this descriptor or free.
  pub handle_write-order :
      (client : Client k) (write : ℕ → ℕ → Written) (o n : ℕ) (d : NetDaemon k) (content : List ℕ)
      → IsAttached o n d
      → (w : IsReady (d.fds n) d.bp content) → IsWrite write
      → (now : List ℕ) × (rest : List ℕ) × (d1 : NetDaemon k) × (content ≡ now ++ rest)
        × Holds d d1 n w.cs w.fs rest
        × (handle_write k client write o d ≡ (
            if length rest == 0
            then (client on_empty d1 >>= λ d'. some (d', now))
            else some (d1, now)))
  unfolding handle_write
  handle_write-order client write o n d content v ready ok =
      let (fb, bp, now, rest, run, split, (ready', out)) =
        push_fd-IsReady write (d.fds n) d.bp content ok ready in
      (
        now,
        rest,
        record d { fds = set_fd_info k d.fds n fb; bp = bp },
        split,
        Holds-set d n fb bp ready.cs ready.fs rest ready' out,
        rw (v.attached, push-open write o n d (length rest == 0) fb bp now v run) refl,
      )

-- A direction that was shut down is not shut down again: repeating shutdown calls nothing.
pub shutdown_again : (how flags : ℕ) → flags < 4 → (shutdown how (shutdown how flags).0).1 ≡ []
unfolding shutdown
shutdown_again how flags l = ground arith
