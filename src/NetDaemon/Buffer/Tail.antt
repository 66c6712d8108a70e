-- ===== src/NetDaemon/Buffer/Tail.antt =====
-- put of src/netdaemon.cpp, the part that fills up the last block of a buffer.
use libmaycloud.Common.{
  ℕ, ◌-◌, ◌≤◌, ◌≡◌, refl, sym, ap, ◌∙◌, false, some, List, [], ◌∷◌, ◌++◌, append-nil, append_assoc,
  arith, ◌==◌, length, drop, length-append,
}
use libmaycloud.Pool.{Ptr, null, Item, item, Heap, assign}
use libmaycloud.Pool.Chain.{Cells, last_of, Distinct, Chain, assign_self, assign-other}
use libmaycloud.Pool.Distinct.{last_of-other}
use libmaycloud.Blocks.{block_size, Block}
use libmaycloud.NetDaemon.Buffer.{write_at}
use libmaycloud.NetDaemon.Buffer.Bytes.{
  joined, IsFull, length-joined, append-cut, write_at-append, length-write_at,
}
use libmaycloud.NetDaemon.Buffer.Shape.{addrs}
use libmaycloud.NetDaemon.Buffer.Write.{copied}

-- The memory after `src` was copied into the last block, over the first bytes of `post`, which end
-- the list of blocks `cs`; `front` are the bytes before it.
pub record Ended (h : Heap Block) (p l : Ptr) (src : List ℕ) (front post : List ℕ)
    (cs : Cells Block) : Type 0 where
  pub block : Block
  pub at : h l ≡ some (item block null)
  pub cs' : Cells Block
  pub chain : Chain (assign h l (item (copied (block_size - length post) src block) null)) p cs'
  pub places : addrs cs' ≡ addrs cs
  pub full : IsFull cs'
  pub bytes : joined cs' ≡ front ++ (src ++ drop (length src) post)

module _ (h : Heap Block) (src post : List ℕ) (len : length src ≤ length post)
    (small : length post ≤ block_size) where
  write_last_one :
      (p a : Ptr) (v : Block) (front : List ℕ)
      → Chain h p ((a, v) ∷ [])
      → length v.bytes ≡ block_size
      → v.bytes ++ [] ≡ front ++ post
      → Ended h p a src front post ((a, v) ∷ [])
  write_last_one p a v front (q, e, ne, at, s) f eq =
      let off : ℕ = block_size - length post in
      let eq' = sym (append-nil v.bytes) ∙ eq in
      let new : Block = copied off src v in
      let size : off ≡ length front = omega (arith, ap length eq', length-append front post, f) in
      let written : write_at off src v.bytes ≡ front ++ (src ++ drop (length src) post) =
        ap (write_at off src) eq' ∙ write_at-append front post src off size in
      record {
        block = v;
        at = at ∙ ap (λ r. some (item v r)) s;
        cs' = (a, new) ∷ [];
        chain = (null, e, ne, assign_self h a (item new null), refl);
        places = refl;
        full = (length-write_at off src v.bytes (omega arith) ∙ f, tt);
        bytes = append-nil _ ∙ written;
      }

  pub write_last :
      (p a : Ptr) (v : Block) (xs : Cells Block) (front : List ℕ)
      → Chain h p ((a, v) ∷ xs)
      → Distinct ((a, v) ∷ xs)
      → IsFull ((a, v) ∷ xs)
      → joined ((a, v) ∷ xs) ≡ front ++ post
      → Ended h p (last_of a xs) src front post ((a, v) ∷ xs)
  write_last p a v [] front s d f eq = write_last_one p a v front s f.0 eq
  write_last p a v ((b, w) ∷ xs) front (q, e, ne, at, s) d f eq =
      let ys : Cells Block = (b, w) ∷ xs in
      let (front', ef, eq') = append-cut v.bytes (joined ys) front post eq (
        omega (
          arith,
          ap length eq,
          length-append v.bytes (joined ys),
          length-append front post,
          length-joined ys f.1,
          f.0,
        )) in
      let r = write_last q b w xs front' s d.1 f.1 eq' in
      let l = last_of b xs in
      let out : (a == l) ≡ false = last_of-other a b w xs d.0 in
      let new : Item Block = item (copied (block_size - length post) src r.block) null in
      record {
        block = r.block;
        at = r.at;
        cs' = (a, v) ∷ r.cs';
        chain = (q, e, ne, assign-other h l a new out ∙ at, r.chain);
        places = ap (λ zs. a ∷ zs) r.places;
        full = (f.0, r.full);
        bytes =
            ap (λ zs. v.bytes ++ zs) r.bytes
            ∙ sym (append_assoc v.bytes front' (src ++ drop (length src) post))
            ∙ ap (λ zs. zs ++ (src ++ drop (length src) post)) (sym ef);
      }
