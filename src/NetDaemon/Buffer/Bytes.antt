-- ===== src/NetDaemon/Buffer/Bytes.antt =====
-- The bytes that a chain of blocks of src/netdaemon.cpp holds, and what memcpy does to them.
use libmaycloud.Common.{
  ℕ, zero, suc, ◌+◌, ◌*◌, ◌≤◌, ◌≡◌, refl, sym, ap, ◌∙◌, List, [], ◌∷◌, ◌++◌, append_assoc, arith,
  length, take, drop, length-append, length-drop,
}
use libmaycloud.Pool.Chain.{Cells}
use libmaycloud.Blocks.{block_size, Block}
use libmaycloud.NetDaemon.Buffer.{write_at}

-- The bytes of all blocks, one block after the other.
abbrev pub joined : Cells Block → List ℕ
joined [] = []
joined ((a, b) ∷ xs) = b.bytes ++ joined xs

-- Every block has its 4096 bytes.
abbrev pub IsFull : Cells Block → Type 0
IsFull [] = Unit {0}
IsFull ((a, b) ∷ xs) = (length b.bytes ≡ block_size) × IsFull xs

pub joined-append : (xs ys : Cells Block) → joined (xs ++ ys) ≡ joined xs ++ joined ys
joined-append [] ys = refl
joined-append ((a, b) ∷ xs) ys =
    ap (λ zs. b.bytes ++ zs) (joined-append xs ys)
    ∙ sym (append_assoc b.bytes (joined xs) (joined ys))

pub length-joined : (xs : Cells Block) → IsFull xs → length (joined xs) ≡ length xs * block_size
length-joined [] f = refl
length-joined ((a, b) ∷ xs) f =
    omega (arith, f.0, length-append b.bytes (joined xs), length-joined xs f.1)

pub IsFull-append : (xs ys : Cells Block) → IsFull xs → IsFull ys → IsFull (xs ++ ys)
IsFull-append [] ys f g = g
IsFull-append ((a, b) ∷ xs) ys f g = (f.0, IsFull-append xs ys f.1 g)

pub IsFull-parts : (xs ys : Cells Block) → IsFull (xs ++ ys) → IsFull xs × IsFull ys
IsFull-parts [] ys f = (tt, f)
IsFull-parts ((a, b) ∷ xs) ys f = let (l, r) = IsFull-parts xs ys f.1 in ((f.0, l), r)

module _ {A : Type 0} where
  pub take-all : (n : ℕ) (xs : List A) → length xs ≤ n → take n xs ≡ xs
  take-all zero [] h = refl
  take-all zero (x ∷ xs) h = absurd (omega arith)
  take-all (suc n) [] h = refl
  take-all (suc n) (x ∷ xs) h = ap (λ ys. x ∷ ys) (take-all n xs (omega arith))

  pub drop-all : (n : ℕ) (xs : List A) → length xs ≤ n → drop n xs ≡ []
  drop-all zero [] h = refl
  drop-all zero (x ∷ xs) h = absurd (omega arith)
  drop-all (suc n) [] h = refl
  drop-all (suc n) (x ∷ xs) h = drop-all n xs (omega arith)

  pub length-take : (n : ℕ) (xs : List A) → n ≤ length xs → length (take n xs) ≡ n
  length-take zero xs h = refl
  length-take (suc n) [] h = absurd (omega arith)
  length-take (suc n) (x ∷ xs) h = omega (arith, length-take n xs (omega arith))

  pub take-append : (xs ys : List A) (n : ℕ) → n ≡ length xs → take n (xs ++ ys) ≡ xs
  take-append [] ys zero e = refl
  take-append [] ys (suc n) e = absurd (omega arith)
  take-append (x ∷ xs) ys zero e = absurd (omega arith)
  take-append (x ∷ xs) ys (suc n) e = ap (λ zs. x ∷ zs) (take-append xs ys n (omega arith))

  pub drop-append : (xs ys : List A) (n m : ℕ) → n ≡ length xs + m → drop n (xs ++ ys) ≡ drop m ys
  drop-append [] ys n m e = ap (λ k. drop k ys) (omega arith)
  drop-append (x ∷ xs) ys zero m e = absurd (omega arith)
  drop-append (x ∷ xs) ys (suc n) m e = drop-append xs ys n m (omega arith)

  -- A prefix that both sides have can be taken off, the shorter one first.
  pub append-cut :
      (xs b ys c : List A)
      → xs ++ b ≡ ys ++ c
      → length xs ≤ length ys
      → (u : List A) × (ys ≡ xs ++ u) × (b ≡ u ++ c)
  append-cut [] b ys c e h = (ys, refl, e)
  append-cut (x ∷ xs) b [] c e h = absurd (omega arith)
  append-cut (x ∷ xs) b (y ∷ ys) c e h =
      let (u, p, q) = append-cut xs b ys c (ground arith) (omega arith) in (u, ground arith, q)

-- The bytes after a write at the end of the first `length u` ones.
pub write_at-append :
    (u c src : List ℕ) (off : ℕ)
    → off ≡ length u
    → write_at off src (u ++ c) ≡ u ++ (src ++ drop (length src) c)
write_at-append u c src off e =
    rw (take-append u c off e, drop-append u c (off + length src) (length src) (omega arith))

pub length-write_at :
    (off : ℕ) (src dst : List ℕ)
    → off + length src ≤ length dst
    → length (write_at off src dst) ≡ length dst
length-write_at off src dst h = omega (
  arith,
  length-append (take off dst) (src ++ drop (off + length src) dst),
  length-append src (drop (off + length src) dst),
  length-take off dst (omega arith),
  length-drop (off + length src) dst,
)
