-- ===== src/Asn1/Bounds.antt =====
-- readHeader of src/asn1reader.cpp stays within the limit.
use libmaycloud.Common.{
  ℕ, ◌+◌, ◌%◌, ◌≤◌, ◌<◌, ◌≡◌, refl, subst, inl, inr, false, some, some-injective, none-ne-some,
  arith, ltb, leb, ltb→le, Bool-cases,
}
use libmaycloud.Asn1.{Header, has_high_bit, within, read_header}

-- A header that was read before `limit` at `p`.
pub record IsHeader (m : ℕ → ℕ) (p limit : ℕ) (h : Header) : Type 0 where
  pub type : h.type ≡ m p
  pub after : p + 2 ≤ h.data_at
  pub whole : h.limit ≡ h.data_at + h.length
  pub inside : h.limit ≤ limit

within-some :
    (m : ℕ → ℕ) (p limit : ℕ) (h h' : Header)
    → h.type ≡ m p
    → p + 2 ≤ h.data_at
    → h.limit ≡ h.data_at + h.length
    → within limit h ≡ some h'
    → IsHeader m p limit h'
unfolding within
within-some m p limit h h' t a w r = elim (Bool-cases (ltb limit h.limit)) [
  | inl y ↦ absurd (none-ne-some h' (rw y at r))
  | inr y ↦
      subst (IsHeader m p limit) (some-injective h h' (rw y at r))
        (record { type = t; after = a; whole = w; inside = ltb→le limit h.limit y })
]

-- A header that readHeader returns has its type from the first byte, its data behind the first two
-- bytes, and its limit, which is its data and length, within the limit of the caller.
pub read_header-IsHeader :
    (m : ℕ → ℕ) (p limit : ℕ) (h : Header) → read_header m p limit ≡ some h → IsHeader m p limit h
unfolding read_header
read_header-IsHeader m p limit h r = elim (Bool-cases (leb limit (p + 1))) [
  | inl y ↦ absurd (none-ne-some h (rw y at r))
  | inr y ↦ elim (Bool-cases (has_high_bit (m (p + 1)))) [
    | inr s ↦ within-some m p limit _ h refl (omega arith) refl (rw (y, s) at r)
    | inl s ↦ elim (Bool-cases (ltb 4 (m (p + 1) % 128))) [
      | inl t ↦ absurd (none-ne-some h (rw (y, s, t) at r))
      | inr t ↦ elim (Bool-cases (ltb limit (p + 2 + m (p + 1) % 128))) [
        | inl u ↦ absurd (none-ne-some h (rw (y, s, t, u) at r))
        | inr u ↦ within-some m p limit _ h refl (omega arith) refl (rw (y, s, t, u) at r)
      ]
    ]
  ]
]

-- A header with a length of one byte.
pub read_header-short :
    (m : ℕ → ℕ) (p limit t n : ℕ)
    → m p ≡ t
    → m (p + 1) ≡ n
    → n < 128
    → p + 2 + n ≤ limit
    → read_header m p limit
      ≡ some (record { type = t; length = n; data_at = p + 2; limit = p + 2 + n })
unfolding read_header within
read_header-short m p limit t n e f l r =
    let x : leb limit (p + 1) ≡ false = ground arith in
    let y : has_high_bit n ≡ false = ground arith in
    let z : ltb limit (p + 2 + n) ≡ false = ground arith in rw (x, f, y, z, e) refl
