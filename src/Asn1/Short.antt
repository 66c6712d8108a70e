-- ===== src/Asn1/Short.antt =====
-- The readers of src/asn1reader.cpp on values that stand in the memory byte by byte.
use libmaycloud.Asn1.{
  result, read_number, signed, within, read_header, read_int, bytes_at, read_string, read_null,
}
use libmaycloud.Asn1.Bounds.{read_header-short}
use libmaycloud.Asn1.Int.{big_endian, with_header-some, read_int-integer_at}
use libmaycloud.Asn1.Oid.{Has}
use libmaycloud.Common.{
  ℕ, zero, suc, ◌+◌, ◌*◌, ◌≤◌, ◌<◌, ◌≡◌, refl, ap, ap₂, subst, ◌∙◌, true, false, some,
  some-injective, none-ne-some, List, [], ◌∷◌, ◌++◌, arith, ltb, leb, ◌==◌, length, get_elem?, drop,
  pos,
}

pub Has-at :
    (m : ℕ → ℕ) (p : ℕ) (bs : List ℕ) (i b : ℕ)
    → Has m p bs
    → get_elem? bs i ≡ some b
    → m (p + i) ≡ b
Has-at m p [] i b h e = absurd (none-ne-some b e)
Has-at m p (x ∷ xs) zero b h e = ap m (omega arith) ∙ h.0 ∙ some-injective x b e
Has-at m p (x ∷ xs) (suc i) b h e = ap m (omega arith) ∙ Has-at m (p + 1) xs i b h.1 e

pub Has-drop : (m : ℕ → ℕ) (p n : ℕ) (bs : List ℕ) → Has m p bs → Has m (p + n) (drop n bs)
Has-drop m p zero bs h = subst (λ q. Has m q bs) (omega arith) h
Has-drop m p (suc n) [] h = tt
Has-drop m p (suc n) (x ∷ xs) h =
    subst (λ q. Has m q (drop n xs)) (omega arith) (Has-drop m (p + 1) n xs h.1)

-- A header with a length of two bytes.
pub read_header-long :
    (m : ℕ → ℕ) (p limit t hi lo : ℕ)
    → m p ≡ t
    → m (p + 1) ≡ 130
    → m (p + 2) ≡ hi
    → m (p + 3) ≡ lo
    → hi < 256
    → lo < 256
    → p + 4 + (hi * 256 + lo) ≤ limit
    → read_header m p limit
      ≡ some (record {
        type = t;
        length = hi * 256 + lo;
        data_at = p + 4;
        limit = p + 4 + (hi * 256 + lo);
      })
unfolding read_header within read_number
read_header-long m p limit t hi lo e f g h l r room =
    let x : leb limit (p + 1) ≡ false = ground arith in
    let y : ltb limit (p + 4) ≡ false = ground arith in
    let z : ltb limit (p + 4 + (hi * 256 + lo)) ≡ false = ground arith in
    let q : p + 2 + 2 ≡ p + 4 = omega arith in
    let h' : m (p + 2 + 1) ≡ lo = ap m (omega arith) ∙ h in
    let n : read_number 32 m (p + 2) 2 0 ≡ hi * 256 + lo = omega (arith, g, h') in
    rw (x, f, q, y, n, z, e) refl

pub read_int-byte :
    (m : ℕ → ℕ) (p limit v : ℕ)
    → m p ≡ 2
    → m (p + 1) ≡ 1
    → m (p + 2) ≡ v
    → v < 128
    → p + 3 ≤ limit
    → read_int m p limit ≡ result (pos v) (p + 3)
unfolding signed
read_int-byte m p limit v e f g l r =
    let s : ltb (m (p + 2) * 1 + 0) 128 ≡ true = ground (arith, g) in
    let w : m (p + 2) * 1 + 0 ≡ v = omega (arith, g) in
    read_int-integer_at m p limit _
      (read_header-short m p limit 2 1 e f (omega arith) (omega arith)) refl
    ∙ rw s (ap₂ (λ i q. result (pos i) q) w (omega arith))

pub read_int-word :
    (m : ℕ → ℕ) (p limit v : ℕ)
    → m p ≡ 2
    → m (p + 1) ≡ 4
    → big_endian m (p + 2) 4 ≡ v
    → p + 6 ≤ limit
    → read_int m p limit ≡ result (signed 32 v) (p + 6)
read_int-word m p limit v e f g r =
    read_int-integer_at m p limit _
      (read_header-short m p limit 2 4 e f (omega arith) (omega arith)) refl
    ∙ ap₂ (λ i q. result (signed 32 i) q) g (omega arith)

bytes_at-Has : (m : ℕ → ℕ) (p : ℕ) (bs : List ℕ) → Has m p bs → bytes_at m p (length bs) ≡ bs
unfolding bytes_at
bytes_at-Has m p [] h = refl
bytes_at-Has m p (b ∷ bs) h = ap₂ (λ x xs. x ∷ xs) h.0 (bytes_at-Has m (p + 1) bs h.1)

pub read_string-Has :
    (m : ℕ → ℕ) (p limit : ℕ) (bs : List ℕ)
    → m p ≡ 4
    → m (p + 1) ≡ length bs
    → Has m (p + 2) bs
    → length bs < 128
    → p + 2 + length bs ≤ limit
    → read_string m p limit ≡ result (bs ++ (0 ∷ [])) (p + 2 + length bs)
unfolding read_string
read_string-Has m p limit bs e f h l r =
    let s : ltb 255 (length bs) ≡ false = ground arith in
    with_header-some (λ t. t == 4) _ m p limit _ (read_header-short m p limit 4 (length bs) e f l r)
      refl
    ∙ rw (s, bytes_at-Has m (p + 2) bs h) refl

pub read_null-short :
    (m : ℕ → ℕ) (p limit : ℕ)
    → m p ≡ 5
    → m (p + 1) ≡ 0
    → p + 2 ≤ limit
    → read_null m p limit ≡ result true (p + 2)
unfolding read_null
read_null-short m p limit e f r =
    with_header-some (λ t. t == 5) _ m p limit _
      (read_header-short m p limit 5 0 e f (omega arith) (omega arith)) refl
    ∙ ap (λ q. result true q) (omega arith)
