-- ===== src/Easylib/Pieces/Split.antt =====
-- Where a string stands first in another: explode and std::string::find of src/easylib.cpp agree on it.
use libmaycloud.Common.{
  ℕ, zero, suc, ◌+◌, ◌<◌, ◌≡◌, refl, sym, ap, ap₂, ◌∙◌, ◌≢◌, false, none, some, List, [], ◌∷◌, ◌++◌,
  append-nil, append_assoc, arith, ◌==◌, le→ltb, ne→==_false, eq→==, length, All,
}
use libmaycloud.Easylib.Pieces.{matching, find_in, find}
use libmaycloud.Easylib.Pieces.Walk.{walk, matching-append, drop-append}

-- The string `d` starts nowhere in `p` when `rest` stands behind `p`.
abbrev pub Unmatched : (d rest p : List ℕ) → Type 0
Unmatched d rest [] = Unit {0}
Unmatched d rest (x ∷ p) = ((matching (x ∷ (p ++ rest)) d == length d) ≡ false) × Unmatched d rest p

-- A string whose first character does not occur starts nowhere.
pub Unmatched-other : (c : ℕ) (d rest p : List ℕ) → All (λ x. x ≢ c) p → Unmatched (c ∷ d) rest p
unfolding matching
Unmatched-other c d rest [] o = tt
Unmatched-other c d rest (x ∷ p) o = (
  rw (ne→==_false x c o.0) (ne→==_false 0 (suc (length d)) (omega arith)),
  Unmatched-other c d rest p o.1,
)

pub Unmatched-append :
    (d rest p q : List ℕ)
    → Unmatched d (q ++ rest) p
    → Unmatched d rest q
    → Unmatched d rest (p ++ q)
Unmatched-append d rest [] q u v = v
Unmatched-append d rest (x ∷ p) q u v = (rw append_assoc u.0, Unmatched-append d rest p q u.1 v)

-- The first place of a string is behind the part in which it does not start.
pub find_in-Unmatched :
    (d rest p : List ℕ) (from : ℕ)
    → 0 < length d
    → Unmatched d (d ++ rest) p
    → find_in (p ++ (d ++ rest)) d from ≡ some (from + length p)
unfolding find_in
find_in-Unmatched [] rest [] from n u = absurd (omega (arith, n))
find_in-Unmatched (c ∷ d) rest [] from n u =
    rw (eq→== (matching (c ∷ (d ++ rest)) (c ∷ d)) (suc (length d)) (matching-append (c ∷ d) rest))
      (ap some (omega arith))
find_in-Unmatched d rest (x ∷ p) from n u =
    rw u.0 (find_in-Unmatched d rest p (from + 1) n u.1 ∙ ap some (omega arith))

pub find-Unmatched :
    (d rest p : List ℕ)
    → 0 < length d
    → Unmatched d (d ++ rest) p
    → find (p ++ (d ++ rest)) d 0 ≡ some (length p)
unfolding find
find-Unmatched d rest p n u =
    rw (le→ltb (length (p ++ (d ++ rest))) 0 (omega arith))
      (find_in-Unmatched d rest p 0 n u ∙ ap some (omega arith))

-- A string that starts nowhere is not found.
pub find_in-none :
    (d p : List ℕ) (from : ℕ) → 0 < length d → Unmatched d [] p → find_in p d from ≡ none
unfolding find_in
find_in-none d [] from n u = rw (ne→==_false (length d) 0 (omega (arith, n))) refl
find_in-none d (x ∷ p) from n u =
    let here : (matching (x ∷ p) d == length d) ≡ false = rw append-nil at u.0 in
    rw here (find_in-none d p (from + 1) n u.1)

pub find-none : (d p : List ℕ) → 0 < length d → Unmatched d [] p → find p d 0 ≡ none
unfolding find
find-none d p n u = rw (le→ltb (length p) 0 (omega arith)) (find_in-none d p 0 n u)

walk-hit :
    (d : List ℕ) (n k : ℕ) (cur t : List ℕ)
    → 0 < length d
    → n ≡ k
    → walk d (suc n) cur (d ++ t) ≡ (cur ++ []) ∷ walk d k [] t
unfolding walk
walk-hit [] n k cur t z e = absurd (omega (arith, z))
walk-hit (c ∷ d) n k cur t z e =
    rw (eq→== (matching (c ∷ (d ++ t)) (c ∷ d)) (suc (length d)) (matching-append (c ∷ d) t))
      (rw (drop-append d t) (ap₂ (λ r m. r ∷ walk (c ∷ d) m [] t) (sym (append-nil cur)) e))

module _ (d : List ℕ) where
  -- The last piece.
  pub walk-last :
      (n : ℕ) (cur p : List ℕ) → Unmatched d [] p → length p < n → walk d n cur p ≡ (cur ++ p) ∷ []
  unfolding walk
  walk-last zero cur p u l = absurd (omega (arith, l))
  walk-last (suc n) cur [] u l = ap (λ r. r ∷ []) (sym (append-nil cur))
  walk-last (suc n) cur (x ∷ p) u l =
      let here : (matching (x ∷ p) d == length d) ≡ false = rw append-nil at u.0 in
      rw here (
        walk-last n (cur ++ (x ∷ [])) p u.1 (omega (arith, l))
        ∙ ap (λ r. r ∷ []) (append_assoc cur (x ∷ []) p))

  -- A piece in front of the delimiter.
  pub walk-piece :
      (n k : ℕ) (cur p t : List ℕ)
      → 0 < length d
      → Unmatched d (d ++ t) p
      → n ≡ length p + suc k
      → walk d n cur (p ++ (d ++ t)) ≡ (cur ++ p) ∷ walk d k [] t
  unfolding walk
  walk-piece zero k cur p t z u e = absurd (omega (arith, e))
  walk-piece (suc n) k cur [] t z u e = walk-hit d n k cur t z (omega (arith, e))
  walk-piece (suc n) k cur (x ∷ p) t z u e = rw u.0 (
      walk-piece n k (cur ++ (x ∷ [])) p t z u.1 (omega (arith, e))
      ∙ ap (λ r. r ∷ walk d k [] t) (append_assoc cur (x ∷ []) p))
