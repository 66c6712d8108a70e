-- ===== src/Easylib/Pieces/Walk.antt =====
-- The loop of explode of src/easylib.cpp as a walk over what is left of the string.
use libmaycloud.Common.{
  ℕ, zero, suc, ◌+◌, ◌-◌, ◌≤◌, ◌<◌, ◌≡◌, refl, sym, ap, ap₂, ◌∙◌, inl, inr, Bool, List, [], ◌∷◌,
  ◌++◌, append_assoc, arith, ◌==◌, if◌then◌else◌, lt→ltb, le→ltb, eq→==, ==_iff, Bool-cases, length,
  take, drop, length-append,
}
use libmaycloud.Easylib.Pieces.{matching, substr, explode_loop}

-- `cur` is the piece so far, `rest` what is left.
unfoldable pub walk : (delimiter : List ℕ) → (fuel : ℕ) → (cur rest : List ℕ) → List (List ℕ)
walk d zero cur rest = []
walk d (suc fuel) cur [] = cur ∷ []
walk d (suc fuel) cur (x ∷ rest) =
    let hit = walk d fuel [] (drop (length d) (x ∷ rest)) in
    let miss = walk d fuel (cur ++ (x ∷ [])) rest in
    if matching (x ∷ rest) d == length d then cur ∷ hit else miss

-- The delimiter stands where all its characters agree.
pub matching-append : (d s : List ℕ) → matching (d ++ s) d ≡ length d
unfolding matching
matching-append [] [] = refl
matching-append [] (x ∷ s) = refl
matching-append (c ∷ d) s =
    ap (λ b. if b then suc (matching (d ++ s) d) else 0) (eq→== c c refl)
    ∙ ap suc (matching-append d s)

pub matching-full : (s d : List ℕ) → matching s d ≡ length d → d ++ drop (length d) s ≡ s
unfolding matching
matching-full s [] e = refl
matching-full [] (c ∷ d) e = absurd (omega (arith, e))
matching-full (x ∷ s) (c ∷ d) e =
    let go = λ (b : Bool). if b then suc (matching s d) else 0 in
    elim (Bool-cases (x == c)) [
      | inl t ↦
          ap₂ (λ y ys. y ∷ ys) (sym ((==_iff x c).0 t))
            (matching-full s d (omega (arith, sym (ap go t) ∙ e)))
      | inr f ↦ absurd (omega (arith, sym (ap go f) ∙ e))
    ]

pub matching-le : (s d : List ℕ) → matching s d ≤ length d
unfolding matching
matching-le [] d = omega arith
matching-le (x ∷ s) [] = omega arith
matching-le (x ∷ s) (c ∷ d) = let r = matching-le s d in ground arith

pub drop-append : (xs ys : List ℕ) → drop (length xs) (xs ++ ys) ≡ ys
drop-append [] ys = refl
drop-append (x ∷ xs) ys = drop-append xs ys

pub drop-append_add : (xs ys : List ℕ) (n : ℕ) → drop (length xs + n) (xs ++ ys) ≡ drop n ys
drop-append_add [] ys n = ap (λ k. drop k ys) (omega arith)
drop-append_add (x ∷ xs) ys n =
    ap (λ k. drop k (x ∷ (xs ++ ys))) {x = suc (length xs) + n} {y = suc (length xs + n)}
      (omega arith)
    ∙ drop-append_add xs ys n

pub take-append : (xs ys : List ℕ) → take (length xs) (xs ++ ys) ≡ xs
take-append [] ys = refl
take-append (x ∷ xs) ys = ap (λ zs. x ∷ zs) (take-append xs ys)

-- The string is what is done with, the piece so far and what is left.
pub record IsAt (pre cur rest str : List ℕ) (i k : ℕ) : Type 0 where
  pub whole : pre ++ (cur ++ rest) ≡ str
  pub from : k ≡ length pre
  pub here : i ≡ length pre + length cur

IsAt-substr :
    (pre cur rest str : List ℕ) (i k : ℕ)
    → IsAt pre cur rest str i k
    → (substr str k (i - k) ≡ cur) × (drop i str ≡ rest)
IsAt-substr pre cur rest str i k v =
    let n : i ≡ length (pre ++ cur) = omega (arith, v.here, length-append pre cur) in
    let m : i - k ≡ length cur = omega (arith, v.here, v.from) in
    (
      ap₂ take m (ap₂ drop v.from (sym v.whole) ∙ drop-append pre (cur ++ rest))
          ∙ take-append cur rest,
      ap₂ drop n (sym v.whole ∙ sym (append_assoc pre cur rest)) ∙ drop-append (pre ++ cur) rest,
    )

IsAt-step :
    (pre cur : List ℕ) (x : ℕ) (rest str : List ℕ) (i k : ℕ)
    → IsAt pre cur (x ∷ rest) str i k
    → IsAt pre (cur ++ (x ∷ [])) rest str (i + 1) k
IsAt-step pre cur x rest str i k v = record {
  whole = ap (λ ys. pre ++ ys) (append_assoc cur (x ∷ []) rest) ∙ v.whole;
  from = v.from;
  here = omega (arith, v.here, length-append cur (x ∷ []));
}

IsAt-hit :
    (d pre cur left rest str : List ℕ) (i k : ℕ)
    → d ++ left ≡ rest
    → IsAt pre cur rest str i k
    → IsAt (pre ++ (cur ++ d)) [] left str (i + length d) (i + length d)
IsAt-hit d pre cur left rest str i k e v =
    let n : length (pre ++ (cur ++ d)) ≡ i + length d =
      omega (arith, v.here, length-append pre (cur ++ d), length-append cur d) in
    record {
      whole =
          append_assoc pre (cur ++ d) left
          ∙ ap (λ ys. pre ++ ys) (append_assoc cur d left ∙ ap (λ ys. cur ++ ys) e)
          ∙ v.whole;
      from = sym n;
      here = omega (arith, n);
    }

pub explode_loop-walk :
    (d str : List ℕ) (fuel i k : ℕ) (pre cur rest : List ℕ)
    → IsAt pre cur rest str i k
    → explode_loop d str fuel i k ≡ walk d fuel cur rest
unfolding explode_loop walk
explode_loop-walk d str zero i k pre cur rest v = refl
explode_loop-walk d str (suc fuel) i k pre cur [] v =
    let at = IsAt-substr pre cur [] str i k v in
    let n : length str ≡ i = omega (
      arith,
      sym (ap length v.whole),
      v.here,
      length-append pre (cur ++ []),
      length-append cur [],
    ) in
    rw (le→ltb i (length str) (omega (arith, n)), at.0)
explode_loop-walk d str (suc fuel) i k pre cur (x ∷ rest) v =
    let at = IsAt-substr pre cur (x ∷ rest) str i k v in
    let n : i < length str = omega (
      arith,
      sym (ap length v.whole),
      v.here,
      length-append pre (cur ++ (x ∷ rest)),
      length-append cur (x ∷ rest),
    ) in
    let left = drop (length d) (x ∷ rest) in
    let test = matching (x ∷ rest) d == length d in
    rw (lt→ltb i (length str) n, at.0, at.1)
      (elim (Bool-cases test) [
        | inl t ↦ rw t (
            ap (λ ys. cur ∷ ys)
              (explode_loop-walk d str fuel (i + length d) (i + length d) (pre ++ (cur ++ d)) []
                left
                (IsAt-hit d pre cur left (x ∷ rest) str i k
                  (matching-full (x ∷ rest) d ((==_iff (matching (x ∷ rest) d) (length d)).0 t))
                  v)))
        | inr f ↦ rw f (
            explode_loop-walk d str fuel (i + 1) k pre (cur ++ (x ∷ [])) rest
              (IsAt-step pre cur x rest str i k v))
      ])
