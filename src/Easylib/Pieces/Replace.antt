-- ===== src/Easylib/Pieces/Replace.antt =====
-- strReplace of src/easylib.cpp against explode and implode.
use libmaycloud.Common.{
  ℕ, zero, suc, ◌+◌, ◌≤◌, ◌<◌, ◌≡◌, refl, sym, ap, ap₂, ◌∙◌, inl, inr, Option, none, some, List, [],
  ◌∷◌, ◌++◌, append-nil, append_assoc, arith, ◌==◌, if◌then◌else◌, le→ltb, ne→==_false, ==_iff,
  Bool-cases, length, take, drop, length-append, take-append-drop, length-drop,
}
use libmaycloud.Easylib.Pieces.{
  matching, explode, implode, find_in, find, str_replace_loop, str_replace,
}
use libmaycloud.Easylib.Pieces.Explode.{implode-cons, walk-cons, implode_one, IsShort, explode-walk}
use libmaycloud.Easylib.Pieces.Walk.{walk, matching-full, drop-append, take-append}

-- What find_in has to do with a walk of explode over the same string: both end, or both stop at the same place.
data Ways (d rep rest : List ℕ) (from : ℕ) (cur : List ℕ) (fuel : ℕ) : Type 0 where
  ends :
      find_in rest d from ≡ none
      → walk d fuel cur rest ≡ (cur ++ rest) ∷ []
      → Ways d rep rest from cur fuel
  stops :
      (a b : List ℕ) (fuel' : ℕ)
      → find_in rest d from ≡ some (from + length a)
      → a ++ (d ++ b) ≡ rest
      → length b < fuel'
      → walk d fuel cur rest ≡ (cur ++ a) ∷ walk d fuel' [] b
      → Ways d rep rest from cur fuel

Ways-walk :
    (d rep rest : List ℕ) (from : ℕ) (cur : List ℕ) (fuel : ℕ)
    → 0 < length d
    → length rest < fuel
    → Ways d rep rest from cur fuel
unfolding walk find_in
Ways-walk d rep rest from cur zero n l = absurd (omega (arith, l))
Ways-walk d rep [] from cur (suc fuel) n l =
    ends
      (ap (λ b. if b then some from else none)
        (ne→==_false (length d) 0 (λ e. omega (arith, e, n))))
      (ap (λ p. p ∷ []) (sym (append-nil cur)))
Ways-walk d rep (x ∷ rest) from cur (suc fuel) n l =
    let left = drop (length d) (x ∷ rest) in
    let short = length-drop (length d) (x ∷ rest) in
    let test = matching (x ∷ rest) d == length d in
    elim (Bool-cases test) [
      | inl t ↦
          stops [] left fuel (rw t (ap some {x = from} (omega arith)))
            (matching-full (x ∷ rest) d ((==_iff (matching (x ∷ rest) d) (length d)).0 t))
            (omega (arith, short, n, l))
            (rw t (ap (λ p. p ∷ walk d fuel [] left) (sym (append-nil cur))))
      | inr f ↦ elim (Ways-walk d rep rest (from + 1) (cur ++ (x ∷ [])) fuel n (omega (arith, l))) [
        | ends e w ↦ ends (rw f e) (rw f (w ∙ ap (λ p. p ∷ []) (append_assoc cur (x ∷ []) rest)))
        | stops a b fuel' e s k w ↦
            stops (x ∷ a) b fuel' (rw f (e ∙ ap some {x = from + 1 + length a} (omega arith)))
              (ap (λ r. x ∷ r) s) k
              (rw f (w ∙ ap (λ p. p ∷ walk d fuel' [] b) (append_assoc cur (x ∷ []) a)))
      ]
    ]

module _ (d rep : List ℕ) (n : 0 < length d) where
  find-here :
      (done rest : List ℕ) → find (done ++ rest) d (length done) ≡ find_in rest d (length done)
  unfolding find
  find-here done rest =
      let l = length-append done rest in
      ap (λ b. if b then none else find_in (drop (length done) (done ++ rest)) d (length done))
        (le→ltb (length (done ++ rest)) (length done) (omega (arith, l)))
      ∙ ap (λ r. find_in r d (length done)) (drop-append done rest)

  -- One replacement.
  replaced :
      (done a b : List ℕ)
      → let at = length done + length a in
        let s = done ++ (a ++ (d ++ b)) in
        take at s ++ rep ++ drop (at + length d) s ≡ (done ++ a ++ rep) ++ b
  replaced done a b =
      let at = length done + length a in
      let e : done ++ (a ++ (d ++ b)) ≡ (done ++ a) ++ (d ++ b) =
        sym (append_assoc done a (d ++ b)) in
      let m : at ≡ length (done ++ a) = omega (arith, length-append done a) in
      let k : at + length d ≡ length ((done ++ a) ++ d) =
        omega (arith, length-append done a, length-append (done ++ a) d) in
      ap₂ (λ x y. x ++ rep ++ y) (ap₂ take m e ∙ take-append (done ++ a) (d ++ b))
        (ap₂ drop k (e ∙ sym (append_assoc (done ++ a) d b)) ∙ drop-append ((done ++ a) ++ d) b)

  str_replace_loop-walk :
      (f g : ℕ) (done rest : List ℕ)
      → length rest < f
      → length rest < g
      → str_replace_loop f (done ++ rest) d rep (length done)
        ≡ some (done ++ implode rep (walk d g [] rest))
  unfolding str_replace_loop
  str_replace_loop-walk zero g done rest l h = absurd (omega (arith, l))
  str_replace_loop-walk (suc f) g done rest l h =
      let s = done ++ rest in
      let go : Option ℕ → Option (List ℕ) = λ o. elim o [
        | none ↦ some s
        | some at ↦
            str_replace_loop f (take at s ++ rep ++ drop (at + length d) s) d rep (at + length rep)
      ] in
      elim (Ways-walk d rep rest (length done) [] g n h) [
        | ends e w ↦
            ap go (find-here done rest ∙ e)
            ∙ ap (λ r. some (done ++ r)) (sym (implode_one rep rest))
            ∙ ap (λ ps. some (done ++ implode rep ps)) (sym w)
        | stops a b g' e whole k w ↦
            let done' = done ++ a ++ rep in
            let at = length done + length a in
            let size : length rest ≡ length a + (length d + length b) =
              omega (arith, sym (ap length whole), length-append a (d ++ b), length-append d b) in
            let far : at + length rep ≡ length done' =
              omega (arith, length-append (done ++ a) rep, length-append done a) in
            let more = walk-cons d g' [] b k in
            ap go (find-here done rest ∙ e)
            ∙ ap₂ (λ r p. str_replace_loop f r d rep p)
                (ap (λ r. take at (done ++ r) ++ rep ++ drop (at + length d) (done ++ r))
                    (sym whole)
                  ∙ replaced done a b)
                far
            ∙ str_replace_loop-walk f g' done' b (omega (arith, size, n, l)) k
            ∙ ap some (
                append_assoc (done ++ a) rep (implode rep (walk d g' [] b))
                ∙ append_assoc done a (rep ++ implode rep (walk d g' [] b))
                ∙ ap (λ r. done ++ r)
                    (ap (λ ps. a ++ (rep ++ implode rep ps)) more.2
                      ∙ sym (implode-cons rep a more.0 more.1)
                      ∙ ap (λ ps. implode rep (a ∷ ps)) (sym more.2)
                      ∙ ap (implode rep) (sym w)))
      ]

-- strReplace ends for every string that is not empty, and its result is the pieces of explode with the
-- replacement between them, if the string and the subject have less than 2 ^ 31 characters, as explode counts with
-- an int.
pub str_replace-implode :
    (subject wanted replace : List ℕ)
    → 0 < length wanted
    → IsShort wanted
    → IsShort subject
    → str_replace (length subject + 1) subject wanted replace
      ≡ some (implode replace (explode wanted subject))
unfolding str_replace
str_replace-implode subject wanted replace n m l =
    str_replace_loop-walk wanted replace n (length subject + 1) (length subject + 1) [] subject
      (omega arith) (omega arith)
    ∙ ap (λ ps. some (implode replace ps)) (sym (explode-walk wanted subject n m l))

module _ (rep : List ℕ) where
  empty_stands : (s : List ℕ) (from : ℕ) → find_in s [] from ≡ some from
  unfolding find_in matching
  empty_stands [] from = refl
  empty_stands (x ∷ s) from = refl

  empty_runs :
      (fuel : ℕ) (s : List ℕ) (from : ℕ)
      → from ≤ length s
      → str_replace_loop fuel s [] rep from ≡ none
  unfolding str_replace_loop find
  empty_runs zero s from l = refl
  empty_runs (suc fuel) s from l =
      let s' = take from s ++ rep ++ drop (from + 0) s in
      let go : Option ℕ → Option (List ℕ) = λ o. elim o [
        | none ↦ some s
        | some at ↦
            str_replace_loop fuel (take at s ++ rep ++ drop (at + 0) s) [] rep (at + length rep)
      ] in
      let whole = ap length (take-append-drop from s) in
      let joined = length-append (take from s ++ rep) (drop (from + 0) s) in
      let front = length-append (take from s) rep in
      let parts = length-append (take from s) (drop from s) in
      ap (λ b. go (if b then none else find_in (drop from s) [] from)) (le→ltb (length s) from l)
      ∙ ap go (empty_stands (drop from s) from)
      ∙ empty_runs fuel s' (from + length rep) (
          omega
            (arith, whole, joined, front, parts, length-drop from s, length-drop (from + 0) s, l))

-- strReplace of the empty string never ends: no fuel is enough.
pub str_replace_empty :
    (fuel : ℕ) (subject replace : List ℕ) → str_replace fuel subject [] replace ≡ none
unfolding str_replace
str_replace_empty fuel subject replace = empty_runs replace fuel subject 0 (omega arith)
