-- ===== src/Easylib/Pieces/Explode.antt =====
-- What explode and implode of src/easylib.cpp have to do with each other.
use libmaycloud.Common.{
  ℕ, zero, suc, ◌+◌, ◌^◌, ◌<◌, ◌≡◌, refl, sym, ap, ap₂, subst, ◌∙◌, ◌≢◌, inl, inr, false, none,
  some, List, [], ◌∷◌, ◌++◌, append-nil, append_assoc, arith, ltb, ◌==◌, if◌then◌else◌, ltb→lt,
  ltb→le, ne→==_false, eq→==, ==_iff, Bool-cases, true-ne-false, length, take, drop, All,
  length-append, length-drop,
}
use libmaycloud.Easylib.Pieces.{
  matching, explode_loop, explode_pieces, as_int, int_part, explode, implode_loop, implode,
}
use libmaycloud.Easylib.Pieces.Walk.{
  walk, matching-append, matching-full, drop-append, explode_loop-walk,
}

implode_loop-append :
    (d a b : List ℕ) (ps : List (List ℕ)) → implode_loop d (a ++ b) ps ≡ a ++ implode_loop d b ps
unfolding implode_loop
implode_loop-append d a b [] = refl
implode_loop-append d a b (p ∷ ps) =
    ap (λ r. implode_loop d r ps)
      (append_assoc (a ++ b) d p
        ∙ append_assoc a b (d ++ p)
        ∙ ap (λ r. a ++ r) (sym (append_assoc b d p)))
    ∙ implode_loop-append d a (b ++ d ++ p) ps

pub implode-cons :
    (d p q : List ℕ) (ps : List (List ℕ)) → implode d (p ∷ q ∷ ps) ≡ p ++ (d ++ implode d (q ∷ ps))
unfolding implode
implode-cons d p q ps = implode_loop-append d (p ++ d) q ps ∙ append_assoc p d (implode_loop d q ps)

pub walk-cons :
    (d : List ℕ) (fuel : ℕ) (cur rest : List ℕ)
    → length rest < fuel
    → (p : List ℕ) × (ps : List (List ℕ)) × (walk d fuel cur rest ≡ p ∷ ps)
unfolding walk
walk-cons d zero cur rest l = absurd (omega (arith, l))
walk-cons d (suc fuel) cur [] l = (cur, [], refl)
walk-cons d (suc fuel) cur (x ∷ rest) l = elim (Bool-cases (matching (x ∷ rest) d == length d)) [
  | inl t ↦ rw t (cur, walk d fuel [] (drop (length d) (x ∷ rest)), refl)
  | inr f ↦ rw f (walk-cons d fuel (cur ++ (x ∷ [])) rest (omega (arith, l)))
]

pub implode_one : (d p : List ℕ) → implode d (p ∷ []) ≡ p
unfolding implode implode_loop
implode_one d p = refl

implode-walk :
    (d : List ℕ) (fuel : ℕ) (cur rest : List ℕ)
    → 0 < length d
    → length rest < fuel
    → implode d (walk d fuel cur rest) ≡ cur ++ rest
unfolding walk
implode-walk d zero cur rest n l = absurd (omega (arith, l))
implode-walk d (suc fuel) cur [] n l = implode_one d cur ∙ sym (append-nil cur)
implode-walk d (suc fuel) cur (x ∷ rest) n l =
    let left = drop (length d) (x ∷ rest) in
    let short = length-drop (length d) (x ∷ rest) in
    elim (Bool-cases (matching (x ∷ rest) d == length d)) [
      | inl t ↦
          let more = walk-cons d fuel [] left (omega (arith, short, n, l)) in
          rw t (
            ap (λ ys. implode d (cur ∷ ys)) more.2
            ∙ implode-cons d cur more.0 more.1
            ∙ ap (λ r. cur ++ (d ++ r))
                (ap (implode d) (sym more.2)
                  ∙ implode-walk d fuel [] left n (omega (arith, short, n, l)))
            ∙ ap (λ r. cur ++ r)
                (matching-full (x ∷ rest) d ((==_iff (matching (x ∷ rest) d) (length d)).0 t)))
      | inr f ↦ rw f (
          implode-walk d fuel (cur ++ (x ∷ [])) rest n (omega (arith, l))
          ∙ append_assoc cur (x ∷ []) rest)
    ]

pub take_all : (s : List ℕ) → take (length s) s ≡ s
take_all [] = refl
take_all (x ∷ s) = ap (λ t. x ∷ t) (take_all s)

-- A length below 2 ^ 31 is that of the int.
pub as_int_small : (n : ℕ) → n < 2 ^ 31 → as_int n ≡ some n
unfolding as_int
as_int_small n l = ground (arith, l)

-- A string that an int can count.
abbrev pub IsShort : List ℕ → Type 0
IsShort s = length s < 2 ^ 31

pub int_part-IsShort : (s : List ℕ) → IsShort s → int_part s ≡ s
unfolding int_part
int_part-IsShort s l =
    ap (λ o. elim o as (λ _. List ℕ) [ none ↦ [] | some n ↦ take n s ]) (as_int_small (length s) l)
    ∙ take_all s

explode-IsShort : (d str : List ℕ) → IsShort d → IsShort str → explode d str ≡ explode_pieces d str
unfolding explode
explode-IsShort d str m l =
    ap
      (λ o. elim o as (λ _. List (List ℕ)) [
        | none ↦ int_part str ∷ []
        | some n ↦ explode_pieces (take n d) (int_part str)
      ])
      (as_int_small (length d) m)
    ∙ ap₂ explode_pieces (take_all d) (int_part-IsShort str l)

pub explode-walk :
    (d str : List ℕ)
    → 0 < length d
    → IsShort d
    → IsShort str
    → explode d str ≡ walk d (length str + 1) [] str
unfolding explode_pieces
explode-walk d str n m l =
    explode-IsShort d str m l
    ∙ ap (λ b. if b then [] else explode_loop d str (length str + 1) 0 0)
        (ne→==_false (length d) 0 (λ e. omega (arith, e, n)))
    ∙ explode_loop-walk d str (length str + 1) 0 0 [] [] str
        (record { whole = refl; from = refl; here = refl })

-- The pieces that explode makes with a delimiter that is not empty, put together with the
-- delimiter between them, are the string, if both are shorter than 2 ^ 31 characters.
pub implode-explode :
    (d str : List ℕ) → 0 < length d → IsShort d → IsShort str → implode d (explode d str) ≡ str
implode-explode d str n m l =
    ap (implode d) (explode-walk d str n m l)
    ∙ implode-walk d (length str + 1) [] str n (omega arith)

-- A string without the delimiter.
abbrev pub Lacks : (d p : List ℕ) → Type 0
Lacks d p = (a b : List ℕ) → a ++ (d ++ b) ≢ p

-- No delimiter starts in the piece so far.
IsClean : (d cur rest : List ℕ) → Type 0
IsClean d cur rest = (a b : List ℕ) → length a < length cur → a ++ (d ++ b) ≢ cur ++ rest

IsClean-miss :
    (d cur : List ℕ) (x : ℕ) (rest : List ℕ)
    → IsClean d cur (x ∷ rest)
    → (matching (x ∷ rest) d == length d) ≡ false
    → IsClean d (cur ++ (x ∷ [])) rest
unfolding IsClean
IsClean-miss d cur x rest c f a b l e =
    let whole : a ++ (d ++ b) ≡ cur ++ (x ∷ rest) = e ∙ append_assoc cur (x ∷ []) rest in
    elim (Bool-cases (ltb (length a) (length cur))) [
      | inl less ↦ c a b (ltb→lt (length a) (length cur) less) whole
      | inr more ↦
          let same : length a ≡ length cur =
            omega (arith, l, length-append cur (x ∷ []), ltb→le (length a) (length cur) more) in
          let here : d ++ b ≡ x ∷ rest =
            sym (drop-append a (d ++ b)) ∙ ap₂ drop same whole ∙ drop-append cur (x ∷ rest) in
          true-ne-false (
            sym (
              eq→== (matching (x ∷ rest) d) (length d)
                (ap (λ s. matching s d) (sym here) ∙ matching-append d b))
            ∙ f)
    ]

Lacks-walk :
    (d : List ℕ) (fuel : ℕ) (cur rest : List ℕ)
    → 0 < length d
    → IsClean d cur rest
    → All (Lacks d) (walk d fuel cur rest)
unfolding walk IsClean
Lacks-walk d zero cur rest n c = tt
Lacks-walk d (suc fuel) cur [] n c = (
  λ a b e.
      c a b (omega (arith, n, ap length e, length-append a (d ++ b), length-append d b))
        (e ∙ sym (append-nil cur)),
  tt,
)
Lacks-walk d (suc fuel) cur (x ∷ rest) n c = elim (Bool-cases (matching (x ∷ rest) d == length d)) [
  | inl t ↦ rw t (
    λ a b e.
        c a (b ++ (x ∷ rest))
          (omega (arith, n, ap length e, length-append a (d ++ b), length-append d b))
          (ap (λ r. a ++ r) (sym (append_assoc d b (x ∷ rest)))
            ∙ sym (append_assoc a (d ++ b) (x ∷ rest))
            ∙ ap (λ r. r ++ (x ∷ rest)) e),
    Lacks-walk d fuel [] (drop (length d) (x ∷ rest)) n (λ a b l e. omega (arith, l)),
  )
  | inr f ↦ rw f (Lacks-walk d fuel (cur ++ (x ∷ [])) rest n (IsClean-miss d cur x rest c f))
]

-- No piece that explode makes with a delimiter that is not empty has the delimiter in it.
pub explode-Lacks :
    (d str : List ℕ) → 0 < length d → IsShort d → IsShort str → All (Lacks d) (explode d str)
unfolding IsClean
explode-Lacks d str n m l =
    subst (All (Lacks d)) (sym (explode-walk d str n m l))
      (Lacks-walk d (length str + 1) [] str n (λ a b l e. omega (arith, l)))
