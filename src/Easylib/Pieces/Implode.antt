-- ===== src/Easylib/Pieces/Implode.antt =====
-- What explode of src/easylib.cpp makes of what implode put together.
use libmaycloud.Common.{
  ℕ, ◌+◌, ◌-◌, ◌<◌, ◌≡◌, ap, ◌∙◌, ◌≢◌, List, [], ◌∷◌, ◌++◌, map, arith, length, All, length-append,
}
use libmaycloud.Easylib.Pieces.{explode, implode}
use libmaycloud.Easylib.Pieces.Explode.{implode-cons, implode_one, IsShort, explode-walk}
use libmaycloud.Easylib.Pieces.Walk.{walk}
use libmaycloud.Easylib.Pieces.Split.{Unmatched, Unmatched-other, walk-last, walk-piece}

walk-implode :
    (c : ℕ) (d : List ℕ) (n : ℕ) (p : List ℕ) (ps : List (List ℕ))
    → All (All (λ x. x ≢ c)) (p ∷ ps)
    → length (implode (c ∷ d) (p ∷ ps)) < n
    → walk (c ∷ d) n [] (implode (c ∷ d) (p ∷ ps)) ≡ p ∷ ps
walk-implode c d n p [] o l =
    let one = implode_one (c ∷ d) p in
    ap (walk (c ∷ d) n []) one
    ∙ walk-last (c ∷ d) n [] p (Unmatched-other c d [] p o.0) (omega (arith, l, ap length one))
walk-implode c d n p (q ∷ ps) o l =
    let more = implode (c ∷ d) (q ∷ ps) in
    let cons = implode-cons (c ∷ d) p q ps in
    let size = length-append p (c ∷ (d ++ more)) in
    let size' = length-append d more in
    let k = n - length p - 1 in
    ap (walk (c ∷ d) n []) cons
    ∙ walk-piece (c ∷ d) n k [] p more (omega arith) (Unmatched-other c d _ p o.0)
        (omega (arith, l, ap length cons, size, size'))
    ∙ ap (λ r. p ∷ r) (walk-implode c d k q ps o.1 (omega (arith, l, ap length cons, size, size')))

-- Pieces without the first character of a delimiter, at least one, put together by implode with that
-- delimiter between them, are what explode finds, if the delimiter and the whole have less than 2 ^ 31 characters.
pub explode-implode :
    (c : ℕ) (d p : List ℕ) (ps : List (List ℕ))
    → All (All (λ x. x ≢ c)) (p ∷ ps)
    → IsShort (c ∷ d)
    → IsShort (implode (c ∷ d) (p ∷ ps))
    → explode (c ∷ d) (implode (c ∷ d) (p ∷ ps)) ≡ p ∷ ps
explode-implode c d p ps o m k =
    explode-walk (c ∷ d) (implode (c ∷ d) (p ∷ ps)) (omega arith) m k
    ∙ walk-implode c d _ p ps o (omega arith)

-- Two pieces in neither of which the delimiter starts.
pub explode_pair :
    (d p q : List ℕ)
    → 0 < length d
    → Unmatched d (d ++ q) p
    → Unmatched d [] q
    → IsShort d
    → IsShort (p ++ (d ++ q))
    → explode d (p ++ (d ++ q)) ≡ p ∷ q ∷ []
explode_pair d p q z u v m l =
    let size = length-append p (d ++ q) in
    let size' = length-append d q in
    let k = length d + length q in
    explode-walk d (p ++ (d ++ q)) z m l
    ∙ walk-piece d _ k [] p q z u (omega (arith, size, size'))
    ∙ ap (λ r. p ∷ r) (walk-last d k [] q v (omega (arith, z)))

-- A string in which the delimiter starts nowhere is one piece.
pub explode_one :
    (d p : List ℕ) → 0 < length d → Unmatched d [] p → IsShort d → IsShort p → explode d p ≡ p ∷ []
explode_one d p z u m l = explode-walk d p z m l ∙ walk-last d _ [] p u (omega arith)

-- The pieces of a string are no longer than it.
pub pieces-IsShort :
    (d p : List ℕ) (ps : List (List ℕ)) → IsShort (implode d (p ∷ ps)) → All IsShort (p ∷ ps)
pieces-IsShort d p [] l = (omega (arith, l, ap length (implode_one d p)), tt)
pieces-IsShort d p (q ∷ ps) l =
    let more = implode d (q ∷ ps) in
    let size = ap length (implode-cons d p q ps) in
    let size' = length-append p (d ++ more) in
    let size'' = length-append d more in
    (omega (arith, l, size, size'), pieces-IsShort d q ps (omega (arith, l, size, size', size'')))

pub All-map :
    {A B : Type 0} (P : B → Type 0) (f : A → B) (xs : List A)
    → All P (map f xs)
    → All (λ x. P (f x)) xs
All-map P f [] h = tt
All-map P f (x ∷ xs) h = (h.0, All-map P f xs h.1)
