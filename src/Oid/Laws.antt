-- ===== src/Oid/Laws.antt =====
-- The operations of OID of src/oid.cpp on the list of numbers that it stands for.
use libmaycloud.Common.{
  ℕ, zero, suc, ◌-◌, ◌≤◌, ◌<◌, ◌≡◌, refl, ap, ap₂, ◌∙◌, inl, inr, true, false, List, [], ◌∷◌, ◌++◌,
  arith, ◌==◌, lt→ltb, eq→==, ==_iff, Bool-cases,
}
use libmaycloud.Oid.{Oid, set_number, append, shorten, remove_last, same_first, equal}

-- At most 256 numbers, and 0 in the rest of the array.
pub record IsOid (id : Oid) : Type 0 where
  pub bound : id.oidlen ≤ 256
  pub clear : (i : ℕ) → id.oidlen ≤ i → id.oid i ≡ 0

-- The numbers of an OID, from the `n` first of its array.
abbrev pub numbers : ℕ → (ℕ → ℕ) → List ℕ
numbers zero oid = []
numbers (suc n) oid = numbers n oid ++ (oid n ∷ [])

numbers-set : (n k v : ℕ) (oid : ℕ → ℕ) → n ≤ k → numbers n (set_number k v oid) ≡ numbers n oid
numbers-set zero k v oid l = refl
numbers-set (suc n) k v oid l =
    ap₂ (λ xs x. xs ++ (x ∷ [])) (numbers-set n k v oid (omega arith))
      (let e : (n == k) ≡ false = ground arith in rw e refl)

-- Below 256 numbers, `id + i` appends the number i and keeps the OID well-formed.
pub append-numbers :
    (i : ℕ) (id : Oid)
    → IsOid id
    → id.oidlen < 256
    → IsOid (append i id)
      × (numbers (append i id).oidlen (append i id).oid ≡ numbers id.oidlen id.oid ++ (i ∷ []))
unfolding append
append-numbers i id w l =
    let e = lt→ltb id.oidlen 256 l in
    let f = eq→== id.oidlen id.oidlen refl in
    let n = numbers-set id.oidlen id.oidlen i id.oid (omega arith) in
    rw e (
      record { bound = omega arith; clear = λ j h. ground (arith, w.clear j) },
      ap₂ (λ xs x. xs ++ (x ∷ [])) n (rw f refl),
    )

shorten_lem :
    (id : Oid)
    → IsOid id
    → IsOid (shorten id)
      × ((shorten id).oidlen ≡ id.oidlen - 1)
      × ((n : ℕ) → n ≤ id.oidlen - 1 → numbers n (shorten id).oid ≡ numbers n id.oid)
shorten_lem id w = elim (Bool-cases (id.oidlen == 0)) [
  | inl e ↦ let z = (==_iff id.oidlen 0).0 e in rw e (w, omega arith, λ n l. refl)
  | inr e ↦ rw e (
    record { bound = omega (arith, w.bound); clear = λ j h. ground (arith, w.clear j) },
    refl,
    λ n l. numbers-set n (id.oidlen - 1) 0 id.oid l,
  )
]

-- `id << cnt` keeps the OID well-formed and leaves its first numbers, `cnt` fewer of them.
pub remove_last-numbers :
    (cnt : ℕ) (id : Oid)
    → IsOid id
    → IsOid (remove_last cnt id)
      × ((remove_last cnt id).oidlen ≡ id.oidlen - cnt)
      × (numbers (remove_last cnt id).oidlen (remove_last cnt id).oid
          ≡ numbers (id.oidlen - cnt) id.oid)
unfolding remove_last
remove_last-numbers zero id w =
    let k : id.oidlen ≡ id.oidlen - 0 = omega arith in (w, k, ap (λ n. numbers n id.oid) k)
remove_last-numbers (suc cnt) id w =
    let s = shorten_lem id w in
    let r = remove_last-numbers cnt (shorten id) s.0 in
    let k : (shorten id).oidlen - cnt ≡ id.oidlen - suc cnt = omega (arith, s.1) in
    (
      r.0,
      r.1 ∙ k,
      r.2 ∙ ap (λ n. numbers n (shorten id).oid) k ∙ s.2 (id.oidlen - suc cnt) (omega arith),
    )

same_first-below : (n k v : ℕ) (x : ℕ → ℕ) → n ≤ k → same_first n (set_number k v x) x ≡ true
unfolding same_first
same_first-below zero k v x l = refl
same_first-below (suc n) k v x l =
    let e : (n == k) ≡ false = ground arith in
    rw (same_first-below n k v x (omega arith), e) (eq→== (x n) (x n) refl)

-- An OID is `==` to the OID that it had before a number was appended, whatever that number is: `==` compares
-- only as many numbers as its right side has.
pub equal-append : (i : ℕ) (id : Oid) → id.oidlen < 256 → equal (append i id) id ≡ true
unfolding append equal
equal-append i id l =
    rw (lt→ltb id.oidlen 256 l) (same_first-below id.oidlen id.oidlen i id.oid (omega arith))
