-- ===== src/StringMap/Laws.antt =====
-- What a std::map of strings finds behind a write.
use libmaycloud.Common.{
  ℕ, ◌≡◌, refl, sym, ap, ◌∙◌, inl, inr, false, some, List, [], ◌∷◌, arith, if◌then◌else◌, eq→==,
  Bool-cases, true-ne-false, same_text, same_text-eq,
}
use libmaycloud.XmlWriter.{before, insert_attribute}
use libmaycloud.StringMap.{StringMap, get_at, put_at}

-- Of two different strings, one comes before the other.
before-same : (s t : List ℕ) → before s t ≡ false → before t s ≡ false → s ≡ t
unfolding before
before-same [] [] p q = refl
before-same [] (y ∷ t) p q = cc
before-same (x ∷ s) [] p q = cc
before-same (x ∷ s) (y ∷ t) p q = ground (arith, before-same s t)

before_self : (s : List ℕ) → before s s ≡ false
unfolding before
before_self [] = refl
before_self (x ∷ s) = rw (eq→== x x refl) (before_self s)

-- A key is found with the value that was written last; the others are found as before.
pub get_at-put_at :
    (key name value : List ℕ) (m : StringMap)
    → get_at key (put_at name value m) ≡ (if same_text name key then some value else get_at key m)
unfolding get_at insert_attribute
get_at-put_at key name value [] = refl
get_at-put_at key name value ((k, v) ∷ m) = elim (Bool-cases (before name k)) [
  | inl f ↦ rw f refl
  | inr f ↦ elim (Bool-cases (before k name)) [
    | inl g ↦
        rw (f, g, get_at-put_at key name value m)
          (elim (Bool-cases (same_text k key)) [
            | inr a ↦ rw a refl
            | inl a ↦ elim (Bool-cases (same_text name key)) [
              | inr b ↦ rw (a, b) refl
              | inl b ↦ absurd (
                  true-ne-false (
                    sym g
                    ∙ ap (before k) (same_text-eq name key b ∙ sym (same_text-eq k key a))
                    ∙ before_self k))
            ]
          ])
    | inr g ↦ rw (f, g) (let e = before-same name k f g in rw (← e) (ground arith))
  ]
]
