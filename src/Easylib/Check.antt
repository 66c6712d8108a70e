-- ===== src/Easylib/Check.antt =====
-- Facts on the characters of src/easylib.cpp that hold because a test of all of them does.
use libmaycloud.Common.{
  ℕ, zero, suc, ◌<◌, ◌≡◌, refl, sym, ap, ◌∙◌, inl, inr, Bool, true, false, ◌&&◌, arith, ◌==◌, eq→==,
  ==_iff, Bool-cases, true-ne-false,
}

unfoldable pub all_below : ℕ → (ℕ → Bool) → Bool
all_below zero test = true
all_below (suc n) test = test n && all_below n test

pub and-both : (a b : Bool) → (a && b) ≡ true → (a ≡ true) × (b ≡ true)
and-both true b e = (refl, e)
and-both false b e = absurd (true-ne-false (sym e))

pub all_below-at :
    (n : ℕ) (test : ℕ → Bool) (v : ℕ) → all_below n test ≡ true → v < n → test v ≡ true
unfolding all_below
all_below-at zero test v e l = absurd (omega (arith, l))
all_below-at (suc n) test v e l =
    let both = and-both (test n) (all_below n test) e in
    elim (Bool-cases (v == n)) [
      | inl t ↦ ap test ((==_iff v n).0 t) ∙ both.0
      | inr f ↦
          all_below-at n test v both.1
            (ground (arith, l, λ (q : v ≡ n). true-ne-false (sym (eq→== v n q) ∙ f)))
    ]
