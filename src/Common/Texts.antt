-- ===== src/Common/Texts.antt =====
-- The strings of C++ that the sources write out, as the lists of their characters, and whether two strings
-- are equal.
use Prim.Native.Char.{code}
use Prim.Native.Nat.{ℕ}
use Prim.Native.String.{String}
use mathlib.Core.Path.{◌≡◌, refl, sym, ap, ◌∙◌}
use mathlib.Core.Logic.{◌≢◌, inl, inr}
use mathlib.Core.Bool.{Bool, true, false}
use mathlib.Core.List.{List, [], ◌∷◌}
use native.Mathlib.Omega.{arith}
use libmaycloud.Common.Tests.{◌==◌, if◌then◌else◌, eq→==, Bool-cases, true-ne-false}

abbrev pub text : String → List ℕ
text String.[] = []
text (String.◌∷◌ c s) = code c ∷ text s

-- operator == of std::string.
unfoldable pub same_text : List ℕ → List ℕ → Bool
same_text [] [] = true
same_text [] (y ∷ t) = false
same_text (x ∷ s) [] = false
same_text (x ∷ s) (y ∷ t) = let rest = same_text s t in if x == y then rest else false

pub same_text_self : (s : List ℕ) → same_text s s ≡ true
unfolding same_text
same_text_self [] = refl
same_text_self (x ∷ s) = rw (eq→== x x refl) (same_text_self s)

pub same_text-eq : (s t : List ℕ) → same_text s t ≡ true → s ≡ t
unfolding same_text
same_text-eq [] [] e = refl
same_text-eq [] (y ∷ t) e = cc
same_text-eq (x ∷ s) [] e = cc
same_text-eq (x ∷ s) (y ∷ t) e = ground (arith, same_text-eq s t)

pub same_text-ne : (s t : List ℕ) → s ≢ t → same_text s t ≡ false
same_text-ne s t n = elim (Bool-cases (same_text s t)) [
  | inl e ↦ absurd (n (same_text-eq s t e))
  | inr e ↦ e
]

pub text-ne : (s t : List ℕ) → same_text s t ≡ false → s ≢ t
text-ne s t f e = true-ne-false (sym (same_text_self s) ∙ ap (same_text s) e ∙ f)
