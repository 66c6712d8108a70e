-- ===== src/Easylib/Trim.antt =====
-- trim of src/easylib.cpp.
use libmaycloud.Common.{ℕ, Bool, ◌&&◌, ◌||◌, List, [], ◌∷◌, leb, ◌==◌, if◌then◌else◌, length}

-- std::isspace of the C locale.
unfoldable pub is_space : ℕ → Bool
is_space c = (c == 32) || (leb 9 c && leb c 13)

-- std::find_if_not from the front.
unfoldable pub skip_space : List ℕ → List ℕ
unfolding is_space
skip_space [] = []
skip_space (c ∷ s) = let rest = skip_space s in if is_space c then rest else c ∷ s

-- The characters up to the last one that is no space.
unfoldable pub drop_space : List ℕ → List ℕ
unfolding is_space
drop_space [] = []
drop_space (c ∷ s) =
    let rest = drop_space s in if is_space c && (length rest == 0) then [] else c ∷ rest

unfoldable pub trim : List ℕ → List ℕ
unfolding skip_space drop_space
trim s = drop_space (skip_space s)
