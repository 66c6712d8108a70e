-- ===== src/Easylib/Command/Quoted.antt =====
-- What parseCmdString of src/easylib.cpp reads in a line of quoted arguments.
use libmaycloud.Common.{
  ℕ, ◌≡◌, refl, sym, ap, ◌∙◌, ◌≢◌, inl, inr, true, false, Option, none, some, List, [], ◌∷◌, ◌++◌,
  append-nil, append_assoc, arith, ◌==◌, if◌then◌else◌, ne→==_false, Bool-cases, All,
}
use libmaycloud.Easylib.Command.{
  CmdString, not_escaped, take_char, cmd_step, cmd_loop, parse_cmd_string,
}

-- A character that can stand between quotes.
abbrev pub IsQuotable : ℕ → Type 0
IsQuotable c = (c ≢ 39) × (c ≢ 92) × (c ≢ 0)

-- An argument between quotes.
abbrev pub quoted : List ℕ → List ℕ
quoted a = 39 ∷ (a ++ (39 ∷ []))

-- A line of quoted arguments, with a space between two.
pub cmd_line : List ℕ → List (List ℕ) → List ℕ
cmd_line a [] = quoted a
cmd_line a (b ∷ rest) = quoted a ++ (32 ∷ cmd_line b rest)

abbrev inside : List ℕ → List (List ℕ) → CmdString
inside arg args = record { is_open = true; opening = 39; arg = arg; args = args }

abbrev outside : List ℕ → List (List ℕ) → CmdString
outside arg args = record { is_open = false; opening = 0; arg = arg; args = args }

take_char-inside :
    (c : ℕ) (arg : List ℕ) (args : List (List ℕ))
    → take_char c (inside arg args) ≡ inside (arg ++ (c ∷ [])) args
unfolding take_char
take_char-inside c arg args = elim (Bool-cases (c == 32)) [ inl t ↦ rw t refl | inr f ↦ rw f refl ]

-- Every character between quotes is taken.
cmd_step-inside :
    (prev c : ℕ) (arg : List ℕ) (args : List (List ℕ))
    → prev ≢ 92
    → IsQuotable c
    → cmd_step (some prev) c (inside arg args) ≡ inside (arg ++ (c ∷ [])) args
unfolding cmd_step take_char
cmd_step-inside prev c arg args n q =
    rw (ne→==_false prev 92 n, ne→==_false c 39 q.0)
      (elim (Bool-cases (c == 34)) [
        | inl t ↦ rw t (take_char-inside c arg args)
        | inr f ↦ rw f (take_char-inside c arg args)
      ])

cmd_loop-inside :
    (prev : ℕ) (p t arg : List ℕ) (args : List (List ℕ))
    → prev ≢ 92
    → All IsQuotable p
    → cmd_loop (some prev) (p ++ (39 ∷ t)) (inside arg args)
      ≡ cmd_loop (some 39) t (outside (arg ++ p) args)
unfolding cmd_loop cmd_step
cmd_loop-inside prev [] t arg args n q =
    rw (ne→==_false prev 92 n)
      (ap (λ r. cmd_loop (some 39) t (outside r args)) (sym (append-nil arg)))
cmd_loop-inside prev (c ∷ p) t arg args n q =
    ap
      (λ b.
        if b
        then inside arg args
        else cmd_loop (some c) (p ++ (39 ∷ t)) (cmd_step (some prev) c (inside arg args)))
      (ne→==_false c 0 q.0.2)
    ∙ ap (cmd_loop (some c) (p ++ (39 ∷ t))) (cmd_step-inside prev c arg args n q.0)
    ∙ cmd_loop-inside c p t (arg ++ (c ∷ [])) args q.0.1 q.1
    ∙ ap (λ r. cmd_loop (some 39) t (outside r args)) (append_assoc arg (c ∷ []) p)

abbrev result_of : CmdString → List (List ℕ)
result_of s = s.args ++ (s.arg ∷ [])

-- A line from its first quote on; nothing is between the last argument and the quote.
cmd_loop-line :
    (prev : Option ℕ) (a : List ℕ) (rest : List (List ℕ)) (args : List (List ℕ))
    → not_escaped prev ≡ true
    → All (All IsQuotable) (a ∷ rest)
    → result_of (cmd_loop prev (cmd_line a rest) (outside [] args)) ≡ args ++ (a ∷ rest)
unfolding cmd_loop cmd_step take_char cmd_line
cmd_loop-line prev a [] args n q =
    rw n (ap result_of (cmd_loop-inside 39 a [] [] args (λ e. absurd (omega (arith, e))) q.0))
cmd_loop-line prev a (b ∷ rest) args n q = rw n (
    ap (λ r. result_of (cmd_loop (some 39) r (inside [] args)))
      (append_assoc a (39 ∷ []) (32 ∷ cmd_line b rest))
    ∙ ap result_of
        (cmd_loop-inside 39 a (32 ∷ cmd_line b rest) [] args (λ e. absurd (omega (arith, e))) q.0)
    ∙ cmd_loop-line (some 32) b rest (args ++ (a ∷ [])) refl q.1
    ∙ append_assoc args (a ∷ []) (b ∷ rest))

-- parseCmdString adds to its output what stands between the quotes, for arguments without ', \ and the
-- character 0, each between ' and with a space between two; spaces and " in an argument stay.
pub parse_cmd_string-cmd_line :
    (a : List ℕ) (rest args : List (List ℕ))
    → All (All IsQuotable) (a ∷ rest)
    → parse_cmd_string (cmd_line a rest) args ≡ args ++ (a ∷ rest)
unfolding parse_cmd_string
parse_cmd_string-cmd_line a rest args q = cmd_loop-line none a rest args refl q
