-- ===== src/Easylib/Url/RoundTrip.antt =====
-- urldecode of src/easylib.cpp against an encoder.
use libmaycloud.Common.{
  ℕ, ◌+◌, ◌*◌, ◌/◌, ◌%◌, ◌≤◌, ◌<◌, ◌≡◌, refl, sym, ap, ap₂, ◌∙◌, ◌≢◌, ◌⊎◌, inl, inr, Bool, true,
  ◌&&◌, ◌||◌, List, [], ◌∷◌, arith, ltb, leb, ◌==◌, if◌then◌else◌, ltb→lt, leb→le, ltb→le,
  ne→==_false, ==_iff, Bool-cases, true-ne-false, All, IsByte,
}
use libmaycloud.Easylib.Check.{all_below, and-both, all_below-at}
use libmaycloud.Easylib.Url.{is_xdigit, xdigit_value, plain, decode, c_str, urldecode}

-- A hexadecimal digit.
hex : ℕ → ℕ
hex v = if ltb v 10 then v + 48 else v + 55

hex_test : ℕ → Bool
unfolding hex
hex_test v = is_xdigit (hex v) && (xdigit_value (hex v) == v)

hex_test_all : all_below 16 hex_test ≡ true
unfolding hex_test hex is_xdigit xdigit_value all_below
hex_test_all = refl

hex-digit : (v : ℕ) → v < 16 → (is_xdigit (hex v) ≡ true) × (xdigit_value (hex v) ≡ v)
unfolding hex_test
hex-digit v l =
    let both =
      and-both (is_xdigit (hex v)) (xdigit_value (hex v) == v)
        (all_below-at 16 hex_test v hex_test_all l) in
    (both.0, (==_iff (xdigit_value (hex v)) v).0 both.1)

-- A letter or a digit.
is_alnum : ℕ → Bool
is_alnum c = (leb 48 c && leb c 57) || ((leb 65 c && leb c 90) || (leb 97 c && leb c 122))

-- The encoding of forms: letters and digits stand for themselves, + for a space, and the rest is
-- in hexadecimal behind %.
unfoldable pub urlencode : List ℕ → List ℕ
unfolding is_alnum hex
urlencode [] = []
urlencode (c ∷ s) =
    let rest = urlencode s in
    if is_alnum c
    then c ∷ rest
    else if c == 32
    then 43 ∷ rest
    else 37 ∷ hex (c / 16) ∷ hex (c % 16) ∷ rest

decode-plain : (c : ℕ) (r : List ℕ) → c ≢ 37 → decode (c ∷ r) ≡ plain c ∷ decode r
unfolding decode
decode-plain c [] n = refl
decode-plain c (x ∷ []) n = refl
decode-plain c (x ∷ y ∷ r) n = rw (ne→==_false c 37 n) refl

alnum-plain : (c : ℕ) → is_alnum c ≡ true → (c ≢ 37) × (c ≢ 43)
unfolding is_alnum
alnum-plain c t =
    (λ e. true-ne-false (sym t ∙ ap is_alnum e), λ e. true-ne-false (sym t ∙ ap is_alnum e))

decode-hex :
    (c : ℕ) (r : List ℕ) → c < 256 → decode (37 ∷ hex (c / 16) ∷ hex (c % 16) ∷ r) ≡ c ∷ decode r
unfolding decode
decode-hex c r l =
    let x = hex-digit (c / 16) (omega (arith, l)) in
    let y = hex-digit (c % 16) (omega arith) in
    rw (x.0, y.0, x.1, y.1) (ap (λ k. k ∷ decode r) {x = 16 * (c / 16) + c % 16} (omega arith))

decode-nil : decode [] ≡ []
unfolding decode
decode-nil = refl

decode-urlencode : (s : List ℕ) → All IsByte s → decode (urlencode s) ≡ s
unfolding urlencode
decode-urlencode [] v = decode-nil
decode-urlencode (c ∷ s) v = elim (Bool-cases (is_alnum c)) [
  | inl t ↦
      let p = alnum-plain c t in
      rw t (
        decode-plain c (urlencode s) p.0
        ∙ ap₂ (λ k ks. k ∷ ks) (ap (λ b. if b then 32 else c) (ne→==_false c 43 p.1))
            (decode-urlencode s v.1))
  | inr f ↦ elim (Bool-cases (c == 32)) [
    | inl t ↦
        rw (f, t)
          (decode-plain 43 (urlencode s) (λ e. absurd (omega (arith, e)))
            ∙ ap₂ (λ k ks. k ∷ ks) (sym ((==_iff c 32).0 t)) (decode-urlencode s v.1))
    | inr g ↦
        rw (f, g) (decode-hex c (urlencode s) v.0 ∙ ap (λ ks. c ∷ ks) (decode-urlencode s v.1))
  ]
]

-- A string that C can hold.
abbrev pub IsText : ℕ → Type 0
IsText c = (c < 256) × (c ≢ 0)

c_str-id : (s : List ℕ) → All (λ c. c ≢ 0) s → c_str s ≡ s
unfolding c_str
c_str-id [] v = refl
c_str-id (c ∷ s) v = rw (ne→==_false c 0 v.0) (ap (λ ks. c ∷ ks) (c_str-id s v.1))

-- The range of the letters and digits, a little wider.
abbrev pub IsWord : ℕ → Type 0
IsWord c = ((48 ≤ c) × (c ≤ 57)) ⊎ (65 ≤ c)

hex-IsWord : (v : ℕ) → IsWord (hex v)
unfolding hex
hex-IsWord v = elim (Bool-cases (ltb v 10)) [
  | inl t ↦ rw t (inl (omega arith, omega (arith, ltb→lt v 10 t)))
  | inr f ↦ rw f (inr (omega (arith, ltb→le v 10 f)))
]

alnum-IsWord : (c : ℕ) → is_alnum c ≡ true → IsWord c
unfolding is_alnum
alnum-IsWord c t = elim (Bool-cases (leb 65 c)) [
  | inl l ↦ inr (leb→le 65 c l)
  | inr l ↦ inl (ground arith, ground arith)
]

-- What holds of letters, digits, + and % holds of every character of the encoding.
pub urlencode-All :
    (P : ℕ → Type 0) → ((c : ℕ) → IsWord c → P c) → P 37 → P 43 → (s : List ℕ) → All P (urlencode s)
unfolding urlencode
urlencode-All P word percent plus [] = tt
urlencode-All P word percent plus (c ∷ s) =
    let rest = urlencode-All P word percent plus s in
    elim (Bool-cases (is_alnum c)) [
      | inl t ↦ rw t (word c (alnum-IsWord c t), rest)
      | inr f ↦ elim (Bool-cases (c == 32)) [
        | inl t ↦ rw (f, t) (plus, rest)
        | inr g ↦
            rw (f, g)
              (
                percent,
                (
                  word (hex (c / 16)) (hex-IsWord (c / 16)),
                  (word (hex (c % 16)) (hex-IsWord (c % 16)), rest),
                ),
              )
      ]
    ]

word-ne-zero : (c : ℕ) → IsWord c → c ≢ 0
word-ne-zero c (inl l) e = absurd (omega (arith, l.0, e))
word-ne-zero c (inr l) e = absurd (omega (arith, l, e))

urlencode-ne-zero : (s : List ℕ) → All (λ c. c ≢ 0) (urlencode s)
urlencode-ne-zero =
    urlencode-All (λ c. c ≢ 0) word-ne-zero (λ e. absurd (omega (arith, e)))
      (λ e. absurd (omega (arith, e)))

All-parts : (s : List ℕ) → All IsText s → (All IsByte s) × (All (λ c. c ≢ 0) s)
All-parts [] v = (tt, tt)
All-parts (c ∷ s) v = let r = All-parts s v.1 in ((v.0.0, r.0), (v.0.1, r.1))

-- urldecode gives back every string without the character 0 from the encoding that forms use.
pub urldecode-urlencode : (s : List ℕ) → All IsText s → urldecode (urlencode s) ≡ s
unfolding urldecode
urldecode-urlencode s v =
    let parts = All-parts s v in
    ap (λ r. c_str (decode r)) (c_str-id (urlencode s) (urlencode-ne-zero s))
    ∙ ap c_str (decode-urlencode s parts.0)
    ∙ c_str-id s parts.1
