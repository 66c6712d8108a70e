-- ===== src/Configurer/Laws.antt =====
-- What parseParam of src/configurer.cpp sets is what searchParam and searchLocalParam find.
use libmaycloud.Common.{
  ℕ, ◌≡◌, refl, ap, ◌∙◌, ◌≢◌, inl, inr, Bool, true, Option, none, some, List, [], ◌∷◌, ◌++◌, map,
  arith, ◌==◌, ne→==_false, eq→==, Bool-cases, All,
}
use libmaycloud.Configurer.{
  Text, text_eq, map_put, map_find, Configurer, copy_until, or_empty, set_param, skip_quote,
  parse_setting, parse_param, search_param, search_local_param,
}

text_eq_refl : (s : Text) → text_eq s s ≡ true
unfolding text_eq
text_eq_refl [] = refl
text_eq_refl (x ∷ s) = rw (eq→== x x refl) (text_eq_refl s)

map_find-map_put :
    {A : Type 0} (key : Text) (v : A) (map : List (Text × A))
    → map_find key (map_put key v map) ≡ some v
unfolding map_find map_put
map_find-map_put key v [] = rw (text_eq_refl key) refl
map_find-map_put key v ((k, w) ∷ map) = elim (Bool-cases (text_eq k key)) [
  | inl t ↦ rw (t, t) refl
  | inr f ↦ rw (f, f) (map_find-map_put key v map)
]

-- A character that a copy takes.
abbrev pub IsPlain : ℕ → ℕ → Type 0
IsPlain stop c = (c ≢ 0) × (c ≢ 10) × (c ≢ stop)

copy_until-append :
    (stop : ℕ) (s rest : Text)
    → All (IsPlain stop) s
    → stop ≢ 0
    → stop ≢ 10
    → copy_until (λ x. x == stop) (s ++ (stop ∷ rest)) ≡ (s, stop ∷ rest)
unfolding copy_until
copy_until-append stop [] rest v n m =
    rw (eq→== stop stop refl, ne→==_false stop 0 n, ne→==_false stop 10 m) refl
copy_until-append stop (c ∷ s) rest v n m =
    rw (ne→==_false c 0 v.0.0, ne→==_false c 10 v.0.1, ne→==_false c stop v.0.2)
      (ap (λ r. (c ∷ r.0, r.1)) (copy_until-append stop s rest v.1 n m))

copy_until_whole :
    (stop : ℕ) (s : Text) → All (IsPlain stop) s → copy_until (λ x. x == stop) s ≡ (s, [])
unfolding copy_until
copy_until_whole stop [] v = refl
copy_until_whole stop (c ∷ s) v =
    rw (ne→==_false c 0 v.0.0, ne→==_false c 10 v.0.1, ne→==_false c stop v.0.2)
      (ap (λ r. (c ∷ r.0, r.1)) (copy_until_whole stop s v.1))

-- The line that sets a parameter: name='value', and what may follow.
abbrev pub setting_line : (name value tail : Text) → Text
setting_line name value tail = name ++ (61 ∷ 39 ∷ (value ++ (39 ∷ tail)))

parse_setting-line :
    (name value tail : Text) (c : Configurer)
    → All (IsPlain 61) name
    → All (IsPlain 39) value
    → parse_setting (setting_line name value tail) c ≡ some (true, set_param name value c)
unfolding parse_setting skip_quote
parse_setting-line name value tail c v w =
    let go : Text × Text → Option (Bool × Configurer) = λ named. elim named.1 [
      | [] ↦ none
      | x ∷ rest ↦ some (true, set_param named.0 (copy_until (λ x. x == 39) (skip_quote rest)).0 c)
    ] in
    ap go (
      copy_until-append 61 name (39 ∷ (value ++ (39 ∷ tail))) v (λ e. omega (arith, e))
        (λ e. omega (arith, e)))
    ∙ ap (λ r. some (true, set_param name r.0 c))
        (copy_until-append 39 value tail w (λ e. omega (arith, e)) (λ e. omega (arith, e)))

-- How a line that sets a parameter begins: not with #, which starts a comment, nor with [.
abbrev pub IsName : Text → Type 0
IsName [] = ⊥
IsName (x ∷ name) = (x ≢ 35) × (x ≢ 91) × All (IsPlain 61) (x ∷ name)

parse_param-setting :
    (x : ℕ) (param : Text) (c : Configurer)
    → x ≢ 35
    → x ≢ 10
    → x ≢ 0
    → x ≢ 91
    → parse_param (x ∷ param) c ≡ parse_setting (x ∷ param) c
unfolding parse_param
parse_param-setting x param c n m o p =
    rw (ne→==_false x 35 n, ne→==_false x 10 m, ne→==_false x 0 o, ne→==_false x 91 p) refl

-- The search in the node that is open, or in the parameters outside all nodes.
pub search_in : Text → Text → Text → Configurer → Text
search_in [] name default_value c = search_param name default_value c
search_in (x ∷ node) name default_value c = search_local_param (x ∷ node) name default_value c

search_in-set_param :
    (node : Text) (params : List (Text × Text)) (local : List (Text × List (Text × Text)))
    (name value default_value : Text)
    → let c : Configurer = record { actual_map = node; params = params; local_params = local } in
      search_in node name default_value (set_param name value c) ≡ value
unfolding search_in set_param search_param search_local_param
search_in-set_param [] params local name value default_value =
    ap (λ f. elim f as (λ x. Text) [ none ↦ default_value | some v ↦ v ])
      (map_find-map_put name value params)
search_in-set_param (x ∷ node) params local name value default_value =
    let inner = or_empty (map_find (x ∷ node) local) in
    ap
      (λ f. elim f as (λ x. Text) [
        | none ↦ default_value
        | some map ↦ elim (map_find name map) as (λ x. Text) [ none ↦ default_value | some v ↦ v ]
      ])
      (map_find-map_put (x ∷ node) (map_put name value inner) local)
    ∙ ap (λ f. elim f as (λ x. Text) [ none ↦ default_value | some v ↦ v ])
        (map_find-map_put name value inner)

-- A line name='value' sets the parameter: parseParam returns true, and a search for the name in the node that is
-- open, or outside all nodes if none is, then finds the value.
pub parse_param-search_in :
    (name value tail default_value : Text) (c : Configurer)
    → IsName name
    → All (IsPlain 39) value
    → (c' : Configurer) × (parse_param (setting_line name value tail) c ≡ some (true, c'))
      × (search_in c.actual_map name default_value c' ≡ value)
parse_param-search_in [] value tail default_value c v w = absurd v
parse_param-search_in (x ∷ name) value tail default_value c v w = (
  set_param (x ∷ name) value c,
  parse_param-setting x (name ++ (61 ∷ 39 ∷ (value ++ (39 ∷ tail)))) c v.0 v.2.0.1 v.2.0.0 v.1
      ∙ parse_setting-line (x ∷ name) value tail c v.2 w,
  search_in-set_param c.actual_map c.params c.local_params (x ∷ name) value default_value,
)

-- A line that has a name and no =, and is neither a comment nor a node, is read behind its
-- terminator.
pub parse_param-none : (name : Text) (c : Configurer) → IsName name → parse_param name c ≡ none
unfolding parse_setting
parse_param-none [] c v = absurd v
parse_param-none (x ∷ name) c v =
    let go : Text × Text → Option (Bool × Configurer) = λ named. elim named.1 [
      | [] ↦ none
      | y ∷ rest ↦ some (true, set_param named.0 (copy_until (λ x. x == 39) (skip_quote rest)).0 c)
    ] in
    parse_param-setting x name c v.0 v.2.0.1 v.2.0.0 v.1
    ∙ ap go (copy_until_whole 61 (x ∷ name) v.2)
