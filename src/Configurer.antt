-- ===== src/Configurer.antt =====
-- Configurer of src/configurer.cpp: the parser of configuration files. A string is the list of its characters;
-- reading behind the terminator of a string is a fault, the value `none`.
pub mod Laws
mod Tests
use libmaycloud.Common.{
  ℕ, ◌-◌, Bool, true, false, ◌&&◌, ◌||◌, Option, none, some, List, [], ◌∷◌, map, ltb, ◌==◌,
  if◌then◌else◌, ◌>>=◌, length, take,
}

abbrev pub Text : Type 0
Text = List ℕ

-- Equality of strings.
pub text_eq : Text → Text → Bool
text_eq [] [] = true
text_eq [] (y ∷ ys) = false
text_eq (x ∷ xs) [] = false
text_eq (x ∷ xs) (y ∷ ys) = (x == y) && text_eq xs ys

-- `map[key] = value` and find of a std::map.
pub map_put : {A : Type 0} → Text → A → List (Text × A) → List (Text × A)
map_put key value [] = (key, value) ∷ []
map_put key value ((k, v) ∷ map) =
    if text_eq k key then (k, value) ∷ map else (k, v) ∷ map_put key value map

pub map_find : {A : Type 0} → Text → List (Text × A) → Option A
map_find key [] = none
map_find key ((k, v) ∷ map) = if text_eq k key then some v else map_find key map

-- The static members.
pub record Configurer : Type 0 where
  pub actual_map : Text
  pub params : List (Text × Text)
  pub local_params : List (Text × List (Text × Text))

-- The loops that copy characters up to one that stops them, or the terminator, and what is left then.
pub copy_until : (ℕ → Bool) → Text → Text × Text
copy_until stop [] = ([], [])
copy_until stop (c ∷ s) =
    let r = copy_until stop s in if c == 0 || c == 10 || stop c then ([], c ∷ s) else (c ∷ r.0, r.1)

abbrev pub or_empty : {A : Type 0} → Option (List A) → List A
or_empty none = []
or_empty (some xs) = xs

-- The end of parseParam, which sets the parameter.
pub set_param : Text → Text → Configurer → Configurer
unfolding map_put map_find
set_param name value c = elim c.actual_map [
  | [] ↦ record c { params = map_put name value c.params }
  | x ∷ node ↦ record c {
    local_params =
        map_put c.actual_map (map_put name value (or_empty (map_find c.actual_map c.local_params)))
          c.local_params;
  }
]

-- `if(param[i] == '\'') ++i;`
pub skip_quote : Text → Text
skip_quote [] = []
skip_quote (c ∷ s) = if c == 39 then s else c ∷ s

-- A line that sets a parameter, from its name on.
pub parse_setting : Text → Configurer → Option (Bool × Configurer)
unfolding copy_until set_param skip_quote
parse_setting param c =
    let named = copy_until (λ x. x == 61) param in
    elim named.1 [
      | [] ↦ none
      | x ∷ rest ↦ some (true, set_param named.0 (copy_until (λ x. x == 39) (skip_quote rest)).0 c)
    ]

pub parse_param : Text → Configurer → Option (Bool × Configurer)
unfolding parse_setting copy_until
parse_param [] c = some (false, c)
parse_param (x ∷ param) c =
    let setting = parse_setting (x ∷ param) c in
    let node = (copy_until (λ x. x == 93) param).0 in
    if x == 35 || x == 10 || x == 0
    then some (false, c)
    else if x == 91
    then some (false, record c { actual_map = node })
    else setting

-- MAX_CONFFILE_LINE.
abbrev pub max_conffile_line : ℕ
max_conffile_line = 1024

-- The loop of loadFile over the lines of the file, the empty one behind the last line end included. getline takes
-- one character less than its limit, and a longer line makes the file fail, which ends the loop.
pub load_lines : List Text → Configurer → Option Configurer
unfolding parse_param
load_lines [] c = some c
load_lines (line ∷ lines) c =
    let n = max_conffile_line - 1 in
    if ltb n (length line)
    then (parse_param (take n line) c >>= λ r. some r.1)
    else (parse_param line c >>= λ r. load_lines lines r.1)

pub load_file : List Text → Configurer → Option Configurer
unfolding load_lines
load_file lines c = load_lines lines (record c { actual_map = [] })

-- searchParam and searchLocalParam with a default value.
pub search_param : Text → Text → Configurer → Text
unfolding map_find
search_param name default_value c = elim (map_find name c.params) [
  | none ↦ default_value
  | some v ↦ v
]

pub search_local_param : Text → Text → Text → Configurer → Text
unfolding map_find
search_local_param node name default_value c = elim (map_find node c.local_params) [
  | none ↦ default_value
  | some map ↦ elim (map_find name map) [ none ↦ default_value | some v ↦ v ]
]
