-- ===== src/Http/Query/RoundTrip.antt =====
-- parseQueryString of src/httprequest.cpp against an encoder of forms.
use libmaycloud.Common.{
  ℕ, ◌≡◌, refl, ap, ◌∙◌, ◌≢◌, inl, inr, List, [], ◌∷◌, ◌++◌, map, arith, All, All-imply, All-append,
}
use libmaycloud.Easylib.Pieces.{explode, implode}
use libmaycloud.Easylib.Pieces.Split.{Unmatched-other}
use libmaycloud.Easylib.Url.RoundTrip.{
  urlencode, IsText, IsWord, urlencode-All, urldecode-urlencode,
}
use libmaycloud.StringMap.{StringMap, put_at, put_all}
use libmaycloud.Http.Query.{query_pair, query_loop, parse_query_string}
use libmaycloud.Easylib.Pieces.Explode.{IsShort}
use libmaycloud.Easylib.Pieces.Implode.{explode-implode, explode_pair, pieces-IsShort, All-map}

-- A character that has no meaning in a request line, a header or a form: not a carriage return, a space or
-- one of & : = ?
abbrev pub IsToken : ℕ → Type 0
IsToken c = (c ≢ 13) × (c ≢ 32) × (c ≢ 38) × (c ≢ 58) × (c ≢ 61) × (c ≢ 63)

word-IsToken : (c : ℕ) → IsWord c → IsToken c
word-IsToken c (inl l) = ground (arith, l.0, l.1)
word-IsToken c (inr l) = ground (arith, l)

-- The encoding of a value is made of such characters.
pub urlencode-IsToken : (s : List ℕ) → All IsToken (urlencode s)
urlencode-IsToken = urlencode-All IsToken word-IsToken (ground arith) (ground arith)

-- A name and its value as they stand in a form.
unfoldable pub form_pair : List ℕ × List ℕ → List ℕ
form_pair e = e.0 ++ (61 ∷ urlencode e.1)

-- A name of tokens and a value that C can hold.
abbrev pub IsField : List ℕ × List ℕ → Type 0
IsField e = All IsToken e.0 × All IsText e.1

pub form_pair-other :
    (e : List ℕ × List ℕ) → IsField e → All (λ c. (c ≢ 13) × (c ≢ 32) × (c ≢ 38)) (form_pair e)
unfolding form_pair
form_pair-other e v =
    All-append _ e.0 (61 ∷ urlencode e.1) (All-imply (λ c t. (t.0, t.1, t.2)) e.0 v.0)
      (ground arith, All-imply (λ c t. (t.0, t.1, t.2)) (urlencode e.1) (urlencode-IsToken e.1))

-- The fields of a form, at least one.
unfoldable pub form_text : List ℕ × List ℕ → StringMap → List ℕ
form_text e es = implode (38 ∷ []) (map form_pair (e ∷ es))

query_pair-form_pair :
    (e : List ℕ × List ℕ) (vars : StringMap) (error : ℕ)
    → IsField e
    → IsShort (form_pair e)
    → query_pair (explode (61 ∷ []) (form_pair e)) vars error ≡ (put_at e.0 e.1 vars, error)
unfolding form_pair
query_pair-form_pair e vars error v l =
    let split =
      explode_pair (61 ∷ []) e.0 (urlencode e.1) (omega arith)
        (Unmatched-other 61 [] (61 ∷ urlencode e.1) e.0 (All-imply (λ c t. t.4) e.0 v.0))
        (Unmatched-other 61 [] [] (urlencode e.1)
          (All-imply (λ c t. t.4) (urlencode e.1) (urlencode-IsToken e.1)))
        (omega arith) l in
    ap (λ ps. query_pair ps vars error) split
    ∙ unfold query_pair in ap (λ w. (put_at e.0 w vars, error)) (urldecode-urlencode e.1 v.1)

query_loop-form :
    (es vars : StringMap) (error : ℕ)
    → All IsField es
    → All (λ e. IsShort (form_pair e)) es
    → query_loop (map form_pair es) vars error ≡ (put_all es vars, error)
unfolding query_loop put_all
query_loop-form [] vars error v l = refl
query_loop-form (e ∷ es) vars error v l =
    ap (λ r. query_loop (map form_pair es) r.0 r.1) (query_pair-form_pair e vars error v.0 l.0)
    ∙ query_loop-form es (put_at e.0 e.1 vars) error v.1 l.1

pieces-other : (es : StringMap) → All IsField es → All (All (λ c. c ≢ 38)) (map form_pair es)
pieces-other [] v = tt
pieces-other (e ∷ es) v =
    (All-imply (λ c t. t.2) (form_pair e) (form_pair-other e v.0), pieces-other es v.1)

-- parseQueryString of an encoded form, whose names are tokens and whose values have no character 0, puts each
-- field into the variables in their order, with its value decoded, and reports no error, if the form has less than
-- 2 ^ 31 characters.
pub parse_query_string-form_text :
    (e : List ℕ × List ℕ) (es vars : StringMap) (error : ℕ)
    → All IsField (e ∷ es)
    → IsShort (form_text e es)
    → parse_query_string (form_text e es) vars error ≡ (put_all (e ∷ es) vars, error)
unfolding parse_query_string form_text
parse_query_string-form_text e es vars error v l =
    let pieces = pieces-IsShort (38 ∷ []) (form_pair e) (map form_pair es) l in
    ap (λ ps. query_loop ps vars error)
      (explode-implode 38 [] (form_pair e) (map form_pair es) (pieces-other (e ∷ es) v)
        (omega arith) l)
    ∙ query_loop-form (e ∷ es) vars error v (All-map IsShort form_pair (e ∷ es) pieces)
