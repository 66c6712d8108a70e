-- ===== src/Http/Access.antt =====
-- What a handler reads of a request: the accessors, the route parameters and initSession of src/httprequest.cpp.
use libmaycloud.Common.{
  text, ℕ, ◌≡◌, refl, ap, ◌∙◌, Bool, true, false, Option, none, some, List, [], ◌∷◌, ◌++◌, arith,
  ltb, ◌==◌, if◌then◌else◌,
}
use libmaycloud.StringMap.{get_default, has_key}
use libmaycloud.Http.Request.{HttpRequest}
use libmaycloud.Http.Response.{HttpResponse, set_cookie}

unfoldable pub get : (variable default_value : List ℕ) → HttpRequest → List ℕ
get variable default_value r = get_default variable default_value r.get_vars

unfoldable pub post : (variable default_value : List ℕ) → HttpRequest → List ℕ
post variable default_value r = get_default variable default_value r.post_vars

unfoldable pub get_variable_exists : List ℕ → HttpRequest → Bool
get_variable_exists variable r = has_key variable r.get_vars

unfoldable pub post_variable_exists : List ℕ → HttpRequest → Bool
post_variable_exists variable r = has_key variable r.post_vars

unfoldable pub has_cookie : List ℕ → HttpRequest → Bool
has_cookie name r = has_key name r.cookies

unfoldable pub cookie : (name default_value : List ℕ) → HttpRequest → List ℕ
cookie name default_value r = get_default name default_value r.cookies

-- std::map<uint8_t, std::string>: its find and its operator [].
unfoldable pub route_find : ℕ → List (ℕ × List ℕ) → Option (List ℕ)
route_find index [] = none
route_find index (e ∷ params) =
    let rest = route_find index params in if e.0 == index then some e.1 else rest

unfoldable pub route_put : ℕ → List ℕ → List (ℕ × List ℕ) → List (ℕ × List ℕ)
route_put index value [] = (index, value) ∷ []
route_put index value (e ∷ params) =
    let more = e ∷ route_put index value params in
    if ltb index e.0
    then (index, value) ∷ e ∷ params
    else if e.0 == index
    then (index, value) ∷ params
    else more

unfoldable pub add_route_param : ℕ → List ℕ → HttpRequest → HttpRequest
unfolding route_put
add_route_param index value r = record r { route_params = route_put index value r.route_params }

unfoldable pub get_route_param : ℕ → (default_value : List ℕ) → HttpRequest → List ℕ
unfolding route_find
get_route_param index default_value r = elim (route_find index r.route_params) [
  | none ↦ default_value
  | some v ↦ v
]

unfoldable pub add_route_params : List (ℕ × List ℕ) → HttpRequest → HttpRequest
add_route_params params r = record r { route_params = params }

-- initSession; `salt` is what generateSalt(32) makes.
unfoldable pub init_session :
    (salt cookie_name : List ℕ) → HttpRequest → HttpResponse → HttpResponse
init_session salt cookie_name r response =
    let key = text "_lmc_session_" ++ cookie_name in
    if has_key key r.cookies then response else set_cookie key salt response

route_find-put :
    (i index : ℕ) (value : List ℕ) (params : List (ℕ × List ℕ))
    → route_find i (route_put index value params)
      ≡ (if index == i then some value else route_find i params)
unfolding route_find route_put
route_find-put i index value [] = refl
route_find-put i index value ((k, v) ∷ params) = ground (arith, route_find-put i index value params)

if_elim :
    (b : Bool) (value dflt : List ℕ) (o : Option (List ℕ))
    → elim (if b then some value else o) as (λ _. List ℕ) [ none ↦ dflt | some v ↦ v ]
      ≡ (if b then value else elim o as (λ _. List ℕ) [ none ↦ dflt | some v ↦ v ])
if_elim true value dflt o = refl
if_elim false value dflt o = refl

-- A route parameter that was added is found under its index, and the others are found as before.
pub get_route_param-add_route_param :
    (i index : ℕ) (value default_value : List ℕ) (r : HttpRequest)
    → get_route_param i default_value (add_route_param index value r)
      ≡ (if index == i then value else get_route_param i default_value r)
unfolding get_route_param add_route_param
get_route_param-add_route_param i index value default_value r =
    ap (λ o. elim o as (λ _. List ℕ) [ none ↦ default_value | some v ↦ v ])
      (route_find-put i index value r.route_params)
    ∙ if_elim (index == i) value default_value (route_find i r.route_params)
