-- ===== src/Http/Query.antt =====
-- HttpRequest::parseQueryString and parseHeaderExtraLine of src/httprequest.cpp.
pub mod RoundTrip
use libmaycloud.Common.{ℕ, ◌-◌, List, [], ◌∷◌, if◌then◌else◌, length, take, drop, text, same_text}
use libmaycloud.Easylib.Pieces.{explode}
use libmaycloud.Easylib.Url.{urldecode}
use libmaycloud.StringMap.{StringMap, put_at}

-- One round, on the parts of a pair; the results are the variables and the error code.
unfoldable pub query_pair : List (List ℕ) → StringMap → (error : ℕ) → StringMap × ℕ
query_pair [] vars error = (vars, 400)
query_pair (name ∷ []) vars error = (put_at name [] vars, error)
query_pair (name ∷ value ∷ []) vars error = (put_at name (urldecode value) vars, error)
query_pair (name ∷ value ∷ more ∷ parts) vars error = (vars, 400)

unfoldable pub query_loop : List (List ℕ) → StringMap → (error : ℕ) → StringMap × ℕ
unfolding query_pair
query_loop [] vars error = (vars, error)
query_loop (part ∷ parts) vars error =
    let r = query_pair (explode (text "=") part) vars error in query_loop parts r.0 r.1

unfoldable pub parse_query_string : List ℕ → StringMap → (error : ℕ) → StringMap × ℕ
unfolding query_loop
parse_query_string query vars error = query_loop (explode (text "&") query) vars error

-- A value in quotation marks loses its first and its last character; `length - 2` of one character wraps
-- to more than the string has, and leaves the empty string too.
unfoldable pub unquote : List ℕ → List ℕ
unquote value =
    if same_text (take 1 value) (text "\"") then take (length value - 2) (drop 1 value) else value

unfoldable pub extra_pair : List (List ℕ) → StringMap → StringMap
unfolding unquote
extra_pair [] result = result
extra_pair (name ∷ []) result = result
extra_pair (name ∷ value ∷ []) result = put_at name (unquote value) result
extra_pair (name ∷ value ∷ more ∷ parts) result = result

unfoldable pub extra_loop : List (List ℕ) → StringMap → StringMap
unfolding extra_pair
extra_loop [] result = result
extra_loop (item ∷ items) result = extra_loop items (extra_pair (explode (text "=") item) result)

unfoldable pub parse_header_extra_line : List ℕ → StringMap
unfolding extra_loop
parse_header_extra_line extra = extra_loop (explode (text "; ") extra) []
