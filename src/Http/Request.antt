-- ===== src/Http/Request.antt =====
-- class HttpRequest of src/httprequest.cpp up to its headers. A value `none` is undefined behaviour, a read outside
-- a vector, or an exception that nothing catches.
pub mod Lines
use libmaycloud.Common.{
  text, ℕ, ◌+◌, Bool, true, false, ◌||◌, Option, none, some, List, [], ◌∷◌, same_text, ◌==◌,
  if◌then◌else◌, ◌>>=◌, length, get_elem?, get_or, take, drop,
}
use libmaycloud.Easylib.Pieces.{explode, find}
use libmaycloud.Easylib.Base64.{base64_decode}
use libmaycloud.StringMap.{StringMap, put_at, put_all}
use libmaycloud.Http.Number.{strtoul}
use libmaycloud.Http.Query.{parse_query_string, parse_header_extra_line}

-- The fields of HttpMessage that a request has are here too. `_host` is never written.
pub record HttpRequest : Type 0 where
  pub got_headers : Bool
  pub got_body : Bool
  pub has_auth_info : Bool
  pub raw_headers : List ℕ
  pub raw_body : List ℕ
  pub method : List ℕ
  pub path : List ℕ
  pub username : List ℕ
  pub password : List ℕ
  pub error : ℕ
  pub cookies : StringMap
  pub get_vars : StringMap
  pub post_vars : StringMap
  pub route_params : List (ℕ × List ℕ)
  pub headers : StringMap
  pub content_type : List ℕ
  pub content_length : ℕ

-- The constructor, which leaves `has_auth_info` as it was in memory.
unfoldable pub new_request : (garbage : Bool) → HttpRequest
new_request garbage = record {
  got_headers = false;
  got_body = false;
  has_auth_info = garbage;
  raw_headers = [];
  raw_body = [];
  method = [];
  path = [];
  username = [];
  password = [];
  error = 0;
  cookies = [];
  get_vars = [];
  post_vars = [];
  route_params = [];
  headers = [];
  content_type = [];
  content_length = 0;
}

unfoldable pub parse_request_path : List ℕ → HttpRequest → HttpRequest
parse_request_path target r = elim (find target (text "?") 0) [
  | none ↦ record r { path = target }
  | some position ↦
      let q = parse_query_string (drop (position + 1) target) r.get_vars r.error in
      record r { path = take position target; get_vars = q.0; error = q.1 }
]

unfoldable pub handle_basic_auth : List ℕ → HttpRequest → Option HttpRequest
handle_basic_auth base64_auth r =
    let parts = explode (text ":") (base64_decode base64_auth) in
    get_elem? parts 0 >>= λ user. get_elem? parts 1 >>= λ secret. some (record r {
      error = if length parts == 2 then r.error else 400;
      has_auth_info = true;
      username = user;
      password = secret;
    })

unfoldable pub handle_cookies : List ℕ → HttpRequest → HttpRequest
unfolding put_all
handle_cookies line r = record r { cookies = put_all (parse_header_extra_line line) r.cookies }

-- The header Authorization; `parts[0]` is there whatever the value is, `parts[1]` need not be.
unfoldable pub handle_authorization : List ℕ → HttpRequest → Option HttpRequest
unfolding handle_basic_auth
handle_authorization value r =
    let parts = explode (text " ") value in
    let e1 = if length parts == 2 then r.error else 400 in
    get_elem? parts 0 >>= λ kind.
    let e2 = if same_text kind (text "Basic") then e1 else 501 in
    get_elem? parts 1 >>= λ auth. handle_basic_auth auth (record r { error = e2 })

unfoldable pub parse_header : (name value : List ℕ) → HttpRequest → Option HttpRequest
unfolding handle_authorization handle_cookies
parse_header name value r =
    let authorized : Option HttpRequest =
      if same_text name (text "Authorization") then handle_authorization value r else some r in
    authorized >>= λ r1.
    let r2 =
      if same_text name (text "Content-Length")
      then record r1 { content_length = strtoul value }
      else r1 in
    let r3 =
      if same_text name (text "Content-Type") then record r2 { content_type = value } else r2 in
    let r4 = if same_text name (text "Cookie") then handle_cookies value r3 else r3 in
    some (record r4 { headers = put_at name value r4.headers })

-- One line of the headers behind the first, by its parts.
unfoldable pub header_line : List (List ℕ) → HttpRequest → Option HttpRequest
unfolding parse_header
header_line [] r = some (record r { error = 400 })
header_line (name ∷ []) r = some (record r { error = 400 })
header_line (name ∷ value ∷ []) r = parse_header name value r
header_line (name ∷ value ∷ more ∷ parts) r = some (record r { error = 400 })

unfoldable pub header_lines : List (List ℕ) → HttpRequest → Option HttpRequest
unfolding header_line
header_lines [] r = some r
header_lines (line ∷ lines) r =
    header_line (explode (text ": ") line) r >>= λ r'. header_lines lines r'

-- The parts of the request line.
unfoldable pub request_line : List (List ℕ) → HttpRequest → HttpRequest
unfolding parse_request_path
request_line parts r =
    let verb = get_or parts 0 [] in
    let known = same_text verb (text "GET") || same_text verb (text "POST") in
    let r1 = record r { method = verb; error = if known then r.error else 405 } in
    if length parts == 3
    then parse_request_path (get_or parts 1 []) r1
    else record r { error = 400 }

unfoldable pub parse_lines : List (List ℕ) → HttpRequest → Option HttpRequest
unfolding request_line header_lines
parse_lines [] r = some (record r { error = 400 })
parse_lines (line ∷ lines) r = header_lines lines (request_line (explode (text " ") line) r)

unfoldable pub parse_headers : HttpRequest → Option HttpRequest
unfolding parse_lines
parse_headers r = parse_lines (explode (text "\r\n") r.raw_headers) r
