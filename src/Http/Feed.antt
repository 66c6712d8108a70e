-- ===== src/Http/Feed.antt =====
-- HttpRequest::feed of src/httprequest.cpp and the bodies.
pub mod RoundTrip
pub mod Get
pub mod Post
pub mod Chunks
use libmaycloud.Common.{
  ℕ, ◌+◌, ◌-◌, ◌*◌, Bool, true, false, ◌&&◌, Option, none, some, List, [], ◌∷◌, ◌++◌, ltb, leb,
  ◌==◌, if◌then◌else◌, ◌>>=◌, length, get_or, take, drop, text, same_text,
}
use libmaycloud.Easylib.Pieces.{explode, find}
use libmaycloud.Easylib.Trim.{trim}
use libmaycloud.StringMap.{StringMap, get_at, put_at, has_key}
use libmaycloud.Http.Query.{parse_query_string, parse_header_extra_line}
use libmaycloud.Http.Request.{HttpRequest, parse_headers}

-- The headers of a part, each in two pieces, or none.
unfoldable pub part_headers : List (List ℕ) → StringMap → Option StringMap
part_headers [] headers = some headers
part_headers (line ∷ lines) headers =
    let parts = explode (text ": ") line in
    let rest = part_headers lines (put_at (get_or parts 0 []) (get_or parts 1 []) headers) in
    if length parts == 2 then rest else none

-- parseMPPartBody; the variables of the form are in the result where they change.
unfoldable pub parse_mp_part_body : StringMap → (body : List ℕ) → HttpRequest → Option HttpRequest
parse_mp_part_body headers body r = get_at (text "Content-Disposition") headers >>= λ disposition.
    let attributes = parse_header_extra_line disposition in
    get_at (text "name") attributes >>= λ name.
    if has_key (text "filename") attributes
    then some r
    else some (record r { post_vars = put_at name body r.post_vars })

-- parseMPPart, `none` where it returns false.
unfoldable pub parse_mp_part : (content newline : List ℕ) → HttpRequest → Option HttpRequest
unfolding part_headers parse_mp_part_body
parse_mp_part content newline r = find content (newline ++ newline) 0 >>= λ it.
    part_headers (explode newline (take it content)) [] >>= λ headers.
    parse_mp_part_body headers (drop (it + length newline * 2) content) r

-- A part without the line ends around it, and the line end in use from there on. An `erase` that starts
-- behind the end throws: `length - 4` and `length - 2` wrap on a short part.
unfoldable pub strip_crlf : List ℕ → Option (List ℕ)
strip_crlf part =
    let inner = drop 2 part in
    if same_text (take 2 part) (text "\r\n")
    then if ltb (length inner) 4 then none else some (take (length inner - 4) inner)
    else some part

unfoldable pub strip_lf : (part delimiter : List ℕ) → Option (List ℕ × List ℕ)
strip_lf part delimiter =
    let inner = drop 1 part in
    if same_text (take 1 part) (text "\n")
    then if ltb (length inner) 2 then none else some (take (length inner - 2) inner, text "\n")
    else some (part, delimiter)

unfoldable pub multipart_loop :
    List (List ℕ) → (delimiter : List ℕ) → HttpRequest → Option HttpRequest
unfolding trim strip_crlf strip_lf parse_mp_part
multipart_loop [] delimiter r = some r
multipart_loop (part ∷ parts) delimiter r = elim (same_text (trim part) (text "--")) [
  | true ↦ multipart_loop parts delimiter r
  | false ↦ strip_crlf part >>= λ p. strip_lf p delimiter >>= λ q. elim (parse_mp_part q.0 q.1 r) [
    | none ↦ some (record r { error = 400 })
    | some r' ↦ multipart_loop parts q.1 r'
  ]
]

unfoldable pub parse_multipart_form_data :
    (content boundary : List ℕ) → HttpRequest → Option HttpRequest
unfolding multipart_loop
parse_multipart_form_data content boundary r =
    multipart_loop (explode boundary content) (text "\r\n") r

abbrev pub is_multipart : List ℕ → Bool
is_multipart kind = leb 32 (length kind) && same_text (take 19 kind) (text "multipart/form-data")

unfoldable pub parse_form : HttpRequest → HttpRequest
parse_form r =
    let q = parse_query_string r.raw_body r.post_vars r.error in
    record r { post_vars = q.0; error = q.1 }

unfoldable pub parse_body : HttpRequest → Option HttpRequest
unfolding parse_multipart_form_data parse_form
parse_body r =
    if length r.raw_body == 0
    then some r
    else if same_text r.content_type (text "application/x-www-form-urlencoded")
    then some (parse_form r)
    else if is_multipart r.content_type
    then elim (get_at (text "boundary") (parse_header_extra_line (drop 21 r.content_type))) [
      | none ↦ some (record r { error = 400 })
      | some boundary ↦ parse_multipart_form_data r.raw_body boundary r
    ]
    else some (record r { error = 415 })

-- The first branch of feed, at the end of the headers.
unfoldable pub feed_head : (head leftovers : List ℕ) → HttpRequest → Option HttpRequest
unfolding parse_body
feed_head head leftovers r =
    parse_headers (record r { raw_headers = r.raw_headers ++ head; got_headers = true }) >>= λ r1.
    let r2 = record r1 { raw_body = r1.raw_body ++ leftovers } in
    if leb r2.content_length (length r2.raw_body)
    then parse_body (record r2 { got_body = true })
    else some r2

-- The second branch of feed, in front of the end of the body.
unfoldable pub feed_more : List ℕ → HttpRequest → HttpRequest
feed_more content r =
    let body = r.raw_body ++ content in
    record r {
      raw_body = body;
      error = if has_key (text "Content-Length") r.headers then r.error else 411;
      got_body = leb r.content_length (length body);
    }

unfoldable pub feed : List ℕ → HttpRequest → Option HttpRequest
unfolding feed_head feed_more
feed content r =
    if r.got_headers
    then if r.got_body then parse_body r else some (feed_more content r)
    else elim (find content (text "\r\n\r\n") 0) [
      | none ↦ some (record r { raw_headers = r.raw_headers ++ content })
      | some at ↦ feed_head (take at content) (drop (at + 4) content) r
    ]

-- ready.
abbrev pub is_ready : HttpRequest → Bool
is_ready r = r.got_headers && r.got_body
