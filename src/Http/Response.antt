-- ===== src/Http/Response.antt =====
-- src/httpmessage.cpp and class HttpResponse of src/httpresponse.cpp, without the sending of files and the waiting.
pub mod Length
use libmaycloud.Common.{
  text, ℕ, Bool, false, not, ◌&&◌, ◌||◌, Option, none, some, List, [], ◌∷◌, ◌++◌, ◌==◌,
  if◌then◌else◌, length,
}
use libmaycloud.StringMap.{StringMap, put_at, get_default, has_key}
use libmaycloud.Http.Number.{to_string}

-- `server_id` is serverIdString of the web server. `waiting` and `sending` say whether the pointers are set.
pub record HttpResponse : Type 0 where
  pub server_id : List ℕ
  pub status : ℕ
  pub headers : StringMap
  pub body : List ℕ
  pub content_type : List ℕ
  pub content_length : ℕ
  pub waiting : Bool
  pub sending : Bool

-- HttpMessage: header, setHeader, hasHeader and mimeTypeByExtension, on the table of the types.
unfoldable pub header : (name dflt : List ℕ) → HttpResponse → List ℕ
header name dflt r = get_default name dflt r.headers

unfoldable pub set_header : (name value : List ℕ) → HttpResponse → HttpResponse
set_header name value r = record r { headers = put_at name value r.headers }

unfoldable pub has_header : List ℕ → HttpResponse → Bool
has_header name r = has_key name r.headers

abbrev pub types : StringMap
types =
    (text "html", text "text/html;charset=utf-8")
    ∷ (text "htm", text "text/html;charset=utf-8")
    ∷ (text "txt", text "text/plain;charset=utf-8")
    ∷ (text "css", text "text/css;charset=utf-8")
    ∷ (text "m3u8", text "application/vnd.apple.mpegurl")
    ∷ (text "ts", text "video/mp2t")
    ∷ (text "iso", text "application/octet-stream")
    ∷ (text "jpg", text "image/jpeg")
    ∷ (text "png", text "image/png")
    ∷ (text "mp4", text "video/mp4")
    ∷ []

unfoldable pub mime_type_by_extension : List ℕ → List ℕ
mime_type_by_extension extension = get_default extension (text "text/plain") types

unfoldable pub set_content_type : List ℕ → HttpResponse → HttpResponse
unfolding set_header
set_content_type kind r = set_header (text "Content-Type") kind (record r { content_type = kind })

unfoldable pub set_status : ℕ → HttpResponse → HttpResponse
set_status code r = record r { status = code }

unfoldable pub set_body : List ℕ → HttpResponse → HttpResponse
set_body body r = record r { body = body; content_length = length body }

unfoldable pub set_cookie : (name value : List ℕ) → HttpResponse → HttpResponse
unfolding set_header
set_cookie name value r = set_header (text "Set-Cookie") (name ++ (61 ∷ value)) r

-- The constructor.
unfoldable pub new_response : (server_id : List ℕ) → HttpResponse
unfolding set_content_type
new_response server_id = set_content_type (text "text/plain") (record {
  server_id = server_id;
  status = 200;
  headers = put_at (text "Server") server_id (
      put_at (text "Connection") (text "close")
        (put_at (text "Content-Type") (text "text/html;charset=utf-8") []));
  body = [];
  content_type = [];
  content_length = 0;
  waiting = false;
  sending = false;
})

-- status_map: the title and the text of each code. The apostrophe of "don’t" is three characters in UTF-8.
unfoldable pub status_entry : ℕ → Option (List ℕ × List ℕ)
status_entry code =
    if code == 200
    then some (text "OK", text "OK")
    else if code == 400
    then some (text "Bad Request", text "The server was unable to parse your request.")
    else if code == 401
    then some (
      text "Authorization Required",
      text "You should provide valid username and password to access the requested page.",
    )
    else if code == 403
    then some (
      text "Forbidden",
      text "You don" ++ (226 ∷ 128 ∷ 153 ∷ text "t have permission to browse this page."),
    )
    else if code == 404
    then some
        (text "Object Not Found", text "The requested web page does not exist within the server.")
    else if code == 405
    then some (
      text "Method Not Allowed",
      text "The requested web page cannot be requested using the chosen method.",
    )
    else if code == 410
    then some (text "Gone", text "The requested web page is not available anymore.")
    else if code == 411
    then some
        (text "Length Required", text "The requested web page requires Content-Length to be set.")
    else if code == 415
    then some (
      text "Unsupported Media Type",
      text "The server does not support the provided data format.",
    )
    else if code == 501
    then some (text "Not Implemented", text "Something important is not implemented yet.")
    else if code == 503
    then some (text "Service Unavailable", text "The server is temporarily unavailable.")
    else none

unfoldable pub status_text : ℕ → List ℕ
unfolding status_entry
status_text code = elim (status_entry code) [ none ↦ [] | some e ↦ e.0 ]

unfoldable pub simple_html_page : (title body : List ℕ) → HttpResponse → List ℕ
simple_html_page title body r =
    text "<html><head><title>"
    ++ (title
        ++ (text "</title></head><body><h1>"
            ++ (title
                ++ (text "</h1><div>"
                    ++ (body
                        ++ (text "</div><hr/><a href=\"https://github.com/orgtechservice\">"
                            ++ (r.server_id ++ text "</a></body></html>")))))))

unfoldable pub set_simple_html_page : (title body : List ℕ) → HttpResponse → HttpResponse
unfolding simple_html_page set_content_type set_body
set_simple_html_page title body r =
    set_content_type (text "text/html;charset=utf-8") (set_body (simple_html_page title body r) r)

-- The page of a code that the map has.
unfoldable pub status_page_of : Option (List ℕ × List ℕ) → ℕ → HttpResponse → HttpResponse
unfolding set_simple_html_page
status_page_of none code r = r
status_page_of (some e) code r =
    set_simple_html_page (e.0 ++ (40 ∷ (to_string code ++ (41 ∷ [])))) e.1 r

unfoldable pub set_status_page : ℕ → HttpResponse → HttpResponse
unfolding set_status status_page_of
set_status_page code r = status_page_of (status_entry code) code (set_status code r)

unfoldable pub require_basic_auth : List ℕ → HttpResponse → HttpResponse
unfolding set_header set_status_page
require_basic_auth realm r =
    set_status_page 401
      (set_header (text "WWW-Authenticate") (text "Basic realm=\"" ++ (realm ++ (34 ∷ []))) r)

-- The header lines, in the order of the map.
unfoldable pub header_block : StringMap → List ℕ
header_block [] = []
header_block (h ∷ hs) = h.0 ++ (58 ∷ 32 ∷ (h.1 ++ (13 ∷ 10 ∷ header_block hs)))

-- headersString, which writes Content-Length.
unfoldable pub headers_string : ℕ → HttpResponse → List ℕ × HttpResponse
unfolding set_header status_text header_block
headers_string size r =
    let r' = set_header (text "Content-Length") (to_string size) r in
    (
      text "HTTP/1.1 "
          ++ (to_string r.status
              ++ (32
                  ∷ (status_text r.status
                      ++ (13 ∷ 10 ∷ (header_block r'.headers ++ (13 ∷ 10 ∷ [])))))),
      r',
    )

-- toString, whose head is made in the same way.
unfoldable pub response_text : HttpResponse → List ℕ × HttpResponse
unfolding headers_string
response_text r = let h = headers_string r.content_length r in (h.0 ++ r.body, h.1)

-- ready and pending.
abbrev pub is_sendable : HttpResponse → Bool
is_sendable r = not r.waiting && not r.sending

abbrev pub is_pending : HttpResponse → Bool
is_pending r = r.waiting || r.sending
