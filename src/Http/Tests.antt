-- ===== src/Http/Tests.antt =====
-- Requests to src/httprequest.cpp.
use libmaycloud.Common.{
  text, ℕ, ◌^◌, ◌<◌, ◌≡◌, refl, Bool, true, false, ◌&&◌, some, List, [], ◌∷◌, ◌++◌, arith,
  same_text, if◌then◌else◌, ◌>>=◌, length, All,
}
use libmaycloud.Http.Number.{strtoul, to_string}
use libmaycloud.Http.Request.{HttpRequest, new_request, handle_authorization, parse_headers}
use libmaycloud.Http.Feed.{feed, is_ready}
use libmaycloud.Easylib.Pieces.{
  matching, explode_loop, explode_pieces, as_int, int_part, explode, implode_loop, implode, find_in,
  find,
}
use libmaycloud.Http.Query.{parse_query_string, parse_header_extra_line}
use libmaycloud.StringMap.{StringMap, get_at, has_key, put_all}
use libmaycloud.XmlWriter.{insert_attribute}
use libmaycloud.Easylib.Url.{decode, urldecode}
use libmaycloud.Http.Feed.Get.{IsPlain, target_text, feed_get}
use libmaycloud.Http.Feed.Post.{form_headers, feed_post}
use libmaycloud.Http.Feed.Chunks.{feed_all, joined, end_mark, feed_all-unmarked, feed_all-late_body}
use libmaycloud.Http.Feed.RoundTrip.{request_text}
use libmaycloud.Http.Response.{
  header, set_header, set_body, set_cookie, new_response, require_basic_auth, header_block,
  response_text,
}
use libmaycloud.Http.Response.Length.{
  ResponseCall, header_call, cookie_call, body_call, respond, respond_all, response_text-length,
}
use libmaycloud.Http.Login.{authenticate_user, credentials, authenticate_user-credentials}
use libmaycloud.Http.Number.RoundTrip.{strtoul-to_string}
use libmaycloud.Http.Query.RoundTrip.{form_pair, form_text}
use libmaycloud.Easylib.Pieces.Split.{Unmatched}
use libmaycloud.Easylib.Url.RoundTrip.{urlencode}
use libmaycloud.Easylib.Pieces.Explode.{IsShort}
use libmaycloud.Http.Request.Lines.{header_text, IsHeader, request_line_text, head_text}
use libmaycloud.Easylib.Base64.RoundTrip.{base64_encode}

strtoul_runs : strtoul (text "  010") ≡ 8
unfolding strtoul
strtoul_runs = refl

to_string_runs : to_string 12305 ≡ text "12305"
unfolding to_string
to_string_runs = refl

-- A request whose answer has a body.
abbrev post : List ℕ
post =
    text
      "POST /a?x=1&y=a+b HTTP/1.1\r\nCookie: s=7; t=\"u\"\r\nContent-Length: 5\r\nContent-Type: application/x-www-form-urlencoded\r\n\r\np=q%21"

abbrev shown : HttpRequest → ℕ × StringMap × StringMap × StringMap × Bool
shown r = (r.error, r.get_vars, r.post_vars, r.cookies, is_ready r)

post_runs :
    (feed post (new_request false) >>= λ r. some (shown r))
    ≡ some (
      0,
      (text "x", text "1") ∷ (text "y", text "a b") ∷ [],
      (text "p", text "q!") ∷ [],
      (text "s", text "7") ∷ (text "t", text "u") ∷ [],
      true,
    )
unfolding feed new_request parse_headers parse_query_string parse_header_extra_line explode
    explode_pieces as_int int_part explode_loop urldecode find get_at find_in insert_attribute
    same_text decode to_string strtoul
post_runs = refl

-- GET /a?x=1&y=a+b with one header.
abbrev fields : StringMap
fields = (text "x", text "1") ∷ (text "y", text "a b") ∷ []

abbrev hosts : StringMap
hosts = (text "Host", text "h:8") ∷ []

hosts-IsHeader : All IsHeader hosts
unfolding matching
hosts-IsHeader = ((omega arith, omega arith, ground arith), tt)

hosts-IsPlain : All IsPlain hosts
unfolding same_text
hosts-IsPlain = ((refl, refl, refl, refl), tt)

get-IsShort : IsShort (
    head_text
      (text "GET")
      (target_text (text "/a") (text "x", text "1") ((text "y", text "a b") ∷ []))
      (text "HTTP/1.1")
      hosts)
unfolding head_text request_line_text header_text target_text form_text form_pair implode
    implode_loop urlencode
get-IsShort = omega arith

feed_get_example :
    feed
      (request_text
        (text "GET")
        (target_text (text "/a") (text "x", text "1") ((text "y", text "a b") ∷ []))
        (text "HTTP/1.1")
        hosts
        [])
      (new_request true)
    ≡ some (record (new_request true) {
      got_headers = true;
      got_body = true;
      raw_headers =
          head_text
            (text "GET")
            (target_text (text "/a") (text "x", text "1") ((text "y", text "a b") ∷ []))
            (text "HTTP/1.1")
            hosts;
      method = text "GET";
      path = text "/a";
      get_vars = put_all fields [];
      headers = put_all hosts [];
    })
feed_get_example =
    feed_get (text "/a") (text "HTTP/1.1") (text "x", text "1") ((text "y", text "a b") ∷ []) hosts
      true (omega arith) (omega arith) (omega arith) hosts-IsHeader hosts-IsPlain get-IsShort

abbrev form : List ℕ
form = form_text (text "x", text "1") ((text "y", text "a b") ∷ [])

form-IsShort : IsShort form
unfolding form_text form_pair implode implode_loop urlencode
form-IsShort = omega arith

post-IsShort :
    IsShort (head_text (text "POST") (text "/a") (text "HTTP/1.1") (form_headers form ++ hosts))
unfolding head_text request_line_text header_text form_text form_pair implode implode_loop urlencode
    to_string
post-IsShort = omega arith

feed_post_example :
    feed
      (request_text (text "POST") (text "/a") (text "HTTP/1.1") (form_headers form ++ hosts) form)
      (new_request true)
    ≡ some (record (new_request true) {
      got_headers = true;
      got_body = true;
      raw_headers =
          head_text (text "POST") (text "/a") (text "HTTP/1.1") (form_headers form ++ hosts);
      raw_body = form;
      method = text "POST";
      path = text "/a";
      post_vars = put_all fields [];
      headers = put_all (form_headers form ++ hosts) [];
      content_type = text "application/x-www-form-urlencoded";
      content_length = length form;
    })
feed_post_example =
    feed_post (text "/a") (text "HTTP/1.1") (text "x", text "1") ((text "y", text "a b") ∷ []) hosts
      true (omega arith) (omega arith) (omega arith) hosts-IsHeader hosts-IsPlain post-IsShort
      form-IsShort

-- The empty line behind the head comes in two pieces.
abbrev cut : List (List ℕ)
cut = text "GET / HTTP/1.1\r\n" ∷ text "\r\n" ∷ []

cut_unmarked : All (Unmatched end_mark []) cut
unfolding matching
cut_unmarked = ground arith

cut_fresh : (new_request false).got_headers ≡ false
unfolding new_request
cut_fresh = refl

feed_all-unmarked_example :
    feed_all cut (new_request false)
    ≡ some
        (record (new_request false) { raw_headers = (new_request false).raw_headers ++ joined cut })
feed_all-unmarked_example = feed_all-unmarked cut (new_request false) cut_fresh cut_unmarked

-- A POST whose head is there and whose body of four characters is not.
abbrev waiting : HttpRequest
waiting = record {
  got_headers = true;
  got_body = false;
  has_auth_info = false;
  raw_headers = [];
  raw_body = [];
  method = text "POST";
  path = text "/";
  username = [];
  password = [];
  error = 0;
  cookies = [];
  get_vars = [];
  post_vars = [];
  route_params = [];
  headers = (text "Content-Length", text "4") ∷ [];
  content_type = text "application/x-www-form-urlencoded";
  content_length = 4;
}

waiting_length : has_key (text "Content-Length") waiting.headers ≡ true
unfolding has_key get_at same_text
waiting_length = refl

joined_one : length (joined (text "x=" ∷ [])) ≡ 2
unfolding joined
joined_one = refl

feed_all-late_body_example :
    feed_all (text "x=" ∷ text "12" ∷ []) waiting
    ≡ some (record waiting {
      raw_body = [] ++ (joined (text "x=" ∷ []) ++ text "12");
      got_body = true;
    })
feed_all-late_body_example =
    feed_all-late_body (text "x=" ∷ []) (text "12") waiting refl refl waiting_length
      (omega (arith, joined_one)) (omega (arith, joined_one))

abbrev calls : List ResponseCall
calls =
    header_call (text "Content-Length") (text "99")
    ∷ body_call (text "hello")
    ∷ cookie_call (text "a") (text "b")
    ∷ []

calls_short : length (respond_all calls (new_response (text "id"))).body < 2 ^ 64
unfolding respond_all respond set_header set_body set_cookie
calls_short = omega arith

response_text-length_example :
    let r = respond_all calls (new_response (text "id")) in
    (head : List ℕ) × ((response_text r).0
      ≡ (head ++ (header_block (response_text r).1.headers ++ (13 ∷ 10 ∷ []))) ++ r.body)
    × (strtoul (header (text "Content-Length") [] (response_text r).1) ≡ length r.body)
response_text-length_example = response_text-length calls (text "id") calls_short

credentials-IsShort : IsShort (credentials (text "u") (text "p"))
unfolding credentials base64_encode
credentials-IsShort = omega arith

authenticate_user-credentials_example :
    (r' : HttpRequest) × (handle_authorization
        (credentials (text "u") (text "p"))
        (new_request false)
      ≡ some r')
    × (authenticate_user (text "u") (text "q") (text "zone") r' (new_response (text "id")) ≡ (
        if same_text (text "u") (text "u") && same_text (text "p") (text "q")
        then (true, new_response (text "id"))
        else (false, require_basic_auth (text "zone") (new_response (text "id")))))
    × ((require_basic_auth (text "zone") (new_response (text "id"))).status ≡ 401)
authenticate_user-credentials_example =
    authenticate_user-credentials (text "u") (text "p") (text "u") (text "q") (text "zone")
      (new_request false) (new_response (text "id")) (omega arith) (omega arith) credentials-IsShort

strtoul-to_string_example : strtoul (to_string 1234567890) ≡ 1234567890
strtoul-to_string_example = strtoul-to_string 1234567890 (omega arith)
