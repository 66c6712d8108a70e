-- ===== src/Http/Feed/Post.antt =====
-- What HttpRequest of src/httprequest.cpp holds behind a POST of a form.
use libmaycloud.Common.{
  text, same_text_self, ℕ, ◌+◌, ◌^◌, ◌<◌, ◌≡◌, refl, ap, ◌∙◌, ◌≢◌, Bool, true, false, ◌||◌, none,
  some, List, [], ◌∷◌, ◌++◌, map, arith, same_text, ◌==◌, le→leb, ne→==_false, ◌>>=◌, length, take,
  drop, All, All-imply, All-append, length-append,
}
use libmaycloud.Easylib.Pieces.{matching, implode}
use libmaycloud.Easylib.Pieces.Split.{Unmatched-other, find-none}
use libmaycloud.Easylib.Url.RoundTrip.{urlencode}
use libmaycloud.StringMap.{StringMap, put_all}
use libmaycloud.Http.Number.{to_string}
use libmaycloud.Http.Number.RoundTrip.{strtoul-to_string, to_string-All}
use libmaycloud.Http.Query.{parse_query_string}
use libmaycloud.Http.Query.RoundTrip.{
  IsToken, form_pair, IsField, form_text, parse_query_string-form_text,
}
use libmaycloud.Http.Request.{
  HttpRequest, new_request, parse_request_path, parse_header, request_line,
}
use libmaycloud.Http.Feed.{parse_form, parse_body, feed}
use libmaycloud.Http.Feed.RoundTrip.{request_text, headed, finish, feed-request_text}
use libmaycloud.Http.Feed.Get.{IsPlain, put_headers-IsPlain}
use libmaycloud.Easylib.Pieces.Explode.{implode-cons, implode_one, IsShort}
use libmaycloud.Http.Request.Lines.{IsHeader, put_headers, IsWordText, head_text}

-- The headers of a form that is sent as a body.
abbrev pub form_headers : (body : List ℕ) → StringMap
form_headers body =
    (text "Content-Length", to_string (length body))
    ∷ (text "Content-Type", text "application/x-www-form-urlencoded")
    ∷ []

form_headers-IsHeader : (body : List ℕ) → All IsHeader (form_headers body)
unfolding matching
form_headers-IsHeader body = (
  (
    ground arith,
    to_string-All (λ c. c ≢ 13) (λ d l. omega arith) (length body),
    Unmatched-other 58 (32 ∷ []) [] (to_string (length body))
        (to_string-All (λ c. c ≢ 58) (λ d l. omega (arith, l)) (length body)),
  ),
  ((ground arith, ground arith, ground arith), tt),
)

parse_request_path_plain :
    (path : List ℕ) (r : HttpRequest)
    → All IsToken path
    → parse_request_path path r ≡ record r { path = path }
unfolding parse_request_path
parse_request_path_plain path r p =
    let q = λ (position : ℕ). parse_query_string (drop (position + 1) path) r.get_vars r.error in
    ap
      (λ o. elim o as (λ _. HttpRequest) [
        | none ↦ record r { path = path }
        | some position ↦ record r {
          path = take position path;
          get_vars = (q position).0;
          error = (q position).1;
        }
      ])
      (find-none (63 ∷ []) path (omega arith)
        (Unmatched-other 63 [] [] path (All-imply (λ c t. t.5) path p)))

request_line_path :
    (verb path version : List ℕ) (r : HttpRequest)
    → (same_text verb (text "GET") || same_text verb (text "POST")) ≡ true
    → All IsToken path
    → request_line (verb ∷ path ∷ version ∷ []) r ≡ record r { method = verb; path = path }
unfolding request_line
request_line_path verb path version r known p =
    rw known (parse_request_path_plain path (record r { method = verb }) p)

put_headers-form_headers :
    (body : List ℕ) (hs : StringMap) (r : HttpRequest)
    → length body < 2 ^ 64
    → All IsPlain hs
    → put_headers (form_headers body ++ hs) r
      ≡ some (record r {
        content_length = length body;
        content_type = text "application/x-www-form-urlencoded";
        headers = put_all (form_headers body ++ hs) r.headers;
      })
unfolding put_headers parse_header put_all same_text
put_headers-form_headers body hs r l k =
    rw (strtoul-to_string (length body) l) (put_headers-IsPlain hs _ k)

form_text-ne : (e : List ℕ × List ℕ) (es : StringMap) → (length (form_text e es) == 0) ≡ false
unfolding form_text form_pair
form_text-ne e [] = ne→==_false _ 0 (
    omega (
      arith,
      ap length (implode_one (38 ∷ []) (e.0 ++ (61 ∷ urlencode e.1))),
      length-append e.0 (61 ∷ urlencode e.1),
    ))
form_text-ne e (f ∷ es) =
    let more = implode (38 ∷ []) (map form_pair (f ∷ es)) in
    ne→==_false _ 0 (
      omega (
        arith,
        ap length
            (implode-cons (38 ∷ []) (e.0 ++ (61 ∷ urlencode e.1)) (form_pair f) (map form_pair es)),
        length-append (e.0 ++ (61 ∷ urlencode e.1)) (38 ∷ more),
        length-append e.0 (61 ∷ urlencode e.1),
      ))

finish_form :
    (e : List ℕ × List ℕ) (es : StringMap) (r : HttpRequest)
    → All IsField (e ∷ es)
    → IsShort (form_text e es)
    → r.raw_body ≡ []
    → r.content_length ≡ length (form_text e es)
    → r.content_type ≡ text "application/x-www-form-urlencoded"
    → finish (form_text e es) r
      ≡ some (record r {
        raw_body = form_text e es;
        got_body = true;
        post_vars = put_all (e ∷ es) r.post_vars;
      })
unfolding finish parse_body parse_form
finish_form e es r v short b l t =
    rw
      (
        b,
        l,
        t,
        le→leb (length (form_text e es)) (length (form_text e es)) (omega arith),
        form_text-ne e es,
        same_text_self (text "application/x-www-form-urlencoded"),
      )
      (rw (parse_query_string-form_text e es r.post_vars r.error v short) refl)

-- A POST of a form in one piece, with a head and a body of less than 2 ^ 31 characters each, with the length and the type
-- of the body in the headers. In the path and in the names of the fields there is no carriage return, no space and
-- none of & : = ?, in the values no character 0, in the version no carriage return and no space; the other headers
-- are those that parseHeader only stores, with names without a carriage return or a colon, and values without a
-- carriage return or a colon in front of a space. Behind feed the request is ready without an error, and holds the
-- path, the body, the decoded fields and the headers.
pub feed_post :
    (path version : List ℕ) (e : List ℕ × List ℕ) (es hs : StringMap) (garbage : Bool)
    → All IsToken path
    → All IsField (e ∷ es)
    → IsWordText version
    → All IsHeader hs
    → All IsPlain hs
    → IsShort (head_text (text "POST") path version (form_headers (form_text e es) ++ hs))
    → IsShort (form_text e es)
    → let body = form_text e es in
      feed
        (request_text (text "POST") path version (form_headers body ++ hs) body)
        (new_request garbage)
      ≡ some (record (new_request garbage) {
        got_headers = true;
        got_body = true;
        raw_headers = head_text (text "POST") path version (form_headers body ++ hs);
        raw_body = body;
        method = text "POST";
        path = path;
        post_vars = put_all (e ∷ es) [];
        headers = put_all (form_headers body ++ hs) [];
        content_type = text "application/x-www-form-urlencoded";
        content_length = length body;
      })
unfolding new_request
feed_post path version e es hs garbage p v w h k m l =
    let body = form_text e es in
    let all = form_headers body ++ hs in
    let start = headed (head_text (text "POST") path version all) garbage in
    feed-request_text (text "POST") path version all body garbage (ground arith)
      (All-imply (λ c t. (t.0, t.1)) path p) w
      (All-append IsHeader (form_headers body) hs (form_headers-IsHeader body) h) m
    ∙ ap (λ q. put_headers all q >>= finish body)
        (request_line_path (text "POST") path version start (unfold same_text in refl) p)
    ∙ ap (λ o. o >>= finish body) (put_headers-form_headers body hs _ (omega (arith, l)) k)
    ∙ finish_form e es _ v l refl refl refl
