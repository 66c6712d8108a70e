-- ===== src/Http/Feed/Get.antt =====
-- What HttpRequest of src/httprequest.cpp holds behind a GET.
use libmaycloud.Common.{
  text, ℕ, ◌+◌, ◌≡◌, refl, sym, ap, ap₂, subst, ◌∙◌, ◌≢◌, Bool, true, false, ◌||◌, none, some, List,
  [], ◌∷◌, ◌++◌, map, arith, same_text, ◌>>=◌, take, drop, All, All-imply, All-append,
  length-append,
}
use libmaycloud.Easylib.Pieces.{implode}
use libmaycloud.Easylib.Pieces.Split.{Unmatched-other, find-Unmatched}
use libmaycloud.Easylib.Pieces.Walk.{drop-append_add, take-append}
use libmaycloud.StringMap.{StringMap, put_at, put_all}
use libmaycloud.Http.Query.{parse_query_string}
use libmaycloud.Http.Query.RoundTrip.{
  IsToken, form_pair, IsField, form_pair-other, form_text, parse_query_string-form_text,
}
use libmaycloud.Http.Request.{
  HttpRequest, new_request, parse_request_path, parse_header, request_line,
}
use libmaycloud.Http.Feed.{parse_body, feed}
use libmaycloud.Http.Feed.RoundTrip.{request_text, headed, finish, feed-request_text}
use libmaycloud.Easylib.Pieces.Explode.{implode-cons, implode_one, IsShort}
use libmaycloud.Easylib.Pieces.Implode.{pieces-IsShort}
use libmaycloud.Http.Request.Lines.{
  header_text, IsHeader, put_headers, request_line_text, IsWordText, head_text,
}

-- A header that parseHeader only stores.
abbrev pub IsPlain : List ℕ × List ℕ → Type 0
IsPlain h =
    (same_text h.0 (text "Authorization") ≡ false)
    × (same_text h.0 (text "Content-Length") ≡ false)
    × (same_text h.0 (text "Content-Type") ≡ false)
    × (same_text h.0 (text "Cookie") ≡ false)

pub put_headers-IsPlain :
    (hs : StringMap) (r : HttpRequest)
    → All IsPlain hs
    → put_headers hs r ≡ some (record r { headers = put_all hs r.headers })
unfolding put_headers parse_header put_all
put_headers-IsPlain [] r v = refl
put_headers-IsPlain (h ∷ hs) r v =
    rw (v.0.0, v.0.1, v.0.2, v.0.3)
      (put_headers-IsPlain hs (record r { headers = put_at h.0 h.1 r.headers }) v.1)

implode-All :
    (P : ℕ → Type 0) (c : ℕ) (p : List ℕ) (ps : List (List ℕ))
    → P c
    → All (All P) (p ∷ ps)
    → All P (implode (c ∷ []) (p ∷ ps))
implode-All P c p [] m v = subst (All P) (sym (implode_one (c ∷ []) p)) v.0
implode-All P c p (q ∷ ps) m v =
    subst (All P) (sym (implode-cons (c ∷ []) p q ps))
      (All-append P p (c ∷ implode (c ∷ []) (q ∷ ps)) v.0 (m, implode-All P c q ps m v.1))

pairs-IsWordText :
    (es : StringMap) → All IsField es → All (All (λ c. (c ≢ 13) × (c ≢ 32))) (map form_pair es)
pairs-IsWordText [] v = tt
pairs-IsWordText (e ∷ es) v =
    (All-imply (λ c t. (t.0, t.1)) (form_pair e) (form_pair-other e v.0), pairs-IsWordText es v.1)

-- A path and a query behind it.
unfoldable pub target_text : (path : List ℕ) → List ℕ × List ℕ → StringMap → List ℕ
target_text path e es = path ++ (63 ∷ form_text e es)

target-IsWordText :
    (path : List ℕ) (e : List ℕ × List ℕ) (es : StringMap)
    → All IsToken path
    → All IsField (e ∷ es)
    → IsWordText (target_text path e es)
unfolding target_text form_text
target-IsWordText path e es p v =
    All-append _ path (63 ∷ implode (38 ∷ []) (map form_pair (e ∷ es)))
      (All-imply (λ c t. (t.0, t.1)) path p)
      (
        (omega arith, omega arith),
        implode-All _ 38 (form_pair e) (map form_pair es) (omega arith, omega arith)
            (pairs-IsWordText (e ∷ es) v),
      )

parse_request_path-target_text :
    (path : List ℕ) (e : List ℕ × List ℕ) (es : StringMap) (r : HttpRequest)
    → All IsToken path
    → All IsField (e ∷ es)
    → IsShort (form_text e es)
    → parse_request_path (target_text path e es) r
      ≡ record r { path = path; get_vars = put_all (e ∷ es) r.get_vars }
unfolding parse_request_path target_text
parse_request_path-target_text path e es r p v l =
    let target = path ++ (63 ∷ form_text e es) in
    let found =
      find-Unmatched (63 ∷ []) (form_text e es) path (omega arith)
        (Unmatched-other 63 [] (63 ∷ form_text e es) path (All-imply (λ c t. t.5) path p)) in
    let at_query = λ (left query : List ℕ).
      let q = parse_query_string query r.get_vars r.error in
      record r { path = left; get_vars = q.0; error = q.1 } in
    ap
      (λ o. elim o as (λ _. HttpRequest) [
        | none ↦ record r { path = target }
        | some position ↦ at_query (take position target) (drop (position + 1) target)
      ])
      found
    ∙ ap₂ at_query (take-append path (63 ∷ form_text e es))
        (drop-append_add path (63 ∷ form_text e es) 1)
    ∙ ap (λ q. record r { path = path; get_vars = q.0; error = q.1 })
        (parse_query_string-form_text e es r.get_vars r.error v l)

request_line-target_text :
    (verb path version : List ℕ) (e : List ℕ × List ℕ) (es : StringMap) (r : HttpRequest)
    → (same_text verb (text "GET") || same_text verb (text "POST")) ≡ true
    → All IsToken path
    → All IsField (e ∷ es)
    → IsShort (form_text e es)
    → request_line (verb ∷ target_text path e es ∷ version ∷ []) r
      ≡ record r { method = verb; path = path; get_vars = put_all (e ∷ es) r.get_vars }
unfolding request_line
request_line-target_text verb path version e es r known p v l =
    rw known (parse_request_path-target_text path e es (record r { method = verb }) p v l)

-- The query is a part of the head.
query-IsShort :
    (verb path version : List ℕ) (e : List ℕ × List ℕ) (es hs : StringMap)
    → IsShort (head_text verb (target_text path e es) version hs)
    → IsShort (form_text e es)
unfolding head_text request_line_text target_text
query-IsShort verb path version e es hs l =
    let target = path ++ (63 ∷ form_text e es) in
    let pieces =
      pieces-IsShort (13 ∷ 10 ∷ []) (verb ++ (32 ∷ (target ++ (32 ∷ version)))) (map header_text hs)
        l in
    omega (
      arith,
      pieces.0,
      length-append verb (32 ∷ (target ++ (32 ∷ version))),
      length-append target (32 ∷ version),
      length-append path (63 ∷ form_text e es),
    )

-- A GET in one piece, with a head of less than 2 ^ 31 characters, of a path and the encoding of at least one field in
-- its query. In the path and in the names of the fields there is no carriage return, no space and none of & : = ?,
-- in the values no character 0, in the version no carriage return and no space; the headers are those that parseHeader
-- only stores, with names without a carriage return or a colon, and values without a carriage return or a colon in
-- front of a space. Behind feed the request is ready without an error, and holds the path, the decoded fields and
-- the headers.
pub feed_get :
    (path version : List ℕ) (e : List ℕ × List ℕ) (es hs : StringMap) (garbage : Bool)
    → All IsToken path
    → All IsField (e ∷ es)
    → IsWordText version
    → All IsHeader hs
    → All IsPlain hs
    → IsShort (head_text (text "GET") (target_text path e es) version hs)
    → feed (request_text (text "GET") (target_text path e es) version hs []) (new_request garbage)
      ≡ some (record (new_request garbage) {
        got_headers = true;
        got_body = true;
        raw_headers = head_text (text "GET") (target_text path e es) version hs;
        method = text "GET";
        path = path;
        get_vars = put_all (e ∷ es) [];
        headers = put_all hs [];
      })
unfolding finish parse_body new_request
feed_get path version e es hs garbage p v w h k l =
    let head = head_text (text "GET") (target_text path e es) version hs in
    feed-request_text (text "GET") (target_text path e es) version hs [] garbage (ground arith)
      (target-IsWordText path e es p v) w h l
    ∙ ap (λ q. put_headers hs q >>= finish [])
        (request_line-target_text (text "GET") path version e es (headed head garbage)
          (unfold same_text in refl) p v (query-IsShort (text "GET") path version e es hs l))
    ∙ ap (λ o. o >>= finish []) (put_headers-IsPlain hs _ k)
