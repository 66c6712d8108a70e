-- ===== src/Http/Response/Length.antt =====
-- The length that the head of a response of src/httpresponse.cpp announces.
use libmaycloud.Common.{
  text, same_text_self, ℕ, ◌^◌, ◌<◌, ◌≡◌, refl, ap, ◌∙◌, Option, none, some, List, [], ◌∷◌, ◌++◌,
  append_assoc, if◌then◌else◌, length,
}
use libmaycloud.StringMap.{get_at, get_default}
use libmaycloud.StringMap.Laws.{get_at-put_at}
use libmaycloud.Http.Number.{strtoul, to_string}
use libmaycloud.Http.Number.RoundTrip.{strtoul-to_string}
use libmaycloud.Http.Response.{
  HttpResponse, header, set_header, set_content_type, set_status, set_body, set_cookie,
  new_response, status_entry, status_text, set_simple_html_page, status_page_of, set_status_page,
  require_basic_auth, header_block, headers_string, response_text,
}

-- What a handler can do with a response, without files.
pub data ResponseCall : Type 0 where
  content_type_call : List ℕ → ResponseCall
  header_call : (name value : List ℕ) → ResponseCall
  cookie_call : (name value : List ℕ) → ResponseCall
  status_call : ℕ → ResponseCall
  status_page_call : ℕ → ResponseCall
  body_call : List ℕ → ResponseCall
  page_call : (title body : List ℕ) → ResponseCall
  basic_auth_call : List ℕ → ResponseCall

unfoldable pub respond : ResponseCall → HttpResponse → HttpResponse
respond (content_type_call kind) r = set_content_type kind r
respond (header_call name value) r = set_header name value r
respond (cookie_call name value) r = set_cookie name value r
respond (status_call code) r = set_status code r
respond (status_page_call code) r = set_status_page code r
respond (body_call body) r = set_body body r
respond (page_call title body) r = set_simple_html_page title body r
respond (basic_auth_call realm) r = require_basic_auth realm r

unfoldable pub respond_all : List ResponseCall → HttpResponse → HttpResponse
respond_all [] r = r
respond_all (c ∷ cs) r = respond_all cs (respond c r)

IsSized : HttpResponse → Type 0
IsSized r = r.content_length ≡ length r.body

status_page_of-IsSized :
    (entry : Option (List ℕ × List ℕ)) (code : ℕ) (r : HttpResponse)
    → IsSized r
    → IsSized (status_page_of entry code r)
unfolding IsSized status_page_of set_simple_html_page set_content_type set_header set_body
status_page_of-IsSized none code r s = s
status_page_of-IsSized (some p) code r s = refl

respond-IsSized : (c : ResponseCall) (r : HttpResponse) → IsSized r → IsSized (respond c r)
unfolding IsSized respond set_status set_status_page set_simple_html_page set_content_type
    set_header set_body set_cookie require_basic_auth
respond-IsSized (content_type_call kind) r s = s
respond-IsSized (header_call name value) r s = s
respond-IsSized (cookie_call name value) r s = s
respond-IsSized (status_call code) r s = s
respond-IsSized (status_page_call code) r s =
    status_page_of-IsSized (status_entry code) code (set_status code r) s
respond-IsSized (body_call body) r s = refl
respond-IsSized (page_call title body) r s = refl
respond-IsSized (basic_auth_call realm) r s =
    status_page_of-IsSized (status_entry 401) 401
      (set_status 401
        (set_header (text "WWW-Authenticate") (text "Basic realm=\"" ++ (realm ++ (34 ∷ []))) r))
      s

respond_all-IsSized :
    (cs : List ResponseCall) (r : HttpResponse) → IsSized r → IsSized (respond_all cs r)
unfolding respond_all
respond_all-IsSized [] r s = s
respond_all-IsSized (c ∷ cs) r s = respond_all-IsSized cs (respond c r) (respond-IsSized c r s)

new_response-IsSized : (server_id : List ℕ) → IsSized (new_response server_id)
unfolding IsSized new_response set_content_type set_header
new_response-IsSized server_id = refl

announced_length :
    (r : HttpResponse)
    → r.content_length ≡ length r.body
    → length r.body < 2 ^ 64
    → strtoul (header (text "Content-Length") [] (response_text r).1) ≡ length r.body
unfolding response_text headers_string header get_default set_header
announced_length r sized l =
    let key = text "Content-Length" in
    let size = to_string r.content_length in
    ap (λ o. strtoul (elim o as (λ _. List ℕ) [ none ↦ [] | some v ↦ v ]))
      (get_at-put_at key key size r.headers
        ∙ ap (λ b. if b then some size else get_at key r.headers) (same_text_self key))
    ∙ ap (λ k. strtoul (to_string k)) sized
    ∙ strtoul-to_string (length r.body) l

-- After any calls of a new response that are a ResponseCall (sendFile and sendSmallFile are not), toString writes a head, which ends with the headers and an empty
-- line, and then the body; strtoul reads the Content-Length of these headers as the length of the body, if that
-- is below 2 ^ 64.
pub response_text-length :
    (cs : List ResponseCall) (server_id : List ℕ)
    → length (respond_all cs (new_response server_id)).body < 2 ^ 64
    → let r = respond_all cs (new_response server_id) in
      (head : List ℕ) × ((response_text r).0
        ≡ (head ++ (header_block (response_text r).1.headers ++ (13 ∷ 10 ∷ []))) ++ r.body)
      × (strtoul (header (text "Content-Length") [] (response_text r).1) ≡ length r.body)
unfolding response_text headers_string
response_text-length cs server_id l =
    let r = respond_all cs (new_response server_id) in
    let sized : r.content_length ≡ length r.body =
      unfold IsSized in
      respond_all-IsSized cs (new_response server_id) (new_response-IsSized server_id) in
    (
      text "HTTP/1.1 " ++ (to_string r.status ++ (32 ∷ (status_text r.status ++ (13 ∷ 10 ∷ [])))),
      simp append_assoc,
      unfold response_text headers_string in announced_length r sized l,
    )
