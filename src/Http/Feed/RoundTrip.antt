-- ===== src/Http/Feed/RoundTrip.antt =====
-- HttpRequest::feed of src/httprequest.cpp on a whole request that a client prints.
use libmaycloud.Common.{
  ℕ, ◌+◌, ◌≡◌, refl, sym, ap, ap₂, subst, ◌∙◌, ◌≢◌, Bool, true, false, Option, none, some, List, [],
  ◌∷◌, ◌++◌, map, arith, leb, ◌==◌, if◌then◌else◌, ne→==_false, ◌>>=◌, length, take, drop, All,
}
use libmaycloud.Easylib.Pieces.{matching, implode, find}
use libmaycloud.Easylib.Pieces.Split.{Unmatched, Unmatched-other, Unmatched-append, find-Unmatched}
use libmaycloud.Easylib.Pieces.Walk.{drop-append_add, take-append}
use libmaycloud.StringMap.{StringMap}
use libmaycloud.Http.Request.{HttpRequest, new_request, request_line, parse_headers}
use libmaycloud.Http.Request.Lines.{
  header_text, IsHeader, put_headers, request_line_text, IsWordText, head_text, IsLine, head-IsLine,
  parse_headers-head_text,
}
use libmaycloud.Http.Feed.Chunks.{end_mark}
use libmaycloud.Http.Feed.{parse_body, feed_head, feed}
use libmaycloud.Easylib.Pieces.Explode.{implode-cons, implode_one, IsShort}

implode-line :
    (p : List ℕ) (ps : List (List ℕ))
    → All IsLine (p ∷ ps)
    → (y : ℕ) × (t : List ℕ) × (implode (13 ∷ 10 ∷ []) (p ∷ ps) ≡ y ∷ t) × (y ≢ 13)
implode-line [] ps v = absurd (omega (arith, v.0.0))
implode-line (y ∷ p) [] v = (y, p, implode_one (13 ∷ 10 ∷ []) (y ∷ p), v.0.1.0)
implode-line (y ∷ p) (q ∷ ps) v = (
  y,
  p ++ (13 ∷ 10 ∷ implode (13 ∷ 10 ∷ []) (q ∷ ps)),
  implode-cons (13 ∷ 10 ∷ []) (y ∷ p) q ps,
  v.0.1.0,
)

no_mark : (y : ℕ) (t : List ℕ) → y ≢ 13 → (matching (13 ∷ 10 ∷ y ∷ t) end_mark == 4) ≡ false
unfolding matching
no_mark y t n = rw (ne→==_false y 13 n) refl

no_mark_lf : (t : List ℕ) → (matching (10 ∷ t) end_mark == 4) ≡ false
unfolding matching
no_mark_lf t = refl

-- Lines joined by line ends have no empty line between them.
Unmatched-lines :
    (rest p : List ℕ) (ps : List (List ℕ))
    → All IsLine (p ∷ ps)
    → Unmatched end_mark rest (implode (13 ∷ 10 ∷ []) (p ∷ ps))
Unmatched-lines rest p [] v =
    subst (Unmatched end_mark rest) (sym (implode_one (13 ∷ 10 ∷ []) p))
      (Unmatched-other 13 (10 ∷ 13 ∷ 10 ∷ []) rest p v.0.1)
Unmatched-lines rest p (q ∷ ps) v =
    let more = implode (13 ∷ 10 ∷ []) (q ∷ ps) in
    let (y, t, e, n) = implode-line q ps v.1 in
    subst (Unmatched end_mark rest) (sym (implode-cons (13 ∷ 10 ∷ []) p q ps)) (
      Unmatched-append end_mark rest p (13 ∷ 10 ∷ more)
        (Unmatched-other 13 (10 ∷ 13 ∷ 10 ∷ []) _ p v.0.1)
        (
          subst (λ m. (matching (13 ∷ 10 ∷ (m ++ rest)) end_mark == 4) ≡ false) (sym e)
              (no_mark y (t ++ rest) n),
          (no_mark_lf (more ++ rest), Unmatched-lines rest q ps v.1),
        ))

-- A request as it is sent.
pub request_text : (verb target version : List ℕ) → StringMap → (body : List ℕ) → List ℕ
request_text verb target version hs body =
    head_text verb target version hs ++ (13 ∷ 10 ∷ 13 ∷ 10 ∷ body)

-- The state when the head was found.
abbrev pub headed : List ℕ → (garbage : Bool) → HttpRequest
headed head garbage = record (new_request garbage) { raw_headers = head; got_headers = true }

-- What feed does behind the headers.
unfoldable pub finish : List ℕ → HttpRequest → Option HttpRequest
finish body r =
    let r2 = record r { raw_body = r.raw_body ++ body } in
    if leb r2.content_length (length r2.raw_body)
    then parse_body (record r2 { got_body = true })
    else some r2

feed-found :
    (head body : List ℕ) (garbage : Bool)
    → find (head ++ (13 ∷ 10 ∷ 13 ∷ 10 ∷ body)) end_mark 0 ≡ some (length head)
    → feed (head ++ (13 ∷ 10 ∷ 13 ∷ 10 ∷ body)) (new_request garbage)
      ≡ (parse_headers (headed head garbage) >>= finish body)
unfolding feed feed_head new_request finish
feed-found head body garbage e =
    let content = head ++ (13 ∷ 10 ∷ 13 ∷ 10 ∷ body) in
    let r = new_request garbage in
    ap
      (λ o. elim o as (λ _. Option HttpRequest) [
        | none ↦ some (record r { raw_headers = r.raw_headers ++ content })
        | some at ↦ feed_head (take at content) (drop (at + 4) content) r
      ])
      e
    ∙ ap₂ (λ a b. feed_head a b r) (take-append head (13 ∷ 10 ∷ 13 ∷ 10 ∷ body))
        (drop-append_add head (13 ∷ 10 ∷ 13 ∷ 10 ∷ body) 4)

-- feed on a whole printed request: the request line and the headers are those that were printed, and what
-- stands behind the headers is the body.
pub feed-request_text :
    (verb target version : List ℕ) (hs : StringMap) (body : List ℕ) (garbage : Bool)
    → IsWordText verb
    → IsWordText target
    → IsWordText version
    → All IsHeader hs
    → IsShort (head_text verb target version hs)
    → feed (request_text verb target version hs body) (new_request garbage) ≡ (
        put_headers hs (
          request_line
            (verb ∷ target ∷ version ∷ [])
            (headed (head_text verb target version hs) garbage))
        >>= finish body)
unfolding request_text
feed-request_text verb target version hs body garbage u v w h l =
    let head = head_text verb target version hs in
    feed-found head body garbage (
      find-Unmatched end_mark body head (omega arith) (
        unfold head_text in
        Unmatched-lines (13 ∷ 10 ∷ 13 ∷ 10 ∷ body) (request_line_text verb target version)
          (map header_text hs) (head-IsLine verb target version hs u v w h)))
    ∙ ap (λ o. o >>= finish body)
        (parse_headers-head_text verb target version hs u v w h (headed head garbage) refl l)
