-- ===== src/Http/Request/Lines.antt =====
-- parseHeaders of src/httprequest.cpp on headers that a client prints.
use libmaycloud.Common.{
  ℕ, ◌<◌, ◌≡◌, refl, sym, ap, subst, ◌∙◌, ◌≢◌, Option, some, List, [], ◌∷◌, ◌++◌, map, arith, ◌>>=◌,
  length, All, All-imply, All-append, length-append,
}
use libmaycloud.Easylib.Pieces.{explode, implode}
use libmaycloud.Easylib.Pieces.Split.{Unmatched, Unmatched-other}
use libmaycloud.StringMap.{StringMap}
use libmaycloud.Http.Request.{
  HttpRequest, parse_header, header_line, header_lines, request_line, parse_lines, parse_headers,
}
use libmaycloud.Easylib.Pieces.Explode.{implode-cons, implode_one, IsShort}
use libmaycloud.Easylib.Pieces.Implode.{explode-implode, explode_pair, pieces-IsShort, All-map}

abbrev pub colon : List ℕ
colon = 58 ∷ 32 ∷ []

abbrev pub crlf : List ℕ
crlf = 13 ∷ 10 ∷ []

-- One header.
unfoldable pub header_text : List ℕ × List ℕ → List ℕ
header_text e = e.0 ++ (58 ∷ 32 ∷ e.1)

-- A name without a carriage return or a colon, and a value without a carriage return or a colon in front of a
-- space.
abbrev pub IsHeader : List ℕ × List ℕ → Type 0
IsHeader e =
    All (λ c. (c ≢ 13) × (c ≢ 58)) e.0 × All (λ c. c ≢ 13) e.1 × Unmatched (58 ∷ 32 ∷ []) [] e.1

-- The headers, each taken by parseHeader.
unfoldable pub put_headers : StringMap → HttpRequest → Option HttpRequest
put_headers [] r = some r
put_headers (h ∷ hs) r = parse_header h.0 h.1 r >>= λ r'. put_headers hs r'

header_line-header_text :
    (h : List ℕ × List ℕ) (r : HttpRequest)
    → IsHeader h
    → IsShort (header_text h)
    → header_line (explode (58 ∷ 32 ∷ []) (header_text h)) r ≡ parse_header h.0 h.1 r
unfolding header_text header_line
header_line-header_text h r v l =
    ap (λ ps. header_line ps r)
      (explode_pair (58 ∷ 32 ∷ []) h.0 h.1 (omega arith)
        (Unmatched-other 58 (32 ∷ []) (58 ∷ 32 ∷ h.1) h.0 (All-imply (λ c t. t.1) h.0 v.0)) v.2
        (omega arith) l)

header_lines-header_text :
    (hs : StringMap) (r : HttpRequest)
    → All IsHeader hs
    → All (λ h. IsShort (header_text h)) hs
    → header_lines (map header_text hs) r ≡ put_headers hs r
unfolding header_lines put_headers
header_lines-header_text [] r v l = refl
header_lines-header_text (h ∷ hs) r v l =
    ap (λ o. o >>= λ r'. header_lines (map header_text hs) r') (header_line-header_text h r v.0 l.0)
    ∙ ap (λ (f : HttpRequest → Option HttpRequest). parse_header h.0 h.1 r >>= f)
        (λ i r'. header_lines-header_text hs r' v.1 l.1 i)

-- The request line.
unfoldable pub request_line_text : (verb target version : List ℕ) → List ℕ
request_line_text verb target version = verb ++ (32 ∷ (target ++ (32 ∷ version)))

abbrev pub IsWordText : List ℕ → Type 0
IsWordText s = All (λ c. (c ≢ 13) × (c ≢ 32)) s

explode-request_line :
    (verb target version : List ℕ)
    → IsWordText verb
    → IsWordText target
    → IsWordText version
    → IsShort (request_line_text verb target version)
    → explode (32 ∷ []) (request_line_text verb target version) ≡ verb ∷ target ∷ version ∷ []
unfolding request_line_text
explode-request_line verb target version u v w l =
    let space = λ (s : List ℕ) (o : IsWordText s). All-imply (λ c t. t.1) s o in
    let joined = sym (
      implode-cons (32 ∷ []) verb target (version ∷ [])
      ∙ ap (λ t. verb ++ (32 ∷ t))
          (implode-cons (32 ∷ []) target version []
            ∙ ap (λ t. target ++ (32 ∷ t)) (implode_one (32 ∷ []) version))) in
    ap (explode (32 ∷ [])) joined
    ∙ explode-implode 32 [] verb (target ∷ version ∷ [])
        (space verb u, (space target v, (space version w, tt))) (omega arith)
        (subst IsShort joined l)

-- The lines of a head.
abbrev pub head_lines : (verb target version : List ℕ) → StringMap → List (List ℕ)
head_lines verb target version hs = request_line_text verb target version ∷ map header_text hs

unfoldable pub head_text : (verb target version : List ℕ) → StringMap → List ℕ
head_text verb target version hs = implode (13 ∷ 10 ∷ []) (head_lines verb target version hs)

-- A line that is not empty and has no carriage return.
abbrev pub IsLine : List ℕ → Type 0
IsLine s = (0 < length s) × All (λ c. c ≢ 13) s

IsLine-join :
    (s t : List ℕ) (c : ℕ)
    → All (λ x. x ≢ 13) s
    → c ≢ 13
    → All (λ x. x ≢ 13) t
    → IsLine (s ++ (c ∷ t))
IsLine-join s t c u n v = (omega (arith, length-append s (c ∷ t)), All-append _ s (c ∷ t) u (n, v))

headers-IsLine : (hs : StringMap) → All IsHeader hs → All IsLine (map header_text hs)
unfolding header_text
headers-IsLine [] v = tt
headers-IsLine (h ∷ hs) v = (
  IsLine-join h.0 (32 ∷ h.1) 58 (All-imply (λ c t. t.0) h.0 v.0.0) (omega arith)
      (omega arith, v.0.1),
  headers-IsLine hs v.1,
)

module _ (verb target version : List ℕ) (hs : StringMap) (u : IsWordText verb)
    (v : IsWordText target) (w : IsWordText version) (headers : All IsHeader hs) where
  pub head-IsLine : All IsLine (head_lines verb target version hs)
  unfolding request_line_text
  head-IsLine = (
    IsLine-join verb (target ++ (32 ∷ version)) 32 (All-imply (λ c t. t.0) verb u) (omega arith) (
        All-append _ target (32 ∷ version) (All-imply (λ c t. t.0) target v)
          (omega arith, All-imply (λ c t. t.0) version w)),
    headers-IsLine hs headers,
  )

  -- parseHeaders takes a printed head apart into the request line and the headers.
  pub parse_headers-head_text :
      (r : HttpRequest)
      → r.raw_headers ≡ head_text verb target version hs
      → IsShort (head_text verb target version hs)
      → parse_headers r ≡ put_headers hs (request_line (verb ∷ target ∷ version ∷ []) r)
  unfolding parse_headers head_text parse_lines
  parse_headers-head_text r e l =
      let pieces =
        pieces-IsShort (13 ∷ 10 ∷ []) (request_line_text verb target version) (map header_text hs)
          l in
      ap (λ s. parse_lines (explode (13 ∷ 10 ∷ []) s) r) e
      ∙ ap (λ ls. parse_lines ls r)
          (explode-implode 13 (10 ∷ []) (request_line_text verb target version) (map header_text hs)
            (All-imply {P = IsLine} (λ l t. t.1) (head_lines verb target version hs) head-IsLine)
            (omega arith) l)
      ∙ ap (λ ps. header_lines (map header_text hs) (request_line ps r))
          (explode-request_line verb target version u v w pieces.0)
      ∙ header_lines-header_text hs _ headers (All-map IsShort header_text hs pieces.1)
