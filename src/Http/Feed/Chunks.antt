-- ===== src/Http/Feed/Chunks.antt =====
-- HttpRequest::feed of src/httprequest.cpp on a request that comes in pieces.
use libmaycloud.Common.{
  text, ℕ, ◌+◌, ◌≤◌, ◌<◌, ◌≡◌, refl, sym, ap, ap₂, ◌∙◌, Bool, true, false, Option, none, some, List,
  [], ◌∷◌, ◌++◌, append-nil, append_assoc, arith, leb, if◌then◌else◌, le→leb, lt→leb, ◌>>=◌, length,
  take, drop, All, length-append,
}
use libmaycloud.Easylib.Pieces.Split.{Unmatched, find-none}
use libmaycloud.StringMap.{has_key}
use libmaycloud.Http.Request.{HttpRequest}
use libmaycloud.Http.Feed.{parse_body, feed_head, feed_more, feed}

-- The pieces, fed one behind the other.
pub feed_all : List (List ℕ) → HttpRequest → Option HttpRequest
feed_all [] r = some r
feed_all (chunk ∷ chunks) r = feed chunk r >>= λ r'. feed_all chunks r'

unfoldable pub joined : List (List ℕ) → List ℕ
joined [] = []
joined (chunk ∷ chunks) = chunk ++ joined chunks

-- The end of the headers, an empty line.
abbrev pub end_mark : List ℕ
end_mark = 13 ∷ 10 ∷ 13 ∷ 10 ∷ []

feed-unmarked :
    (chunk : List ℕ) (r : HttpRequest)
    → r.got_headers ≡ false
    → Unmatched end_mark [] chunk
    → feed chunk r ≡ some (record r { raw_headers = r.raw_headers ++ chunk })
unfolding feed
feed-unmarked chunk r g u =
    ap₂
      (λ b o.
        if b
        then if r.got_body then parse_body r else some (feed_more chunk r)
        else elim o as (λ _. Option HttpRequest) [
          | none ↦ some (record r { raw_headers = r.raw_headers ++ chunk })
          | some at ↦ feed_head (take at chunk) (drop (at + 4) chunk) r
        ])
      g (find-none end_mark chunk (omega arith) u)

-- Pieces none of which holds the whole empty line are only collected, even where it stands across two of them:
-- the headers are never taken, and the request never gets ready.
pub feed_all-unmarked :
    (chunks : List (List ℕ)) (r : HttpRequest)
    → r.got_headers ≡ false
    → All (Unmatched end_mark []) chunks
    → feed_all chunks r ≡ some (record r { raw_headers = r.raw_headers ++ joined chunks })
unfolding feed_all joined
feed_all-unmarked [] r g u =
    ap (λ h. some (record r { raw_headers = h })) (sym (append-nil r.raw_headers))
feed_all-unmarked (chunk ∷ chunks) r g u =
    let r' = record r { raw_headers = r.raw_headers ++ chunk } in
    ap (λ o. o >>= λ q. feed_all chunks q) (feed-unmarked chunk r g u.0)
    ∙ feed_all-unmarked chunks r' g u.1
    ∙ ap (λ h. some (record r { raw_headers = h }))
        (append_assoc r.raw_headers chunk (joined chunks))

-- A piece of the body; with Content-Length it changes the body and whether it is there.
feed-more :
    (chunk : List ℕ) (r : HttpRequest) (done : Bool)
    → r.got_headers ≡ true
    → r.got_body ≡ false
    → has_key (text "Content-Length") r.headers ≡ true
    → leb r.content_length (length (r.raw_body ++ chunk)) ≡ done
    → feed chunk r ≡ some (record r { raw_body = r.raw_body ++ chunk; got_body = done })
unfolding feed feed_more
feed-more chunk r done g b k e = rw (g, b, k, e) refl

-- A body that comes behind the headers in further pieces, of which the last one completes the announced length,
-- is put together in order and the request gets ready with it; but it is never parsed: the variables of the
-- form stay what they were.
pub feed_all-late_body :
    (chunks : List (List ℕ)) (last : List ℕ) (r : HttpRequest)
    → r.got_headers ≡ true
    → r.got_body ≡ false
    → has_key (text "Content-Length") r.headers ≡ true
    → length r.raw_body + length (joined chunks) < r.content_length
    → r.content_length ≤ length r.raw_body + length (joined chunks) + length last
    → feed_all (chunks ++ (last ∷ [])) r
      ≡ some (record r { raw_body = r.raw_body ++ (joined chunks ++ last); got_body = true })
unfolding feed_all joined
feed_all-late_body [] last r g b k l u =
    ap (λ o. o >>= λ q. some q)
      (feed-more last r true g b k (le→leb _ _ (omega (arith, u, length-append r.raw_body last))))
feed_all-late_body (chunk ∷ chunks) last r g b k l u =
    let r' = record r { raw_body = r.raw_body ++ chunk; got_body = false } in
    let size = length-append chunk (joined chunks) in
    let size' = length-append r.raw_body chunk in
    ap (λ o. o >>= λ q. feed_all (chunks ++ (last ∷ [])) q)
      (feed-more chunk r false g b k (lt→leb _ _ (omega (arith, l, size, size'))))
    ∙ feed_all-late_body chunks last r' g refl k (omega (arith, l, size, size'))
        (omega (arith, u, size, size'))
    ∙ ap (λ h. some (record r { raw_body = h; got_body = true }))
        (append_assoc r.raw_body chunk (joined chunks ++ last)
          ∙ ap (λ t. r.raw_body ++ t) (sym (append_assoc chunk (joined chunks) last)))
