-- ===== src/ControlStream/Session/Phase.antt =====
-- What the XMLWriter of a stream of src/controlstream.cpp holds in each state, and what the peer got.
use libmaycloud.Common.{
  text, ℕ, ◌≡◌, sym, ap, subst, ◌∙◌, ◌⊎◌, Bool, true, false, List, [], ◌∷◌, ◌++◌, append-nil,
  append_assoc,
}
use libmaycloud.XmlWriter.{XmlWriter, create, xml_declaration}
use libmaycloud.ControlStream.Session.{StreamState, init, active, closing, Outgoing}

-- The start of the stream as openStream leaves it in the buffer of XMLWriter, as flush puts it, the end of the stream,
-- and both where no flush came between.
abbrev pub begun_text : List ℕ
begun_text = xml_declaration ++ text "<stream"

abbrev pub start_text : List ℕ
start_text = begun_text ++ text ">"

abbrev pub end_text : List ℕ
end_text = text "</stream>"

abbrev pub whole_text : List ℕ
whole_text = begun_text ++ text " />"

abbrev pub opened_writer : XmlWriter
opened_writer = record {
  full = true;
  opened = true;
  stack = text "stream" ∷ [];
  buflen = 1024;
  buffer = begun_text;
  attributes = [];
  written = [];
}

abbrev pub flushed_writer : XmlWriter
flushed_writer = record opened_writer { opened = false; buffer = [] }

-- One piece, or none where put refused it.
abbrev pub AtMost : List ℕ → List (List ℕ) → Type 0
AtMost x ps = (ps ≡ []) ⊎ (ps ≡ x ∷ [])

-- What is in the buffer of the writer in each state, and what went out for the stream itself: `p` at its start, and
-- `q` at its end.
pub data Phase : StreamState → XmlWriter → (p q : List (List ℕ)) → Type 0 where
  fresh : Phase init (create 1024) [] []
  waiting : Phase active opened_writer [] []
  flushed : {p : List (List ℕ)} → AtMost start_text p → Phase active flushed_writer p []
  silent : Phase closing (create 1024) [] []
  whole : {q : List (List ℕ)} → AtMost whole_text q → Phase closing flushed_writer [] q
  ended :
      {p q : List (List ℕ)}
      → AtMost start_text p
      → AtMost end_text q
      → Phase closing flushed_writer p q

-- The stanzas `xs` in their order, with `p` somewhere between them and `q` behind them.
abbrev pub Around : (log xs p q : List (List ℕ)) → Type 0
Around log xs p q =
    (first : List (List ℕ)) × (rest : List (List ℕ)) × (xs ≡ first ++ rest)
    × (log ≡ first ++ (p ++ (rest ++ q)))

abbrev pub IsSession : Outgoing → List (List ℕ) → Type 0
IsSession s xs =
    (p : List (List ℕ)) × (q : List (List ℕ)) × Around s.log xs p q × Phase s.state s.writer p q

abbrev pub outgoing : StreamState → XmlWriter → List (List ℕ) → Bool → ℕ → Outgoing
outgoing st w log left faults = record {
  state = st;
  writer = w;
  log = log;
  left = left;
  faults = faults;
}

pub Around-plain : (log xs : List (List ℕ)) → Around log xs [] [] → log ≡ xs
Around-plain log xs (first, rest, e, f) = f ∙ ap (λ r. first ++ r) (append-nil rest) ∙ sym e

pub Around-start : (log xs p : List (List ℕ)) → Around log xs [] [] → Around (log ++ p) xs p []
Around-start log xs p h = (
  xs,
  [],
  sym (append-nil xs),
  ap (λ l. l ++ p) (Around-plain log xs h) ∙ ap (λ r. xs ++ r) (sym (append-nil p)),
)

pub Around-end : (log xs p q : List (List ℕ)) → Around log xs p [] → Around (log ++ q) xs p q
Around-end log xs p q (first, rest, e, f) = (
  first,
  rest,
  e,
  ap (λ l. l ++ q) f
      ∙ append_assoc first (p ++ (rest ++ [])) q
      ∙ ap (λ r. first ++ r)
          (append_assoc p (rest ++ []) q ∙ ap (λ r. p ++ (r ++ q)) (append-nil rest)),
)

pub Around-stanza :
    (log xs p : List (List ℕ)) (x : List ℕ)
    → Around log xs p []
    → Around (log ++ (x ∷ [])) (xs ++ (x ∷ [])) p []
Around-stanza log xs p x h =
    let (first, rest, e, f) = Around-end log xs p (x ∷ []) h in
    (
      first,
      rest ++ (x ∷ []),
      ap (λ l. l ++ (x ∷ [])) e ∙ append_assoc first rest (x ∷ []),
      f ∙ ap (λ r. first ++ (p ++ r)) (sym (append-nil (rest ++ (x ∷ [])))),
    )

pub IsSession-nil : (s : Outgoing) (xs : List (List ℕ)) → IsSession s xs → IsSession s (xs ++ [])
IsSession-nil s xs h = subst (IsSession s) (sym (append-nil xs)) h
