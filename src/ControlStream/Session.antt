-- ===== src/ControlStream/Session.antt =====
-- The outgoing side of src/controlstream.cpp: openStream, sendStanza, closeStream, onEmpty, resetStream, onParseError,
-- streamError and onWriteXML.
pub mod Phase
pub mod Steps
pub mod Order
use libmaycloud.Common.{
  text, ℕ, ◌+◌, Bool, true, false, List, [], ◌∷◌, ◌++◌, ltb, if◌then◌else◌, length,
}
use libmaycloud.XmlWriter.{XmlWriter, create, init_xml, start_element, end_element, flush}
use libmaycloud.Xml.{plain_tag, insert_character_data, set_tag_attribute, tag_text}

pub data StreamState : Type 0 where
  init : StreamState
  active : StreamState
  closing : StreamState

-- `writer` is the XMLWriter of the stream, `log` what put took so far, piece by piece; `left` says whether leaveDaemon
-- was called, `faults` counts the calls of onError.
pub record Outgoing : Type 0 where
  pub state : StreamState
  pub writer : XmlWriter
  pub log : List (List ℕ)
  pub left : Bool
  pub faults : ℕ

-- A new stream, whose XMLWriter has a buffer of 1024 bytes.
abbrev pub new_outgoing : Outgoing
new_outgoing = record { state = init; writer = create 1024; log = []; left = false; faults = 0 }

-- The stanza of a parse error, and that of streamError.
pub error_text : List ℕ
error_text = tag_text (insert_character_data (text "syntax error") (plain_tag (text "error")))

pub stream_error_text : (from to description : List ℕ) → List ℕ
stream_error_text from to description = tag_text (
    set_tag_attribute (text "description") description (
      set_tag_attribute (text "to") to
        (set_tag_attribute (text "from") from (plain_tag (text "stream-error")))))

abbrev is_active : StreamState → Bool
is_active init = false
is_active active = true
is_active closing = false

abbrev is_init : StreamState → Bool
is_init init = true
is_init active = false
is_init closing = false

abbrev is_closing : StreamState → Bool
is_closing init = false
is_closing active = false
is_closing closing = true

unfoldable pub reset_stream : Outgoing → Outgoing
reset_stream s = record s { state = init }

-- onEmpty, with onStreamClosed as it is unless a class overrides it.
unfoldable pub on_empty : Outgoing → Outgoing
on_empty s = if is_closing s.state then record s { left = true } else s

-- A call of the stream, without resetStream; flush is that of XMLWriter.
pub data OutCall : Type 0 where
  open_call : OutCall
  close_call : OutCall
  empty_call : OutCall
  send_call : List ℕ → OutCall
  stream_error_call : (from to description : List ℕ) → OutCall
  parse_error_call : OutCall
  flush_call : OutCall

-- `accepts` is AsyncStream::put: whether the buffer takes the data, after so many faults and behind what it took so far.
module _ (accepts : ℕ → List (List ℕ) → List ℕ → Bool) where
  unfoldable pub on_write_xml : List ℕ → Outgoing → Outgoing
  on_write_xml content s =
      if accepts s.faults s.log content
      then record s { log = s.log ++ (content ∷ []) }
      else record s { faults = s.faults + 1 }

  -- An operation of XMLWriter, and the call of onWriteXML where it empties its buffer. It is used with initXML,
  -- startElement and endElement of the tag "stream", and flush, each of which empties a buffer of 1024 bytes once at
  -- most.
  unfoldable pub write_xml : (XmlWriter → XmlWriter) → Outgoing → Outgoing
  unfolding on_write_xml
  write_xml f s =
      let w = f s.writer in
      let s' = record s { writer = record w { written = [] } } in
      if ltb 0 (length w.written) then on_write_xml w.written s' else s'

  unfoldable pub open_stream : Outgoing → Outgoing
  unfolding write_xml
  open_stream s =
      if is_init s.state
      then record (write_xml (start_element (text "stream")) (write_xml init_xml s)) {
        state = active;
      }
      else s

  unfoldable pub close_stream : Outgoing → Outgoing
  unfolding write_xml
  close_stream s =
      let left = if is_init s.state then record s { left = true } else s in
      let said =
        if is_active s.state
        then write_xml flush (write_xml (end_element (text "stream")) left)
        else left in
      record said { state = closing }

  unfoldable pub send_stanza : List ℕ → Outgoing → Bool × Outgoing
  send_stanza content s =
      if is_active s.state
      then if accepts s.faults s.log content
        then (true, record s { log = s.log ++ (content ∷ []) })
        else (false, record s { faults = s.faults + 1 })
      else (false, s)

  unfoldable pub stream_error : (from to description : List ℕ) → Outgoing → Bool × Outgoing
  unfolding send_stanza
  stream_error from to description s = send_stanza (stream_error_text from to description) s

  -- The stream, which a parse error opens and flushes where it is not open yet.
  unfoldable pub greeted : Outgoing → Outgoing
  unfolding open_stream write_xml
  greeted s = if is_init s.state then write_xml flush (open_stream s) else s

  unfoldable pub on_parse_error : Outgoing → Outgoing
  unfolding greeted send_stanza close_stream
  on_parse_error s = close_stream (send_stanza error_text (greeted s)).1

  unfoldable pub out_call : OutCall → Outgoing → Outgoing
  unfolding open_stream close_stream on_empty send_stanza stream_error on_parse_error write_xml
  out_call open_call s = open_stream s
  out_call close_call s = close_stream s
  out_call empty_call s = on_empty s
  out_call (send_call content) s = (send_stanza content s).1
  out_call (stream_error_call from to description) s = (stream_error from to description s).1
  out_call parse_error_call s = on_parse_error s
  out_call flush_call s = write_xml flush s

  abbrev confirmed_one : List ℕ → Bool × Outgoing → List (List ℕ)
  confirmed_one content r = if r.0 then content ∷ [] else []

  -- The stanza whose sending a call reported as done.
  unfoldable pub confirmed : OutCall → Outgoing → List (List ℕ)
  confirmed open_call s = []
  confirmed close_call s = []
  confirmed empty_call s = []
  confirmed (send_call content) s = confirmed_one content (send_stanza content s)
  confirmed (stream_error_call from to description) s =
      confirmed_one (stream_error_text from to description) (stream_error from to description s)
  confirmed parse_error_call s = confirmed_one error_text (send_stanza error_text (greeted s))
  confirmed flush_call s = []

  unfoldable pub out_calls : List OutCall → Outgoing → Outgoing
  unfolding out_call
  out_calls [] s = s
  out_calls (c ∷ cs) s = out_calls cs (out_call c s)

  unfoldable pub all_confirmed : List OutCall → Outgoing → List (List ℕ)
  unfolding confirmed
  all_confirmed [] s = []
  all_confirmed (c ∷ cs) s = confirmed c s ++ all_confirmed cs (out_call c s)
