-- ===== src/ControlStream/Tests.antt =====
-- Streams of src/controlstream.cpp: a stanza that comes in, a session that goes out, and an address.
use libmaycloud.Common.{
  text, ℕ, ◌≡◌, refl, Bool, true, some, List, [], ◌∷◌, ◌++◌, arith, ltb, ◌==◌, if◌then◌else◌,
  length,
}
use libmaycloud.Easylib.Pieces.{matching, find_in, find}
use libmaycloud.Xml.{Tag, tag, nil, element, chars, split_name, full_name}
use libmaycloud.Xml.Builder.{new_builder}
use libmaycloud.Xml.Builder.Events.{IsBuilt}
use libmaycloud.ControlStream.{stream_start, stream_end, on_events, new_incoming}
use libmaycloud.ControlStream.Route.{
  parse_attribute_to, make_attribute_to, make_attribute_to_resource, parse-make_attribute_to,
}
use libmaycloud.ControlStream.Stanzas.{session_events, stanza_calls, on_events-session}
use libmaycloud.ControlStream.Session.{
  new_outgoing, OutCall, open_call, close_call, empty_call, send_call, flush_call, out_calls,
  all_confirmed,
}
use libmaycloud.ControlStream.Session.Phase.{IsSession}
use libmaycloud.ControlStream.Session.Order.{out_calls-Sent}
use libmaycloud.XmlWriter.{
  create, flush_buffer, output_loop, output, output_attributes, write_attributes, close_tag,
  complite_tag, push_tag, init_xml, start_element, end_element, flush,
}

abbrev ping : Tag
ping = tag (text "ping") [] [] 2 (element (tag (text "id") [] [] 3 (chars (text "5") nil)) nil)

ping-IsBuilt : IsBuilt 1 ping
unfolding IsBuilt split_name full_name find find_in matching
ping-IsBuilt = (refl, refl, ((refl, refl, tt), tt))

on_events-session_example :
    on_events
      (session_events (text "stream") [] ((text "\n", ping) ∷ (text " ", ping) ∷ []))
      new_incoming
    ≡ some (record {
      builder = new_builder;
      depth = 0;
      calls =
          stream_start (text "stream") []
          ∷ (stanza_calls ((text "\n", ping) ∷ (text " ", ping) ∷ []) ++ (stream_end ∷ []));
    })
on_events-session_example =
    on_events-session (text "stream") [] ((text "\n", ping) ∷ (text " ", ping) ∷ [])
      (ping-IsBuilt, (ping-IsBuilt, tt))

-- A put that refuses the third piece once.
abbrev hesitant : ℕ → List (List ℕ) → List ℕ → Bool
hesitant faults log content = if length log == 2 then ltb 0 faults else true

abbrev session : List OutCall
session =
    send_call (text "early")
    ∷ open_call
    ∷ flush_call
    ∷ send_call (text "a")
    ∷ send_call (text "b")
    ∷ close_call
    ∷ send_call (text "late")
    ∷ empty_call
    ∷ []

session_runs :
    (out_calls hesitant session new_outgoing).log
    ≡ text "<?xml version=\"1.0\"?>\n<stream>" ∷ text "a" ∷ text "</stream>" ∷ []
unfolding out_calls create init_xml start_element end_element flush flush_buffer output output_loop
    complite_tag close_tag write_attributes output_attributes push_tag
session_runs = refl

-- Without a call of flush the stanza comes before the start of the stream.
unflushed_runs :
    (out_calls hesitant (open_call ∷ send_call (text "a") ∷ close_call ∷ []) new_outgoing).log
    ≡ text "a" ∷ text "<?xml version=\"1.0\"?>\n<stream />" ∷ []
unfolding out_calls create init_xml start_element end_element flush flush_buffer output output_loop
    complite_tag close_tag write_attributes output_attributes push_tag
unflushed_runs = refl

out_calls-Sent_example :
    IsSession
      (out_calls hesitant session new_outgoing)
      (all_confirmed hesitant session new_outgoing)
out_calls-Sent_example = out_calls-Sent hesitant session

parse-make_attribute_to_example :
    (parse_attribute_to (make_attribute_to_resource (text "r") (text "n:1") (text "a/b"))
      ≡ (text "r", text "n:1", text "a/b"))
    × (parse_attribute_to (make_attribute_to (text "r") (text "n:1")) ≡ (text "r", text "n:1", []))
parse-make_attribute_to_example =
    parse-make_attribute_to (text "r") (text "n:1") (omega arith) (omega arith) (text "a/b")
