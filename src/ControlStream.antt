-- ===== src/ControlStream.antt =====
-- class ControlStream of src/controlstream.cpp: the stanzas that come in, and the state of the stream that goes out.
pub mod Stanzas
pub mod Session
pub mod Route
mod Tests
use libmaycloud.Common.{
  ℕ, ◌+◌, ◌-◌, Option, none, some, List, [], ◌∷◌, ◌++◌, ◌==◌, if◌then◌else◌, ◌>>=◌, take, drop,
}
use libmaycloud.StringMap.{StringMap}
use libmaycloud.Xml.{Tag}
use libmaycloud.Xml.Builder.{
  TagBuilder, new_builder, start_tag, end_tag, tag_characters, fetch_result, XmlEvent, opened,
  characters, closed,
}

-- What the class that inherits from ControlStream is told: onStartStream, onStanza with a tag, which may be NULL,
-- and onEndStream.
pub data StreamCall : Type 0 where
  stream_start : (name : List ℕ) → (attributes : StringMap) → StreamCall
  stanza : Option Tag → StreamCall
  stream_end : StreamCall

-- The incoming side: the builder, the depth, and the calls so far. The depth is an int that starts at 0; below 0
-- the builder has faulted.
pub record Incoming : Type 0 where
  pub builder : TagBuilder
  pub depth : ℕ
  pub calls : List StreamCall

unfoldable pub on_start_element : (name : List ℕ) → StringMap → Incoming → Option Incoming
on_start_element name attributes s =
    let depth = s.depth + 1 in
    if depth == 1
    then some (record s { depth = depth; calls = s.calls ++ (stream_start name attributes ∷ []) })
    else (start_tag name attributes depth s.builder >>= λ b.
        some (record s { depth = depth; builder = b }))

unfoldable pub on_character_data : List ℕ → Incoming → Incoming
on_character_data cdata s = record s { builder = tag_characters cdata s.builder }

-- The stanza is deleted behind onStanza.
unfoldable pub on_end_element : Incoming → Option Incoming
on_end_element s =
    if s.depth == 1
    then some (record s { depth = s.depth - 1; calls = s.calls ++ (stream_end ∷ []) })
    else (end_tag s.builder >>= λ b.
        if s.depth == 2
        then some (record {
          builder = (fetch_result b).1;
          depth = s.depth - 1;
          calls = s.calls ++ (stanza (fetch_result b).0 ∷ []);
        })
        else some (record s { builder = b; depth = s.depth - 1 }))

unfoldable pub on_event : XmlEvent → Incoming → Option Incoming
unfolding on_start_element on_character_data on_end_element
on_event (opened name attributes) s = on_start_element name attributes s
on_event (characters cdata) s = some (on_character_data cdata s)
on_event (closed name) s = on_end_element s

unfoldable pub on_events : List XmlEvent → Incoming → Option Incoming
unfolding on_event
on_events [] s = some s
on_events (e ∷ es) s = on_event e s >>= λ s'. on_events es s'

abbrev pub new_incoming : Incoming
new_incoming = record { builder = new_builder; depth = 0; calls = [] }

-- parseAttributeTo: route:name/resource. std::string::substr up to npos is the whole string.
abbrev pub front : List ℕ → Option ℕ → List ℕ
front s none = s
front s (some at) = take at s

abbrev pub behind : List ℕ → Option ℕ → List ℕ
behind s none = []
behind s (some at) = drop (at + 1) s
