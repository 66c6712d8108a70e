-- ===== src/Xml/Builder.antt =====
-- class ATTagBuilder of src/tagbuilder.cpp and class ATTagParser of src/attagparser.cpp. The parser of XML is expat, whose
-- calls of the handlers are a list of events here.
pub mod Events
use libmaycloud.Common.{
  ℕ, ◌+◌, ◌-◌, ◌%◌, ◌^◌, Bool, Option, none, some, List, [], ◌∷◌, if◌then◌else◌, ◌>>=◌,
}
use libmaycloud.StringMap.{StringMap}
use libmaycloud.Xml.{Tag, new_tag, insert_child_element, insert_character_data}

-- The top of the stack, its back, stands first in the list.
pub record TagBuilder : Type 0 where
  pub stack : List Tag
  pub presult : Option Tag

abbrev pub new_builder : TagBuilder
new_builder = record { stack = []; presult = none }

-- `depth` goes through an unsigned short.
unfoldable pub start_tag :
    (name : List ℕ) → StringMap → (depth : ℕ) → TagBuilder → Option TagBuilder
start_tag name attributes depth b =
    new_tag name attributes (depth % 2 ^ 16) >>= λ t. some (record b { stack = t ∷ b.stack })

-- The end of endElement: the tag goes into the one below it, or it is the result.
unfoldable pub put_tag : Tag → (rest : List Tag) → (presult : Option Tag) → TagBuilder
put_tag current [] presult = record { stack = []; presult = some current }
put_tag current (back ∷ more) presult = record {
  stack = insert_child_element current back ∷ more;
  presult = presult;
}

-- With an empty stack its back is undefined behaviour.
unfoldable pub end_tag : TagBuilder → Option TagBuilder
unfolding put_tag
end_tag b = elim b.stack [ [] ↦ none | current ∷ rest ↦ some (put_tag current rest b.presult) ]

unfoldable pub tag_characters : (cdata : List ℕ) → TagBuilder → TagBuilder
tag_characters cdata b = elim b.stack [
  | [] ↦ b
  | back ∷ more ↦ record b { stack = insert_character_data cdata back ∷ more }
]

unfoldable pub fetch_result : TagBuilder → Option Tag × TagBuilder
fetch_result b = (b.presult, record b { presult = none })

unfoldable pub reset_builder : TagBuilder → TagBuilder
reset_builder b = elim b.presult [ none ↦ b | some t ↦ new_builder ]

-- A call of a handler by expat.
pub data XmlEvent : Type 0 where
  opened : (name : List ℕ) → (attributes : StringMap) → XmlEvent
  characters : List ℕ → XmlEvent
  closed : (name : List ℕ) → XmlEvent

pub record TagParser : Type 0 where
  pub builder : TagBuilder
  pub depth : ℕ

-- onStartElement, onCharacterData and onEndElement; the depth is at least 1 in onEndElement where the builder has
-- a tag.
unfoldable pub parse_event : XmlEvent → TagParser → Option TagParser
unfolding start_tag end_tag tag_characters
parse_event (opened name attributes) p = start_tag name attributes (p.depth + 1) p.builder >>= λ b.
    some (record { builder = b; depth = p.depth + 1 })
parse_event (characters cdata) p = some (record p { builder = tag_characters cdata p.builder })
parse_event (closed name) p =
    end_tag p.builder >>= λ b. some (record { builder = b; depth = p.depth - 1 })

unfoldable pub parse_events : List XmlEvent → TagParser → Option TagParser
unfolding parse_event
parse_events [] p = some p
parse_events (e ∷ es) p = parse_event e p >>= λ p'. parse_events es p'

-- parseString of a text; the result is the tag, or NULL, and the parser. Expat is a parameter: `es` are the events it
-- hands over in this call, and `accepted` is what XML_Parse answers. Its own state, by which it refuses a document
-- behind a final one until the parser is reset, shows in these two only.
unfoldable pub parse_string :
    (es : List XmlEvent) → (accepted : Bool) → TagParser → Option (Option Tag × TagParser)
unfolding parse_events fetch_result
parse_string es accepted p = parse_events es (record p { depth = 0 }) >>= λ p'.
    let r = fetch_result p'.builder in
    some (if accepted then (r.0, record p' { builder = r.1 }) else (none, p'))
