-- ===== src/XmlWriter.antt =====
-- XMLWriter of src/xmlwriter.cpp. A string is its list of bytes.
pub mod Output
pub mod Elements
pub mod Documents
mod Tests
use libmaycloud.Common.{
  text, ℕ, zero, suc, ◌+◌, ◌-◌, Bool, true, false, List, [], ◌∷◌, ◌++◌, ltb, ◌==◌, if◌then◌else◌,
  length, take, drop,
}

-- `buffer` is the part of `outbuf` that is in use, so `buffered` is its length; `written` is what
-- onWriteXML, which the client defines, was given so far.
pub record XmlWriter : Type 0 where
  pub full : Bool
  pub opened : Bool
  pub stack : List (List ℕ)
  pub buflen : ℕ
  pub buffer : List ℕ
  pub attributes : List (List ℕ × List ℕ)
  pub written : List ℕ

unfoldable pub create : ℕ → XmlWriter
create bufsize = record {
  full = false;
  opened = false;
  stack = [];
  buflen = bufsize;
  buffer = [];
  attributes = [];
  written = [];
}

unfoldable pub flush_buffer : XmlWriter → XmlWriter
flush_buffer w =
    if ltb 0 (length w.buffer) then record w { written = w.written ++ w.buffer; buffer = [] } else w

-- One round of the loop of output, with `chunk` bytes of the data.
abbrev pub take_chunk : ℕ → List ℕ → XmlWriter → XmlWriter
take_chunk chunk buf w =
    let w' = record w { buffer = w.buffer ++ take chunk buf } in
    if length w'.buffer == w.buflen then flush_buffer w' else w'

-- output(buf, len); without fuel it does nothing more.
unfoldable pub output_loop : ℕ → List ℕ → XmlWriter → XmlWriter
output_loop zero buf w = w
output_loop (suc fuel) buf w =
    let free_part = w.buflen - length w.buffer in
    let chunk = if ltb (length buf) free_part then length buf else free_part in
    let more = output_loop fuel (drop chunk buf) (take_chunk chunk buf w) in
    if ltb 0 (length buf) then more else w

unfoldable pub output : List ℕ → XmlWriter → XmlWriter
output buf w = output_loop (length buf + 1) buf w

unfoldable pub escape_char : ℕ → List ℕ
escape_char c =
    if c == 60
    then 38 ∷ 108 ∷ 116 ∷ 59 ∷ []
    else if c == 62
    then 38 ∷ 103 ∷ 116 ∷ 59 ∷ []
    else if c == 38
    then 38 ∷ 97 ∷ 109 ∷ 112 ∷ 59 ∷ []
    else if c == 34
    then 38 ∷ 113 ∷ 117 ∷ 111 ∷ 116 ∷ 59 ∷ []
    else c ∷ []

unfoldable pub escape : List ℕ → List ℕ
escape [] = []
escape (c ∷ text) = escape_char c ++ escape text

-- ` name="value"`.
unfoldable pub attribute_text : List ℕ × List ℕ → List ℕ
attribute_text a = 32 ∷ (a.0 ++ (61 ∷ 34 ∷ (escape a.1 ++ (34 ∷ []))))

unfoldable pub output_attributes : List (List ℕ × List ℕ) → XmlWriter → XmlWriter
output_attributes [] w = w
output_attributes (a ∷ rest) w = output_attributes rest (output (attribute_text a) w)

unfoldable pub write_attributes : XmlWriter → XmlWriter
write_attributes w = record (output_attributes w.attributes w) { attributes = [] }

-- The attributes and the end of a tag that is open.
unfoldable pub close_tag : List ℕ → XmlWriter → XmlWriter
close_tag mark w = record (output mark (write_attributes w)) { opened = false }

unfoldable pub complite_tag : XmlWriter → XmlWriter
complite_tag w = if w.opened then close_tag (62 ∷ []) w else w

unfoldable pub push_tag : List ℕ → XmlWriter → XmlWriter
push_tag tag w = record w { stack = w.stack ++ (tag ∷ []) }

-- `<?xml version="1.0"?>` and a line feed.
abbrev pub xml_declaration : List ℕ
xml_declaration =
    60 ∷ 63 ∷ 120 ∷ 109 ∷ 108 ∷ 32 ∷ 118 ∷ 101 ∷ 114 ∷ 115 ∷ 105 ∷ 111 ∷ 110 ∷ 61 ∷ 34 ∷ 49 ∷ 46
    ∷ 48 ∷ 34 ∷ 63 ∷ 62 ∷ 10 ∷ []

unfoldable pub init_xml : XmlWriter → XmlWriter
init_xml w = output xml_declaration (record w { full = true })

unfoldable pub start_element : List ℕ → XmlWriter → XmlWriter
start_element tag w =
    record (push_tag tag (record (output (60 ∷ tag) (complite_tag w)) { attributes = [] })) {
      opened = true;
    }

-- Whether a string comes before another in a std::map.
unfoldable pub before : List ℕ → List ℕ → Bool
before [] [] = false
before [] (y ∷ ys) = true
before (x ∷ xs) [] = false
before (x ∷ xs) (y ∷ ys) = if x == y then before xs ys else ltb x y

-- `attributes[name] = value`, in the order of a std::map.
unfoldable pub insert_attribute : List ℕ → List ℕ → List (List ℕ × List ℕ) → List (List ℕ × List ℕ)
unfolding before
insert_attribute name value [] = (name, value) ∷ []
insert_attribute name value (a ∷ rest) =
    let more = a ∷ insert_attribute name value rest in
    if before name a.0
    then (name, value) ∷ a ∷ rest
    else if before a.0 name
    then more
    else (name, value) ∷ rest

pub set_attribute : List ℕ → List ℕ → XmlWriter → XmlWriter
set_attribute name value w = record w { attributes = insert_attribute name value w.attributes }

pub character_data : List ℕ → XmlWriter → XmlWriter
character_data cdata w = output (escape cdata) (complite_tag w)

-- The tag is not taken off the stack.
unfoldable pub end_element : List ℕ → XmlWriter → XmlWriter
end_element tag w =
    if w.opened
    then close_tag (32 ∷ 47 ∷ 62 ∷ []) w
    else output (60 ∷ 47 ∷ (tag ++ (62 ∷ []))) (complite_tag w)

pub add_element : List ℕ → List ℕ → XmlWriter → XmlWriter
add_element tag value w = end_element tag (character_data value (start_element tag w))

unfoldable pub flush : XmlWriter → XmlWriter
flush w = flush_buffer (complite_tag w)

pub reset_writer : XmlWriter → XmlWriter
reset_writer w = record (flush w) { opened = false; stack = [] }
