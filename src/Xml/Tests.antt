-- ===== src/Xml/Tests.antt =====
-- A tag of src/xml_tag.cpp as text, by path and out of the events of a parser.
use libmaycloud.Common.{text, ◌≡◌, refl, true, none, some, [], ◌∷◌, same_text}
use libmaycloud.XmlWriter.{escape_char, escape, attribute_text}
use libmaycloud.Easylib.Pieces.{matching, find_in, find}
use libmaycloud.Xml.{
  Tag, tag, nil, element, chars, split_name, plain_tag, get_child_value, full_name, tag_text,
  find_tag,
}
use libmaycloud.Xml.Builder.{parse_string}
use libmaycloud.Xml.Builder.Events.{tag_events, IsBuilt, parser, parse_string-tag_events}

abbrev leaf : Tag
leaf = tag (text "b") (text "x") [] 2 (chars (text "1<2") nil)

abbrev sample : Tag
sample = tag (text "a") [] ((text "k", text "v") ∷ []) 1 (chars (text "t") (element leaf nil))

sample_text : tag_text sample ≡ text "<a k=\"v\">t<x:b>1&lt;2</x:b></a>"
unfolding tag_text escape escape_char attribute_text
sample_text = refl

sample_path : find_tag (text "a/b") (plain_tag (text "root")) ≡ none
unfolding find_tag plain_tag find find_in matching
sample_path = refl

sample_child : get_child_value (text "b") [] sample ≡ text "1<2"
unfolding get_child_value same_text
sample_child = refl

sample-IsBuilt : IsBuilt 0 sample
unfolding IsBuilt split_name full_name find find_in matching
sample-IsBuilt = (refl, refl, ((refl, refl, tt), tt))

parse_string-tag_events_example :
    parse_string (tag_events sample) true (parser [] none 7) ≡ some (some sample, parser [] none 0)
parse_string-tag_events_example = parse_string-tag_events sample none 7 sample-IsBuilt
