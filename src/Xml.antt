-- ===== src/Xml.antt =====
-- class ATXmlTag of src/xml_tag.cpp and attributes_t of src/xml_types.cpp: trees of tags and character data. A tag is
-- a value here: the list `children` is the list of the tags among its nodes, and the parent of a tag is the one
-- it stands in.
pub mod Builder
mod Tests
use libmaycloud.Common.{
  text, ℕ, zero, suc, ◌+◌, ◌%◌, ◌^◌, Bool, true, false, ◌&&◌, Option, none, some, List, [], ◌∷◌,
  ◌++◌, same_text, ltb, ◌==◌, if◌then◌else◌, ◌>>=◌, length, take, drop,
}
use libmaycloud.Easylib.Pieces.{find}
use libmaycloud.StringMap.{StringMap, put_at, erase_at, get_default, has_key}
use libmaycloud.XmlWriter.{escape, attribute_text}

mutual
  pub data Tag : Type 0 where
    tag : (name prefix : List ℕ) → (attributes : StringMap) → (depth : ℕ) → Nodes → Tag

  -- childnodes.
  pub data Nodes : Type 0 where
    nil : Nodes
    element : Tag → Nodes → Nodes
    chars : List ℕ → Nodes → Nodes

abbrev pub name_of : Tag → List ℕ
name_of (tag name prefix attributes depth nodes) = name

abbrev pub nodes_of : Tag → Nodes
nodes_of (tag name prefix attributes depth nodes) = nodes

abbrev pub attributes_of : Tag → StringMap
attributes_of (tag name prefix attributes depth nodes) = attributes

abbrev pub with_nodes : (Nodes → Nodes) → Tag → Tag
with_nodes f (tag name prefix attributes depth nodes) = tag name prefix attributes depth (f nodes)

-- push_back of a list of nodes.
unfoldable pub append_nodes : Nodes → Nodes → Nodes
append_nodes nil more = more
append_nodes (element t nodes) more = element t (append_nodes nodes more)
append_nodes (chars text nodes) more = chars text (append_nodes nodes more)

-- The constructor's split of a name, `(prefix, name)`. The place of the colon goes through a short: -1 is taken for
-- none, and another negative one makes substr throw.
unfoldable pub split_at : (name : List ℕ) → Option ℕ → Option (List ℕ × List ℕ)
split_at name none = some ([], name)
split_at name (some at) =
    let place = at % 2 ^ 16 in
    if place == 65535
    then some ([], name)
    else if ltb place 32768
    then some (take place name, drop (place + 1) name)
    else none

unfoldable pub split_name : List ℕ → Option (List ℕ × List ℕ)
unfolding split_at
split_name name = split_at name (find name (58 ∷ []) 0)

-- ATXmlTag(name, attributes, parent, depth).
unfoldable pub new_tag : (name : List ℕ) → StringMap → (depth : ℕ) → Option Tag
unfolding split_name
new_tag name attributes depth = split_name name >>= λ p. some (tag p.1 p.0 attributes depth nil)

-- ATXmlTag(name), which splits nothing.
unfoldable pub plain_tag : (name : List ℕ) → Tag
plain_tag name = tag name [] [] 0 nil

unfoldable pub insert_child_element : Tag → Tag → Tag
unfolding append_nodes
insert_child_element t = with_nodes (λ nodes. append_nodes nodes (element t nil))

unfoldable pub insert_character_data : List ℕ → Tag → Tag
unfolding append_nodes
insert_character_data text = with_nodes (λ nodes. append_nodes nodes (chars text nil))

-- attributes_t and the methods of the tag that set them.
unfoldable pub set_tag_attribute : (name value : List ℕ) → Tag → Tag
set_tag_attribute key value (tag name prefix attributes depth nodes) =
    tag name prefix (put_at key value attributes) depth nodes

unfoldable pub remove_attribute : List ℕ → Tag → Tag
remove_attribute key (tag name prefix attributes depth nodes) =
    tag name prefix (erase_at key attributes) depth nodes

unfoldable pub has_attribute : List ℕ → Tag → Bool
has_attribute key t = has_key key (attributes_of t)

unfoldable pub get_attribute : (name default_value : List ℕ) → Tag → List ℕ
get_attribute key default_value t = get_default key default_value (attributes_of t)

unfoldable pub set_namespace : List ℕ → Tag → Tag
set_namespace value (tag name prefix attributes depth nodes) = tag name value attributes depth nodes

unfoldable pub set_namespace_attribute : (name value : List ℕ) → Tag → Tag
unfolding set_tag_attribute
set_namespace_attribute name value = set_tag_attribute (text "xmlns:" ++ name) value

unfoldable pub set_default_namespace_attribute : (value : List ℕ) → Tag → Tag
unfolding set_tag_attribute
set_default_namespace_attribute value = set_tag_attribute (text "xmlns") value

-- getCharacterData.
unfoldable pub nodes_cdata : Nodes → List ℕ
nodes_cdata nil = []
nodes_cdata (element t nodes) = nodes_cdata nodes
nodes_cdata (chars text nodes) = text ++ nodes_cdata nodes

unfoldable pub get_character_data : Tag → List ℕ
unfolding nodes_cdata
get_character_data t = nodes_cdata (nodes_of t)

-- children.
unfoldable pub get_children : Nodes → List Tag
get_children nil = []
get_children (element t nodes) = t ∷ get_children nodes
get_children (chars text nodes) = get_children nodes

-- getChild and firstChild by name: the first in the list.
unfoldable pub named_child : List ℕ → List Tag → Option Tag
named_child name [] = none
named_child name (t ∷ ts) =
    let rest = named_child name ts in if same_text (name_of t) name then some t else rest

unfoldable pub get_child : List ℕ → Tag → Option Tag
unfolding named_child get_children
get_child name t = named_child name (get_children (nodes_of t))

-- hasChild by name.
unfoldable pub has_child : List ℕ → Tag → Bool
unfolding get_child
has_child name t = elim (get_child name t) [ none ↦ false | some c ↦ true ]

-- getChildByAttribute, which looks at the first child of the name alone.
unfoldable pub get_child_by_attribute : (name attribute value : List ℕ) → Tag → Option Tag
unfolding get_child has_attribute get_attribute
get_child_by_attribute name attribute value t = get_child name t >>= λ c.
    if has_attribute attribute c && same_text (get_attribute attribute [] c) value
    then some c
    else none

unfoldable pub get_child_value : (name default_value : List ℕ) → Tag → List ℕ
unfolding get_child get_character_data
get_child_value name default_value t = elim (get_child name t) [
  | none ↦ default_value
  | some c ↦ get_character_data c
]

-- removeChild: the first child of the name.
unfoldable pub remove_node : List ℕ → Nodes → Nodes
remove_node name nil = nil
remove_node name (element t nodes) =
    let rest = element t (remove_node name nodes) in
    if same_text (name_of t) name then nodes else rest
remove_node name (chars text nodes) = chars text (remove_node name nodes)

unfoldable pub remove_child : List ℕ → Tag → Tag
unfolding remove_node
remove_child name = with_nodes (remove_node name)

-- clear.
unfoldable pub clear_tag : Tag → Tag
clear_tag = with_nodes (λ nodes. nil)

-- The name with its prefix, as toString and the parser write it.
unfoldable pub full_name : (name prefix : List ℕ) → List ℕ
full_name name prefix = if length prefix == 0 then name else prefix ++ (58 ∷ name)

unfoldable pub attributes_text : StringMap → List ℕ
attributes_text [] = []
attributes_text (a ∷ rest) = attribute_text a ++ attributes_text rest

abbrev is_nil : Nodes → Bool
is_nil nil = true
is_nil (element t nodes) = false
is_nil (chars text nodes) = false

-- toString.
unfoldable mutual
  unfolding full_name attributes_text

  pub tag_text : Tag → List ℕ
  tag_text (tag name prefix attributes depth nodes) =
      let inner = nodes_text nodes in
      60
      ∷ (full_name name prefix
          ++ (attributes_text attributes
              ++ (if is_nil nodes
                  then 32 ∷ 47 ∷ 62 ∷ []
                  else 62 ∷ (inner ++ (60 ∷ 47 ∷ (full_name name prefix ++ (62 ∷ [])))))))

  pub nodes_text : Nodes → List ℕ
  nodes_text nil = []
  nodes_text (element t nodes) = tag_text t ++ nodes_text nodes
  nodes_text (chars text nodes) = escape text ++ nodes_text nodes

-- find by a path of names with slashes: the first tag that the path leads to. `fuel` bounds the names of the path,
-- of which there are no more than its characters and one.
unfoldable pub find_child : (Tag → Option Tag) → List ℕ → List Tag → Option Tag
find_child inside name [] = none
find_child inside name (t ∷ ts) =
    let rest = find_child inside name ts in
    if same_text (name_of t) name
    then elim (inside t) [ none ↦ rest | some found ↦ some found ]
    else rest

unfoldable pub find_path : (fuel : ℕ) → (path : List ℕ) → Tag → Option Tag
unfolding get_child find_child
find_path zero path t = none
find_path (suc fuel) path t = elim (find path (47 ∷ []) 0) [
  | none ↦ get_child path t
  | some at ↦
      find_child (find_path fuel (drop (at + 1) path)) (take at path) (get_children (nodes_of t))
]

unfoldable pub find_tag : (path : List ℕ) → Tag → Option Tag
unfolding find_path
find_tag path t = find_path (length path + 1) path t
