-- ===== src/Xml/Builder/Events.antt =====
-- The tags that ATTagParser of src/attagparser.cpp builds of the events of a document.
use libmaycloud.Common.{
  ℕ, ◌+◌, ◌%◌, ◌^◌, ◌≡◌, refl, sym, ap, ap₂, ◌∙◌, true, Option, none, some, List, [], ◌∷◌, ◌++◌,
  append-nil, append_assoc, arith, ◌>>=◌,
}
use libmaycloud.Xml.{
  Tag, tag, Nodes, nil, element, chars, append_nodes, split_name, new_tag, insert_child_element,
  insert_character_data, full_name,
}
use libmaycloud.Xml.Builder.{
  TagBuilder, start_tag, put_tag, end_tag, tag_characters, fetch_result, XmlEvent, opened,
  characters, closed, TagParser, parse_events, parse_string,
}
use libmaycloud.StringMap.{StringMap}

-- The events of a tag: its start, its nodes in their order, its end.
unfoldable mutual
  pub tag_events : Tag → List XmlEvent
  tag_events (tag name prefix attributes depth nodes) =
      opened (full_name name prefix) attributes
      ∷ (nodes_events nodes ++ (closed (full_name name prefix) ∷ []))

  pub nodes_events : Nodes → List XmlEvent
  nodes_events nil = []
  nodes_events (element t nodes) = tag_events t ++ nodes_events nodes
  nodes_events (chars s nodes) = characters s ∷ nodes_events nodes

-- Every tag below `depth` tags has that depth, and every name comes apart into its prefix and the rest again.
unfoldable mutual
  pub IsBuilt : (depth : ℕ) → Tag → Type 0
  IsBuilt d (tag name prefix attributes depth nodes) =
      (depth ≡ (d + 1) % 2 ^ 16)
      × (split_name (full_name name prefix) ≡ some (prefix, name))
      × AreBuilt (d + 1) nodes

  pub AreBuilt : (depth : ℕ) → Nodes → Type 0
  AreBuilt d nil = Unit {0}
  AreBuilt d (element t nodes) = IsBuilt d t × AreBuilt d nodes
  AreBuilt d (chars s nodes) = AreBuilt d nodes

pub append_nodes-nil : (m : Nodes) → append_nodes m nil ≡ m
unfolding append_nodes
append_nodes-nil nil = refl
append_nodes-nil (element t m) = ap (element t) (append_nodes-nil m)
append_nodes-nil (chars s m) = ap (chars s) (append_nodes-nil m)

pub append_nodes_assoc :
    (m n k : Nodes) → append_nodes (append_nodes m n) k ≡ append_nodes m (append_nodes n k)
unfolding append_nodes
append_nodes_assoc nil n k = refl
append_nodes_assoc (element t m) n k = ap (element t) (append_nodes_assoc m n k)
append_nodes_assoc (chars s m) n k = ap (chars s) (append_nodes_assoc m n k)

-- A parser with these parts.
abbrev pub parser : (stack : List Tag) → (presult : Option Tag) → (depth : ℕ) → TagParser
parser stack presult depth = record {
  builder = record { stack = stack; presult = presult };
  depth = depth;
}

-- The parser when a tag is done.
abbrev pub with_tag : Tag → (stack : List Tag) → (presult : Option Tag) → (depth : ℕ) → TagParser
with_tag t stack presult depth = record { builder = put_tag t stack presult; depth = depth }

pub start_tag-split :
    (name prefix : List ℕ) (attributes : StringMap) (d : ℕ) (b : TagBuilder)
    → split_name (full_name name prefix) ≡ some (prefix, name)
    → start_tag (full_name name prefix) attributes d b
      ≡ some (record b { stack = tag name prefix attributes (d % 2 ^ 16) nil ∷ b.stack })
unfolding start_tag new_tag
start_tag-split name prefix attributes d b e =
    ap
      (λ o. (o >>= λ p. some (tag p.1 p.0 attributes (d % 2 ^ 16) nil)) >>= λ t.
        some (record b { stack = t ∷ b.stack }))
      e

mutual
  unfolding tag_events IsBuilt parse_events start_tag new_tag end_tag tag_characters
      insert_child_element insert_character_data append_nodes put_tag

  pub parse_events-tag :
      (t : Tag) (stack : List Tag) (presult : Option Tag) (d : ℕ) (es : List XmlEvent)
      → IsBuilt d t
      → parse_events (tag_events t ++ es) (parser stack presult d)
        ≡ parse_events es (with_tag t stack presult d)
  parse_events-tag (tag name prefix attributes depth nodes) stack presult d es v =
      let n = full_name name prefix in
      let built = λ (k : ℕ). tag name prefix attributes k nodes in
      ap
        (λ o. (o >>= λ b. some (record { builder = b; depth = d + 1 })) >>= λ p'.
          parse_events ((nodes_events nodes ++ (closed n ∷ [])) ++ es) p')
        (start_tag-split name prefix attributes (d + 1)
          (record { stack = stack; presult = presult }) v.1)
      ∙ ap
          (λ l.
            parse_events l
              (parser (tag name prefix attributes ((d + 1) % 2 ^ 16) nil ∷ stack) presult (d + 1)))
          (append_assoc (nodes_events nodes) (closed n ∷ []) es)
      ∙ parse_events-nodes nodes name prefix attributes ((d + 1) % 2 ^ 16) nil stack presult (d + 1)
          (closed n ∷ es) v.2
      ∙ ap₂ (λ k e. parse_events es (with_tag (built k) stack presult e)) (sym v.0) (omega arith)

  parse_events-nodes :
      (nodes : Nodes) (name prefix : List ℕ) (attributes : StringMap) (depth : ℕ) (m : Nodes)
      (stack : List Tag) (presult : Option Tag) (d : ℕ) (es : List XmlEvent)
      → AreBuilt d nodes
      → parse_events
          (nodes_events nodes ++ es)
          (parser (tag name prefix attributes depth m ∷ stack) presult d)
        ≡ parse_events es
            (parser (tag name prefix attributes depth (append_nodes m nodes) ∷ stack) presult d)
  parse_events-nodes nil name prefix attributes depth m stack presult d es v =
      ap (λ n. parse_events es (parser (tag name prefix attributes depth n ∷ stack) presult d))
        (sym (append_nodes-nil m))
  parse_events-nodes (element t nodes) name prefix attributes depth m stack presult d es v =
      ap (λ l. parse_events l (parser (tag name prefix attributes depth m ∷ stack) presult d))
        (append_assoc (tag_events t) (nodes_events nodes) es)
      ∙ parse_events-tag t (tag name prefix attributes depth m ∷ stack) presult d
          (nodes_events nodes ++ es) v.0
      ∙ parse_events-nodes nodes name prefix attributes depth (append_nodes m (element t nil)) stack
          presult d es v.1
      ∙ ap (λ n. parse_events es (parser (tag name prefix attributes depth n ∷ stack) presult d))
          (append_nodes_assoc m (element t nil) nodes)
  parse_events-nodes (chars s nodes) name prefix attributes depth m stack presult d es v =
      parse_events-nodes nodes name prefix attributes depth (append_nodes m (chars s nil)) stack
        presult d es v
      ∙ ap (λ n. parse_events es (parser (tag name prefix attributes depth n ∷ stack) presult d))
          (append_nodes_assoc m (chars s nil) nodes)

-- parseString on the events of a tag, by a parser that has no tag open, returns the tag and leaves nothing behind.
pub parse_string-tag_events :
    (t : Tag) (presult : Option Tag) (depth : ℕ)
    → IsBuilt 0 t
    → parse_string (tag_events t) true (parser [] presult depth) ≡ some (some t, parser [] none 0)
unfolding parse_string parse_events fetch_result put_tag
parse_string-tag_events t presult depth v =
    ap
      (λ l. parse_events l (parser [] presult 0) >>= λ p'.
        some (p'.builder.presult, record p' { builder = record (p'.builder) { presult = none } }))
      (sym (append-nil (tag_events t)))
    ∙ ap
        (λ o. o >>= λ p'.
          some (p'.builder.presult, record p' { builder = record (p'.builder) { presult = none } }))
        (parse_events-tag t [] presult 0 [] v)
