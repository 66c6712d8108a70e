-- ===== src/ControlStream/Stanzas.antt =====
-- The stanzas that ControlStream of src/controlstream.cpp hands over.
use libmaycloud.Common.{
  ℕ, ◌+◌, ◌%◌, ◌^◌, ◌<◌, ◌≡◌, sym, ap, ◌∙◌, Option, none, some, List, [], ◌∷◌, ◌++◌, append-nil,
  append_assoc, arith, ne→==_false, ◌>>=◌, All,
}
use libmaycloud.StringMap.{StringMap}
use libmaycloud.Xml.{
  Tag, tag, Nodes, nil, element, chars, append_nodes, split_name, insert_child_element,
  insert_character_data, full_name,
}
use libmaycloud.Xml.Builder.{
  TagBuilder, new_builder, put_tag, end_tag, tag_characters, fetch_result, XmlEvent, opened,
  characters, closed,
}
use libmaycloud.Xml.Builder.Events.{
  tag_events, nodes_events, IsBuilt, AreBuilt, append_nodes-nil, append_nodes_assoc,
  start_tag-split,
}
use libmaycloud.ControlStream.{
  StreamCall, stream_start, stanza, stream_end, Incoming, on_events, new_incoming,
}

-- A stream with these parts.
abbrev incoming : TagBuilder → (depth : ℕ) → List StreamCall → Incoming
incoming b depth calls = record { builder = b; depth = depth; calls = calls }

abbrev builder : List Tag → Option Tag → TagBuilder
builder stack presult = record { stack = stack; presult = presult }

on_events-opened :
    (name prefix : List ℕ) (attributes : StringMap) (stack : List Tag) (presult : Option Tag)
    (d : ℕ) (calls : List StreamCall) (es : List XmlEvent)
    → 0 < d
    → split_name (full_name name prefix) ≡ some (prefix, name)
    → on_events
        (opened (full_name name prefix) attributes ∷ es)
        (incoming (builder stack presult) d calls)
      ≡ on_events es (
          incoming
            (builder (tag name prefix attributes ((d + 1) % 2 ^ 16) nil ∷ stack) presult)
            (d + 1)
            calls)
unfolding on_events
on_events-opened name prefix attributes stack presult d calls es z e =
    rw (ne→==_false (d + 1) 1 (omega (arith, z))) (
      ap (λ o. (o >>= λ b. some (incoming b (d + 1) calls)) >>= λ s'. on_events es s')
        (start_tag-split name prefix attributes (d + 1) (builder stack presult) e))

on_events-closed :
    (t : Tag) (name : List ℕ) (stack : List Tag) (presult : Option Tag) (d : ℕ)
    (calls : List StreamCall) (es : List XmlEvent)
    → 1 < d
    → on_events (closed name ∷ es) (incoming (builder (t ∷ stack) presult) (d + 1) calls)
      ≡ on_events es (incoming (put_tag t stack presult) d calls)
unfolding on_events end_tag
on_events-closed t name stack presult d calls es z =
    rw (ne→==_false (d + 1) 1 (omega (arith, z)), ne→==_false (d + 1) 2 (omega (arith, z)))
      (ap (λ k. on_events es (incoming (put_tag t stack presult) k calls)) (omega arith))

mutual
  unfolding tag_events IsBuilt on_events tag_characters insert_child_element insert_character_data
      append_nodes put_tag

  on_events-tag :
      (t : Tag) (stack : List Tag) (presult : Option Tag) (d : ℕ) (calls : List StreamCall)
      (es : List XmlEvent)
      → 1 < d
      → IsBuilt d t
      → on_events (tag_events t ++ es) (incoming (builder stack presult) d calls)
        ≡ on_events es (incoming (put_tag t stack presult) d calls)
  on_events-tag (tag name prefix attributes depth nodes) stack presult d calls es z v =
      let n = full_name name prefix in
      let built = λ (k : ℕ). tag name prefix attributes k nodes in
      on_events-opened name prefix attributes stack presult d calls
        ((nodes_events nodes ++ (closed n ∷ [])) ++ es) (omega (arith, z)) v.1
      ∙ ap
          (λ l. on_events l (
            incoming (builder (tag name prefix attributes ((d + 1) % 2 ^ 16) nil ∷ stack) presult)
              (d + 1) calls))
          (append_assoc (nodes_events nodes) (closed n ∷ []) es)
      ∙ on_events-nodes nodes name prefix attributes ((d + 1) % 2 ^ 16) nil stack presult (d + 1)
          calls (closed n ∷ es) (omega (arith, z)) v.2
      ∙ on_events-closed (built ((d + 1) % 2 ^ 16)) n stack presult d calls es z
      ∙ ap (λ k. on_events es (incoming (put_tag (built k) stack presult) d calls)) (sym v.0)

  on_events-nodes :
      (nodes : Nodes) (name prefix : List ℕ) (attributes : StringMap) (depth : ℕ) (m : Nodes)
      (stack : List Tag) (presult : Option Tag) (d : ℕ) (calls : List StreamCall)
      (es : List XmlEvent)
      → 1 < d
      → AreBuilt d nodes
      → on_events
          (nodes_events nodes ++ es)
          (incoming (builder (tag name prefix attributes depth m ∷ stack) presult) d calls)
        ≡ on_events es (
            incoming
              (builder (tag name prefix attributes depth (append_nodes m nodes) ∷ stack) presult)
              d
              calls)
  on_events-nodes nil name prefix attributes depth m stack presult d calls es z v =
      ap
        (λ n.
          on_events es
            (incoming (builder (tag name prefix attributes depth n ∷ stack) presult) d calls))
        (sym (append_nodes-nil m))
  on_events-nodes (element t nodes) name prefix attributes depth m stack presult d calls es z v =
      ap
        (λ l.
          on_events l
            (incoming (builder (tag name prefix attributes depth m ∷ stack) presult) d calls))
        (append_assoc (tag_events t) (nodes_events nodes) es)
      ∙ on_events-tag t (tag name prefix attributes depth m ∷ stack) presult d calls
          (nodes_events nodes ++ es) z v.0
      ∙ on_events-nodes nodes name prefix attributes depth (append_nodes m (element t nil)) stack
          presult d calls es z v.1
      ∙ ap
          (λ n.
            on_events es
              (incoming (builder (tag name prefix attributes depth n ∷ stack) presult) d calls))
          (append_nodes_assoc m (element t nil) nodes)
  on_events-nodes (chars s nodes) name prefix attributes depth m stack presult d calls es z v =
      on_events-nodes nodes name prefix attributes depth (append_nodes m (chars s nil)) stack
        presult d calls es z v
      ∙ ap
          (λ n.
            on_events es
              (incoming (builder (tag name prefix attributes depth n ∷ stack) presult) d calls))
          (append_nodes_assoc m (chars s nil) nodes)

on_events-inside :
    (name prefix : List ℕ) (attributes : StringMap) (nodes : Nodes) (stack : List Tag)
    (presult : Option Tag) (d : ℕ) (calls : List StreamCall) (es : List XmlEvent)
    → 0 < d
    → AreBuilt (d + 1) nodes
    → on_events ((nodes_events nodes ++ (closed (full_name name prefix) ∷ [])) ++ es) (
        incoming
          (builder (tag name prefix attributes ((d + 1) % 2 ^ 16) nil ∷ stack) presult)
          (d + 1)
          calls)
      ≡ on_events (closed (full_name name prefix) ∷ es) (
          incoming
            (builder (tag name prefix attributes ((d + 1) % 2 ^ 16) nodes ∷ stack) presult)
            (d + 1)
            calls)
unfolding append_nodes
on_events-inside name prefix attributes nodes stack presult d calls es z v =
    let n = full_name name prefix in
    ap
      (λ l. on_events l (
        incoming (builder (tag name prefix attributes ((d + 1) % 2 ^ 16) nil ∷ stack) presult)
          (d + 1) calls))
      (append_assoc (nodes_events nodes) (closed n ∷ []) es)
    ∙ on_events-nodes nodes name prefix attributes ((d + 1) % 2 ^ 16) nil stack presult (d + 1)
        calls (closed n ∷ es) (omega (arith, z)) v

-- A tag right below the stream is a stanza.
on_events-stanza :
    (t : Tag) (calls : List StreamCall) (es : List XmlEvent)
    → IsBuilt 1 t
    → on_events (tag_events t ++ es) (incoming new_builder 1 calls)
      ≡ on_events es (incoming new_builder 1 (calls ++ (stanza (some t) ∷ [])))
unfolding tag_events IsBuilt on_events end_tag put_tag fetch_result
on_events-stanza (tag name prefix attributes depth nodes) calls es v =
    let n = full_name name prefix in
    on_events-opened name prefix attributes [] none 1 calls
      ((nodes_events nodes ++ (closed n ∷ [])) ++ es) (omega arith) v.1
    ∙ on_events-inside name prefix attributes nodes [] none 1 calls es (omega arith) v.2
    ∙ ap
        (λ k. on_events es (
          incoming new_builder 1
            (calls ++ (stanza (some (tag name prefix attributes k nodes)) ∷ []))))
        (sym v.0)

-- The stanzas of a stream, each behind some characters, such as the line ends that keep a stream alive.
pub stanza_events : List (List ℕ × Tag) → List XmlEvent
stanza_events [] = []
stanza_events (s ∷ ss) = characters s.0 ∷ (tag_events s.1 ++ stanza_events ss)

pub session_events : (name : List ℕ) → StringMap → List (List ℕ × Tag) → List XmlEvent
session_events name attributes ss =
    opened name attributes ∷ (stanza_events ss ++ (closed name ∷ []))

pub stanza_calls : List (List ℕ × Tag) → List StreamCall
stanza_calls [] = []
stanza_calls (s ∷ ss) = stanza (some s.1) ∷ stanza_calls ss

on_events-stanzas :
    (ss : List (List ℕ × Tag)) (calls : List StreamCall) (es : List XmlEvent)
    → All (λ s. IsBuilt 1 s.1) ss
    → on_events (stanza_events ss ++ es) (incoming new_builder 1 calls)
      ≡ on_events es (incoming new_builder 1 (calls ++ stanza_calls ss))
unfolding on_events stanza_events stanza_calls tag_characters
on_events-stanzas [] calls es v =
    ap (λ c. on_events es (incoming new_builder 1 c)) (sym (append-nil calls))
on_events-stanzas (s ∷ ss) calls es v =
    ap (λ l. on_events l (incoming new_builder 1 calls))
      (append_assoc (tag_events s.1) (stanza_events ss) es)
    ∙ on_events-stanza s.1 calls (stanza_events ss ++ es) v.0
    ∙ on_events-stanzas ss (calls ++ (stanza (some s.1) ∷ [])) es v.1
    ∙ ap (λ c. on_events es (incoming new_builder 1 c))
        (append_assoc calls (stanza (some s.1) ∷ []) (stanza_calls ss))

-- On the events of a whole stream, its tags with characters between them, the class is told of the start of the
-- stream, of each tag right below it as one stanza, in their order and whole, and of the end of the stream, and
-- no tag stays in the builder.
pub on_events-session :
    (name : List ℕ) (attributes : StringMap) (ss : List (List ℕ × Tag))
    → All (λ s. IsBuilt 1 s.1) ss
    → on_events (session_events name attributes ss) new_incoming
      ≡ some (record {
        builder = new_builder;
        depth = 0;
        calls = stream_start name attributes ∷ (stanza_calls ss ++ (stream_end ∷ []));
      })
unfolding on_events session_events
on_events-session name attributes ss v =
    on_events-stanzas ss (stream_start name attributes ∷ []) (closed name ∷ []) v
