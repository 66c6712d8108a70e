-- ===== src/XmlWriter/Elements.antt =====
-- The text that the operations of src/xmlwriter.cpp put out.
use libmaycloud.Common.{
  ℕ, ◌<◌, ◌≡◌, refl, sym, ap, subst, ◌∙◌, inl, inr, true, false, List, [], ◌∷◌, ◌++◌, append-nil,
  append_assoc, if◌then◌else◌, Bool-cases, length,
}
use libmaycloud.XmlWriter.{
  XmlWriter, output, escape, attribute_text, output_attributes, write_attributes, close_tag,
  complite_tag, push_tag, start_element, character_data, end_element,
}
use libmaycloud.XmlWriter.Output.{sent, Outputs, Outputs-nil, Outputs-append, output-Outputs}

-- The text of attributes, one after the other.
abbrev pub attributes_text : List (List ℕ × List ℕ) → List ℕ
attributes_text [] = []
attributes_text (a ∷ rest) = attribute_text a ++ attributes_text rest

-- What closes the tag that is open.
abbrev pub pending : XmlWriter → List ℕ
pending w = if w.opened then attributes_text w.attributes ++ (62 ∷ []) else []

abbrev pub opening_tag : List ℕ → List ℕ
opening_tag tag = 60 ∷ tag

abbrev pub closing_tag : List ℕ → List ℕ
closing_tag tag = 60 ∷ 47 ∷ (tag ++ (62 ∷ []))

output_attributes-Outputs :
    (list : List (List ℕ × List ℕ)) (w : XmlWriter)
    → length w.buffer < w.buflen
    → Outputs w (attributes_text list) (output_attributes list w)
unfolding output_attributes
output_attributes-Outputs [] w r = Outputs-nil w r
output_attributes-Outputs (a ∷ rest) w r =
    let first = output-Outputs (attribute_text a) w r in
    Outputs-append w (output (attribute_text a) w) _ (attribute_text a) (attributes_text rest) first
      (output_attributes-Outputs rest (output (attribute_text a) w) first.room)

-- From `w` to `w'` the text `d` was put out, the stack did not change and no tag is open.
pub record Closes (w : XmlWriter) (d : List ℕ) (w' : XmlWriter) : Type 0 where
  pub text : sent w' ≡ sent w ++ d
  pub room : length w'.buffer < w'.buflen
  pub same_stack : w'.stack ≡ w.stack
  pub closed : w'.opened ≡ false

close_tag-Closes :
    (mark : List ℕ) (w : XmlWriter)
    → length w.buffer < w.buflen
    → Closes w (attributes_text w.attributes ++ mark) (close_tag mark w)
unfolding close_tag write_attributes
close_tag-Closes mark w r =
    let a = output_attributes-Outputs w.attributes w r in
    let b = output-Outputs mark (write_attributes w) a.room in
    record {
      text =
          b.text
          ∙ ap (λ s. s ++ mark) a.text
          ∙ append_assoc (sent w) (attributes_text w.attributes) mark;
      room = b.room;
      same_stack = b.same_stack ∙ a.same_stack;
      closed = refl;
    }

-- compliteTag closes the tag that is open, if one is.
pub complite_tag-Closes :
    (w : XmlWriter) → length w.buffer < w.buflen → Closes w (pending w) (complite_tag w)
unfolding complite_tag
complite_tag-Closes w r = elim (Bool-cases w.opened) [
  | inl e ↦
      let p : pending w ≡ attributes_text w.attributes ++ (62 ∷ []) =
        ap (λ b. if b then attributes_text w.attributes ++ (62 ∷ []) else []) e in
      let q : complite_tag w ≡ close_tag (62 ∷ []) w =
        ap (λ b. if b then close_tag (62 ∷ []) w else w) e in
      subst (λ v. Closes w (pending w) v) (sym q)
        (subst (λ d. Closes w d (close_tag (62 ∷ []) w)) (sym p) (close_tag-Closes (62 ∷ []) w r))
  | inr e ↦
      let p : pending w ≡ [] =
        ap (λ b. if b then attributes_text w.attributes ++ (62 ∷ []) else []) e in
      let q : complite_tag w ≡ w = ap (λ b. if b then close_tag (62 ∷ []) w else w) e in
      subst (λ v. Closes w (pending w) v) (sym q)
        (subst (λ d. Closes w d w) (sym p)
          (record { text = sym (append-nil (sent w)); room = r; same_stack = refl; closed = e }))
]

-- startElement closes the tag before and puts out the start of its own; no attributes are set then.
pub start_element-text :
    (tag : List ℕ) (w : XmlWriter)
    → length w.buffer < w.buflen
    → (sent (start_element tag w) ≡ sent w ++ (pending w ++ (60 ∷ tag)))
      × (length (start_element tag w).buffer < (start_element tag w).buflen)
      × ((start_element tag w).stack ≡ w.stack ++ (tag ∷ []))
      × ((start_element tag w).opened ≡ true)
      × ((start_element tag w).attributes ≡ [])
unfolding start_element push_tag
start_element-text tag w r =
    let a = complite_tag-Closes w r in
    let b = output-Outputs (60 ∷ tag) (complite_tag w) a.room in
    (
      b.text ∙ ap (λ s. s ++ (60 ∷ tag)) a.text ∙ append_assoc (sent w) (pending w) (60 ∷ tag),
      b.room,
      ap (λ s. s ++ (tag ∷ [])) (b.same_stack ∙ a.same_stack),
      refl,
      refl,
    )

-- characterData closes the tag before and puts out its data, escaped.
pub character_data-Closes :
    (cdata : List ℕ) (w : XmlWriter)
    → length w.buffer < w.buflen
    → Closes w (pending w ++ escape cdata) (character_data cdata w)
unfolding character_data
character_data-Closes cdata w r =
    let a = complite_tag-Closes w r in
    let b = output-Outputs (escape cdata) (complite_tag w) a.room in
    record {
      text =
          b.text
          ∙ ap (λ s. s ++ escape cdata) a.text
          ∙ append_assoc (sent w) (pending w) (escape cdata);
      room = b.room;
      same_stack = b.same_stack ∙ a.same_stack;
      closed = b.same_opened ∙ a.closed;
    }

-- endElement where no tag is open.
pub end_element-closed :
    (tag : List ℕ) (w : XmlWriter)
    → length w.buffer < w.buflen
    → w.opened ≡ false
    → Closes w (closing_tag tag) (end_element tag w)
unfolding end_element complite_tag
end_element-closed tag w r e =
    let q : complite_tag w ≡ w = ap (λ b. if b then close_tag (62 ∷ []) w else w) e in
    let p : end_element tag w ≡ output (closing_tag tag) (complite_tag w) =
      ap
        (λ b.
          if b then close_tag (32 ∷ 47 ∷ 62 ∷ []) w else output (closing_tag tag) (complite_tag w))
        e in
    let b = output-Outputs (closing_tag tag) w r in
    subst (λ v. Closes w (closing_tag tag) v) (sym (p ∙ ap (output (closing_tag tag)) q))
      (record {
        text = b.text;
        room = b.room;
        same_stack = b.same_stack;
        closed = b.same_opened ∙ e;
      })
