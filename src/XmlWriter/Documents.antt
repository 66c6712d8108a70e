-- ===== src/XmlWriter/Documents.antt =====
-- Whole elements, escaping and flushing in src/xmlwriter.cpp.
use libmaycloud.Common.{
  text, ℕ, ◌<◌, ◌≡◌, refl, sym, ap, ap₂, ◌∙◌, inl, inr, false, ◌||◌, List, [], ◌∷◌, ◌++◌,
  append-nil, append_assoc, arith, ◌==◌, if◌then◌else◌, Bool-cases, length, All, All-append,
}
use libmaycloud.XmlWriter.{
  XmlWriter, escape_char, escape, complite_tag, start_element, character_data, add_element, flush,
}
use libmaycloud.XmlWriter.Output.{sent, flush_buffer-Outputs}
use libmaycloud.XmlWriter.Elements.{
  attributes_text, pending, closing_tag, complite_tag-Closes, start_element-text,
  character_data-Closes, end_element-closed,
}

-- addElement closes the tag before, if one is open, and puts out `<tag>`, the escaped value and `</tag>`.
-- No tag is open then, but the name of the tag stays on the stack.
pub add_element-text :
    (tag value : List ℕ) (w : XmlWriter)
    → length w.buffer < w.buflen
    → (sent (add_element tag value w)
        ≡ sent w ++ (pending w ++ ((60 ∷ tag) ++ ((62 ∷ escape value) ++ closing_tag tag))))
      × ((add_element tag value w).stack ≡ w.stack ++ (tag ∷ []))
      × ((add_element tag value w).opened ≡ false)
unfolding add_element
add_element-text tag value w r =
    let v1 = start_element tag w in
    let v2 = character_data value v1 in
    let s = start_element-text tag w r in
    let c = character_data-Closes value v1 s.1 in
    let e = end_element-closed tag v2 c.room c.closed in
    let p : pending v1 ≡ 62 ∷ [] =
      ap (λ b. if b then attributes_text v1.attributes ++ (62 ∷ []) else []) s.3
      ∙ ap (λ l. attributes_text l ++ (62 ∷ [])) s.4 in
    let data_text = 62 ∷ escape value in
    let front = pending w ++ (60 ∷ tag) in
    let back = closing_tag tag in
    (
      e.text
          ∙ ap (λ x. x ++ back) (c.text ∙ ap₂ (λ x y. x ++ (y ++ escape value)) s.0 p)
          ∙ append_assoc (sent w ++ front) data_text back
          ∙ append_assoc (sent w) front (data_text ++ back)
          ∙ ap (λ x. sent w ++ x) (append_assoc (pending w) (60 ∷ tag) (data_text ++ back)),
      e.same_stack ∙ c.same_stack ∙ s.2,
      e.closed,
    )

-- flush closes the tag that is open and hands everything to onWriteXML; nothing waits in the buffer then.
pub flush-written :
    (w : XmlWriter)
    → length w.buffer < w.buflen
    → ((flush w).written ≡ sent w ++ pending w) × ((flush w).buffer ≡ [])
unfolding flush
flush-written w r =
    let c = complite_tag-Closes w r in
    let f = flush_buffer-Outputs (complite_tag w) (omega (arith, c.room)) in
    (
      sym (append-nil (flush w).written)
          ∙ ap (λ b. (flush w).written ++ b) (sym f.1)
          ∙ f.0.text
          ∙ append-nil (sent (complite_tag w))
          ∙ c.text,
      f.1,
    )

-- A byte that may stand in text and in an attribute's value: not `<`, not `>` and not a quote.
abbrev pub IsSafe : ℕ → Type 0
IsSafe c = (c == 60 || (c == 62 || c == 34)) ≡ false

escape_char-IsSafe : (c : ℕ) → All IsSafe (escape_char c)
unfolding escape_char
escape_char-IsSafe c = elim (Bool-cases (c == 60)) [
  | inl e ↦ rw e (refl, (refl, (refl, (refl, tt))))
  | inr e ↦ elim (Bool-cases (c == 62)) [
    | inl f ↦ rw (e, f) (refl, (refl, (refl, (refl, tt))))
    | inr f ↦ elim (Bool-cases (c == 38)) [
      | inl g ↦ rw (e, f, g) (refl, (refl, (refl, (refl, (refl, tt)))))
      | inr g ↦ elim (Bool-cases (c == 34)) [
        | inl h ↦ rw (e, f, g, h) (refl, (refl, (refl, (refl, (refl, (refl, tt))))))
        | inr h ↦ rw (e, f, g, h) (rw (e, f, h) refl, tt)
      ]
    ]
  ]
]

-- No byte of an escaped text is `<`, `>` or a quote.
pub escape-IsSafe : (text : List ℕ) → All IsSafe (escape text)
unfolding escape
escape-IsSafe [] = tt
escape-IsSafe (c ∷ text) =
    All-append _ (escape_char c) (escape text) (escape_char-IsSafe c) (escape-IsSafe text)
