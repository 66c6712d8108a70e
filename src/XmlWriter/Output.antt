-- ===== src/XmlWriter/Output.antt =====
-- The buffering of src/xmlwriter.cpp does not change what is written.
use libmaycloud.Common.{
  ℕ, zero, suc, ◌+◌, ◌-◌, ◌≤◌, ◌<◌, ◌≡◌, refl, sym, ap, subst, ◌∙◌, inl, inr, List, [], ◌∷◌, ◌++◌,
  append-nil, append_assoc, arith, ltb, ◌==◌, if◌then◌else◌, lt→ltb, ltb→le, Bool-cases, length,
  take, drop, length-append, take-append-drop, length-drop,
}
use libmaycloud.XmlWriter.{XmlWriter, flush_buffer, take_chunk, output_loop, output}

-- What was written, and what still waits in the buffer.
abbrev pub sent : XmlWriter → List ℕ
sent w = w.written ++ w.buffer

-- From `w` to `w'` the text `d` was put out and nothing else changed; the buffer has room again.
pub record Outputs (w : XmlWriter) (d : List ℕ) (w' : XmlWriter) : Type 0 where
  pub text : sent w' ≡ sent w ++ d
  pub room : length w'.buffer < w'.buflen
  pub same_opened : w'.opened ≡ w.opened
  pub same_stack : w'.stack ≡ w.stack
  pub same_attributes : w'.attributes ≡ w.attributes

pub Outputs-nil : (w : XmlWriter) → length w.buffer < w.buflen → Outputs w [] w
Outputs-nil w r = record {
  text = sym (append-nil (sent w));
  room = r;
  same_opened = refl;
  same_stack = refl;
  same_attributes = refl;
}

pub Outputs-append :
    (w v u : XmlWriter) (xs ys : List ℕ) → Outputs w xs v → Outputs v ys u → Outputs w (xs ++ ys) u
Outputs-append w v u xs ys a b = record {
  text = b.text ∙ ap (λ s. s ++ ys) a.text ∙ append_assoc (sent w) xs ys;
  room = b.room;
  same_opened = b.same_opened ∙ a.same_opened;
  same_stack = b.same_stack ∙ a.same_stack;
  same_attributes = b.same_attributes ∙ a.same_attributes;
}

length_zero : (xs : List ℕ) → length xs ≤ 0 → xs ≡ []
length_zero [] l = refl
length_zero (x ∷ xs) l = absurd (omega arith)

pub flush_buffer-Outputs :
    (w : XmlWriter) → 0 < w.buflen → Outputs w [] (flush_buffer w) × ((flush_buffer w).buffer ≡ [])
unfolding flush_buffer
flush_buffer-Outputs w r = elim (Bool-cases (ltb 0 (length w.buffer))) [
  | inl e ↦ rw e (
    record { text = refl; room = r; same_opened = refl; same_stack = refl; same_attributes = refl },
    refl,
  )
  | inr e ↦
      let z = ltb→le 0 (length w.buffer) e in
      rw e (Outputs-nil w (omega arith), length_zero w.buffer z)
]

length-take : (n : ℕ) (xs : List ℕ) → n ≤ length xs → length (take n xs) ≡ n
length-take n xs l = omega (
  arith,
  length-append (take n xs) (drop n xs),
  ap length (take-append-drop n xs),
  length-drop n xs,
)

take_chunk-Outputs :
    (chunk : ℕ) (buf : List ℕ) (w : XmlWriter)
    → 0 < w.buflen
    → chunk ≤ length buf
    → chunk + length w.buffer ≤ w.buflen
    → Outputs w (take chunk buf) (take_chunk chunk buf w)
take_chunk-Outputs chunk buf w r l room =
    let w' = record w { buffer = w.buffer ++ take chunk buf } in
    let n = length-append w.buffer (take chunk buf) in
    let k = length-take chunk buf l in
    let t = append_assoc w.written w.buffer (take chunk buf) in
    elim (Bool-cases (length w'.buffer == w.buflen)) [
      | inl e ↦
          let f = flush_buffer-Outputs w' r in
          rw e (record {
            text = f.0.text ∙ append-nil (sent w') ∙ sym t;
            room = f.0.room;
            same_opened = f.0.same_opened;
            same_stack = f.0.same_stack;
            same_attributes = f.0.same_attributes;
          })
      | inr e ↦ rw e (record {
        text = sym t;
        room = ground (arith, n, k);
        same_opened = refl;
        same_stack = refl;
        same_attributes = refl;
      })
    ]

output_loop-Outputs :
    (fuel : ℕ) (buf : List ℕ) (w : XmlWriter)
    → length w.buffer < w.buflen
    → length buf < fuel
    → Outputs w buf (output_loop fuel buf w)
unfolding output_loop
output_loop-Outputs zero buf w r f = absurd (omega arith)
output_loop-Outputs (suc fuel) [] w r f = Outputs-nil w r
output_loop-Outputs (suc fuel) (x ∷ xs) w r f =
    let buf = x ∷ xs in
    let free_part = w.buflen - length w.buffer in
    let chunk = if ltb (length buf) free_part then length buf else free_part in
    let small : chunk ≤ length buf = ground arith in
    let fits : chunk + length w.buffer ≤ w.buflen = ground arith in
    let some_of : 0 < chunk = ground arith in
    let w' = take_chunk chunk buf w in
    let first = take_chunk-Outputs chunk buf w (omega arith) small fits in
    let rest =
      output_loop-Outputs fuel (drop chunk buf) w' first.room
        (omega (arith, length-drop chunk buf)) in
    rw (lt→ltb 0 (suc (length xs)) (omega arith)) (
      subst (λ d. Outputs w d (output_loop fuel (drop chunk buf) w')) (take-append-drop chunk buf)
        (Outputs-append w w' _ (take chunk buf) (drop chunk buf) first rest))

-- output puts out exactly its data, behind what was put out before, however the buffer is flushed on the
-- way; the buffer never stays full, and the state of the tags does not change.
pub output-Outputs :
    (buf : List ℕ) (w : XmlWriter) → length w.buffer < w.buflen → Outputs w buf (output buf w)
unfolding output
output-Outputs buf w r = output_loop-Outputs (length buf + 1) buf w r (omega arith)
