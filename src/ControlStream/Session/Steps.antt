-- ===== src/ControlStream/Session/Steps.antt =====
-- What each operation of src/controlstream.cpp that writes XML makes of a session.
use libmaycloud.Common.{
  ℕ, ◌+◌, ◌≡◌, refl, inl, inr, Bool, true, List, [], ◌∷◌, ◌++◌, append-nil, Bool-cases,
}
use libmaycloud.XmlWriter.{
  XmlWriter, create, flush_buffer, output_loop, output, output_attributes, write_attributes,
  close_tag, complite_tag, push_tag, init_xml, start_element, end_element, flush,
}
use libmaycloud.ControlStream.Session.{
  StreamState, init, active, closing, Outgoing, on_write_xml, write_xml, open_stream, close_stream,
}
use libmaycloud.ControlStream.Session.Phase.{
  start_text, end_text, whole_text, opened_writer, flushed_writer, AtMost, Phase, fresh, waiting,
  flushed, silent, whole, ended, Around, IsSession, outgoing, Around-start, Around-end,
}

module _ (accepts : ℕ → List (List ℕ) → List ℕ → Bool) where
  pub open_stream-IsSession :
      (s : Outgoing) (xs : List (List ℕ)) → IsSession s xs → IsSession (open_stream accepts s) xs
  unfolding open_stream write_xml create init_xml start_element output output_loop flush_buffer
      complite_tag push_tag
  open_stream-IsSession s xs (p, q, around, phase) = go s.state s.writer p q around phase
    where
      go :
          (st : StreamState) (w : XmlWriter) (p q : List (List ℕ))
          → Around s.log xs p q
          → Phase st w p q
          → IsSession (open_stream accepts (outgoing st w s.log s.left s.faults)) xs
      go st w p q around fresh = ([], [], around, waiting)
      go st w p q around waiting = ([], [], around, waiting)
      go st w p q around (flushed a) = (p, [], around, flushed a)
      go st w p q around silent = ([], [], around, silent)
      go st w p q around (whole a) = ([], q, around, whole a)
      go st w p q around (ended a b) = (p, q, around, ended a b)

  -- A piece that onWriteXML puts.
  on_write_xml-AtMost :
      (x : List ℕ) (st : StreamState) (w : XmlWriter) (log : List (List ℕ)) (left : Bool)
      (faults : ℕ)
      → (ps : List (List ℕ)) × (faults' : ℕ) × AtMost x ps
        × (on_write_xml accepts x (outgoing st w log left faults)
            ≡ outgoing st w (log ++ ps) left faults')
  unfolding on_write_xml
  on_write_xml-AtMost x st w log left faults = elim (Bool-cases (accepts faults log x)) [
    | inl t ↦ (x ∷ [], faults, inr refl, rw t refl)
    | inr f ↦ ([], faults + 1, inl refl, rw (f, append-nil log) refl)
  ]

  -- flush puts the start of a stream that waits in the buffer.
  flush_lem :
      (log : List (List ℕ)) (left : Bool) (faults : ℕ)
      → write_xml accepts flush (outgoing active opened_writer log left faults)
        ≡ on_write_xml accepts start_text (outgoing active flushed_writer log left faults)
  unfolding write_xml flush flush_buffer complite_tag close_tag write_attributes output_attributes
      output output_loop
  flush_lem log left faults = refl

  flush_idle :
      (st : StreamState) (log : List (List ℕ)) (left : Bool) (faults : ℕ)
      → (write_xml accepts flush (outgoing st flushed_writer log left faults)
          ≡ outgoing st flushed_writer log left faults)
        × (write_xml accepts flush (outgoing st (create 1024) log left faults)
            ≡ outgoing st (create 1024) log left faults)
  unfolding write_xml flush flush_buffer complite_tag create
  flush_idle st log left faults = (refl, refl)

  whole_lem :
      (log : List (List ℕ)) (left : Bool) (faults : ℕ)
      → close_stream accepts (outgoing active opened_writer log left faults)
        ≡ record (on_write_xml accepts whole_text
            (outgoing active flushed_writer log left faults)) { state = closing }
  unfolding close_stream write_xml flush flush_buffer complite_tag close_tag write_attributes
      output_attributes output output_loop end_element
  whole_lem log left faults = refl

  end_lem :
      (log : List (List ℕ)) (left : Bool) (faults : ℕ)
      → close_stream accepts (outgoing active flushed_writer log left faults)
        ≡ record (on_write_xml accepts end_text (outgoing active flushed_writer log left faults)) {
          state = closing;
        }
  unfolding close_stream write_xml flush flush_buffer complite_tag close_tag write_attributes
      output_attributes output output_loop end_element
  end_lem log left faults = refl

  pub flush-IsSession :
      (s : Outgoing) (xs : List (List ℕ))
      → IsSession s xs
      → IsSession (write_xml accepts flush s) xs
  flush-IsSession s xs (p, q, around, phase) = go s.state s.writer p q around phase
    where
      idle :
          (st : StreamState) (w : XmlWriter) (p q : List (List ℕ))
          → Around s.log xs p q
          → Phase st w p q
          → (write_xml accepts flush (outgoing st w s.log s.left s.faults)
              ≡ outgoing st w s.log s.left s.faults)
          → IsSession (write_xml accepts flush (outgoing st w s.log s.left s.faults)) xs
      idle st w p q around h e = rw e (p, q, around, h)

      go :
          (st : StreamState) (w : XmlWriter) (p q : List (List ℕ))
          → Around s.log xs p q
          → Phase st w p q
          → IsSession (write_xml accepts flush (outgoing st w s.log s.left s.faults)) xs
      go st w p q around fresh =
          idle init _ _ _ around fresh (flush_idle init s.log s.left s.faults).1
      go st w p q around waiting =
          let (ps, faults', some_ps, run) =
            on_write_xml-AtMost start_text active flushed_writer s.log s.left s.faults in
          rw (flush_lem s.log s.left s.faults, run)
            (ps, [], Around-start s.log xs ps around, flushed some_ps)
      go st w p q around (flushed a) =
          idle active _ _ _ around (flushed a) (flush_idle active s.log s.left s.faults).0
      go st w p q around silent =
          idle closing _ _ _ around silent (flush_idle closing s.log s.left s.faults).1
      go st w p q around (whole a) =
          idle closing _ _ _ around (whole a) (flush_idle closing s.log s.left s.faults).0
      go st w p q around (ended a b) =
          idle closing _ _ _ around (ended a b) (flush_idle closing s.log s.left s.faults).0

  close_lem :
      (w : XmlWriter) (log : List (List ℕ)) (left : Bool) (faults : ℕ)
      → (close_stream accepts (outgoing init w log left faults)
          ≡ outgoing closing w log true faults)
        × (close_stream accepts (outgoing closing w log left faults)
            ≡ outgoing closing w log left faults)
  unfolding close_stream
  close_lem w log left faults = (refl, refl)

  pub close_stream-IsSession :
      (s : Outgoing) (xs : List (List ℕ)) → IsSession s xs → IsSession (close_stream accepts s) xs
  close_stream-IsSession s xs (p, q, around, phase) = go s.state s.writer p q around phase
    where
      go :
          (st : StreamState) (w : XmlWriter) (p q : List (List ℕ))
          → Around s.log xs p q
          → Phase st w p q
          → IsSession (close_stream accepts (outgoing st w s.log s.left s.faults)) xs
      go st w p q around fresh = rw (close_lem w s.log s.left s.faults).0 ([], [], around, silent)
      go st w p q around waiting =
          let (qs, faults', some_qs, run) =
            on_write_xml-AtMost whole_text active flushed_writer s.log s.left s.faults in
          rw (whole_lem s.log s.left s.faults, run)
            ([], qs, Around-end s.log xs [] qs around, whole some_qs)
      go st w p q around (flushed a) =
          let (qs, faults', some_qs, run) =
            on_write_xml-AtMost end_text active flushed_writer s.log s.left s.faults in
          rw (end_lem s.log s.left s.faults, run)
            (p, qs, Around-end s.log xs p qs around, ended a some_qs)
      go st w p q around silent = rw (close_lem w s.log s.left s.faults).1 ([], [], around, silent)
      go st w p q around (whole a) =
          rw (close_lem w s.log s.left s.faults).1 ([], q, around, whole a)
      go st w p q around (ended a b) =
          rw (close_lem w s.log s.left s.faults).1 (p, q, around, ended a b)
