-- ===== src/ControlStream/Session/Order.antt =====
-- What a peer of src/controlstream.cpp gets, in which order.
use libmaycloud.Common.{
  ℕ, ◌+◌, ◌≡◌, refl, subst, inl, inr, Bool, true, false, List, [], ◌∷◌, ◌++◌, append_assoc,
  Bool-cases,
}
use libmaycloud.XmlWriter.{XmlWriter, flush}
use libmaycloud.ControlStream.Session.{
  StreamState, init, active, closing, Outgoing, new_outgoing, error_text, stream_error_text,
  on_empty, OutCall, open_call, close_call, empty_call, send_call, stream_error_call,
  parse_error_call, flush_call, write_xml, open_stream, close_stream, send_stanza, stream_error,
  greeted, on_parse_error, out_call, confirmed_one, confirmed, out_calls, all_confirmed,
}
use libmaycloud.ControlStream.Session.Phase.{
  Phase, fresh, waiting, flushed, silent, whole, ended, Around, IsSession, outgoing, Around-stanza,
  IsSession-nil,
}
use libmaycloud.ControlStream.Session.Steps.{
  open_stream-IsSession, flush-IsSession, close_stream-IsSession,
}

module _ (accepts : ℕ → List (List ℕ) → List ℕ → Bool) where
  send_stanza-IsSession :
      (content : List ℕ) (s : Outgoing) (xs : List (List ℕ))
      → IsSession s xs
      → IsSession
          (send_stanza accepts content s).1
          (xs ++ confirmed_one accepts content (send_stanza accepts content s))
  unfolding send_stanza
  send_stanza-IsSession content s xs (p, q, around, phase) = go s.state s.writer p q around phase
    where
      taken :
          (w : XmlWriter) (p : List (List ℕ))
          → Around s.log xs p []
          → Phase active w p []
          → (r : Bool × Outgoing) × (r
              ≡ send_stanza accepts content (outgoing active w s.log s.left s.faults))
            × IsSession r.1 (xs ++ confirmed_one accepts content r)
      taken w p around h = elim (Bool-cases (accepts s.faults s.log content)) [
        | inl t ↦ (
          (true, outgoing active w (s.log ++ (content ∷ [])) s.left s.faults),
          rw t refl,
          (p, [], Around-stanza s.log xs p content around, h),
        )
        | inr f ↦ (
          (false, outgoing active w s.log s.left (s.faults + 1)),
          rw f refl,
          IsSession-nil (outgoing active w s.log s.left (s.faults + 1)) xs (p, [], around, h),
        )
      ]

      said :
          (w : XmlWriter) (p : List (List ℕ))
          → Around s.log xs p []
          → Phase active w p []
          → IsSession (send_stanza accepts content (outgoing active w s.log s.left s.faults)).1 (
              xs
              ++ confirmed_one accepts content
                  (send_stanza accepts content (outgoing active w s.log s.left s.faults)))
      said w p around h =
          let (r, e, t) = taken w p around h in
          subst (λ r. IsSession r.1 (xs ++ confirmed_one accepts content r)) e t

      go :
          (st : StreamState) (w : XmlWriter) (p q : List (List ℕ))
          → Around s.log xs p q
          → Phase st w p q
          → IsSession (send_stanza accepts content (outgoing st w s.log s.left s.faults)).1 (
              xs
              ++ confirmed_one accepts content
                  (send_stanza accepts content (outgoing st w s.log s.left s.faults)))
      go st w p q around fresh =
          IsSession-nil (outgoing init w s.log s.left s.faults) xs ([], [], around, fresh)
      go st w p q around waiting = said _ [] around waiting
      go st w p q around (flushed a) = said _ p around (flushed a)
      go st w p q around silent =
          IsSession-nil (outgoing closing w s.log s.left s.faults) xs ([], [], around, silent)
      go st w p q around (whole a) =
          IsSession-nil (outgoing closing w s.log s.left s.faults) xs ([], q, around, whole a)
      go st w p q around (ended a b) =
          IsSession-nil (outgoing closing w s.log s.left s.faults) xs (p, q, around, ended a b)

  on_empty-IsSession :
      (s : Outgoing) (xs : List (List ℕ)) → IsSession s xs → IsSession (on_empty s) xs
  unfolding on_empty
  on_empty-IsSession s xs h = go s.state h
    where
      go :
          (st : StreamState)
          → IsSession (outgoing st s.writer s.log s.left s.faults) xs
          → IsSession (on_empty (outgoing st s.writer s.log s.left s.faults)) xs
      go init h = h
      go active h = h
      go closing h = h

  greeted-IsSession :
      (s : Outgoing) (xs : List (List ℕ)) → IsSession s xs → IsSession (greeted accepts s) xs
  unfolding greeted
  greeted-IsSession s xs h = go s.state h
    where
      go :
          (st : StreamState)
          → IsSession (outgoing st s.writer s.log s.left s.faults) xs
          → IsSession (greeted accepts (outgoing st s.writer s.log s.left s.faults)) xs
      go init h =
          flush-IsSession accepts
            (open_stream accepts (outgoing init s.writer s.log s.left s.faults)) xs
            (open_stream-IsSession accepts (outgoing init s.writer s.log s.left s.faults) xs h)
      go active h = h
      go closing h = h

  out_call-IsSession :
      (c : OutCall) (s : Outgoing) (xs : List (List ℕ))
      → IsSession s xs
      → IsSession (out_call accepts c s) (xs ++ confirmed accepts c s)
  unfolding out_call confirmed on_parse_error stream_error
  out_call-IsSession open_call s xs h =
      IsSession-nil (open_stream accepts s) xs (open_stream-IsSession accepts s xs h)
  out_call-IsSession close_call s xs h =
      IsSession-nil (close_stream accepts s) xs (close_stream-IsSession accepts s xs h)
  out_call-IsSession empty_call s xs h = IsSession-nil (on_empty s) xs (on_empty-IsSession s xs h)
  out_call-IsSession (send_call content) s xs h = send_stanza-IsSession content s xs h
  out_call-IsSession (stream_error_call from to description) s xs h =
      send_stanza-IsSession (stream_error_text from to description) s xs h
  out_call-IsSession parse_error_call s xs h =
      close_stream-IsSession accepts (send_stanza accepts error_text (greeted accepts s)).1 _
        (send_stanza-IsSession error_text (greeted accepts s) xs (greeted-IsSession s xs h))
  out_call-IsSession flush_call s xs h =
      IsSession-nil (write_xml accepts flush s) xs (flush-IsSession accepts s xs h)

  out_calls-IsSession :
      (cs : List OutCall) (s : Outgoing) (xs : List (List ℕ))
      → IsSession s xs
      → IsSession (out_calls accepts cs s) (xs ++ all_confirmed accepts cs s)
  unfolding out_calls all_confirmed
  out_calls-IsSession [] s xs h = IsSession-nil s xs h
  out_calls-IsSession (c ∷ cs) s xs h =
      let s' = out_call accepts c s in
      subst (IsSession (out_calls accepts cs s'))
        (append_assoc xs (confirmed accepts c s) (all_confirmed accepts cs s'))
        (out_calls-IsSession cs s' (xs ++ confirmed accepts c s) (out_call-IsSession c s xs h))

  -- After any calls of a new stream, resetStream left out, the peer got exactly the stanzas that were reported as
  -- sent, in their order. For the stream itself it got nothing before openStream. Behind openStream the start waits
  -- in the buffer of XMLWriter and the stanzas pass it, until flush puts it, at most once. closeStream puts the end
  -- behind everything, at most once and no stanza follows; where no flush came before, that is the empty tag "stream"
  -- with the declaration, behind all stanzas. Each of these pieces is missing if put refuses it.
  pub out_calls-Sent :
      (cs : List OutCall)
      → IsSession (out_calls accepts cs new_outgoing) (all_confirmed accepts cs new_outgoing)
  out_calls-Sent cs = out_calls-IsSession cs new_outgoing [] ([], [], ([], [], refl, refl), fresh)
