-- ===== src/Audit/Pipeline.antt =====
-- Both ends of the audit channel of src/audit.rs at once: the handlers that record events, and the
-- writer task that takes them out and writes them.
use mathlib.Core.List.{append-nil, append_assoc, Perm}
use mathlib.Core.List.Perm
use remo_broker.Base.{
  ℕ, ◌+◌, ◌≤◌, ◌<◌, ◌^◌, ◌≡◌, ◌≢◌, refl, sym, subst, ◌∙◌, Bool, List, [], ◌∷◌, ◌++◌, length,
  length-append, inl, inr, arith,
}
use remo_broker.Audit.{
  AuditEvent, AuditWriter, Channel, sent, full, closed, record_event, Writer, receive, start,
  degraded_buffer_cap,
}
use remo_broker.Audit.Sending.{SendResult-cases, record_event-sent, record_event-full}
use remo_broker.Audit.Accounting.{held, append_swap, evicted, receive-evicted, receive-IsAccounted}

module _ (e : AuditEvent) where
  Perm-sent :
      (X Q R L es : List AuditEvent)
      → Perm ((X ++ Q) ++ R) (L ++ es)
      → Perm ((X ++ (Q ++ (e ∷ []))) ++ R) (L ++ (es ++ (e ∷ [])))
  Perm-sent X Q R L es h =
      rw (← append_assoc X Q (e ∷ []), ← append_assoc L es (e ∷ []))
        (Perm.trans (append_swap (X ++ Q) (e ∷ []) R) (Perm.append_right (e ∷ []) h))

  Perm-refused :
      (Y R L es : List AuditEvent)
      → Perm (Y ++ R) (L ++ es)
      → Perm (Y ++ (R ++ (e ∷ []))) (L ++ (es ++ (e ∷ [])))
  Perm-refused Y R L es h =
      rw (← append_assoc Y R (e ∷ []), ← append_assoc L es (e ∷ [])) (Perm.append_right (e ∷ []) h)

  Perm-consumed :
      (H A one lost rest R T : List AuditEvent)
      → Perm (A ++ one) (H ++ (e ∷ []))
      → Perm (((H ++ lost) ++ (e ∷ rest)) ++ R) T
      → Perm (((A ++ (one ++ lost)) ++ rest) ++ R) T
  Perm-consumed H A one lost rest R T g h =
      let moved : Perm (A ++ (one ++ lost)) ((H ++ lost) ++ (e ∷ [])) =
        rw (← append_assoc A one lost)
          (Perm.trans (Perm.append_right lost g) (append_swap H (e ∷ []) lost)) in
      let joined : Perm ((A ++ (one ++ lost)) ++ rest) ((H ++ lost) ++ (e ∷ rest)) =
        subst (Perm _) (append_assoc (H ++ lost) (e ∷ []) rest) (Perm.append_right rest moved) in
      Perm.trans (Perm.append_right R joined) h

module _ (c : Channel) (works : ℕ → Bool) where
  pub record Pipeline : Type 0 where
    pub sender : AuditWriter c.Tx
    pub writer : Writer

  -- What a full channel refuses.
  abbrev turned_away : AuditEvent → c.Tx → List AuditEvent
  turned_away e tx = elim (c.try_send e tx).0 [ sent ↦ [] | full ↦ e ∷ [] | closed ↦ [] ]

  -- An event is recorded by a handler, or the writer task takes the oldest event in the channel.
  -- The indices are what the step records, what the writer task loses in it because the degraded
  -- buffer is full, and what the full channel refuses.
  pub data Step (p : Pipeline)
      : List AuditEvent → List AuditEvent → List AuditEvent → Pipeline → Type 0 where
    produce :
        (e : AuditEvent)
        → Step p
            (e ∷ [])
            []
            (turned_away e p.sender.tx)
            (record p { sender = record_event c e p.sender })
    consume :
        {e : AuditEvent} {rest : List AuditEvent} {tx : c.Tx}
        → c.queued p.sender.tx ≡ e ∷ rest
        → c.queued tx ≡ rest
        → Step p []
            (evicted works e p.writer)
            []
            (record { sender = record p.sender { tx = tx }; writer = receive works e p.writer })

  -- Steps in any order, and all that was recorded, lost and refused in them.
  pub data Run (p : Pipeline)
      : List AuditEvent → List AuditEvent → List AuditEvent → Pipeline → Type 0 where
    none_yet : Run p [] [] [] p
    further :
        {events lost refused : List AuditEvent} {q : Pipeline} {more gone turned : List AuditEvent}
        {r : Pipeline}
        → Run p events lost refused q
        → Step q more gone turned r
        → Run p (events ++ more) (gone ++ lost) (refused ++ turned) r

  -- What became of the recorded events, from a log with the given lines on.
  pub record IsPiped (lines events lost refused : List AuditEvent) (p : Pipeline) : Type 0 where
    pub all : Perm (((held p.writer ++ lost) ++ c.queued p.sender.tx) ++ refused) (lines ++ events)
    pub counted : p.sender.dropped ≡ length refused
    pub few : length refused ≤ length events
    pub bounded : length p.writer.degraded ≤ degraded_buffer_cap

  produce-IsPiped :
      ((e : AuditEvent) (t : c.Tx) → (c.try_send e t).0 ≢ closed)
      → (lines events lost refused : List AuditEvent) (p : Pipeline) (e : AuditEvent)
      → length events + 1 < 2 ^ 64
      → IsPiped lines events lost refused p
      → IsPiped lines
          (events ++ (e ∷ []))
          lost
          (refused ++ turned_away e p.sender.tx)
          (record p { sender = record_event c e p.sender })
  produce-IsPiped open_ lines events lost refused p e small h =
      elim (SendResult-cases (c.try_send e p.sender.tx).0) [
        | inl taken ↦
            let (grown, same_count) = record_event-sent c e p.sender taken in
            let none_refused : refused ≡ refused ++ turned_away e p.sender.tx =
              rw (taken, turned_away) (sym (append-nil refused)) in
            subst
              (λ R.
                IsPiped lines (events ++ (e ∷ [])) lost R
                  (record p { sender = record_event c e p.sender }))
              none_refused
              (record {
                all = rw grown (Perm-sent e _ (c.queued p.sender.tx) refused lines events h.all);
                counted = same_count ∙ h.counted;
                few = ground (arith, h.few, length-append events (e ∷ []));
                bounded = h.bounded;
              })
        | inr (inl refuses) ↦
            let few = h.few in
            let (kept, one_more) =
              record_event-full c e p.sender refuses (omega (arith, h.counted, few)) in
            let one_refused : refused ++ (e ∷ []) ≡ refused ++ turned_away e p.sender.tx =
              rw (refuses, turned_away) refl in
            subst
              (λ R.
                IsPiped lines (events ++ (e ∷ [])) lost R
                  (record p { sender = record_event c e p.sender }))
              one_refused
              (record {
                all = rw kept (Perm-refused e _ refused lines events h.all);
                counted = one_more ∙ omega (arith, h.counted, length-append refused (e ∷ []));
                few =
                    omega
                      (arith, few, length-append refused (e ∷ []), length-append events (e ∷ []));
                bounded = h.bounded;
              })
        | inr (inr gone) ↦ absurd (open_ e p.sender.tx gone)
      ]

  consume-IsPiped :
      (lines events lost refused : List AuditEvent) (p : Pipeline) (e : AuditEvent)
      (rest : List AuditEvent) (tx : c.Tx)
      → c.queued p.sender.tx ≡ e ∷ rest
      → c.queued tx ≡ rest
      → IsPiped lines events lost refused p
      → IsPiped lines events
          (evicted works e p.writer ++ lost)
          refused
          (record { sender = record p.sender { tx = tx }; writer = receive works e p.writer })
  consume-IsPiped lines events lost refused p e rest tx at after h = record {
    all = rw after (
        Perm-consumed e (held p.writer) _ (evicted works e p.writer) lost rest refused _
          (receive-evicted works e p.writer)
          (subst (λ Q. Perm (((held p.writer ++ lost) ++ Q) ++ refused) (lines ++ events)) at
            h.all));
    counted = h.counted;
    few = h.few;
    bounded = (receive-IsAccounted works e p.writer).bounded h.bounded;
  }

  start-IsPiped :
      (lines : List AuditEvent) (tx : c.Tx)
      → c.queued tx ≡ []
      → IsPiped lines [] [] []
          (record { sender = record { tx = tx; dropped = 0 }; writer = start lines })
  start-IsPiped lines tx empty = record {
    all =
        rw (empty, append-nil lines)
          (rw (append-nil lines, append-nil lines, append-nil lines) (Perm.refl lines));
    counted = refl;
    few = omega arith;
    bounded = omega arith;
  }

  -- Whatever the order in which events are recorded and written, and whichever writes fail: while
  -- the channel is open and the counter does not wrap, every event that was recorded is in the log
  -- file, in the degraded buffer, in the channel, evicted or refused, each exactly once. Evicted is
  -- only the oldest event of a degraded buffer that was full when a write failed, and refused only
  -- what the full channel did not take; the counter counts the refused ones, and the degraded
  -- buffer keeps its cap.
  pub Run-IsPiped :
      ((e : AuditEvent) (t : c.Tx) → (c.try_send e t).0 ≢ closed)
      → (lines : List AuditEvent) (tx : c.Tx) (events lost refused : List AuditEvent) (p : Pipeline)
      → c.queued tx ≡ []
      → Run
          (record { sender = record { tx = tx; dropped = 0 }; writer = start lines })
          events
          lost
          refused
          p
      → length events < 2 ^ 64
      → IsPiped lines events lost refused p
  Run-IsPiped open_ lines tx events lost refused p empty none_yet small =
      start-IsPiped lines tx empty
  Run-IsPiped open_ lines tx events lost refused p empty
        (further {events = es} {lost = ls} {refused = rs} {q = q} r (produce e)) small =
      let short : length es + 1 < 2 ^ 64 = omega (arith, small, length-append es (e ∷ [])) in
      produce-IsPiped open_ lines es ls rs q e short
        (Run-IsPiped open_ lines tx es ls rs q empty r (omega (arith, short)))
  Run-IsPiped open_ lines tx events lost refused p empty
        (further {events = es} {lost = ls} {refused = rs} {q = q} r
          (consume {e} {rest} {tx = next} at after))
        small =
      let same_events : es ++ [] ≡ es = append-nil es in
      rw (same_events, append-nil rs)
        (consume-IsPiped lines es ls rs q e rest next at after (
          Run-IsPiped open_ lines tx es ls rs q empty r
            (subst (λ x. length x < 2 ^ 64) same_events small)))
