-- ===== src/Audit/Sending.antt =====
-- The producer side of src/audit.rs: `AuditWriter::record`.
use mathlib.Core.List.{append-nil, append_assoc, Sublist, nil-sublist}
use mathlib.Core.List.Sublist
use remo_broker.Base.{
  ◌+◌, ◌<◌, ◌^◌, ◌≡◌, ◌≢◌, refl, sym, ap, ◌∙◌, List, [], ◌∷◌, ◌++◌, length, arith, inl, inr, ◌⊎◌,
}
use remo_broker.Audit.{
  AuditEvent, AuditWriter, Channel, SendResult, sent, full, closed, record_event,
}

pub SendResult-cases : (r : SendResult) → (r ≡ sent) ⊎ ((r ≡ full) ⊎ (r ≡ closed))
SendResult-cases sent = inl refl
SendResult-cases full = inr (inl refl)
SendResult-cases closed = inr (inr refl)

module _ (c : Channel) where
  pub record_event-sent :
      (e : AuditEvent) (w : AuditWriter c.Tx)
      → (c.try_send e w.tx).0 ≡ sent
      → (c.queued (record_event c e w).tx ≡ c.queued w.tx ++ (e ∷ []))
        × ((record_event c e w).dropped ≡ w.dropped)
  unfolding record_event
  record_event-sent e w h =
      (rw (h, record_event) (c.sent_appends e w.tx h), rw (h, record_event) refl)

  pub record_event-full :
      (e : AuditEvent) (w : AuditWriter c.Tx)
      → (c.try_send e w.tx).0 ≡ full
      → w.dropped + 1 < 2 ^ 64
      → (c.queued (record_event c e w).tx ≡ c.queued w.tx)
        × ((record_event c e w).dropped ≡ w.dropped + 1)
  unfolding record_event
  record_event-full e w h small =
      (rw (h, record_event) (c.full_keeps e w.tx h), rw (h, record_event) (omega arith))

  -- Calls of `record`, one after another.
  pub record_all : List AuditEvent → AuditWriter c.Tx → AuditWriter c.Tx
  record_all [] w = w
  record_all (e ∷ es) w = record_all es (record_event c e w)

  -- What the channel took is a part of the events, in their order, and each of the others is
  -- counted.
  pub record IsSent (events : List AuditEvent) (before after : AuditWriter c.Tx) : Type 0 where
    pub taken : List AuditEvent
    pub part : Sublist taken events
    pub queued : c.queued after.tx ≡ c.queued before.tx ++ taken
    pub counted : after.dropped + length taken ≡ before.dropped + length events

  -- While the channel is open and the counter does not wrap, the events recorded are queued in
  -- their order, but for those refused by a full channel, each of which the counter counts.
  pub record_all-IsSent :
      ((e : AuditEvent) (t : c.Tx) → (c.try_send e t).0 ≢ closed)
      → (events : List AuditEvent) (w : AuditWriter c.Tx) → w.dropped + length events < 2 ^ 64
      → IsSent events w (record_all events w)
  unfolding record_all
  record_all-IsSent open_ [] w small = record {
    taken = [];
    part = nil-sublist [];
    queued = sym (append-nil (c.queued w.tx));
    counted = refl;
  }
  record_all-IsSent open_ (e ∷ es) w small = elim (SendResult-cases (c.try_send e w.tx).0) [
    | inr (inr bad) ↦ absurd (open_ e w.tx bad)
    | inl good ↦
        let (queued, count) = record_event-sent e w good in
        let rest = record_all-IsSent open_ es (record_event c e w) (omega (arith, count)) in
        record {
          taken = e ∷ rest.taken;
          part = Sublist.cons-cons e rest.part;
          queued =
              rest.queued
              ∙ ap (λ q. q ++ rest.taken) queued
              ∙ append_assoc (c.queued w.tx) (e ∷ []) rest.taken;
          counted = omega (arith, rest.counted, count);
        }
    | inr (inl refused) ↦
        let (queued, count) = record_event-full e w refused (omega arith) in
        let rest = record_all-IsSent open_ es (record_event c e w) (omega (arith, count)) in
        record {
          taken = rest.taken;
          part = Sublist.cons e rest.part;
          queued = rest.queued ∙ ap (λ q. q ++ rest.taken) queued;
          counted = omega (arith, rest.counted, count);
        }
  ]
