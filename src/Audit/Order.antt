-- ===== src/Audit/Order.antt =====
-- The order in which the writer task of src/audit.rs puts events into the log.
use mathlib.Core.List.{append-nil, append_assoc}
use remo_broker.Base.{
  ℕ, ◌+◌, ◌≡◌, refl, sym, ap, ◌∙◌, Bool, true, false, List, [], ◌∷◌, ◌++◌, arith, Bool-cases, inl,
  inr,
}
use remo_broker.Audit.{AuditEvent, AuditFile, Writer, write_event, drain, receive, writer_loop}

-- A write that works appends its event.
lines-write_event :
    (works : ℕ → Bool) (e : AuditEvent) (f : AuditFile)
    → works f.attempts ≡ true
    → (write_event works e f).1.lines ≡ f.lines ++ (e ∷ [])
unfolding write_event
lines-write_event works e f h = rw h

-- Draining moves events from the front of the buffer to the end of the file, in order, and loses
-- none.
pub drain_keeps :
    (works : ℕ → Bool) (buffer : List AuditEvent) (f : AuditFile) (n : ℕ)
    → (drain works buffer f n).file.lines ++ (drain works buffer f n).degraded ≡ f.lines ++ buffer
unfolding drain write_event
drain_keeps works [] f n = refl
drain_keeps works (e ∷ rest) f n = elim (Bool-cases (works f.attempts)) [
  | inl ok ↦
      rw (ok, drain, write_event)
        (drain_keeps works rest (write_event works e f).1 (n + 1)
          ∙ ap (λ x. x ++ rest) (lines-write_event works e f ok)
          ∙ append_assoc f.lines (e ∷ []) rest)
  | inr failed ↦ ground arith
]

pub drain_all :
    (works : ℕ → Bool) (buffer : List AuditEvent) (f : AuditFile) (n : ℕ)
    → ((k : ℕ) → works k ≡ true)
    → (drain works buffer f n).degraded ≡ []
unfolding drain write_event
drain_all works [] f n h = refl
drain_all works (e ∷ rest) f n h =
    rw (h f.attempts, drain, write_event) (drain_all works rest _ _ h)

-- While every write works, one more event flushes the buffer first and then follows it, so that
-- the file holds everything in the order of arrival.
pub receive_flushes :
    (works : ℕ → Bool) (e : AuditEvent) (w : Writer)
    → ((k : ℕ) → works k ≡ true)
    → ((receive works e w).file.lines ≡ w.file.lines ++ w.degraded ++ (e ∷ []))
      × ((receive works e w).degraded ≡ [])
unfolding receive write_event
receive_flushes works e w h =
    let d = drain works w.degraded w.file w.written in
    let empty = drain_all works w.degraded w.file w.written h in
    let kept = drain_keeps works w.degraded w.file w.written in
    let lines : d.file.lines ≡ w.file.lines ++ w.degraded =
      sym (append-nil d.file.lines) ∙ ap (λ x. d.file.lines ++ x) (sym empty) ∙ kept in
    (
      rw (h d.file.attempts, receive, write_event) (ap (λ x. x ++ (e ∷ [])) lines),
      rw (h d.file.attempts, receive, write_event) empty,
    )

-- With a disk that works throughout, the log ends up as what was there, then what was buffered,
-- then every event received, in the order of arrival, and the buffer is empty.
pub writer_loop_in_order :
    (works : ℕ → Bool) (e : AuditEvent) (events : List AuditEvent) (w : Writer)
    → ((k : ℕ) → works k ≡ true)
    → ((writer_loop works (e ∷ events) w).file.lines ≡ w.file.lines ++ w.degraded ++ (e ∷ events))
      × ((writer_loop works (e ∷ events) w).degraded ≡ [])
unfolding writer_loop
writer_loop_in_order works e [] w h = receive_flushes works e w h
writer_loop_in_order works e (e' ∷ events) w h =
    let (lines, empty) = receive_flushes works e w h in
    let (rest, done) = writer_loop_in_order works e' events (receive works e w) h in
    (
      rest
          ∙ ap (λ x. x ++ (e' ∷ events))
              (ap (λ d. (receive works e w).file.lines ++ d) empty
                ∙ append-nil (receive works e w).file.lines
                ∙ lines)
          ∙ append_assoc (w.file.lines ++ w.degraded) (e ∷ []) (e' ∷ events),
      done,
    )

-- A drain stops at the first write that fails.
drain_stuck :
    (works : ℕ → Bool) (old : AuditEvent) (rest : List AuditEvent) (f : AuditFile) (n : ℕ)
    → works f.attempts ≡ false
    → drain works (old ∷ rest) f n
      ≡ record { file = record f { attempts = f.attempts + 1 }; degraded = old ∷ rest; written = n }
unfolding drain write_event
drain_stuck works old rest f n h = ground arith

-- A write that fails and then one that works put a newer event ahead of an older one: where the
-- buffer is not empty, the write of its oldest event fails and the next write works, the new event
-- goes to the file and all of the buffer stays behind it.
pub receive_overtakes :
    (works : ℕ → Bool) (e old : AuditEvent) (rest : List AuditEvent) (w : Writer)
    → w.degraded ≡ old ∷ rest
    → works w.file.attempts ≡ false
    → works (w.file.attempts + 1) ≡ true
    → ((receive works e w).file.lines ≡ w.file.lines ++ (e ∷ []))
      × ((receive works e w).degraded ≡ old ∷ rest)
unfolding receive write_event
receive_overtakes works e old rest w h bad good =
    let stuck = drain_stuck works old rest w.file w.written bad in
    (ground (arith, stuck), ground (arith, stuck))
