-- ===== src/Audit/Accounting.antt =====
-- What the writer task of src/audit.rs does with every event that it receives.
use mathlib.Core.List.{
  append-nil, append_assoc, Perm, perm_middle, perm_append_singleton, perm_append_comm,
}
use mathlib.Core.List.Perm
use remo_broker.Base.{
  ℕ, ◌+◌, ◌≤◌, ◌≡◌, refl, ap, ◌∙◌, Bool, List, [], ◌∷◌, ◌++◌, length, length-append, arith,
  Bool-cases, inl, inr, ◌==◌, if◌then◌else◌,
}
use remo_broker.Audit.{
  AuditEvent, AuditFile, Writer, write_event, drain, receive, writer_loop, push_degraded,
  degraded_buffer_cap,
}
use remo_broker.Audit.Order.{drain_keeps}

-- The events of a writer's file and buffer.
abbrev pub held : Writer → List AuditEvent
held w = w.file.lines ++ w.degraded

length-drain-le :
    (works : ℕ → Bool) (buffer : List AuditEvent) (f : AuditFile) (n : ℕ)
    → length (drain works buffer f n).degraded ≤ length buffer
unfolding drain
length-drain-le works [] f n = omega arith
length-drain-le works (e ∷ rest) f n =
    ground (arith, length-drain-le works rest (write_event works e f).1 (n + 1))

written-drain :
    (works : ℕ → Bool) (buffer : List AuditEvent) (f : AuditFile) (n : ℕ)
    → (drain works buffer f n).written + length f.lines
      ≡ n + length (drain works buffer f n).file.lines
unfolding drain write_event
written-drain works [] f n = refl
written-drain works (e ∷ rest) f n = ground (
  arith,
  written-drain works rest (record { lines = f.lines ++ (e ∷ []); attempts = f.attempts + 1 })
      (n + 1),
  length-append f.lines (e ∷ []),
)

append_end :
    (L D : List AuditEvent) (e : AuditEvent) → Perm ((L ++ (D ++ (e ∷ []))) ++ []) (e ∷ (L ++ D))
append_end L D e =
    rw (append-nil (L ++ (D ++ (e ∷ []))), ← append_assoc L D (e ∷ []))
      (perm_append_singleton e (L ++ D))

append_file :
    (L D : List AuditEvent) (e : AuditEvent) → Perm (((L ++ (e ∷ [])) ++ D) ++ []) (e ∷ (L ++ D))
append_file L D e =
    rw (append-nil ((L ++ (e ∷ [])) ++ D), append_assoc L (e ∷ []) D) (perm_middle L D)

append_dropped :
    (L bs : List AuditEvent) (b e : AuditEvent)
    → Perm ((L ++ (bs ++ (e ∷ []))) ++ (b ∷ [])) (e ∷ (L ++ (b ∷ bs)))
append_dropped L bs b e = Perm.trans (perm_append_singleton b (L ++ (bs ++ (e ∷ [])))) (
    Perm.trans (Perm.cons b (rw (← append_assoc L bs (e ∷ [])) (perm_append_singleton e (L ++ bs))))
      (Perm.trans (Perm.swap e b (L ++ bs)) (Perm.cons e (Perm.symm (perm_middle L bs)))))

-- What a failed write of one more event costs: the oldest event of a buffer that is full, and
-- nothing where there is room.
abbrev pub oldest_of_full : List AuditEvent → List AuditEvent
oldest_of_full [] = []
oldest_of_full (b ∷ bs) = if length (b ∷ bs) == degraded_buffer_cap then b ∷ [] else []

-- What the writer task loses when it receives an event: the buffer is written first, as far as the
-- writes succeed.
abbrev pub evicted : (ℕ → Bool) → AuditEvent → Writer → List AuditEvent
evicted works e w =
    let d = drain works w.degraded w.file w.written in
    if works d.file.attempts then [] else oldest_of_full d.degraded

-- What became of the events: those that are in neither the file nor the buffer are `lost`, which
-- is possible only where the buffer has run full.
pub record IsAccounted (before : Writer) (events : List AuditEvent) (after : Writer) : Type 0 where
  pub lost : List AuditEvent
  pub all : Perm (held after ++ lost) (held before ++ events)
  pub counted : after.written + length before.file.lines ≡ before.written + length after.file.lines
  pub bounded :
      length before.degraded ≤ degraded_buffer_cap → length after.degraded ≤ degraded_buffer_cap
  pub grown : length after.degraded ≤ length before.degraded + length events
  pub none_lost : length before.degraded + length events ≤ degraded_buffer_cap → lost ≡ []

-- The buffer after a push, and the event that had to go, if any.
push_degraded_lem :
    (L D : List AuditEvent) (e : AuditEvent)
    → (lost : List AuditEvent) × Perm ((L ++ push_degraded D e) ++ lost) (e ∷ (L ++ D))
      × (length D ≤ degraded_buffer_cap → length (push_degraded D e) ≤ degraded_buffer_cap)
      × (length (push_degraded D e) ≤ length D + 1)
      × (length D + 1 ≤ degraded_buffer_cap → lost ≡ [])
unfolding push_degraded
push_degraded_lem L [] e = ([], append_end L [] e, λ h. omega arith, omega arith, λ h. refl)
push_degraded_lem L (b ∷ bs) e = elim (Bool-cases (length (b ∷ bs) == degraded_buffer_cap)) [
  | inl is_full ↦ (
    b ∷ [],
    rw (is_full, push_degraded) (append_dropped L bs b e),
    λ h. rw (is_full, push_degraded) (omega (arith, length-append bs (e ∷ []))),
    rw (is_full, push_degraded) (omega (arith, length-append bs (e ∷ []))),
    λ h. absurd (ground arith),
  )
  | inr free ↦ (
    [],
    rw (free, push_degraded) (append_end L (b ∷ bs) e),
    λ h. rw (free, push_degraded) (ground (arith, length-append bs (e ∷ []))),
    rw (free, push_degraded) (omega (arith, length-append bs (e ∷ []))),
    λ h. refl,
  )
]

push_degraded-oldest :
    (L D : List AuditEvent) (e : AuditEvent)
    → Perm ((L ++ push_degraded D e) ++ oldest_of_full D) (e ∷ (L ++ D))
unfolding push_degraded
push_degraded-oldest L [] e = append_end L [] e
push_degraded-oldest L (b ∷ bs) e = elim (Bool-cases (length (b ∷ bs) == degraded_buffer_cap)) [
  | inl is_full ↦ rw (is_full, push_degraded) (append_dropped L bs b e)
  | inr free ↦ rw (free, push_degraded) (append_end L (b ∷ bs) e)
]

-- Nothing but the evicted event is lost.
pub receive-evicted :
    (works : ℕ → Bool) (e : AuditEvent) (w : Writer)
    → Perm (held (receive works e w) ++ evicted works e w) (held w ++ (e ∷ []))
unfolding receive write_event
receive-evicted works e w =
    let d = drain works w.degraded w.file w.written in
    let kept = drain_keeps works w.degraded w.file w.written in
    let whole : Perm (e ∷ (d.file.lines ++ d.degraded)) (held w ++ (e ∷ [])) =
      rw kept (Perm.symm (perm_append_singleton e (held w))) in
    elim (Bool-cases (works d.file.attempts)) [
      | inl ok ↦
          rw (ok, receive, write_event) (Perm.trans (append_file d.file.lines d.degraded e) whole)
      | inr failed ↦
          rw (failed, receive, write_event)
            (Perm.trans (push_degraded-oldest d.file.lines d.degraded e) whole)
    ]

pub receive-IsAccounted :
    (works : ℕ → Bool) (e : AuditEvent) (w : Writer) → IsAccounted w (e ∷ []) (receive works e w)
unfolding receive write_event
receive-IsAccounted works e w =
    let d = drain works w.degraded w.file w.written in
    let kept = drain_keeps works w.degraded w.file w.written in
    let short = length-drain-le works w.degraded w.file w.written in
    let count = written-drain works w.degraded w.file w.written in
    let whole : Perm (e ∷ (d.file.lines ++ d.degraded)) (held w ++ (e ∷ [])) =
      rw kept (Perm.symm (perm_append_singleton e (held w))) in
    elim (Bool-cases (works d.file.attempts)) [
      | inl ok ↦
          rw (ok, receive, write_event)
            (record {
              lost = [];
              all = Perm.trans (append_file d.file.lines d.degraded e) whole;
              counted = omega (arith, count, length-append d.file.lines (e ∷ []));
              bounded = λ h. omega (arith, short);
              grown = omega (arith, short);
              none_lost = λ h. refl;
            })
      | inr failed ↦
          let (lost, all, bounded, grown, none_lost) =
            push_degraded_lem d.file.lines d.degraded e in
          rw (failed, receive, write_event)
            (record {
              lost = lost;
              all = Perm.trans all whole;
              counted = count;
              bounded = λ h. bounded (omega (arith, short));
              grown = omega (arith, short, grown);
              none_lost = λ h. none_lost (omega (arith, short, h));
            })
    ]

pub append_swap : (X es lost : List AuditEvent) → Perm ((X ++ es) ++ lost) ((X ++ lost) ++ es)
append_swap X es lost =
    rw (append_assoc X es lost, append_assoc X lost es)
      (Perm.append_left X (perm_append_comm es lost))

IsAccounted-trans :
    (a b c : Writer) (e : AuditEvent) (es : List AuditEvent)
    → IsAccounted a (e ∷ []) b
    → IsAccounted b es c
    → IsAccounted a (e ∷ es) c
IsAccounted-trans a b c e es p q = record {
  lost = q.lost ++ p.lost;
  all = rw (← append_assoc (held c) q.lost p.lost) (
      Perm.trans (Perm.append_right p.lost q.all) (
        Perm.trans (append_swap (held b) es p.lost) (
          Perm.trans (Perm.append_right es p.all)
            (rw (append_assoc (held a) (e ∷ []) es) (Perm.refl _)))));
  counted = omega (arith, p.counted, q.counted);
  bounded = λ h. q.bounded (p.bounded h);
  grown = omega (arith, p.grown, q.grown);
  none_lost =
      λ h. ap (λ x. x ++ p.lost) (q.none_lost (omega (arith, p.grown))) ∙ p.none_lost (omega arith);
}

-- Every event that the writer task receives ends up in the file, in the degraded buffer, or lost,
-- each exactly once; the count of written events is the count of new lines; the buffer keeps its
-- cap; and nothing is lost while buffer and new events together fit the cap.
pub writer_loop-IsAccounted :
    (works : ℕ → Bool) (events : List AuditEvent) (w : Writer)
    → IsAccounted w events (writer_loop works events w)
unfolding writer_loop
writer_loop-IsAccounted works [] w = record {
  lost = [];
  all = Perm.refl _;
  counted = refl;
  bounded = λ h. h;
  grown = omega arith;
  none_lost = λ h. refl;
}
writer_loop-IsAccounted works (e ∷ es) w =
    IsAccounted-trans w (receive works e w) (writer_loop works es (receive works e w)) e es
      (receive-IsAccounted works e w) (writer_loop-IsAccounted works es (receive works e w))
