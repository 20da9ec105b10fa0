-- ===== src/Server/Concurrent/Audited.antt =====
-- The audit records of the `get` requests of src/server.rs, when everything runs at once.
use remo_broker.Base.{
  ℕ, ◌+◌, ◌≤◌, ◌<◌, ◌≡◌, refl, sym, ap, ◌∙◌, subst, Option, List, [], ◌∷◌, Text, Result, inl, inr,
  ◌==◌, ==_iff, Bool-cases, arith,
}
use remo_broker.Audit.{Channel, AuditWriter, record_event}
use remo_broker.Server.{Times}
use remo_broker.Server.Fetch.{Verdict, fetch_event}
use remo_broker.Server.Fetch.Records.{Agrees}
use remo_broker.Server.Concurrent.{
  set_at, put, checked, missed, asking, fetched, inserted, loaded, bounded, idle, Reply, Pc,
  deciding, Memory, System, Move, admit, refuse, hit, miss, no_session, ask, answer, absent, fail,
  store, read_ttl, emit, load, bound, swap, Step, move, abort, add, forget, rotate, Reach, here,
  later,
}
use remo_broker.Registry.{Project}
use remo_broker.Server.Concurrent.Tasks.{set_at-all, set_at_self, set_at_ne}

module _ (c : Channel) where
  -- From the audit channel `w` on, each reply was recorded once, in the order of the replies, with
  -- the name of the request's project, the secret's name, the peer, and a verdict that says what
  -- the reply says. The projects have the addresses below `bound`.
  pub data IsTrail (names : ℕ → Text) (bound : ℕ) (w : AuditWriter c.Tx)
      : List Reply → AuditWriter c.Tx → Type 0 where
    nothing : IsTrail names bound w [] w
    recorded :
        {replies : List Reply} {before : AuditWriter c.Tx} (r : Reply) (times : Times) (v : Verdict)
        → IsTrail names bound w replies before
        → r.request.address < bound
        → Agrees r.response v
        → IsTrail names bound w (r ∷ replies) (
            record_event c
              (fetch_event (names r.request.address) r.request.name r.request.peer times v)
              before)

  -- More projects do not change it.
  IsTrail-more :
      (names names' : ℕ → Text) (n n' : ℕ) (w : AuditWriter c.Tx) {replies : List Reply}
      {after : AuditWriter c.Tx}
      → n ≤ n'
      → ((j : ℕ) → j < n → names' j ≡ names j)
      → IsTrail names n w replies after
      → IsTrail names' n' w replies after
  IsTrail-more names names' n n' w more alike nothing = nothing
  IsTrail-more names names' n n' w more alike
        (recorded {replies = replies} {before = before} r times v t known agrees) =
      subst
        (λ x.
          IsTrail names' n' w (r ∷ replies)
            (record_event c (fetch_event x r.request.name r.request.peer times v) before))
        (alike r.request.address known)
        (recorded r times v (IsTrail-more names names' n n' w more alike t)
          (omega (arith, more, known)) agrees)

module _ (c : Channel) (F : Type 0) (says : F → Text → Result Text (Option Text) → Type 0) where
  -- A task's project is there, and a task that is about to reply has a verdict that says what its
  -- answer says.
  abbrev IsDecided : ℕ → Pc F → Type 0
  IsDecided n (checked q) = q.address < n
  IsDecided n (missed q) = q.address < n
  IsDecided n (asking q f) = q.address < n
  IsDecided n (fetched q v) = q.address < n
  IsDecided n (inserted q v) = q.address < n
  IsDecided n (deciding q r v) = (q.address < n) × Agrees r v
  IsDecided n _ = Unit

  IsDecided-more : (n : ℕ) (a : Pc F) → IsDecided n a → IsDecided (n + 1) a
  IsDecided-more n idle d = tt
  IsDecided-more n (checked q) d = omega (arith, d)
  IsDecided-more n (missed q) d = omega (arith, d)
  IsDecided-more n (asking q f) d = omega (arith, d)
  IsDecided-more n (fetched q v) d = omega (arith, d)
  IsDecided-more n (inserted q v) d = omega (arith, d)
  IsDecided-more n (deciding q r v) d = (omega (arith, d.0), d.1)
  IsDecided-more n (loaded p m) d = tt
  IsDecided-more n (bounded p m) d = tt

  abbrev pub names_of : Memory c F → ℕ → Text
  names_of m p = (m.projects p).name

  abbrev pub MemoryTrail : AuditWriter c.Tx → Memory c F → Type 0
  MemoryTrail w m = IsTrail c (names_of m) m.next w m.replies m.audit

  pub record IsAudited (w : AuditWriter c.Tx) (s : System c F) : Type 0 where
    pub trail : MemoryTrail w s.mem
    pub decided : (i : ℕ) → IsDecided s.mem.next (s.pc i)

  -- A project that is put in place of one of its name.
  put-MemoryTrail :
      (w : AuditWriter c.Tx) (m : Memory c F) (p : ℕ) (project : Project)
      → project.name ≡ (m.projects p).name
      → MemoryTrail w m
      → MemoryTrail w (put c F m p project)
  put-MemoryTrail w m p project named t =
      IsTrail-more c (names_of m) (names_of (put c F m p project)) m.next m.next w (omega arith)
        (λ j known. elim (Bool-cases (j == p)) [
          | inl q ↦
              let e : j ≡ p = (==_iff j p).0 q in
              ap (λ k. (set_at m.projects p project k).name) e
              ∙ ap (λ (x : Project). x.name) (set_at_self m.projects p project)
              ∙ named
              ∙ ap (names_of m) (sym e)
          | inr q ↦
              ap (λ (x : Project). x.name)
                (set_at_ne m.projects p j project (λ e. ground (arith, ==_iff j p)))
        ])
        t

  Move-IsAudited :
      (w : AuditWriter c.Tx) {m m' : Memory c F} {a a' : Pc F}
      → Move c F says m a m' a'
      → MemoryTrail w m
      → IsDecided m.next a
      → MemoryTrail w m' × (m'.next ≡ m.next) × IsDecided m.next a'
  Move-IsAudited w (admit known on) t d = (t, refl, known)
  Move-IsAudited w (refuse known out) t d = (t, refl, (known, (refl, refl, refl)))
  Move-IsAudited w {m} (hit {q = q} now e) t d =
      (put-MemoryTrail w m q.address _ refl t, refl, (d, (refl, refl, refl, inl refl)))
  Move-IsAudited w {m} (miss {q = q} now e) t d = (put-MemoryTrail w m q.address _ refl t, refl, d)
  Move-IsAudited w (no_session e) t d = (t, refl, (d, (refl, refl, refl)))
  Move-IsAudited w (ask e) t d = (t, refl, d)
  Move-IsAudited w (answer h) t d = (t, refl, d)
  Move-IsAudited w (absent h) t d = (t, refl, (d, (refl, refl, refl)))
  Move-IsAudited w (fail h) t d = (t, refl, (d, (refl, refl, refl)))
  Move-IsAudited w {m} (store {q = q} now) t d = (put-MemoryTrail w m q.address _ refl t, refl, d)
  Move-IsAudited w read_ttl t d = (t, refl, (d, (refl, refl, refl, inr refl)))
  Move-IsAudited w (emit {q = q} {r = r} {v = v} at_emit timestamp) t d = (
    recorded (record { request = q; response = r })
        (record {
          start = q.start;
          at_lookup = q.start;
          at_insert = q.start;
          at_emit = at_emit;
          timestamp = timestamp;
        })
        v t d.0 d.1,
    refl,
    tt,
  )
  Move-IsAudited w (load fs name path e k) t d = (t, refl, tt)
  Move-IsAudited w {m} (bound {p = p}) t d = (put-MemoryTrail w m p _ refl t, refl, tt)
  Move-IsAudited w {m} (swap {p = p}) t d = (put-MemoryTrail w m p _ refl t, refl, tt)

  Step-IsAudited :
      (w : AuditWriter c.Tx) {s t : System c F} → Step c F says s t → IsAudited w s → IsAudited w t
  Step-IsAudited w {s} (move i {m = m'} {p = p} mv) h =
      let (trail, same_next, own) = Move-IsAudited w mv h.trail (h.decided i) in
      record {
        trail = trail;
        decided = rw same_next (set_at-all (IsDecided s.mem.next) s.pc i p own h.decided);
      }
  Step-IsAudited w {s} (abort i waits) h = record {
    trail = h.trail;
    decided = set_at-all (IsDecided s.mem.next) s.pc i idle tt h.decided;
  }
  Step-IsAudited w {s} (add name project e k) h = record {
    trail =
        IsTrail-more c (names_of s.mem) _ s.mem.next (s.mem.next + 1) w (omega arith)
          (λ j known.
            ap (λ (x : Project). x.name)
              (set_at_ne s.mem.projects s.mem.next j project (λ q. omega (arith, known, q))))
          h.trail;
    decided = λ i. IsDecided-more s.mem.next (s.pc i) (h.decided i);
  }
  Step-IsAudited w (forget name) h = record { trail = h.trail; decided = h.decided }
  Step-IsAudited w (rotate old new e) h = record { trail = h.trail; decided = h.decided }

  -- However the requests interleave with each other, with reloads, rotations, registrations and
  -- removals, every answer has been recorded, once and before the next answer, with the name of its
  -- project, the name of the secret, the peer, and a verdict that agrees with the answer; and
  -- nothing else has been recorded.
  pub Reach-IsAudited :
      (w : AuditWriter c.Tx) {s t : System c F} → Reach c F says s t → IsAudited w s → IsAudited w t
  Reach-IsAudited w here h = h
  Reach-IsAudited w (later r st) h = Step-IsAudited w st (Reach-IsAudited w r h)
