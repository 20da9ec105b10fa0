-- ===== src/Server/Concurrent/Revocation.antt =====
-- What a reload of src/registry.rs takes away: a secret that left the allowlist.
use remo_broker.Base.{
  ℕ, ◌+◌, ◌<◌, ◌≡◌, refl, ap, ◌∙◌, subst, Bool, true, false, ◌&&◌, Option, List, [], ◌∷◌, Text,
  arith, ◌==◌, ==_iff, same, same_iff, contains, Result, inl, inr, if◌then◌else◌, Bool-cases,
}
use remo_broker.Manifest.{Manifest}
use remo_broker.Cache.{BoundedCache}
use remo_broker.Audit.{Channel}
use remo_broker.Proto.{ProjectResponse, got}
use remo_broker.Server.Concurrent.Tasks.{set_at-all, set_at_self}
use remo_broker.Server.Concurrent.{
  Request, Reply, Pc, idle, checked, missed, asking, fetched, inserted, deciding, loaded, bounded,
  Memory, System, Move, admit, refuse, hit, miss, no_session, ask, answer, absent, fail, store,
  read_ttl, emit, load, bound, swap, Step, move, abort, add, forget, rotate, put_cache, allowed,
}

-- A request for the name at the project's address.
abbrev pub is_for : ℕ → Text → Request → Bool
is_for p n q = (q.address == p) && same q.name n

abbrev pub is_got : ProjectResponse → Bool
is_got (got r) = true
is_got _ = false

-- How often the name was given away at the address.
abbrev pub gifts : ℕ → Text → List Reply → ℕ
gifts p n [] = 0
gifts p n (r ∷ rs) = (if is_for p n r.request && is_got r.response then 1 else 0) + gifts p n rs

module _ {F : Type 0} (p : ℕ) (n : Text) where
  -- The task is not on its way to give the name away, nor a reload to allow it.
  abbrev pub IsQuiet : Pc F → Type 0
  IsQuiet idle = Unit
  IsQuiet (checked q) = is_for p n q ≡ false
  IsQuiet (missed q) = is_for p n q ≡ false
  IsQuiet (asking q f) = is_for p n q ≡ false
  IsQuiet (fetched q v) = is_for p n q ≡ false
  IsQuiet (inserted q v) = is_for p n q ≡ false
  IsQuiet (deciding q r v) = (is_for p n q && is_got r) ≡ false
  IsQuiet (loaded j m) = ((j == p) && contains m.allowlist.secrets n) ≡ false
  IsQuiet (bounded j m) = ((j == p) && contains m.allowlist.secrets n) ≡ false

module _ (c : Channel) (F : Type 0) (says : F → Text → Result Text (Option Text) → Type 0) (p : ℕ)
    (n : Text) where
  abbrev pub off : Memory c F → Bool
  off m = contains (m.projects p).manifest.allowlist.secrets n

  -- The project's manifest does not allow the name, no task is about to give it away, and no reload
  -- is about to allow it.
  pub record IsRevoked (s : System c F) : Type 0 where
    pub there : p < s.mem.next
    pub out : off s.mem ≡ false
    pub quiet : (i : ℕ) → IsQuiet p n (s.pc i)

  -- A reload that read a manifest which allows the name again.
  abbrev pub Readmits : System c F → Type 0
  Readmits s =
      (i : ℕ) × (m : Manifest) × (s.pc i ≡ loaded p m) × (contains m.allowlist.secrets n ≡ true)

  -- States that follow on each other by steps, after none of which the name is being allowed.
  pub data Run (s : System c F) : System c F → Type 0 where
    none_yet : Run s s
    further : {t u : System c F} → Run s t → Step c F says t u → ¬ Readmits u → Run s u

  record Kept (m m' : Memory c F) (pc' : Pc F) : Type 0 where
    next : m'.next ≡ m.next
    out : off m' ≡ false
    gifts_kept : gifts p n m'.replies ≡ gifts p n m.replies
    quiet : IsQuiet p n pc'

  admitted_other :
      (m : Memory c F) (q : Request) → allowed c F m q ≡ true → off m ≡ false → is_for p n q ≡ false
  admitted_other m q on out = elim (Bool-cases (is_for p n q)) [
    | inr other ↦ other
    | inl this ↦
        let at : q.address ≡ p = ground arith in
        let named : q.name ≡ n = ground (arith, same_iff q.name n) in
        let on' : off m ≡ true =
          subst (λ j. contains (m.projects j).manifest.allowlist.secrets n ≡ true) at
            (subst (λ x. contains (m.projects q.address).manifest.allowlist.secrets x ≡ true) named
              on) in
        absurd (ground arith)
  ]

  -- Memory that differs in a cache alone.
  cached-Kept :
      (m : Memory c F) (j : ℕ) (cache : BoundedCache) (a' : Pc F)
      → off m ≡ false
      → IsQuiet p n a'
      → Kept m (put_cache c F m j cache) a'
  cached-Kept m j cache a' out own = record {
    next = refl;
    out = ground arith;
    gifts_kept = refl;
    quiet = own;
  }

  same-Kept : (m : Memory c F) (a' : Pc F) → off m ≡ false → IsQuiet p n a' → Kept m m a'
  same-Kept m a' out own = record { next = refl; out = out; gifts_kept = refl; quiet = own }

  Move-Kept :
      {m m' : Memory c F} {a a' : Pc F}
      → Move c F says m a m' a'
      → ((r : Manifest) → a' ≡ loaded p r → contains r.allowlist.secrets n ≡ false)
      → off m ≡ false
      → IsQuiet p n a
      → Kept m m' a'
  Move-Kept {m} (admit {q} known on) fresh out own =
      same-Kept m (checked q) out (admitted_other m q on out)
  Move-Kept {m} (refuse known on) fresh out own = same-Kept m _ out (ground arith)
  Move-Kept {m} (hit {q} now e) fresh out own = cached-Kept m q.address _ _ out (ground arith)
  Move-Kept {m} (miss {q} now e) fresh out own = cached-Kept m q.address _ _ out own
  Move-Kept {m} (no_session e) fresh out own = same-Kept m _ out (ground arith)
  Move-Kept {m} (ask e) fresh out own = same-Kept m _ out own
  Move-Kept {m} (answer e) fresh out own = same-Kept m _ out own
  Move-Kept {m} (absent e) fresh out own = same-Kept m _ out (ground arith)
  Move-Kept {m} (fail e) fresh out own = same-Kept m _ out (ground arith)
  Move-Kept {m} (store {q} now) fresh out own = cached-Kept m q.address _ _ out own
  Move-Kept {m} read_ttl fresh out own = same-Kept m _ out (ground arith)
  Move-Kept {m} (emit at_emit timestamp) fresh out own = record {
    next = refl;
    out = out;
    gifts_kept = ground arith;
    quiet = tt;
  }
  Move-Kept {m} (load fs name path {p = j} {manifest = r} a b) fresh out own =
      same-Kept m (loaded j r) out (elim (Bool-cases (j == p)) [
        | inr other ↦ ground arith
        | inl this ↦
            let at : j ≡ p = (==_iff j p).0 this in
            ground (arith, fresh r (ap (λ k. loaded k r) at))
      ])
  Move-Kept {m} (bound {p = j} {manifest = r}) fresh out own = cached-Kept m j _ _ out own
  Move-Kept {m} (swap {p = j} {manifest = r}) fresh out own = record {
    next = refl;
    out = ground arith;
    gifts_kept = refl;
    quiet = tt;
  }

  Step-IsRevoked :
      {s t : System c F}
      → Step c F says s t
      → ¬ Readmits t
      → IsRevoked s
      → IsRevoked t × (gifts p n t.mem.replies ≡ gifts p n s.mem.replies)
  Step-IsRevoked {s} (move i {p = a} mv) unread v =
      let k =
        Move-Kept mv
          (λ r e. elim (Bool-cases (contains r.allowlist.secrets n)) [
            | inr out ↦ out
            | inl on ↦ absurd (unread (i, r, set_at_self s.pc i a ∙ e, on))
          ])
          v.out (v.quiet i) in
      (
        record {
          there = rw k.next v.there;
          out = k.out;
          quiet = set_at-all (IsQuiet p n) s.pc i a k.quiet v.quiet;
        },
        k.gifts_kept,
      )
  Step-IsRevoked {s} (abort i waits) unread v = (
    record {
      there = v.there;
      out = v.out;
      quiet = set_at-all (IsQuiet p n) s.pc i idle tt v.quiet;
    },
    refl,
  )
  Step-IsRevoked {s} (add name project empty free) unread v = (
    record {
      there = ground (arith, v.there);
      out = ground (arith, v.there, v.out);
      quiet = v.quiet;
    },
    refl,
  )
  Step-IsRevoked (forget name) unread v =
      (record { there = v.there; out = v.out; quiet = v.quiet }, refl)
  Step-IsRevoked (rotate old new e) unread v =
      (record { there = v.there; out = v.out; quiet = v.quiet }, refl)

  -- Once a secret is off a project's allowlist, no request for it is in progress at the project,
  -- and no reload is about to allow it, it is given to no client of the project any more, however
  -- everything interleaves, its cached copy notwithstanding, until a reload reads a manifest that
  -- allows it again.
  pub Run-IsRevoked :
      {s t : System c F}
      → Run s t
      → IsRevoked s
      → IsRevoked t × (gifts p n t.mem.replies ≡ gifts p n s.mem.replies)
  Run-IsRevoked none_yet v = (v, refl)
  Run-IsRevoked (further r st unread) v =
      let (before, same_count) = Run-IsRevoked r v in
      let (after, kept) = Step-IsRevoked st unread before in (after, kept ∙ same_count)
