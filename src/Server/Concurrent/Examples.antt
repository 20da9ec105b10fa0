-- ===== src/Server/Concurrent/Examples.antt =====
-- The interleaved daemon's properties at concrete inputs.
use remo_broker.Base.{
  ℕ, ◌≡◌, refl, true, false, some, none, ok, as_secs, saturate_u32, [], ◌∷◌, codes, Text, contains,
  Bool-cases, ◌==◌, inl, inr, arith,
}
use remo_broker.Base.Texts
use remo_broker.Base.Map.{lookup}
use remo_broker.Registry.Samples.{alpha, project, fresh}
use remo_broker.Audit.Bounded.{bounded}
use remo_broker.Server.Samples.{numbered, peer}
use remo_broker.Server.Concurrent.{
  Reach, put_cache, deciding, refuse, emit, reply, Request, idle, checked, Memory, System, allowed,
  set_at, admit, Step, move, here, later,
}
use remo_broker.Server.Concurrent.Provenance.{SystemSaid, Reach-Said}
use remo_broker.Server.Concurrent.Revocation.{
  IsRevoked, Readmits, none_yet, further, gifts, Run-IsRevoked,
}
use remo_broker.Server.Concurrent.Audited.{IsAudited, nothing, Reach-IsAudited}
use remo_broker.Cache
use remo_broker.Audit.{Outcome}
use remo_broker.Proto.{failed, error, denied, got, utf8}
use remo_broker.Server.Fetch.{denied_message, denial, allowance}
use remo_broker.Server.Concurrent.Alone.{Says, out}

abbrev foo : Text
foo = codes "FOO"

abbrev bar : Text
bar = codes "BAR"

-- One project, nothing cached.
abbrev memory : Memory bounded ℕ
memory = record {
  projects = λ address. project;
  next = 1;
  registered = (alpha, 0) ∷ [];
  cache_defaults = fresh.cache_defaults;
  backend = some 1;
  audit = record { tx = []; dropped = 0 };
  replies = [];
}

abbrev quiet : System bounded ℕ
quiet = record { mem = memory; pc = λ i. idle }

abbrev asked : Request
asked = record { address = 0; name = foo; peer = peer; start = 0 }

foo_allowed : allowed bounded ℕ memory asked ≡ true
unfolding contains Texts.same
foo_allowed = refl

bar_off : contains project.manifest.allowlist.secrets bar ≡ false
unfolding contains Texts.same
bar_off = refl

abbrev admitted : System bounded ℕ
admitted = record { mem = memory; pc = set_at (λ i. idle) 0 (checked asked) }

admits : Step bounded ℕ (Says bounded numbered) quiet admitted
admits = move 0 (admit {q = asked} (omega arith) foo_allowed)

quiet-Said : SystemSaid bounded ℕ (Says bounded numbered) quiet
unfolding lookup
quiet-Said = record {
  mem = record { caches = λ p n e at. absurd (ground arith); replies = tt };
  tasks = λ i. tt;
}

Reach-Said_example : SystemSaid bounded ℕ (Says bounded numbered) admitted
Reach-Said_example = Reach-Said bounded ℕ (Says bounded numbered) (later here admits) quiet-Said

quiet-IsRevoked : IsRevoked bounded ℕ (Says bounded numbered) 0 bar quiet
quiet-IsRevoked = record { there = omega arith; out = bar_off; quiet = λ i. tt }

not_readmitted : ¬ Readmits bounded ℕ (Says bounded numbered) 0 bar admitted
not_readmitted (i, m, at, on) = elim (Bool-cases (i == 0)) [
  | inl q ↦ ground arith
  | inr q ↦ ground arith
]

Run-IsRevoked_example :
    IsRevoked bounded ℕ (Says bounded numbered) 0 bar admitted × (gifts 0 bar [] ≡ gifts 0 bar [])
Run-IsRevoked_example =
    Run-IsRevoked bounded ℕ (Says bounded numbered) 0 bar (further none_yet admits not_readmitted)
      quiet-IsRevoked

-- The whole way of a value that is not cached.
abbrev after_miss : Memory bounded ℕ
after_miss = put_cache bounded ℕ memory 0 (Cache.get foo 1 project.cache).1

abbrev after_store : Memory bounded ℕ
after_store =
    put_cache bounded ℕ after_miss 0
      (Cache.insert foo (1 ∷ []) none 2 (after_miss.projects 0).cache)

abbrev after_emit : Memory bounded ℕ
after_emit =
    reply bounded ℕ after_store asked
      (got (utf8 (1 ∷ []) (saturate_u32 (as_secs (after_store.projects 0).cache.default_ttl))))
      (allowance Outcome.ok (some (codes "fnox"))) 3 9

quiet-IsAudited : IsAudited bounded ℕ (Says bounded numbered) quiet.mem.audit quiet
quiet-IsAudited = record { trail = nothing; decided = λ i. tt }

-- A request for a name that is not allowed is refused, and its client is told.
abbrev unwanted : Request
unwanted = record { address = 0; name = bar; peer = peer; start = 0 }

abbrev refusing : System bounded ℕ
refusing = record {
  mem = memory;
  pc = set_at (λ i. idle) 3 (deciding unwanted (failed (error denied (denied_message bar))) denial);
}

abbrev refused : System bounded ℕ
refused = record {
  mem = reply bounded ℕ memory unwanted (failed (error denied (denied_message bar))) denial 0 9;
  pc = set_at refusing.pc 3 idle;
}

refuses : Reach bounded ℕ (Says bounded numbered) quiet refused
refuses =
    later (later here (move 3 (refuse {q = unwanted} (omega arith) bar_off)))
      (move 3 (emit {q = unwanted} 0 9))

Reach-IsAudited_example : IsAudited bounded ℕ (Says bounded numbered) quiet.mem.audit refused
Reach-IsAudited_example =
    Reach-IsAudited bounded ℕ (Says bounded numbered) quiet.mem.audit refuses quiet-IsAudited
