-- ===== src/Server/Projects/Forgotten.antt =====
-- A loop of Server/Projects whose project is out of the registry, and that no request is about to
-- tell.
use remo_broker.Base.{
  ℕ, ◌≡◌, ◌≢◌, ◌<◌, ◌==◌, sym, ap, ◌∙◌, some, true, Text, inl, inr, arith, Bool-cases,
}
use remo_broker.Base.Map.{lookup, lookup-insert, lookup-remove}
use remo_broker.Server.Projects.{
  System, Step, registered, refused, kept, removed, notified, took, untracked, joined, aborted,
  unlinked, moved, Reach, here, later,
}
use remo_broker.Server.Projects.Signals.{is_untold, about_to_tell, Advance-untold}

pub record IsForgotten (id : ℕ) (t : System) : Type 0 where
  pub old : id < t.next
  pub absent : (name : Text) → lookup name t.arcs ≢ some id
  pub unmeant : (c : ℕ) → about_to_tell (t.stages c) ≢ some id
  pub untold : is_untold (t.loops id).life ≡ true

-- Such a loop stays one: nobody ever tells it to stop.
Step-IsForgotten : {t u : System} (id : ℕ) → Step t u → IsForgotten id t → IsForgotten id u
Step-IsForgotten {t} id (registered c o name path p reg s i e) v = record {
  old = ground (arith, v.old);
  absent = λ n at. v.absent n (ground (arith, lookup-insert name n t.next t.arcs, v.old));
  unmeant = λ d h. v.unmeant d (ground arith);
  untold = ground (arith, v.old, v.untold);
}
Step-IsForgotten id (refused c o name path e reg s i q) v = record {
  old = v.old;
  absent = v.absent;
  unmeant = v.unmeant;
  untold = v.untold;
}
Step-IsForgotten id (kept c name j q) v = record {
  old = v.old;
  absent = v.absent;
  unmeant = λ d h. v.unmeant d (ground arith);
  untold = v.untold;
}
Step-IsForgotten {t} id (removed c name j p reg i at e) v = record {
  old = v.old;
  absent = λ n q. v.absent n (ground (arith, lookup-remove name n t.arcs));
  unmeant = λ d h. elim (Bool-cases (d == c)) [
    | inl this ↦ v.absent name (at ∙ ground arith)
    | inr that ↦ v.unmeant d (ground arith)
  ];
  untold = v.untold;
}
Step-IsForgotten {t} id (notified c name j p q) v =
    let apart : id ≢ j = λ e. v.unmeant c (ap about_to_tell q ∙ ap some (sym e)) in
    record {
      old = v.old;
      absent = v.absent;
      unmeant = λ d h. v.unmeant d (ground arith);
      untold = ground (arith, v.untold);
    }
Step-IsForgotten id (took c name j p q) v = record {
  old = v.old;
  absent = v.absent;
  unmeant = λ d h. v.unmeant d (ground arith);
  untold = v.untold;
}
Step-IsForgotten id (untracked c name j p q) v = record {
  old = v.old;
  absent = v.absent;
  unmeant = λ d h. v.unmeant d (ground arith);
  untold = v.untold;
}
Step-IsForgotten id (joined c name j p handle q ended) v = record {
  old = v.old;
  absent = v.absent;
  unmeant = λ d h. v.unmeant d (ground arith);
  untold = v.untold;
}
Step-IsForgotten id (aborted c name j p handle q) v = record {
  old = v.old;
  absent = v.absent;
  unmeant = λ d h. v.unmeant d (ground arith);
  untold = ground (arith, v.untold);
}
Step-IsForgotten id (unlinked c faults name j p q) v = record {
  old = v.old;
  absent = v.absent;
  unmeant = λ d h. v.unmeant d (ground arith);
  untold = v.untold;
}
Step-IsForgotten id (moved j life m) v = record {
  old = v.old;
  absent = v.absent;
  unmeant = v.unmeant;
  untold = ground (arith, v.untold, Advance-untold m);
}

pub Reach-IsForgotten : {t u : System} (id : ℕ) → Reach t u → IsForgotten id t → IsForgotten id u
Reach-IsForgotten id here v = v
Reach-IsForgotten id (later r st) v = Step-IsForgotten id st (Reach-IsForgotten id r v)
