-- ===== src/Server/Projects/Advancing.antt =====
-- A request of Server/Projects goes on from one stage to the next, under the same name.
use remo_broker.Base.{
  ℕ, ◌≡◌, ◌≢◌, ◌==◌, refl, sym, ap, ◌∙◌, subst, some, true, false, Text, ◌⊎◌, inl, inr, arith,
  Bool-cases,
}
use remo_broker.Base.Map.{Map, lookup}
use remo_broker.Server.Concurrent.{set_at}
use remo_broker.Server.Projects.{LoopTask, Stage, subject, System}
use remo_broker.Server.Projects.Agreement.{
  IsAgreed, Holds, held, is_live, is_running, Holds-other, set_at-subject,
}

-- A request goes on to its next stage.
abbrev pub at_stage : ℕ → Stage → (ℕ → LoopTask) → Map ℕ → System → System
at_stage c new loops tasks t = record t {
  loops = loops;
  project_tasks = tasks;
  stages = set_at t.stages c new;
}

-- What such a step has to keep.
pub record IsKept (c : ℕ) (name : Text) (new : Stage) (loops : ℕ → LoopTask) (tasks : Map ℕ)
    (t : System) : Type 0 where
  pub about : subject (t.stages c) ≡ some name
  pub about_new : subject new ≡ some name
  pub names : (id : ℕ) → (loops id).name ≡ (t.loops id).name
  pub running : (n : Text) (id : ℕ) → lookup n t.arcs ≡ some id → is_running (loops id).life ≡ true
  pub tasks_other : (n : Text) → name ≢ n → lookup n tasks ≡ lookup n t.project_tasks
  pub holds_new : Holds (at_stage c new loops tasks t) new
  pub live : (id : ℕ) → is_live (loops id).life ≡ true → is_live (t.loops id).life ≡ true
  pub held_new :
      (id : ℕ) → is_live (loops id).life ≡ true → held (t.stages c) ≡ some id → held new ≡ some id

module _ (c : ℕ) (name : Text) (new : Stage) (loops : ℕ → LoopTask) (tasks : Map ℕ) (t : System)
    (k : IsKept c name new loops tasks t) (v : IsAgreed t) where
  abbrev u : System
  u = at_stage c new loops tasks t

  subjects : (d : ℕ) → subject (u.stages d) ≡ subject (t.stages d)
  subjects = set_at-subject t.stages c new (k.about_new ∙ sym k.about)

  others : (d : ℕ) → (d == c) ≡ false → Holds u (t.stages d)
  others d apart =
      Holds-other t u refl (λ id lt. (k.names id, lt)) (t.stages d)
        (λ n e. (refl, k.tasks_other n (λ q. ground (arith, v.exclusive c d n, k.about))))
        (v.holds d)

  holds : (d : ℕ) → Holds u (u.stages d)
  holds d = elim (Bool-cases (d == c)) [
    | inl this ↦ rw this k.holds_new
    | inr that ↦ rw that (others d that)
  ]

  accounted :
      (id : ℕ)
      → is_live (u.loops id).life ≡ true
      → (lookup (u.loops id).name u.arcs ≡ some id) ⊎ ((d : ℕ) × (held (u.stages d) ≡ some id))
  accounted id live = elim (v.accounted id (k.live id live)) [
    | inl at ↦ inl (rw (k.names id) at)
    | inr (d, q) ↦ inr (
      d,
      elim (Bool-cases (d == c)) [
        | inl this ↦
            let e : d ≡ c = ground arith in
            rw this (k.held_new id live (subst (λ i. held (t.stages i) ≡ some id) e q))
        | inr that ↦ rw that q
      ],
    )
  ]

  pub at_stage-IsAgreed : IsAgreed u
  at_stage-IsAgreed = record {
    consistent = v.consistent;
    arcs = v.arcs;
    owned = λ n id at. ground (arith, k.names id, k.running n id, v.owned n id);
    holds = holds;
    tracked = λ n free.
        let e = v.tracked n (λ d q. free d (subjects d ∙ q)) in
        k.tasks_other n (λ q. free c (subjects c ∙ k.about ∙ ap some q)) ∙ e;
    exclusive = λ d e n x y. v.exclusive d e n (sym (subjects d) ∙ x) (sym (subjects e) ∙ y);
    accounted = accounted;
  }
