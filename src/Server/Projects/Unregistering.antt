-- ===== src/Server/Projects/Unregistering.antt =====
-- The steps of `dispatch_unregister` between which it waits, and those of the accept loops, in
-- Server/Projects.
use remo_broker.Base.{ℕ, ◌≡◌, ◌≢◌, refl, subst, none, some, true, Text, same_iff, same_refl, arith}
use remo_broker.Base.Map.{lookup, remove, lookup-remove}
use remo_broker.Registry.{Project}
use remo_broker.Server.Accept.Signals.{Turn-IsDeaf}
use remo_broker.Server.Projects.{
  Life, spawned, looping, over, told, Advance, start, turn, finish, Stage, telling, taking,
  awaiting, unlinking, System, set_life,
}
use remo_broker.Server.Projects.Agreement.{IsAgreed, Holds, is_live, is_running, Holds-other}
use remo_broker.Server.Projects.Advancing.{at_stage, IsKept, at_stage-IsAgreed}

live_told : (life : Life) → is_live (told life) ≡ is_live life
live_told spawned = refl
live_told (looping phase) = refl
live_told over = refl

module _ (t : System) (c : ℕ) (name : Text) (id : ℕ) (p : Project) (v : IsAgreed t) where
  pub busy : {stage : Stage} → t.stages c ≡ stage → Holds t stage
  busy e = subst (Holds t) e (v.holds c)

  notified-IsKept :
      t.stages c ≡ telling name id p
      → IsKept c name (taking name id p) (set_life id (told (t.loops id).life) t) t.project_tasks t
  notified-IsKept e =
      let h = busy e in
      record {
        about = rw e refl;
        about_new = refl;
        names = λ i. ground arith;
        running = λ n i at. ground (arith, v.owned n i at, h);
        tasks_other = λ n apart. refl;
        holds_new = ground (arith, h);
        live = λ i l. ground (arith, live_told (t.loops id).life);
        held_new = λ i l q. ground arith;
      }

  took-IsKept :
      t.stages c ≡ taking name id p
      → IsKept c name
          (awaiting name id p (lookup name t.project_tasks))
          t.loops
          (remove name t.project_tasks)
          t
  took-IsKept e =
      let h = busy e in
      record {
        about = rw e refl;
        about_new = refl;
        names = λ i. refl;
        running = λ n i at. (v.owned n i at).1;
        tasks_other =
            λ n apart. ground (arith, lookup-remove name n t.project_tasks, same_iff name n);
        holds_new = ground (arith, h, lookup-remove name name t.project_tasks, same_refl name);
        live = λ i l. l;
        held_new = λ i l q. ground arith;
      }

  joined-IsKept :
      (handle : ℕ)
      → t.stages c ≡ awaiting name id p (some handle)
      → (t.loops handle).life ≡ over
      → IsKept c name (unlinking name id p) t.loops t.project_tasks t
  joined-IsKept handle e ended =
      let h = busy e in
      record {
        about = rw e refl;
        about_new = refl;
        names = λ i. refl;
        running = λ n i at. (v.owned n i at).1;
        tasks_other = λ n apart. refl;
        holds_new = ground (arith, h);
        live = λ i l. l;
        held_new = λ i l q. absurd (ground arith);
      }

  aborted-IsKept :
      (handle : ℕ)
      → t.stages c ≡ awaiting name id p (some handle)
      → IsKept c name (unlinking name id p) (set_life handle over t) t.project_tasks t
  aborted-IsKept handle e =
      let h = busy e in
      record {
        about = rw e refl;
        about_new = refl;
        names = λ i. ground arith;
        running = λ n i at. ground (arith, v.owned n i at, h);
        tasks_other = λ n apart. refl;
        holds_new = ground (arith, h);
        live = λ i l. ground arith;
        held_new = λ i l q. absurd (ground arith);
      }

  pub notified-IsAgreed :
      t.stages c ≡ telling name id p
      → IsAgreed
          (at_stage c (taking name id p) (set_life id (told (t.loops id).life) t) t.project_tasks t)
  notified-IsAgreed e = at_stage-IsAgreed _ _ _ _ _ t (notified-IsKept e) v

  pub took-IsAgreed :
      t.stages c ≡ taking name id p
      → IsAgreed (
          at_stage c
            (awaiting name id p (lookup name t.project_tasks))
            t.loops
            (remove name t.project_tasks)
            t)
  took-IsAgreed e = at_stage-IsAgreed _ _ _ _ _ t (took-IsKept e) v

  pub joined-IsAgreed :
      (handle : ℕ)
      → t.stages c ≡ awaiting name id p (some handle)
      → (t.loops handle).life ≡ over
      → IsAgreed (at_stage c (unlinking name id p) t.loops t.project_tasks t)
  joined-IsAgreed handle e ended = at_stage-IsAgreed _ _ _ _ _ t (joined-IsKept handle e ended) v

  pub aborted-IsAgreed :
      (handle : ℕ)
      → t.stages c ≡ awaiting name id p (some handle)
      → IsAgreed (at_stage c (unlinking name id p) (set_life handle over t) t.project_tasks t)
  aborted-IsAgreed handle e = at_stage-IsAgreed _ _ _ _ _ t (aborted-IsKept handle e) v

  pub untracked_never : t.stages c ≢ awaiting name id p none
  untracked_never e = let h = busy e in cc h.1

-- A loop moves by itself: it goes on running if nothing has told it to stop.
Advance-runs : {a b : Life} → Advance a b → is_running a ≡ true → is_running b ≡ true
Advance-runs start h = refl
Advance-runs (turn t) h = Turn-IsDeaf t h
Advance-runs finish h = h

Advance-live : {a b : Life} → Advance a b → is_live a ≡ true
Advance-live start = refl
Advance-live (turn t) = refl
Advance-live finish = refl

pub moved-IsAgreed :
    (t : System) (id : ℕ) (life : Life)
    → Advance (t.loops id).life life
    → IsAgreed t
    → IsAgreed (record t { loops = set_life id life t })
moved-IsAgreed t id life m v = record {
  consistent = v.consistent;
  arcs = v.arcs;
  owned = λ n i at. ground (arith, v.owned n i at, Advance-runs m);
  holds = λ d.
      Holds-other t (record t { loops = set_life id life t }) refl (λ i lt. (ground arith, lt))
        (t.stages d) (λ n e. (refl, refl)) (v.holds d);
  tracked = v.tracked;
  exclusive = v.exclusive;
  accounted = λ i live. ground (arith, v.accounted i, Advance-live m);
}
