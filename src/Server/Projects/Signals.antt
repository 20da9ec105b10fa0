-- ===== src/Server/Projects/Signals.antt =====
-- Whom the stop signals of `dispatch_unregister` reach in Server/Projects, also where requests
-- overlap.
use remo_broker.Base.{
  ℕ, ◌≡◌, ◌≢◌, ◌<◌, ◌==◌, refl, ap, ◌∙◌, Option, none, some, Bool, true, Text, same_iff, inl, inr,
  arith, Bool-cases,
}
use remo_broker.Base.Map.{lookup, lookup-insert, lookup-remove}
use remo_broker.Registry.{CacheDefaults}
use remo_broker.Registry.Disk.{Sockets}
use remo_broker.Server.Accept.Signals.{is_unsignalled, Turn-IsDeaf}
use remo_broker.Server.Concurrent.{set_at}
use remo_broker.Server.Projects.{
  Life, spawned, looping, over, Advance, start, turn, finish, Stage, idle, keeping, telling, taking,
  awaiting, unlinking, System, Step, registered, refused, kept, removed, notified, took, untracked,
  joined, aborted, unlinked, moved, Reach, here, later, just_started,
}

-- The loop has not been told to stop; it may have been aborted.
abbrev pub is_untold : Life → Bool
is_untold spawned = true
is_untold (looping phase) = is_unsignalled phase
is_untold over = true

pub Advance-untold : {a b : Life} → Advance a b → is_untold a ≡ true → is_untold b ≡ true
Advance-untold start h = refl
Advance-untold (turn t) h = Turn-IsDeaf t h
Advance-untold finish h = refl

-- The project whose loop a request is about to tell.
abbrev pub about_to_tell : Stage → Option ℕ
about_to_tell idle = none
about_to_tell (keeping name id) = none
about_to_tell (telling name id p) = some id
about_to_tell (taking name id p) = none
about_to_tell (awaiting name id p handle) = none
about_to_tell (unlinking name id p) = none

pub record IsDiscreet (t : System) : Type 0 where
  pub owned :
      (name : Text) (id : ℕ)
      → lookup name t.arcs ≡ some id
      → ((t.loops id).name ≡ name) × (is_untold (t.loops id).life ≡ true) × (id < t.next)
  pub meant :
      (c id : ℕ)
      → about_to_tell (t.stages c) ≡ some id
      → (id < t.next) × ((name : Text) → lookup name t.arcs ≢ some id)

-- A step that tells nobody and begins to tell nobody.
module _ (t : System) (c : ℕ) (new : Stage) (quiet : about_to_tell new ≡ none)
    (v : IsDiscreet t) where
  meant_still :
      (d id : ℕ)
      → about_to_tell (set_at t.stages c new d) ≡ some id
      → (id < t.next) × ((name : Text) → lookup name t.arcs ≢ some id)
  meant_still d id h = v.meant d id (ground arith)

Step-IsDiscreet : {t u : System} → Step t u → IsDiscreet t → IsDiscreet u
Step-IsDiscreet {t} (registered c o name path p reg s i e) v = record {
  owned =
      λ n id at. ground (arith, lookup-insert name n t.next t.arcs, same_iff name n, v.owned n id);
  meant = λ d id h.
      let m = meant_still t c (keeping name t.next) refl v d id h in
      (ground arith, λ n at. m.1 n (ground (arith, lookup-insert name n t.next t.arcs)));
}
Step-IsDiscreet (refused c o name path e reg s i q) v = record { owned = v.owned; meant = v.meant }
Step-IsDiscreet {t} (kept c name id q) v = record {
  owned = v.owned;
  meant = meant_still t c idle refl v;
}
Step-IsDiscreet {t} (removed c name id p reg i at e) v = record {
  owned = λ n j q. v.owned n j (ground (arith, lookup-remove name n t.arcs));
  meant = λ d j h. elim (Bool-cases (d == c)) [
    | inl this ↦
        let same_id : id ≡ j = ground arith in
        (
          ground (arith, v.owned name id at),
          λ n q. ground (
            arith,
            lookup-remove name n t.arcs,
            same_iff name n,
            v.owned name id at,
            v.owned n j,
          ),
        )
    | inr that ↦
        let m = v.meant d j (ground arith) in
        (m.0, λ n q. m.1 n (ground (arith, lookup-remove name n t.arcs)))
  ];
}
Step-IsDiscreet {t} (notified c name id p q) v =
    let mine = v.meant c id (ap about_to_tell q) in
    record {
      owned = λ n j at.
          let apart : j ≢ id = λ e. mine.1 n (at ∙ ap some e) in ground (arith, v.owned n j at);
      meant = meant_still t c (taking name id p) refl v;
    }
Step-IsDiscreet {t} (took c name id p q) v = record {
  owned = v.owned;
  meant = meant_still t c (awaiting name id p (lookup name t.project_tasks)) refl v;
}
Step-IsDiscreet {t} (untracked c name id p q) v = record {
  owned = v.owned;
  meant = meant_still t c (unlinking name id p) refl v;
}
Step-IsDiscreet {t} (joined c name id p handle q ended) v = record {
  owned = v.owned;
  meant = meant_still t c (unlinking name id p) refl v;
}
Step-IsDiscreet {t} (aborted c name id p handle q) v = record {
  owned = λ n j at. ground (arith, v.owned n j at);
  meant = meant_still t c (unlinking name id p) refl v;
}
Step-IsDiscreet {t} (unlinked c faults name id p q) v = record {
  owned = v.owned;
  meant = meant_still t c idle refl v;
}
Step-IsDiscreet {t} (moved id life m) v = record {
  owned = λ n j at. ground (arith, v.owned n j at, Advance-untold m);
  meant = v.meant;
}

Reach-IsDiscreet : {s t : System} → IsDiscreet s → Reach s t → IsDiscreet t
Reach-IsDiscreet v here = v
Reach-IsDiscreet v (later r st) = Step-IsDiscreet st (Reach-IsDiscreet v r)

pub just_started-IsDiscreet :
    (socket_dir : Text) (defaults : CacheDefaults) (sockets : Sockets)
    → IsDiscreet (just_started socket_dir defaults sockets)
unfolding lookup
just_started-IsDiscreet socket_dir defaults sockets = record {
  owned = λ n id at. absurd (ground arith);
  meant = λ c id h. absurd (ground arith);
}

-- Before the shutdown begins, in every run of register and unregister requests and accept loops,
-- also where requests about one name overlap, the loop of a registered project is the one that was
-- spawned for its name, and no stop signal has reached it: it is running, or over.
pub Reach-untold :
    (socket_dir : Text) (defaults : CacheDefaults) (sockets : Sockets) {t : System} (name : Text)
    (id : ℕ)
    → Reach (just_started socket_dir defaults sockets) t
    → lookup name t.arcs ≡ some id
    → ((t.loops id).name ≡ name) × (is_untold (t.loops id).life ≡ true)
Reach-untold socket_dir defaults sockets name id r at =
    let v = Reach-IsDiscreet (just_started-IsDiscreet socket_dir defaults sockets) r in
    let mine = v.owned name id at in (mine.0, mine.1)
