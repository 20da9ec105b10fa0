-- ===== src/Server/Accept/Signals.antt =====
-- When a stop signal reaches the accept loops of src/server.rs, and when it is lost.
use remo_broker.Base.{
  ℕ, ◌≡◌, ◌≢◌, refl, subst, sym, ◌∙◌, ap, Bool, true, false, ◌⊎◌, inl, inr, arith,
}
use mathlib.Core.Bool.{false≢true}
use remo_broker.Server.Accept.{
  Phase, created, polled, spawning, backing_off, stopped, Loop, notified, Turn, stop, go_on, sleep,
  accept, accept_failed, spawn, retry, Step, turn, signal, Reach, here, later, begun,
}

-- Whether the loop runs and no future holds a signal.
abbrev pub is_unsignalled : Phase → Bool
is_unsignalled (created false) = true
is_unsignalled (created true) = false
is_unsignalled (polled false) = true
is_unsignalled (polled true) = false
is_unsignalled spawning = true
is_unsignalled backing_off = true
is_unsignalled stopped = false

-- The stopping task has spoken, and no future holds what it said.
abbrev pub IsDeaf : Loop → Type 0
IsDeaf l = (l.armed ≡ false) × (is_unsignalled l.phase ≡ true)

pub Turn-IsDeaf :
    {a b : Phase} {m n : ℕ} → Turn a m b n → is_unsignalled a ≡ true → is_unsignalled b ≡ true
Turn-IsDeaf stop h = h
Turn-IsDeaf go_on h = refl
Turn-IsDeaf (sleep {woken = true}) h = h
Turn-IsDeaf (sleep {woken = false}) h = refl
Turn-IsDeaf accept h = refl
Turn-IsDeaf accept_failed h = refl
Turn-IsDeaf spawn h = refl
Turn-IsDeaf retry h = refl

Step-IsDeaf : {l m : Loop} → Step l m → IsDeaf l → IsDeaf m
Step-IsDeaf (turn t) h = (h.0, Turn-IsDeaf t h.1)
Step-IsDeaf (signal q) h = ground arith

Reach-IsDeaf : {l m : Loop} → Reach l m → IsDeaf l → IsDeaf m
Reach-IsDeaf here h = h
Reach-IsDeaf (later r s) h = Step-IsDeaf s (Reach-IsDeaf r h)

deaf_runs : {phase : Phase} → is_unsignalled phase ≡ true → phase ≢ stopped
deaf_runs h q = false≢true (sym (ap is_unsignalled q) ∙ h)

-- A signal that is given while the loop spawns a connection or backs off after a failed `accept`
-- is lost: whatever happens afterwards, the loop never stops.
pub signal_lost :
    (l : Loop) {m : Loop}
    → (l.phase ≡ spawning) ⊎ (l.phase ≡ backing_off)
    → Reach (record l { phase = notified l.phase; armed = false }) m
    → m.phase ≢ stopped
signal_lost l (inl p) r stops =
    deaf_runs (Reach-IsDeaf r (refl, ap (λ phase. is_unsignalled (notified phase)) p)).1 stops
signal_lost l (inr p) r stops =
    deaf_runs (Reach-IsDeaf r (refl, ap (λ phase. is_unsignalled (notified phase)) p)).1 stops

-- The signal is out: a future holds it, or nothing does and the loop has not seen it.
abbrev HasSpoken : Phase → Bool → Type 0
HasSpoken (created woken) armed = woken ≡ true → armed ≡ false
HasSpoken (polled woken) armed = woken ≡ true → armed ≡ false
HasSpoken spawning armed = Unit
HasSpoken backing_off armed = Unit
HasSpoken stopped armed = armed ≡ false

Turn-HasSpoken :
    {a b : Phase} {m n : ℕ} (armed : Bool) → Turn a m b n → HasSpoken a armed → HasSpoken b armed
Turn-HasSpoken armed stop h = h refl
Turn-HasSpoken armed go_on h = λ q. ground arith
Turn-HasSpoken armed (sleep {woken = true}) h = h
Turn-HasSpoken armed (sleep {woken = false}) h = h
Turn-HasSpoken armed accept h = tt
Turn-HasSpoken armed accept_failed h = tt
Turn-HasSpoken armed spawn h = λ q. ground arith
Turn-HasSpoken armed retry h = λ q. ground arith

notified-HasSpoken :
    (phase : Phase) (armed : Bool) → HasSpoken phase armed → HasSpoken (notified phase) false
notified-HasSpoken (created woken) armed h = λ _. refl
notified-HasSpoken (polled woken) armed h = λ _. refl
notified-HasSpoken spawning armed h = tt
notified-HasSpoken backing_off armed h = tt
notified-HasSpoken stopped armed h = refl

Reach-HasSpoken : {m : Loop} → Reach begun m → HasSpoken m.phase m.armed
Reach-HasSpoken here = λ q. ground arith
Reach-HasSpoken (later {m = l} r (turn t)) = Turn-HasSpoken l.armed t (Reach-HasSpoken r)
Reach-HasSpoken (later {m = l} r (signal q)) =
    notified-HasSpoken l.phase l.armed (Reach-HasSpoken r)

-- However its futures, connections, failures and waits follow on each other, an accept loop stops
-- only after the stopping task has spoken.
pub stopped_by_signal : {m : Loop} → Reach begun m → m.phase ≡ stopped → m.armed ≡ false
stopped_by_signal {m} r q = subst (λ phase. HasSpoken phase m.armed) q (Reach-HasSpoken r)
