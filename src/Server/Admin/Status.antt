-- ===== src/Server/Admin/Status.antt =====
-- `dispatch_status` of src/server.rs against the registry.
use mathlib.Core.Option
use remo_broker.Base.{◌≡◌, refl, [], ◌∷◌, map, find, All, Text, same, arith}
use remo_broker.Base.Map.{Map, lookup, lookup-All}
use remo_broker.Registry.{Project}
use remo_broker.Server.Admin.{Daemon, Outside, dispatch_status, status_of}
use remo_broker.Server.Admin.Serving.{IsServing}

abbrev IsNamed : Text × Project → Type 0
IsNamed (k, p) = p.name ≡ k

find-map :
    (name : Text) (m : Map Project)
    → All IsNamed m
    → find (λ s. same s.name name) (map status_of m)
      ≡ Option.map (λ p. status_of (name, p)) (lookup name m)
unfolding lookup
find-map name [] h = refl
find-map name ((k, p) ∷ m) (e, h) = ground (arith, find-map name m h, e)

-- The status of a name is listed exactly where a project of that name is registered, and says the
-- socket, the number of allowed secrets and the number of cached entries of that project.
pub dispatch_status_lem :
    {F : Type 0} (o : Outside) (d : Daemon F) (name : Text)
    → IsServing d
    → find (λ s. same s.name name) (dispatch_status o d).projects
      ≡ Option.map (λ p. status_of (name, p)) (lookup name d.registry.inner)
unfolding dispatch_status
dispatch_status_lem o d name v = find-map name d.registry.inner (
    lookup-All IsNamed d.registry.inner v.consistent.unique
      (λ k p at. (v.consistent.entries k p at).named))
