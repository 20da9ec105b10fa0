-- ===== src/Server/Directory/Examples.antt =====
-- The refinement of the directory at a concrete input.
use remo_broker.Base.{ℕ, Text, ◌≡◌, ◌↔◌, refl, ap, ◌∙◌, err, some, [], ◌∷◌, codes, List}
use remo_broker.Base.Texts
use remo_broker.Base.Map
use remo_broker.Base.Map.{lookup}
use remo_broker.Registry
use remo_broker.Registry.{register}
use remo_broker.Registry.Samples.{
  alpha, alpha_path, project, fresh, alpha_loads, alpha_registers, registered, bound,
}
use remo_broker.Audit.Bounded.{bounded}
use remo_broker.Proto
use remo_broker.Proto.{AdminRequest}
use remo_broker.Server.Samples.{numbered, outside, daemon, plane, peer, at_second}
use remo_broker.Server.Fetch.{dispatch_get}
use remo_broker.Server.Fetch.Policy.{IsDenial}
use remo_broker.Server.Admin
use remo_broker.Server.Admin.Messages.{registry_message}
use remo_broker.Server.Admin.Refusals.{IsUnchanged, dispatch_admin-refused}
use remo_broker.Server.Admin.{Outside, Daemon, dispatch_admin}
use remo_broker.Startup.Tidy.{administer}
use remo_broker.Server.Directory.{directory, follow, Permits}
use remo_broker.Server.Directory.Refinement.{dispatch_admin-Refines}
use remo_broker.Server.Directory.Enforcement.{answers, follow_all, Allows, administer-denied_iff}

-- `alpha` is registered, and a second registration is refused.
abbrev history : List (Outside × AdminRequest)
history =
    (outside, Proto.register alpha alpha_path) ∷ (outside, Proto.register alpha alpha_path) ∷ []

abbrev empty : Daemon ℕ
empty = record daemon { registry = fresh; project_tasks = []; sockets = [] }

dispatch_admin-Refines_example :
    let (answer, after) = dispatch_admin numbered outside (Proto.register alpha alpha_path) empty in
    Permits outside.files (directory fresh) (Proto.register alpha alpha_path) answer
    × ((name : Text)
        → directory after.registry name
          ≡ follow outside.files (Proto.register alpha alpha_path) answer (directory fresh) name)
dispatch_admin-Refines_example =
    dispatch_admin-Refines numbered outside empty (Proto.register alpha alpha_path)

alpha_taken :
    register outside.files outside.faults registered alpha alpha_path bound
    ≡ (err (Registry.project_exists alpha), registered, bound)
unfolding register Registry.insert_project Map.contains_key lookup Texts.same
alpha_taken = rw (alpha_loads, register) refl

alpha_stays : lookup alpha (administer numbered history empty).registry.inner ≡ some project
unfolding administer dispatch_admin Admin.dispatch_register Admin.register_answer lookup Texts.same
    Map.insert Map.remove
alpha_stays =
    ap
      (λ r.
        lookup alpha
          (administer numbered ((outside, Proto.register alpha alpha_path) ∷ [])
            (Admin.register_answer alpha r empty).1).registry.inner)
      alpha_registers
    ∙ ap (λ r. lookup alpha (Admin.register_answer alpha r daemon).1.registry.inner) alpha_taken

administer-denied_iff_example :
    IsDenial (dispatch_get bounded numbered (some 1) (codes "BAR") peer (at_second 1) plane).0 ↔ (
      ¬ Allows
        (follow_all history (answers numbered history empty) (directory fresh))
        alpha
        (codes "BAR"))
administer-denied_iff_example =
    administer-denied_iff numbered history empty alpha bounded (some 1) (codes "BAR") peer
      (at_second 1) plane alpha_stays

dispatch_admin-refused_example :
    IsUnchanged
      (Proto.register alpha alpha_path)
      daemon
      (dispatch_admin numbered outside (Proto.register alpha alpha_path) daemon).1
unfolding dispatch_admin Admin.dispatch_register Admin.register_answer
dispatch_admin-refused_example =
    dispatch_admin-refused numbered outside (Proto.register alpha alpha_path) daemon
      (Proto.error Proto.project_exists (registry_message (Registry.project_exists alpha)))
      (ap (λ r. (Admin.register_answer alpha r daemon).0) alpha_taken)
