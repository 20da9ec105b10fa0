-- ===== src/Server/Projects/Examples.antt =====
-- The properties of interleaved admin requests at concrete inputs.
use remo_broker.Base.{ℕ, [], codes, ◌≡◌, refl, none, some, true, same, arith, ◌⊎◌}
use remo_broker.Base.Texts
use remo_broker.Base.Map.{lookup, insert, remove}
use remo_broker.Registry.Samples.{
  fresh, alpha, alpha_path, project, registered, bound, alpha_registers,
}
use remo_broker.Server.Samples.{outside}
use remo_broker.Server.Projects.{Reach, IsFree, over, unlinks}
use remo_broker.Server.Projects.Agreement.{is_running, held}
use remo_broker.Server.Projects.Soundness.{
  IsServed, Orderly-IsServed, Orderly-accounted, Orderly-IsAgreed,
}
use remo_broker.Server.Projects.Signals.{is_untold, Reach-untold}
use remo_broker.Server.Projects.Ending.{unregister-ends}
use remo_broker.Server.Projects.Races.{orphaned, register_orphans, stranded, unregister_aborts}
use remo_broker.Server.Projects.Samples.{
  quiet, quiet-IsAgreed, beta, served, quiet-IsFree, serves, served-IsFree, alpha_again, again,
  again_bound, last_stage, ends_last, reaches, Reach-trans, accepting, accepts,
}

Orderly-IsServed_example : IsServed served alpha project
unfolding lookup insert remove Texts.same
Orderly-IsServed_example =
    Orderly-IsServed (codes "/run") fresh.cache_defaults [] alpha project serves served-IsFree refl

-- The loop of `beta`, whose handle connection 1 has still to keep.
Orderly-accounted_example :
    (lookup beta served.arcs ≡ some 1) ⊎ ((c : ℕ) × (held (served.stages c) ≡ some 1))
Orderly-accounted_example = Orderly-accounted (codes "/run") fresh.cache_defaults [] 1 serves refl

register_orphans_example :
    let u = orphaned quiet 1 0 outside alpha project registered bound in
    Reach quiet u
    × IsFree u alpha
    × (lookup alpha u.registry.inner ≡ none)
    × (lookup project.socket_path u.sockets ≡ none)
    × (lookup alpha u.project_tasks ≡ some 0)
    × (is_running (u.loops 0).life ≡ true)
    × (is_untold (accepting.loops 0).life ≡ true)
register_orphans_example =
    register_orphans quiet quiet-IsAgreed 1 0 (ground arith) outside alpha alpha_path refl refl
      (quiet-IsFree alpha) project registered bound accepting alpha_registers refl accepts

unregister_aborts_example :
    let u = stranded served 2 3 outside alpha project again again_bound 0 project in
    Reach served u
    × IsFree u alpha
    × (lookup alpha u.registry.inner ≡ some project)
    × (lookup alpha u.arcs ≡ some 2)
    × ((u.loops 2).life ≡ over)
    × (lookup project.socket_path u.sockets ≡ none)
unfolding lookup insert remove Texts.same
unregister_aborts_example =
    unregister_aborts served (Orderly-IsAgreed quiet-IsAgreed serves) 2 3 (ground arith) outside
      alpha alpha_path refl refl served-IsFree 0 project project again again_bound refl refl
      alpha_again refl

unregister-ends_example :
    let u = unlinks 2 alpha 0 project outside.faults last_stage in
    ((u.loops 0).life ≡ over)
    × ((u.loops 0).name ≡ alpha)
    × ((u.loops 0).life ≡ over)
    × (lookup alpha u.registry.inner ≡ none)
    × (lookup alpha u.project_tasks ≡ none)
    × (lookup project.socket_path u.sockets ≡ none)
unregister-ends_example =
    unregister-ends (codes "/run") fresh.cache_defaults [] 2 alpha 0 project outside.faults 0
      ends_last refl refl refl

-- The new loop of `alpha`, which was aborted in place of the old one.
Reach-untold_example :
    let u = stranded served 2 3 outside alpha project again again_bound 0 project in
    ((u.loops 2).name ≡ alpha) × (is_untold (u.loops 2).life ≡ true)
unfolding lookup insert remove Texts.same
Reach-untold_example =
    Reach-untold (codes "/run") fresh.cache_defaults [] alpha 2
      (Reach-trans reaches
        (unregister_aborts served (Orderly-IsAgreed quiet-IsAgreed serves) 2 3 (ground arith)
          outside alpha alpha_path refl refl served-IsFree 0 project project again again_bound refl
          refl alpha_again refl).0)
      refl
