-- ===== src/Server/Directory/Enforcement.antt =====
-- What a client of a project's socket is allowed, by the history of admin requests, their answers
-- and the manifests that they read.
use remo_broker.Base.{◌≡◌, ◌↔◌, refl, sym, subst, ap, ◌∙◌, Option, some, List, [], ◌∷◌, Text, arith}
use std.Path.{fun_ext}
use remo_broker.Base.Map.{lookup}
use remo_broker.Base.Texts.{Among}
use remo_broker.Proto.{AdminRequest, AdminResponse}
use remo_broker.Audit.{Channel}
use remo_broker.Server.{Backend, Peer, Times}
use remo_broker.Server.Fetch.{Plane, dispatch_get}
use remo_broker.Server.Fetch.Policy.{IsDenial, denied_iff}
use remo_broker.Server.Admin.{Outside, Daemon, dispatch_admin}
use remo_broker.Startup.Tidy.{administer}
use remo_broker.Server.Directory
use remo_broker.Server.Directory.{Entry, Directory, directory, follow}
use remo_broker.Server.Directory.Refinement.{dispatch_admin-Refines}

-- The answers to a list of requests.
pub answers : (b : Backend) → List (Outside × AdminRequest) → Daemon b.Fnox → List AdminResponse
answers b [] d = []
answers b ((o, request) ∷ rest) d =
    let (answer, after) = dispatch_admin b o request d in answer ∷ answers b rest after

pub follow_all : List (Outside × AdminRequest) → List AdminResponse → Directory → Directory
follow_all [] replies dir = dir
follow_all (q ∷ rest) [] dir = dir
follow_all ((o, request) ∷ rest) (reply ∷ replies) dir =
    follow_all rest replies (follow o.files request reply dir)

administer-directory :
    (b : Backend) (history : List (Outside × AdminRequest)) (d : Daemon b.Fnox)
    → directory (administer b history d).registry
      ≡ follow_all history (answers b history d) (directory d.registry)
unfolding administer answers follow_all
administer-directory b [] d = refl
administer-directory b ((o, request) ∷ rest) d =
    let (answer, after) = dispatch_admin b o request d in
    administer-directory b rest after
    ∙ ap (follow_all rest (answers b rest after)) (fun_ext (dispatch_admin-Refines b o d request).1)

-- What the directory allows.
abbrev pub Allows : Directory → Text → Text → Type 0
Allows dir project secret = (e : Entry) × (dir project ≡ some e) × Among secret e.secrets

-- After any history of admin requests, a `get` on the socket of a registered project is answered
-- with an error whose code is `denied` exactly where the directory does not allow that project the
-- secret. The directory is followed from the requests, their answers and the manifests that they
-- read, not from what the daemon keeps.
pub administer-denied_iff :
    (b : Backend) (history : List (Outside × AdminRequest)) (d : Daemon b.Fnox) (name : Text)
    (c : Channel) (session : Option b.Fnox) (secret : Text) (peer : Peer) (times : Times)
    (s : Plane c)
    → lookup name (administer b history d).registry.inner ≡ some s.project
    → IsDenial (dispatch_get c b session secret peer times s).0
      ↔ (¬ Allows (follow_all history (answers b history d) (directory d.registry)) name secret)
administer-denied_iff b history d name c session secret peer times s at =
    let there : directory (administer b history d).registry name
        ≡ some (Directory.entry_of s.project) =
      rw at refl in
    let e = ap (λ f. f name) (sym (administer-directory b history d)) ∙ there in
    let (to, from) = denied_iff c b session secret peer times s in
    (
      λ h allowed.
          let same_entry : allowed.0 ≡ Directory.entry_of s.project = ground arith in
          to h (subst (λ (x : Entry). Among secret x.secrets) same_entry allowed.2),
      λ h. from (λ a. h (Directory.entry_of s.project, e, a)),
    )
