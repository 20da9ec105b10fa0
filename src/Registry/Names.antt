-- ===== src/Registry/Names.antt =====
-- The names of projects in src/registry.rs, and the paths of their sockets.
use mathlib.Core.List.{append_cancel_left, append_cancel_right}
use remo_broker.Base.{
  ◌≡◌, sym, ap, ◌∙◌, subst, Bool, true, false, [], ◌∷◌, ◌++◌, arith, Text, same_iff, if◌then◌else◌,
  Result-cases, inl, inr, ok, codes, starts_with, is_empty, ends_with, ◌||◌,
}
use remo_broker.Base.Paths.{join}
use remo_broker.Manifest.{Manifest, Files, load}
use remo_broker.Manifest.Names.{IsProjectName}
use remo_broker.Manifest.Discovery.{load_sound}
use remo_broker.Registry.{load_manifest, load_named, socket_path_for}

-- A path under a directory, for a name that is not absolute.
abbrev under : Bool → Text → Text → Text
under bare dir rel = if bare then dir ++ rel else dir ++ (b'/' ∷ rel)

socket_path_for-under :
    (dir name : Text)
    → IsProjectName name
    → socket_path_for dir name
      ≡ under (is_empty dir || ends_with dir b'/') dir (name ++ codes ".sock")
unfolding socket_path_for join starts_with
socket_path_for-under dir [] h = absurd h
socket_path_for-under dir (b ∷ name) h = ground arith

under_injective : (bare : Bool) (dir a b : Text) → under bare dir a ≡ under bare dir b → a ≡ b
under_injective true dir a b e = append_cancel_left dir a b e
under_injective false dir a b e = ground (arith, append_cancel_left dir (b'/' ∷ a) (b'/' ∷ b) e)

-- Two project names with one socket path are one name.
pub socket_path_for_injective :
    (dir a b : Text)
    → IsProjectName a
    → IsProjectName b
    → socket_path_for dir a ≡ socket_path_for dir b
    → a ≡ b
socket_path_for_injective dir a b ha hb e = append_cancel_right a b (codes ".sock") (
    under_injective _ dir _ _
      (sym (socket_path_for-under dir a ha) ∙ e ∙ socket_path_for-under dir b hb))

pub load_named_sound :
    (fs : Files) (name project_path path : Text) (m : Manifest)
    → load_named fs name project_path ≡ ok (m, path)
    → (m.project.name ≡ name) × IsProjectName name
unfolding load_named load_manifest
load_named_sound fs name project_path path m h = elim (Result-cases (load fs project_path)) [
  | inr (_, q) ↦ absurd (ground arith)
  | inl (loaded, q) ↦
      let same_name : loaded.0.project.name ≡ name =
        ground (arith, same_iff loaded.0.project.name name) in
      let same_pair : loaded ≡ (m, path) = ground (arith, same_iff loaded.0.project.name name) in
      let found = load_sound fs project_path loaded.0 loaded.1 q in
      let written : loaded.0.project.name ≡ found.raw.project.name =
        ap (λ (x : Manifest). x.project.name) found.manifest in
      (
        ap (λ (x : Manifest × Text). x.0.project.name) (sym same_pair) ∙ same_name,
        subst IsProjectName (sym written ∙ same_name) found.valid.name,
      )
]
