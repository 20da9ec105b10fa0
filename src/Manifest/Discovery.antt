-- ===== src/Manifest/Discovery.antt =====
-- `Manifest::load` of src/manifest.rs: which file is read, and what a success says of the manifest.
use remo_broker.Base.{
  refl, ◌↔◌, ◌≡◌, sym, ap, ◌∙◌, true, false, some, arith, Text, Option-cases, Result-cases, inl,
  inr, ◌⊎◌, ok, codes,
}
use remo_broker.Base.Paths.{join, file_name}
use remo_broker.Manifest.{Manifest, RawManifest, Files, load, discover, validate}
use remo_broker.Manifest.Validity.{IsValid, manifest_of, validate_iff}

-- The manifest comes from a file in one of the two places, the first where there is one, and is
-- valid with the basename of the project's directory.
pub record IsLoaded (fs : Files) (project_path : Text) (m : Manifest) (path : Text) : Type 0 where
  pub place :
      (path ≡ join project_path (codes ".devcontainer/remo-broker.toml"))
      ⊎ ((path ≡ join project_path (codes ".remo/broker.toml"))
          × (fs.is_file (join project_path (codes ".devcontainer/remo-broker.toml")) ≡ false))
  pub is_file : fs.is_file path ≡ true
  pub raw : RawManifest
  pub src : Text
  pub content : fs.read_to_string path ≡ ok src
  pub parsed : fs.parse_toml src ≡ ok raw
  pub valid : IsValid raw (file_name project_path)
  pub manifest : m ≡ manifest_of raw

-- The candidate that `discover` finds is the first that is a file.
discover_sound :
    (fs : Files) (project_path path : Text)
    → discover fs project_path ≡ some path
    → ((path ≡ join project_path (codes ".devcontainer/remo-broker.toml"))
        ⊎ ((path ≡ join project_path (codes ".remo/broker.toml"))
            × (fs.is_file (join project_path (codes ".devcontainer/remo-broker.toml")) ≡ false)))
      × (fs.is_file path ≡ true)
unfolding discover
discover_sound fs project_path path h = (ground arith, ground arith)

discover_complete :
    (fs : Files) (project_path path : Text)
    → (path ≡ join project_path (codes ".devcontainer/remo-broker.toml"))
      ⊎ ((path ≡ join project_path (codes ".remo/broker.toml"))
          × (fs.is_file (join project_path (codes ".devcontainer/remo-broker.toml")) ≡ false))
    → fs.is_file path ≡ true
    → discover fs project_path ≡ some path
unfolding discover
discover_complete fs project_path path (inl e) h = ground arith
discover_complete fs project_path path (inr (e, off)) h = ground arith

-- Every manifest that `load` returns was read from the first of the two places that holds a file,
-- and is valid with the basename of the project path.
pub load_sound :
    (fs : Files) (project_path : Text) (m : Manifest) (path : Text)
    → load fs project_path ≡ ok (m, path)
    → IsLoaded fs project_path m path
unfolding load
load_sound fs project_path m path h = elim (Option-cases (discover fs project_path)) [
  | inl q ↦ absurd (ground arith)
  | inr (p, q) ↦
      let e : p ≡ path = ground arith in
      let found = discover_sound fs project_path path (q ∙ ap some e) in
      elim (Result-cases (fs.read_to_string p)) [
        | inr (_, r) ↦ absurd (ground arith)
        | inl (src, r) ↦ elim (Result-cases (fs.parse_toml src)) [
          | inr (_, t) ↦ absurd (ground arith)
          | inl (raw, t) ↦
              let v = (validate_iff raw (file_name project_path) m).0 (ground arith) in
              record {
                place = found.0;
                is_file = found.1;
                raw = raw;
                src = src;
                content = ap fs.read_to_string (sym e) ∙ r;
                parsed = t;
                valid = v.0;
                manifest = v.1;
              }
        ]
      ]
]

load_complete :
    (fs : Files) (project_path : Text) (m : Manifest) (path : Text)
    → IsLoaded fs project_path m path
    → load fs project_path ≡ ok (m, path)
unfolding load discover
load_complete fs project_path m path l =
    let found : discover fs project_path ≡ some path =
      discover_complete fs project_path path l.place l.is_file in
    let valid : validate l.raw (file_name project_path) ≡ ok m =
      (validate_iff l.raw (file_name project_path) m).1 (l.valid, l.manifest) in
    rw (found, load) (rw l.content (rw l.parsed (rw valid refl)))

-- A manifest is loaded exactly where it stands in the first of the two places that holds a file, can
-- be read and parsed, and is valid with the basename of the project path for its directory, in the
-- sense of `Manifest::validate`: its cache numbers are held against fixed limits and not against the
-- broker's defaults.
pub load_iff :
    (fs : Files) (project_path : Text) (m : Manifest) (path : Text)
    → (load fs project_path ≡ ok (m, path)) ↔ IsLoaded fs project_path m path
load_iff fs project_path m path =
    (load_sound fs project_path m path, load_complete fs project_path m path)
