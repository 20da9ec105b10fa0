-- ===== src/Registry/Examples.antt =====
-- The registry properties at concrete inputs.
use remo_broker.Base.{◌≡◌, refl, some, ok}
use remo_broker.Base.Map.{lookup}
use remo_broker.Base.Texts.{same}
use remo_broker.Registry.{reload}
use remo_broker.Registry.Samples.{alpha, raw, disk, alpha_loads, project, registered}
use remo_broker.Manifest.Validity.{manifest_of}

alpha_there : lookup alpha registered.inner ≡ some project
unfolding lookup same
alpha_there = refl

alpha_reloads : (reload disk registered alpha).0 ≡ ok (manifest_of raw)
unfolding reload lookup same
alpha_reloads = rw (alpha_loads, reload) refl
