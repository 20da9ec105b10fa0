-- ===== src/Config/Examples.antt =====
-- The configuration properties at concrete inputs, and tests after those of src/config.rs.
use remo_broker.Base.{◌↔◌, ◌≡◌, refl, some, ok, err}
use remo_broker.Config.{resolve, settings, empty_layer, cache_ttl_out_of_range}
use remo_broker.Config.Resolution.{IsResolved, resolve_iff}

-- `Config::default()` does not panic.
defaults : resolve empty_layer empty_layer ≡ ok (settings empty_layer empty_layer)
unfolding resolve
defaults = refl

ttl_zero :
    resolve empty_layer (record empty_layer { cache_default_ttl_seconds = some 0 })
    ≡ err (cache_ttl_out_of_range 0)
unfolding resolve
ttl_zero = refl

resolve_iff_example :
    (resolve empty_layer empty_layer ≡ ok (settings empty_layer empty_layer))
    ↔ IsResolved empty_layer empty_layer (settings empty_layer empty_layer)
resolve_iff_example = resolve_iff empty_layer empty_layer (settings empty_layer empty_layer)
