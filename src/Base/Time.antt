-- ===== src/Base/Time.antt =====
-- `Instant` and `Duration` as nanoseconds. `Instant::duration_since` and
-- `Duration::saturating_sub` stop at zero, as `-` does here.
use Prim.Native.Nat.{ℕ, ◌*◌, ◌/◌, ◌%◌, min}

abbrev pub nanos_per_sec : ℕ
nanos_per_sec = 1_000_000_000

-- `Duration::from_secs`
abbrev pub from_secs : ℕ → ℕ
from_secs s = s * nanos_per_sec

-- `Duration::as_secs`
abbrev pub as_secs : ℕ → ℕ
as_secs d = d / nanos_per_sec

-- `Duration::from_millis`
abbrev pub from_millis : ℕ → ℕ
from_millis ms = ms * 1_000_000

-- `Duration::as_millis`
abbrev pub as_millis : ℕ → ℕ
as_millis d = d / 1_000_000

abbrev pub u32_mod : ℕ
u32_mod = 4_294_967_296

-- `x as u32`
abbrev pub as_u32 : ℕ → ℕ
as_u32 x = x % u32_mod

-- `u32::try_from(x).unwrap_or(u32::MAX)`
abbrev pub saturate_u32 : ℕ → ℕ
saturate_u32 x = min x 4_294_967_295
