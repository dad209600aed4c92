-- ===== src/Time.antt =====
-- `std::time` as the program uses it. A `Duration`, an `Instant` and a `SystemTime` are numbers of
-- nanoseconds; the last two are counted from the earliest time that the platform represents.
use ora.Base.{ℕ, ◌+◌, ◌-◌, ◌*◌, ◌^◌, min, Option, none, some, leb, if◌then◌else◌}

-- One second.
abbrev pub second : ℕ
second = 1_000_000_000

-- `Duration::from_secs`.
abbrev pub from_secs : ℕ → ℕ
from_secs n = n * second

-- `Duration::MAX`: 2^64 - 1 whole seconds and 999,999,999 nanoseconds.
abbrev pub duration_max : ℕ
duration_max = 2 ^ 64 * second - 1

abbrev pub u32_max : ℕ
u32_max = 2 ^ 32 - 1

abbrev pub u64_max : ℕ
u64_max = 2 ^ 64 - 1

abbrev pub u128_max : ℕ
u128_max = 2 ^ 128 - 1

-- `Duration::saturating_mul`.
unfoldable pub saturating_mul : ℕ → ℕ → ℕ
saturating_mul d k = min (d * k) duration_max

-- `2u32.saturating_pow(k)`.
unfoldable pub saturating_pow2 : ℕ → ℕ
saturating_pow2 k = min (2 ^ k) u32_max

-- `u32::saturating_add`.
unfoldable pub saturating_add_u32 : ℕ → ℕ → ℕ
saturating_add_u32 a b = min (a + b) u32_max

-- `checked_add` on a time whose last representable value is `limit`.
unfoldable pub checked_add : ℕ → ℕ → ℕ → Option ℕ
checked_add limit time d = if leb (time + d) limit then some (time + d) else none
