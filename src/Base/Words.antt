-- ===== src/Base/Words.antt =====
-- Machine words: an unsigned word is a number below 2 ^ w, a signed one the integer it stands for.
use Prim.Native.Nat.{ℕ, suc, ◌-◌, ◌%◌, ◌^◌, ◌<◌}
use mathlib.Core.Path.{◌≡◌}
use native.Mathlib.Omega.{arith}
use microservice_common.Base.Tests.{if◌then◌else◌, ltb}
use microservice_common.Base.Int.{ℤ, pos, negsuc}

-- The conversion to uint32_t and that to int32_t, of any integer.
abbrev pub to_uint32 : ℤ → ℕ
to_uint32 (pos n) = n % 2 ^ 32
to_uint32 (negsuc n) = 2 ^ 32 - suc (n % 2 ^ 32)

abbrev pub signed32 : ℕ → ℤ
signed32 w = if ltb w (2 ^ 31) then pos w else negsuc (2 ^ 32 - w - 1)

abbrev pub to_int32 : ℤ → ℤ
to_int32 z = signed32 (to_uint32 z)

-- A uint64_t as an int64_t.
abbrev pub signed64 : ℕ → ℤ
signed64 w = if ltb w (2 ^ 63) then pos w else negsuc (2 ^ 64 - w - 1)

pub to_uint32-signed32 : (w : ℕ) → w < 2 ^ 32 → to_uint32 (signed32 w) ≡ w
to_uint32-signed32 w h = ground arith

pub to_int32_small : (n : ℕ) → n < 2 ^ 31 → to_int32 (pos n) ≡ pos n
to_int32_small n h = ground arith
