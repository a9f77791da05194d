-- ===== src/Common/Bytes.antt =====
-- Machine integers read from bytes, as the fuzz targets do. A byte is a number below 256.
use Prim.Native.Nat.{ℕ, zero, suc, ◌+◌, ◌-◌, ◌*◌, ◌^◌, min}
use mathlib.Core.List.{List, [], ◌∷◌}
use mathlib.Core.Option.{Option, none, some}
use octraban_contract.Common.Tests.{ltb, ◌==◌, if◌then◌else◌, unwrap_or}
use octraban_contract.Common.Lists.{get_elem?, take, drop}
use octraban_contract.Common.Int.{ℤ, pos, negsuc, ltb_ℤ}

abbrev pub from_le : List ℕ → ℕ
from_le [] = 0
from_le (b ∷ bs) = b + 256 * from_le bs

-- `data[i..i + n]`, inside the bounds.
abbrev pub slice : List ℕ → ℕ → ℕ → List ℕ
slice bytes i n = take n (drop i bytes)

-- `data[i]`, inside the bounds.
abbrev pub byte_at : List ℕ → ℕ → ℕ
byte_at bytes i = unwrap_or (get_elem? bytes i) 0

-- `u64::from_le_bytes(data[i..i + 8])`.
unfoldable pub u64_at : List ℕ → ℕ → ℕ
u64_at bytes i = from_le (slice bytes i 8)

-- The number that a 128-bit pattern stands for.
abbrev pub signed128 : ℕ → ℤ
signed128 w = if ltb w (2 ^ 127) then pos w else negsuc (2 ^ 128 - w - 1)

-- `i128::from_le_bytes(data[i..i + 16])`.
unfoldable pub i128_at : List ℕ → ℕ → ℤ
i128_at bytes i = signed128 (from_le (slice bytes i 16))

-- `.abs()` with overflow checks: `i128::MIN` has no absolute value.
abbrev pub checked_abs : ℤ → Option ℤ
checked_abs (pos n) = some (pos n)
checked_abs (negsuc n) = if n == 2 ^ 127 - 1 then none else some (pos (suc n))

-- `u64::saturating_add`.
abbrev pub saturating_add_u64 : ℕ → ℕ → ℕ
saturating_add_u64 a b = min (a + b) (2 ^ 64 - 1)

-- `i128::saturating_add(1)`.
abbrev pub saturating_succ : ℤ → ℤ
saturating_succ (pos n) = pos (min (n + 1) (2 ^ 127 - 1))
saturating_succ (negsuc zero) = pos 0
saturating_succ (negsuc (suc n)) = negsuc n

-- `a.min(b)`.
abbrev pub min_ℤ : ℤ → ℤ → ℤ
min_ℤ a b = if ltb_ℤ b a then b else a
