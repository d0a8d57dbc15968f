-- ===== src/Base/Word.antt =====
-- The 32-bit words of the source: `int` and `uint32_t`, their conversions, and network order.
use Prim.Native.Nat.{ℕ, ◌+◌, ◌-◌, ◌/◌, ◌%◌, ◌≤◌, ◌<◌, ◌^◌}
use mathlib.Core.Path.{◌≡◌, refl}
use mathlib.Core.List.{List, [], ◌∷◌}
use native.Mathlib.Omega.{arith}
use cs.Base.Tests.{ltb, if◌then◌else◌}
use cs.Base.Lists.{length}
use cs.Base.Int.{ℤ, pos, negsuc, pos_part, neg_part}

abbrev pub u32_mod : ℕ
u32_mod = 2 ^ 32

-- The values of a 32-bit `int`, in two's complement.
abbrev pub IsInt : ℤ → Type 0
IsInt x = (pos_part x < 2 ^ 31) × (neg_part x ≤ 2 ^ 31)

-- The conversion of an integer to `uint32_t`.
unfoldable pub to_u32 : ℤ → ℕ
to_u32 (pos n) = n % u32_mod
to_u32 (negsuc n) = u32_mod - 1 - n % u32_mod

-- The conversion of a `uint32_t` to `int`.
unfoldable pub of_u32 : ℕ → ℤ
of_u32 w = if ltb w (2 ^ 31) then pos w else negsuc (u32_mod - 1 - w)

-- `x + 1` on an `int`, with wrap-around.
unfoldable pub inc : ℤ → ℤ
unfolding to_u32 of_u32
inc x = of_u32 ((to_u32 x + 1) % u32_mod)

pub to_u32-lt : (x : ℤ) → to_u32 x < u32_mod
unfolding to_u32
to_u32-lt (pos n) = omega arith
to_u32-lt (negsuc n) = omega arith

pub of_u32-to_u32 : (x : ℤ) → IsInt x → of_u32 (to_u32 x) ≡ x
unfolding of_u32 to_u32
of_u32-to_u32 (pos n) h = ground arith
of_u32-to_u32 (negsuc n) h = ground arith

pub of_u32-IsInt : (w : ℕ) → w < u32_mod → IsInt (of_u32 w)
unfolding of_u32
of_u32-IsInt w h = ground arith

-- Below the largest `int` nothing wraps.
pub inc_parts :
    (x : ℤ)
    → IsInt x
    → pos_part x < 2 ^ 31 - 1
    → pos_part (inc x) + neg_part x ≡ pos_part x + neg_part (inc x) + 1
unfolding inc
inc_parts (pos n) h lt = ground arith
inc_parts (negsuc n) h lt = ground arith

-- The four bytes of a word in network order.
unfoldable pub network_bytes : ℕ → List ℕ
network_bytes w = (w / 2 ^ 24 % 256) ∷ (w / 2 ^ 16 % 256) ∷ (w / 2 ^ 8 % 256) ∷ (w % 256) ∷ []

pub length-network_bytes : (w : ℕ) → length (network_bytes w) ≡ 4
unfolding network_bytes
length-network_bytes w = refl
