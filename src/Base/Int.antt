-- ===== src/Base/Int.antt =====
-- Machine integers: the signed ones, their conversion from unsigned words, and std::to_string.
use Prim.Native.Nat.{ℕ, zero, suc, ◌+◌, ◌-◌, ◌/◌, ◌%◌, ◌^◌}
use mathlib.Core.List.{[], ◌∷◌, ◌++◌}
use r4r.Base.Tests.{ltb, if◌then◌else◌}
use r4r.Base.Text.{Str}

-- `negsuc n` is -(n + 1).
pub data ℤ : Type 0 where
  pos : ℕ → ℤ
  negsuc : ℕ → ℤ

-- `static_cast<int>` of a 64-bit word: its lower 32 bits in two's complement.
unfoldable pub to_int : ℕ → ℤ
to_int w = let low = w % 2 ^ 32 in if ltb low (2 ^ 31) then pos low else negsuc (2 ^ 32 - 1 - low)

unfoldable pub digits : ℕ → ℕ → Str
digits zero n = []
digits (suc fuel) n =
    if ltb n 10 then (b'0' + n) ∷ [] else digits fuel (n / 10) ++ (b'0' + n % 10) ∷ []

-- The decimal digits; a number has fewer of them than its successor says.
unfoldable pub nat_to_string : ℕ → Str
unfolding digits
nat_to_string n = digits (n + 1) n

unfoldable pub to_string : ℤ → Str
unfolding nat_to_string
to_string (pos n) = nat_to_string n
to_string (negsuc n) = b'-' ∷ nat_to_string (n + 1)
