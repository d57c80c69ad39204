-- ===== src/Base/Int.antt =====
-- Signed integers over the native numbers, and the conversions of <cstdlib> that the code uses.
use Prim.Native.Nat.{ℕ, zero, suc, ◌+◌, ◌-◌, ◌*◌, ◌%◌, ◌^◌, min}
use mathlib.Core.Bool.{Bool, false}
use mathlib.Core.List.{[], ◌∷◌}
use ats_plugin_experiment.Base.Tests.{ltb, leb, ◌==◌, if◌then◌else◌}
use ats_plugin_experiment.Base.Text.{Bytes}
use ats_plugin_experiment.Base.Chars.{is_digit, is_space}

-- `negsuc n` is -(n + 1).
pub data ℤ : Type 0 where
  pos : ℕ → ℤ
  negsuc : ℕ → ℤ

-- a - b, as an integer.
abbrev pub sub_ℕ : ℕ → ℕ → ℤ
sub_ℕ a b = if leb b a then pos (a - b) else negsuc (b - a - 1)

-- a - b for an integer `a`.
unfoldable pub ◌-ℤ◌ : ℤ → ℕ → ℤ
◌-ℤ◌ (pos a) b = sub_ℕ a b
◌-ℤ◌ (negsuc a) b = negsuc (a + b)

-- -n
abbrev pub neg_ℕ : ℕ → ℤ
neg_ℕ zero = pos 0
neg_ℕ (suc n) = negsuc n

abbrev pub int_eq : ℤ → ℕ → Bool
int_eq (pos a) b = a == b
int_eq (negsuc a) b = false

-- The value of the decimal digits at the front.
unfoldable pub digits_value : ℕ → Bytes → ℕ
digits_value acc [] = acc
digits_value acc (c ∷ s) =
    let rest = digits_value (acc * 10 + (c - b'0')) s in if is_digit c then rest else acc

-- `strtol(s, nullptr, 10)` behind the white space; a value out of range is cut to the range.
unfoldable pub strtol_signed : Bytes → ℤ
strtol_signed [] = pos 0
strtol_signed (c ∷ s) =
    if c == b'-'
    then neg_ℕ (min (digits_value 0 s) (2 ^ 63))
    else if c == b'+'
    then pos (min (digits_value 0 s) (2 ^ 63 - 1))
    else pos (min (digits_value 0 (c ∷ s)) (2 ^ 63 - 1))

unfoldable pub strtol : Bytes → ℤ
strtol [] = pos 0
strtol (c ∷ s) = let rest = strtol s in if is_space c then rest else strtol_signed (c ∷ s)

-- A `long` as an `int`: the low 32 bits in two's complement.
abbrev pub signed32 : ℕ → ℤ
signed32 w = if ltb w (2 ^ 31) then pos w else negsuc (2 ^ 32 - w - 1)

unfoldable pub to_int : ℤ → ℤ
to_int (pos n) = signed32 (n % 2 ^ 32)
to_int (negsuc n) = signed32 (2 ^ 32 - 1 - n % 2 ^ 32)
