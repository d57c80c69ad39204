-- ===== src/Base/Text.antt =====
-- Byte strings (`std::string`, `std::string_view`) as lists of numbers below 256: the literals,
-- equality, and the order of `std::string::compare`, which compares bytes as unsigned numbers.
use Prim.Native.Nat.{ℕ, ◌<◌}
use Prim.Native.Char.{code}
use Prim.Native.String.{String}
use mathlib.Core.Path.{◌≡◌, refl}
use mathlib.Core.Logic.{◌↔◌, ◌≢◌}
use mathlib.Core.Bool.{Bool, true, false, ◌&&◌, ◌||◌}
use mathlib.Core.List.{List, [], ◌∷◌}
use native.Mathlib.Omega.{arith}
use ats_plugin_experiment.Base.Tests.{◌==◌, ltb}
use ats_plugin_experiment.Base.Lists.{All}

abbrev pub Bytes : Type 0
Bytes = List ℕ

-- The code points of a literal: its bytes, since every literal here is ASCII.
abbrev pub codes : String → Bytes
codes String.[] = []
codes (String.◌∷◌ c s) = code c ∷ codes s

abbrev pub IsBytes : Bytes → Type 0
IsBytes = All (λ c. c < 256)

abbrev pub IsAscii : Bytes → Type 0
IsAscii = All (λ c. c < 128)

abbrev pub Lacks : ℕ → Bytes → Type 0
Lacks b = All (λ c. c ≢ b)

unfoldable pub bytes_eq : Bytes → Bytes → Bool
bytes_eq [] [] = true
bytes_eq (a ∷ xs) (b ∷ ys) = a == b && bytes_eq xs ys
bytes_eq _ _ = false

unfoldable pub bytes_lt : Bytes → Bytes → Bool
bytes_lt [] [] = false
bytes_lt [] (b ∷ ys) = true
bytes_lt (a ∷ xs) [] = false
bytes_lt (a ∷ xs) (b ∷ ys) = ltb a b || (a == b && bytes_lt xs ys)

pub bytes_eq_iff : (a b : Bytes) → (bytes_eq a b ≡ true) ↔ (a ≡ b)
unfolding bytes_eq
bytes_eq_iff (a ∷ xs) (b ∷ ys) = ground (arith, bytes_eq_iff xs ys)
bytes_eq_iff _ _ = ground arith

pub bytes_eq_refl : (a : Bytes) → bytes_eq a a ≡ true
bytes_eq_refl a = (bytes_eq_iff a a).1 refl

-- The order is total: one of two different strings is the smaller.
pub bytes_lt_total :
    (a b : Bytes) → bytes_eq a b ≡ false → bytes_lt a b ≡ false → bytes_lt b a ≡ true
unfolding bytes_eq bytes_lt
bytes_lt_total [] [] h k = cc
bytes_lt_total [] (b ∷ ys) h k = cc
bytes_lt_total (a ∷ xs) [] h k = refl
bytes_lt_total (a ∷ xs) (b ∷ ys) h k = ground (arith, bytes_lt_total xs ys)

pub bytes_lt_irrefl : (a : Bytes) → bytes_lt a a ≡ false
unfolding bytes_lt
bytes_lt_irrefl [] = refl
bytes_lt_irrefl (a ∷ xs) = ground (arith, bytes_lt_irrefl xs)

pub bytes_lt_trans :
    (a b c : Bytes) → bytes_lt a b ≡ true → bytes_lt b c ≡ true → bytes_lt a c ≡ true
unfolding bytes_lt
bytes_lt_trans [] [] c h k = cc
bytes_lt_trans [] (b ∷ ys) [] h k = cc
bytes_lt_trans [] (b ∷ ys) (c ∷ zs) h k = refl
bytes_lt_trans (a ∷ xs) [] c h k = cc
bytes_lt_trans (a ∷ xs) (b ∷ ys) [] h k = cc
bytes_lt_trans (a ∷ xs) (b ∷ ys) (c ∷ zs) h k = ground (arith, bytes_lt_trans xs ys zs)
