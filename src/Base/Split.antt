-- ===== src/Base/Split.antt =====
-- Searching and cutting byte strings: `find`, and the tokens of a loop over `std::getline`.
use Prim.Native.Nat.{ℕ, suc}
use mathlib.Core.Path.{◌≡◌, refl, ap}
use mathlib.Core.Bool.{true, false}
use mathlib.Core.List.{List, [], ◌∷◌, ◌++◌}
use mathlib.Core.Option
use mathlib.Core.Option.{Option, none, some}
use native.Mathlib.Omega.{arith}
use ats_plugin_experiment.Base.Tests.{◌==◌, if◌then◌else◌}
use ats_plugin_experiment.Base.Lists.{length, take, drop}
use ats_plugin_experiment.Base.Text.{Bytes, Lacks}

-- `s.find(c)`; `none` is `npos`.
unfoldable pub find : ℕ → Bytes → Option ℕ
find c [] = none
find c (x ∷ xs) = if x == c then some 0 else Option.map suc (find c xs)

pub find-append : (c : ℕ) (p rest : Bytes) → Lacks c p → find c (p ++ c ∷ rest) ≡ some (length p)
unfolding find
find-append c [] rest h = ground arith
find-append c (x ∷ p) rest (hx, h) = ground (arith, find-append c p rest h)

pub find-none : (c : ℕ) (s : Bytes) → Lacks c s → find c s ≡ none
unfolding find
find-none c [] h = refl
find-none c (x ∷ s) (hx, h) = ground (arith, find-none c s h)

pub take-length : (p rest : Bytes) → take (length p) (p ++ rest) ≡ p
take-length [] rest = refl
take-length (x ∷ p) rest = ap (◌∷◌ x) (take-length p rest)

pub drop-length : (p rest : Bytes) → drop (length p) (p ++ rest) ≡ rest
drop-length [] rest = refl
drop-length (x ∷ p) rest = drop-length p rest

-- The tokens that `while (std::getline(istr, token, delim))` reads. At the end of the input a
-- token that has extracted nothing is not delivered.
unfoldable pub getline_go : ℕ → Bytes → Bytes → List Bytes
getline_go delim [] [] = []
getline_go delim (c ∷ cs) [] = (c ∷ cs) ∷ []
getline_go delim cur (c ∷ s) = elim (c == delim) [
  | true ↦ cur ∷ getline_go delim [] s
  | false ↦ getline_go delim (cur ++ c ∷ []) s
]

unfoldable pub getlines : ℕ → Bytes → List Bytes
unfolding getline_go
getlines delim s = getline_go delim [] s
