-- ===== src/Base/Chars.antt =====
-- Character classes of <cctype> in the C locale. No byte from 128 up is in a class, and `tolower`
-- keeps it.
use Prim.Native.Nat.{ℕ, ◌+◌}
use mathlib.Core.Bool.{Bool, ◌&&◌, ◌||◌}
use ats_plugin_experiment.Base.Tests.{leb, ◌==◌, if◌then◌else◌}

abbrev pub within : ℕ → ℕ → ℕ → Bool
within lo hi c = leb lo c && leb c hi

abbrev pub is_digit : ℕ → Bool
is_digit c = within b'0' b'9' c

-- `isalnum`
unfoldable pub is_alnum : ℕ → Bool
is_alnum c = within b'0' b'9' c || within b'A' b'Z' c || within b'a' b'z' c

-- `isxdigit`
unfoldable pub is_xdigit : ℕ → Bool
is_xdigit c = within b'0' b'9' c || within b'A' b'F' c || within b'a' b'f' c

-- `isspace`: tab, newline, vertical tab, form feed, carriage return and the space.
unfoldable pub is_space : ℕ → Bool
is_space c = within 9 13 c || c == 32

-- `tolower`
unfoldable pub to_lower : ℕ → ℕ
to_lower c = if within b'A' b'Z' c then c + 32 else c
