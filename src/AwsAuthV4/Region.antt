-- ===== src/AwsAuthV4/Region.antt =====
-- `getRegion` of src/obj_store_auth/aws_auth_v4.cc. `size_t` has 64 bits.
pub mod Candidates
pub mod Diverges
use ats_plugin_experiment.Base.{
  ℕ, zero, suc, ◌+◌, ◌-◌, ◌%◌, ◌^◌, Bool, true, false, not, Option, none, some, [], ◌∷◌, Bytes,
  take, drop, is_empty, ◌==◌, if◌then◌else◌,
}
use ats_plugin_experiment.Containers.StringMap.{StringMap, find}

abbrev pub npos : ℕ
npos = 2 ^ 64 - 1

-- The last position of `c`.
unfoldable pub find_last : ℕ → Bytes → Option ℕ
find_last c [] = none
find_last c (x ∷ s) = elim (find_last c s) [
  | some i ↦ some (suc i)
  | none ↦ if x == c then some 0 else none
]

-- `s.rfind(c, pos)`: the last position of `c` that is at most `pos`; `none` is `npos`.
unfoldable pub rfind : ℕ → ℕ → Bytes → Option ℕ
rfind c pos s = find_last c (take (suc pos) s)

-- The `do` loop: the value found, or the empty string where the loop ends without one. `none`
-- means that the rounds ran out.
unfoldable pub region_loop : ℕ → StringMap → Bytes → ℕ → Option Bytes
region_loop zero region_map hostname dot = none
region_loop (suc rounds) region_map hostname dot =
    elim (rfind b'.' ((dot + 2 ^ 64 - 1) % 2 ^ 64) hostname) [
      | some next ↦ elim (find region_map (drop (suc next) hostname)) [
        | some region ↦ some region
        | none ↦ region_loop rounds region_map hostname next
      ]
      | none ↦ elim (find region_map hostname) [ some region ↦ some region | none ↦ some [] ]
    ]

-- The default region, where nothing matched or the match is empty.
unfoldable pub or_default : StringMap → Bytes → Bytes
or_default region_map [] = elim (find region_map []) [ some region ↦ region | none ↦ [] ]
or_default region_map (c ∷ region) = c ∷ region

unfoldable pub get_region : ℕ → StringMap → Bytes → Option Bytes
get_region rounds region_map hostname = elim (region_loop rounds region_map hostname npos) [
  | none ↦ none
  | some region ↦ some (or_default region_map region)
]
