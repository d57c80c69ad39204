-- ===== src/Containers/StringMap.antt =====
-- `StringMap`: an association list in ascending order of its keys.
use ats_plugin_experiment.Base.{
  Bytes, bytes_eq, bytes_lt, bytes_eq_iff, Option, none, some, List, [], ◌∷◌, if◌then◌else◌, ◌≡◌,
  refl, arith,
}
use ats_plugin_experiment.Containers.StringSet.{StringSet}

abbrev pub StringMap : Type 0
StringMap = List (Bytes × Bytes)

-- `find(k)`; `none` is `end()`. Also `at(k)`, which throws on `none`.
unfoldable pub find : StringMap → Bytes → Option Bytes
find [] k = none
find ((j, v) ∷ m) k = if bytes_eq j k then some v else find m k

-- The value that `m[k]` reads: a new key holds the empty string.
unfoldable pub index : StringMap → Bytes → Bytes
index m k = elim (find m k) [ none ↦ [] | some v ↦ v ]

-- `m[k] = v`
unfoldable pub assign : Bytes → Bytes → StringMap → StringMap
assign k v [] = (k, v) ∷ []
assign k v ((j, w) ∷ m) =
    if bytes_eq j k
    then (j, v) ∷ m
    else if bytes_lt k j
    then (k, v) ∷ (j, w) ∷ m
    else (j, w) ∷ assign k v m

abbrev pub keys : StringMap → StringSet
keys [] = []
keys ((k, v) ∷ m) = k ∷ keys m

pub find-assign :
    (k j v : Bytes) (m : StringMap)
    → find (assign k v m) j ≡ (if bytes_eq k j then some v else find m j)
unfolding find assign
find-assign k j v [] = refl
find-assign k j v ((i, w) ∷ m) =
    ground (arith, find-assign k j v m, bytes_eq_iff i k, bytes_eq_iff i j, bytes_eq_iff k j)

pub index-ext : (m n : StringMap) (k : Bytes) → find m k ≡ find n k → index m k ≡ index n k
unfolding index
index-ext m n k h = ground arith
