-- ===== src/ObjStoreAuth/RegionMap.antt =====
-- `loadRegionMap` of src/obj_store_auth/obj_store_auth.cc.
pub mod Default
use ats_plugin_experiment.Base.{
  suc, Bool, true, false, Option, none, some, List, [], ◌∷◌, Bytes, take, drop, find, getlines,
  is_empty, if◌then◌else◌,
}
use ats_plugin_experiment.Containers.StringMap.{StringMap, assign}
use ats_plugin_experiment.AwsAuthV4.Trim.{trim_white_spaces}
use ats_plugin_experiment.ObjStoreAuth.Files.{Files, make_config_path}

-- The part of a line in front of a '#'.
unfoldable pub strip_comment : Bytes → Bytes
strip_comment line = elim (find b'#' line) [ none ↦ line | some pos ↦ take pos line ]

-- One round of the loop, on a line that is not empty; `none` is the early `return false`.
unfoldable pub add_entry : StringMap → Bytes → Option StringMap
add_entry m line = elim (find b':' line) [
  | none ↦ none
  | some d ↦
      let entrypoint = trim_white_spaces (take d line) in
      let region = trim_white_spaces (drop (suc d) line) in
      some (if is_empty region then m else assign entrypoint region m)
]

-- The loop. What was assigned before an early return stays in the map.
unfoldable pub add_lines : StringMap → List Bytes → StringMap × Bool
add_lines m [] = (m, true)
add_lines m (line ∷ lines) =
    let text = strip_comment line in
    elim (is_empty text) [
      | true ↦ add_lines m lines
      | false ↦ elim (add_entry m text) [ none ↦ (m, false) | some next ↦ add_lines next lines ]
    ]

unfoldable pub load_region_map : Files → StringMap → Bytes → StringMap × Bool
load_region_map files m filename = elim (files.read (make_config_path files filename)) [
  | none ↦ (m, false)
  | some text ↦ add_lines (assign [] [] m) (getlines 10 text)
]
