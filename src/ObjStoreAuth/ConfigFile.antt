-- ===== src/ObjStoreAuth/ConfigFile.antt =====
-- `S3Config::parse_config` of src/obj_store_auth/obj_store_auth.cc.
pub mod Lines
pub mod Entries
pub mod Settings
use ats_plugin_experiment.Base.{
  ℕ, Bool, true, false, ◌||◌, Option, none, some, List, [], ◌∷◌, ◌++◌, ◌==◌, Bytes, codes, bytes_eq,
  is_empty, getlines, ◌≡◌, Lacks, if◌then◌else◌,
}
use ats_plugin_experiment.AwsAuthV4.Trim.Ends.{TrimOf}
use ats_plugin_experiment.ObjStoreAuth.Files.{Files, c_str}
use ats_plugin_experiment.ObjStoreAuth.Config.{
  S3Config, set_secret, set_keyid, set_token, set_virt_host, set_version, set_include_headers,
  set_exclude_headers, set_region_map, set_expiration,
}

-- `swoc::TextView`, with its documented behaviour: `trim_if(&isspace)` removes white space at both
-- ends; `take_prefix_at` returns what stands in front of the byte and leaves what follows it, or
-- returns all and leaves nothing where the byte is missing.
pub record TextView : Type 0 where
  pub trim_space : Bytes → Bytes
  pub take_prefix_at : ℕ → Bytes → Bytes × Bytes
  pub trim_space-TrimOf : (s : Bytes) → TrimOf s (trim_space s)
  pub take_prefix_at-found :
      (c : ℕ) (p s : Bytes) → Lacks c p → take_prefix_at c (p ++ c ∷ s) ≡ (p, s)
  pub take_prefix_at-missing : (c : ℕ) (s : Bytes) → Lacks c s → take_prefix_at c s ≡ (s, [])

-- The chain of tests on the key. A key that is not known is ignored, with a warning.
unfoldable pub apply_key : Files → Bytes → Bytes → S3Config → S3Config
apply_key files key value c =
    let v = c_str value in
    if bytes_eq key (codes "secret_key")
    then set_secret v c
    else if bytes_eq key (codes "access_key")
    then set_keyid v c
    else if bytes_eq key (codes "session_token")
    then set_token v c
    else if bytes_eq key (codes "version")
    then set_version v c
    else if bytes_eq key (codes "virtual_host")
    then set_virt_host c
    else if bytes_eq key (codes "v4-include-headers")
    then set_include_headers v c
    else if bytes_eq key (codes "v4-exclude-headers")
    then set_exclude_headers v c
    else if bytes_eq key (codes "v4-region-map")
    then set_region_map files v c
    else if bytes_eq key (codes "expiration")
    then set_expiration v c
    else c

unfoldable pub is_comment : Bytes → Bool
is_comment [] = false
is_comment (c ∷ s) = c == b'#'

module _ (tv : TextView) (files : Files) where
  open tv use {trim_space, take_prefix_at}

  unfoldable pub apply_line : Bytes → S3Config → S3Config
  apply_line line c =
      let key_val = trim_space line in
      let (key, value) = take_prefix_at b'=' key_val in
      if is_empty key_val || is_comment key_val
      then c
      else apply_key files (trim_space key) (trim_space value) c

  unfoldable pub apply_lines : List Bytes → S3Config → S3Config
  apply_lines [] c = c
  apply_lines (line ∷ lines) c = apply_lines lines (apply_line line c)

  unfoldable pub parse_config : Bytes → S3Config → S3Config × Bool
  parse_config config_fname c =
      if is_empty config_fname then (c, false) else elim (files.read config_fname) [
        | none ↦ (c, false)
        | some text ↦ (apply_lines (getlines 10 text) c, true)
      ]
