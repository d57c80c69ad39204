-- ===== src/ObjStoreAuth/Config.antt =====
-- `S3Config` of src/obj_store_auth/obj_store_auth.cc: one configuration and its setters.
pub mod Lengths
pub mod Copy
use ats_plugin_experiment.Base.{
  ℕ, suc, ◌+◌, Bool, true, false, not, ◌&&◌, ◌||◌, Option, none, some, [], ◌∷◌, Bytes, codes,
  length, ltb, ℤ, pos, int_eq, strtol, to_int, if◌then◌else◌,
}
use ats_plugin_experiment.Containers.StringSet.{StringSet, insert}
use ats_plugin_experiment.Containers.StringMap.{StringMap}
use ats_plugin_experiment.AwsAuthV4.Trim.{comma_separate_string}
use ats_plugin_experiment.ObjStoreAuth.Files.{Files}
use ats_plugin_experiment.ObjStoreAuth.RegionMap.{load_region_map}

-- The members, except the handles of the two continuations and of the scheduled action. A null
-- pointer is `none`.
pub record S3Config : Type 0 where
  pub secret : Option Bytes
  pub secret_len : ℕ
  pub keyid : Option Bytes
  pub keyid_len : ℕ
  pub token : Option Bytes
  pub token_len : ℕ
  pub virt_host : Bool
  pub version : ℤ
  pub version_modified : Bool
  pub virt_host_modified : Bool
  pub v4_include_headers : StringSet
  pub v4_include_headers_modified : Bool
  pub v4_exclude_headers : StringSet
  pub v4_exclude_headers_modified : Bool
  pub region_map : StringMap
  pub region_map_modified : Bool
  pub expiration : ℤ
  pub conf_fname : Option Bytes
  pub conf_reload_count : ℕ

-- The default member initialisers.
abbrev pub new_config : S3Config
new_config = record {
  secret = none;
  secret_len = 0;
  keyid = none;
  keyid_len = 0;
  token = none;
  token_len = 0;
  virt_host = false;
  version = pos 2;
  version_modified = false;
  virt_host_modified = false;
  v4_include_headers = [];
  v4_include_headers_modified = false;
  v4_exclude_headers = [];
  v4_exclude_headers_modified = false;
  region_map = [];
  region_map_modified = false;
  expiration = pos 0;
  conf_fname = none;
  conf_reload_count = 0;
}

abbrev pub is_set : Option Bytes → Bool
is_set none = false
is_set (some s) = true

unfoldable pub valid : S3Config → Bool
valid c = not (
    not (is_set c.secret)
    || not (ltb 0 c.secret_len)
    || not (is_set c.keyid)
    || not (ltb 0 c.keyid_len)
    || (not (int_eq c.version 2) && not (int_eq c.version 4)))

-- The setters; the argument is a C string.
unfoldable pub set_secret : Bytes → S3Config → S3Config
set_secret s c = record c { secret = some s; secret_len = length s }

unfoldable pub set_keyid : Bytes → S3Config → S3Config
set_keyid s c = record c { keyid = some s; keyid_len = length s }

unfoldable pub set_token : Bytes → S3Config → S3Config
set_token s c = record c { token = some s; token_len = length s }

unfoldable pub set_virt_host : S3Config → S3Config
set_virt_host c = record c { virt_host = true; virt_host_modified = true }

unfoldable pub set_version : Bytes → S3Config → S3Config
set_version s c = record c { version = to_int (strtol s); version_modified = true }

unfoldable pub set_include_headers : Bytes → S3Config → S3Config
set_include_headers s c = record c {
  v4_include_headers = comma_separate_string true true c.v4_include_headers s;
  v4_include_headers_modified = true;
}

unfoldable pub set_exclude_headers : Bytes → S3Config → S3Config
set_exclude_headers s c = record c {
  v4_exclude_headers = insert (codes "via") (
      insert (codes "forwarded") (
        insert (codes "x-forwarded-for") (comma_separate_string true true c.v4_exclude_headers s)));
  v4_exclude_headers_modified = true;
}

unfoldable pub set_region_map : Files → Bytes → S3Config → S3Config
set_region_map files s c = record c {
  region_map = (load_region_map files c.region_map s).0;
  region_map_modified = true;
}

unfoldable pub set_expiration : Bytes → S3Config → S3Config
set_expiration s c = record c { expiration = strtol s }

unfoldable pub set_conf_fname : Bytes → S3Config → S3Config
set_conf_fname s c = record c { conf_fname = some s }

-- The post-increment of `incr_conf_reload_count`, and `reset_conf_reload_count`.
unfoldable pub incr_conf_reload_count : S3Config → S3Config × ℕ
incr_conf_reload_count c =
    (record c { conf_reload_count = c.conf_reload_count + 1 }, c.conf_reload_count)

unfoldable pub reset_conf_reload_count : S3Config → S3Config
reset_conf_reload_count c = record c { conf_reload_count = 0 }

abbrev pub if_set : Option Bytes → Option Bytes → Option Bytes
if_set none own = own
if_set (some s) own = some s

unfoldable pub copy_changes_from : S3Config → S3Config → S3Config
copy_changes_from src c = record {
  secret = if_set src.secret c.secret;
  secret_len = if is_set src.secret then src.secret_len else c.secret_len;
  keyid = if_set src.keyid c.keyid;
  keyid_len = if is_set src.keyid then src.keyid_len else c.keyid_len;
  token = if_set src.token c.token;
  token_len = if is_set src.token then src.token_len else c.token_len;
  virt_host = if src.virt_host_modified then src.virt_host else c.virt_host;
  version = if src.version_modified then src.version else c.version;
  version_modified = if src.version_modified then true else c.version_modified;
  virt_host_modified = if src.virt_host_modified then true else c.virt_host_modified;
  v4_include_headers =
      if src.v4_include_headers_modified then src.v4_include_headers else c.v4_include_headers;
  v4_include_headers_modified =
      if src.v4_include_headers_modified then true else c.v4_include_headers_modified;
  v4_exclude_headers =
      if src.v4_exclude_headers_modified then src.v4_exclude_headers else c.v4_exclude_headers;
  v4_exclude_headers_modified =
      if src.v4_exclude_headers_modified then true else c.v4_exclude_headers_modified;
  region_map = if src.region_map_modified then src.region_map else c.region_map;
  region_map_modified = if src.region_map_modified then true else c.region_map_modified;
  expiration = src.expiration;
  conf_fname = if_set src.conf_fname c.conf_fname;
  conf_reload_count = c.conf_reload_count;
}
