-- ===== src/ObjStoreAuth/Config/Copy.antt =====
-- `copy_changes_from`: what was set in the source wins.
use ats_plugin_experiment.Base.{
  Bool, true, false, Option, none, some, Bytes, ◌≡◌, refl, arith, if◌then◌else◌,
}
use ats_plugin_experiment.ObjStoreAuth.Config.{S3Config, valid, is_set, if_set, copy_changes_from}

if_idem {ℓ} :
    {A : Type ℓ} (b : Bool) (x y : A) → (if b then x else if b then x else y) ≡ (if b then x else y)
if_idem true x y = refl
if_idem false x y = refl

if_set_idem : (o p : Option Bytes) → if_set o (if_set o p) ≡ if_set o p
if_set_idem none p = refl
if_set_idem (some s) p = refl

-- Copying the changes of the same configuration a second time changes nothing more.
pub copy_changes_from_idem :
    (src c : S3Config) → copy_changes_from src (copy_changes_from src c) ≡ copy_changes_from src c
unfolding copy_changes_from
copy_changes_from_idem src c = λ i. record {
  secret = if_set_idem src.secret c.secret i;
  secret_len = if_idem (is_set src.secret) src.secret_len c.secret_len i;
  keyid = if_set_idem src.keyid c.keyid i;
  keyid_len = if_idem (is_set src.keyid) src.keyid_len c.keyid_len i;
  token = if_set_idem src.token c.token i;
  token_len = if_idem (is_set src.token) src.token_len c.token_len i;
  virt_host = if_idem src.virt_host_modified src.virt_host c.virt_host i;
  version = if_idem src.version_modified src.version c.version i;
  version_modified = if_idem src.version_modified true c.version_modified i;
  virt_host_modified = if_idem src.virt_host_modified true c.virt_host_modified i;
  v4_include_headers =
      if_idem src.v4_include_headers_modified src.v4_include_headers c.v4_include_headers i;
  v4_include_headers_modified =
      if_idem src.v4_include_headers_modified true c.v4_include_headers_modified i;
  v4_exclude_headers =
      if_idem src.v4_exclude_headers_modified src.v4_exclude_headers c.v4_exclude_headers i;
  v4_exclude_headers_modified =
      if_idem src.v4_exclude_headers_modified true c.v4_exclude_headers_modified i;
  region_map = if_idem src.region_map_modified src.region_map c.region_map i;
  region_map_modified = if_idem src.region_map_modified true c.region_map_modified i;
  expiration = src.expiration;
  conf_fname = if_set_idem src.conf_fname c.conf_fname i;
  conf_reload_count = c.conf_reload_count;
}

-- A usable configuration stays usable when the changes of a usable one are copied into it.
pub copy_changes_from-valid :
    (src c : S3Config) → valid src ≡ true → valid c ≡ true → valid (copy_changes_from src c) ≡ true
unfolding valid copy_changes_from
copy_changes_from-valid src c h k = ground arith
