-- ===== src/ObjStoreAuth/ConfigCache.antt =====
-- `ConfigCache` of src/obj_store_auth/obj_store_auth.cc, as one thread uses it: no other thread is
-- inside `get` at the same time, so the exchange of `update_status` succeeds when it is even.
pub mod Freshness
pub mod Entries
pub mod Refinement
pub mod Threads
use ats_plugin_experiment.Base.{
  ℕ, ◌+◌, ◌%◌, ◌^◌, Bool, true, false, ◌==◌, Option, none, some, List, [], ◌∷◌, Bytes, bytes_eq,
  ltb, if◌then◌else◌,
}
use ats_plugin_experiment.ObjStoreAuth.Files.{Files, make_config_path, c_str}
use ats_plugin_experiment.ObjStoreAuth.Config.{S3Config, new_config, set_conf_fname}
use ats_plugin_experiment.ObjStoreAuth.ConfigFile.{TextView, parse_config}

-- The members of `_ConfigData`; a null pointer is `none`.
pub record ConfigData : Type 0 where
  pub update_status : ℕ
  pub config : Option S3Config
  pub load_time : ℕ

-- `_cache`, and `_ttl`.
abbrev pub Cache : Type 0
Cache = List (Bytes × ConfigData)

abbrev pub ttl : ℕ
ttl = 60

-- `_cache.find`.
unfoldable pub find_data : Bytes → Cache → Option ConfigData
find_data fname [] = none
find_data fname ((k, d) ∷ cache) =
    let rest = find_data fname cache in if bytes_eq k fname then some d else rest

-- The assignments through `it->second`.
unfoldable pub update_data : Bytes → ConfigData → Cache → Cache
update_data fname d [] = []
update_data fname d ((k, e) ∷ cache) =
    let rest = update_data fname d cache in
    if bytes_eq k fname then (k, d) ∷ cache else (k, e) ∷ rest

-- `tv.tv_sec > load_time + _ttl`, at the time `now`.
unfoldable pub is_stale : ℕ → ConfigData → Bool
is_stale now d = ltb (d.load_time + ttl) now

module _ (tv : TextView) (files : Files) where
  -- `new S3Config(false)`, `parse_config` and `set_conf_fname`; `none` where the parse fails.
  unfoldable pub load_config : Bytes → Option S3Config
  load_config fname =
      let (s3, parsed) = parse_config tv files (make_config_path files fname) new_config in
      if parsed then some (set_conf_fname (c_str fname) s3) else none

  -- `update_status` is counted up when the reload begins and when it ends. Where it is odd, the
  -- wait for the other thread returns the entry's configuration.
  unfoldable pub get : ℕ → Bytes → Cache → Cache × Option S3Config
  get now fname cache =
      let config_fname = make_config_path files fname in
      let loaded = load_config fname in
      elim (find_data config_fname cache) [
        | some d ↦
            if is_stale now d
            then if d.update_status % 2 == 0
              then (
                update_data config_fname
                    (record {
                      update_status = (d.update_status + 1 + 1) % 2 ^ 32;
                      config = loaded;
                      load_time = now;
                    })
                    cache,
                loaded,
              )
              else (cache, d.config)
            else (cache, d.config)
        | none ↦ elim loaded [
          | some s3 ↦ (
            (config_fname, record { update_status = 0; config = some s3; load_time = now }) ∷ cache,
            some s3,
          )
          | none ↦ (cache, none)
        ]
      ]
