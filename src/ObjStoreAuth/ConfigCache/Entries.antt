-- ===== src/ObjStoreAuth/ConfigCache/Entries.antt =====
-- What every entry of the cache has: no reload is left open, and a configuration carries the name
-- that it was loaded by and the lengths of its strings.
use mathlib.Core.Path.{subst}
use ats_plugin_experiment.Base.{
  ℕ, ◌+◌, ◌%◌, ◌^◌, true, ◌==◌, Option, none, some, [], ◌∷◌, Bytes, bytes_eq, ◌≡◌, inl, inr, refl,
  arith, Bool-cases, Option-cases,
}
use ats_plugin_experiment.ObjStoreAuth.Files.{Files, make_config_path, c_str}
use ats_plugin_experiment.ObjStoreAuth.Config.{S3Config, new_config, set_conf_fname}
use ats_plugin_experiment.ObjStoreAuth.Config.Lengths.{IsSized, new_config-IsSized}
use ats_plugin_experiment.ObjStoreAuth.ConfigFile.{TextView, parse_config}
use ats_plugin_experiment.ObjStoreAuth.ConfigFile.Lines.{parse_config-IsSized}
use ats_plugin_experiment.ObjStoreAuth.ConfigCache.{
  ConfigData, Cache, find_data, update_data, is_stale, load_config, get,
}
use ats_plugin_experiment.ObjStoreAuth.ConfigCache.Freshness.{
  get_fresh, get_stale, get_new, get_failed,
}

-- A configuration that can be reloaded: it has a name, and its lengths are right.
pub record IsNamed (c : S3Config) : Type 0 where
  pub named : (fname : Bytes) × (c.conf_fname ≡ some fname)
  pub sized : IsSized c

abbrev pub OptionNamed : Option S3Config → Type 0
OptionNamed none = Unit
OptionNamed (some c) = IsNamed c

pub record IsEntryData (d : ConfigData) : Type 0 where
  pub idle : d.update_status % 2 ≡ 0
  pub holds : OptionNamed d.config

abbrev pub AreCached : Cache → Type 0
AreCached [] = Unit
AreCached ((k, d) ∷ cache) = IsEntryData d × AreCached cache

pub find_data-IsEntryData :
    (fname : Bytes) (d : ConfigData) (cache : Cache)
    → AreCached cache
    → find_data fname cache ≡ some d
    → IsEntryData d
unfolding find_data
find_data-IsEntryData fname d [] a h = ground (arith, h)
find_data-IsEntryData fname d ((k, x) ∷ cache) (ax, a) h = elim (Bool-cases (bytes_eq k fname)) [
  | inl b ↦ let same : some x ≡ some d = rw b at h in subst IsEntryData (ground (arith, same)) ax
  | inr b ↦ find_data-IsEntryData fname d cache a (rw b at h)
]

update_data-AreCached :
    (fname : Bytes) (d : ConfigData) (cache : Cache)
    → IsEntryData d
    → AreCached cache
    → AreCached (update_data fname d cache)
unfolding update_data
update_data-AreCached fname d [] h a = a
update_data-AreCached fname d ((k, x) ∷ cache) h (ax, a) = elim (Bool-cases (bytes_eq k fname)) [
  | inl b ↦ rw b (h, a)
  | inr b ↦ rw b (ax, update_data-AreCached fname d cache h a)
]

module _ (tv : TextView) (files : Files) (fname : Bytes) where
  load_config-OptionNamed : OptionNamed (load_config tv files fname)
  unfolding load_config set_conf_fname
  load_config-OptionNamed =
      let path = make_config_path files fname in
      let sized = parse_config-IsSized tv files path new_config new_config-IsSized in
      elim (Bool-cases (parse_config tv files path new_config).1) [
        | inl b ↦ rw b (record {
          named = (c_str fname, refl);
          sized = record {
            secret_sized = sized.secret_sized;
            keyid_sized = sized.keyid_sized;
            token_sized = sized.token_sized;
          };
        })
        | inr b ↦ rw b tt
      ]

  -- `get` keeps every entry of the cache idle, named and sized, and what it returns is a null
  -- pointer or a configuration that is named and sized.
  pub get-AreCached :
      (now : ℕ) (cache : Cache)
      → AreCached cache
      → AreCached (get tv files now fname cache).0 × OptionNamed (get tv files now fname cache).1
  get-AreCached now cache a =
      let path = make_config_path files fname in
      let loaded = load_config-OptionNamed in
      elim (Option-cases (find_data path cache)) [
        | inl n ↦ elim (Option-cases (load_config tv files fname)) [
          | inl l ↦ rw (get_failed tv files now fname cache n l) (a, tt)
          | inr (s3, l) ↦
              let named : IsNamed s3 = rw l at loaded in
              rw (get_new tv files now fname cache s3 n l)
                ((record { idle = refl; holds = named }, a), named)
        ]
        | inr (o, f) ↦
            let entry = find_data-IsEntryData path o cache a f in
            elim (Bool-cases (is_stale now o)) [
              | inr s ↦ rw (get_fresh tv files now fname cache o f s) (a, entry.holds)
              | inl s ↦
                  let even : (o.update_status % 2 == 0) ≡ true = ground (arith, entry.idle) in
                  let idle : (o.update_status + 1 + 1) % 2 ^ 32 % 2 ≡ 0 =
                    omega (arith, entry.idle) in
                  rw (get_stale tv files now fname cache o f s even) (
                    update_data-AreCached path
                        (record {
                          update_status = (o.update_status + 1 + 1) % 2 ^ 32;
                          config = load_config tv files fname;
                          load_time = now;
                        })
                        cache (record { idle = idle; holds = loaded }) a,
                    loaded,
                  )
            ]
      ]
