-- ===== src/ObjStoreAuth/Remap/Creation.antt =====
-- What `TSRemapNewInstance` makes can be reloaded.
use mathlib.Core.Path.{subst}
use ats_plugin_experiment.Base.{
  ℕ, Bool, true, Option, none, some, List, [], ◌∷◌, Bytes, pos, int_eq, ◌-ℤ◌, ◌≡◌, ◌⊎◌, inl, inr,
  refl, sym, ap, ◌∙◌, arith, Bool-cases, Option-cases,
}
use ats_plugin_experiment.ObjStoreAuth.Files.{Files}
use ats_plugin_experiment.ObjStoreAuth.Config.{
  S3Config, valid, if_set, set_secret, set_keyid, set_token, set_virt_host, set_version,
  set_include_headers, set_exclude_headers, set_region_map, copy_changes_from,
  reset_conf_reload_count,
}
use ats_plugin_experiment.ObjStoreAuth.Config.Lengths.{
  IsSized, set_secret-IsSized, set_keyid-IsSized, set_token-IsSized, new_config-IsSized,
  copy_changes_from-IsSized,
}
use ats_plugin_experiment.ObjStoreAuth.ConfigFile.{TextView}
use ats_plugin_experiment.ObjStoreAuth.ConfigFile.Lines.{IsSized-same}
use ats_plugin_experiment.ObjStoreAuth.ConfigCache.{Cache, get}
use ats_plugin_experiment.ObjStoreAuth.ConfigCache.Entries.{
  IsNamed, OptionNamed, AreCached, get-AreCached,
}
use ats_plugin_experiment.ObjStoreAuth.Remap.{
  Opt, config, access_key, secret_key, session_token, virtual_host, version, v4_include_headers,
  v4_exclude_headers, v4_region_map, config_path, ignored, Options, apply_opt, apply_opts,
  no_options, merged, create_from, remap_new_instance,
}
use ats_plugin_experiment.ObjStoreAuth.Reload.{
  Actions, Instance, is_positive, schedule_conf_reload, schedule_first,
}

-- Sized, and without an expiration time or with a file to read again.
pub record IsReloadable (c : S3Config) : Type 0 where
  pub sized : IsSized c
  pub reloads : (c.expiration ≡ pos 0) ⊎ IsNamed c

-- In the loop over the options.
pub record IsCollected (o : Options) : Type 0 where
  pub sized : IsSized o.s3
  pub no_expiration : o.s3.expiration ≡ pos 0
  pub named : OptionNamed o.file_config
  pub cached : AreCached o.cache

abbrev OptionCollected : Option Options → Type 0
OptionCollected none = Unit
OptionCollected (some o) = IsCollected o

with_s3 :
    (o : Options) (c : S3Config)
    → IsCollected o
    → IsSized c
    → c.expiration ≡ pos 0
    → IsCollected (record o { s3 = c })
with_s3 o c h s e = record { sized = s; no_expiration = e; named = h.named; cached = h.cached }

copied-IsReloadable :
    (src c : S3Config) → IsSized c → IsNamed src → IsReloadable (copy_changes_from src c)
unfolding copy_changes_from
copied-IsReloadable src c s n =
    let sized = copy_changes_from-IsSized src c n.sized s in
    let (fname, named) = n.named in
    record {
      sized = sized;
      reloads =
          inr (record { named = (fname, ap (λ f. if_set f c.conf_fname) named); sized = sized });
    }

merged-IsReloadable :
    (o : Option S3Config) (c : S3Config)
    → OptionNamed o
    → IsSized c
    → c.expiration ≡ pos 0
    → IsReloadable (merged o c)
unfolding merged
merged-IsReloadable none c n s e = record { sized = s; reloads = inl e }
merged-IsReloadable (some src) c n s e = copied-IsReloadable src c s n

-- A rule that is valid and reloadable.
pub record IsReady (c : S3Config) : Type 0 where
  pub usable : valid c ≡ true
  pub reloadable : IsReloadable c

module _ (tv : TextView) (files : Files) (now : ℕ) where
  apply_config_failed :
      (fname : Bytes) (o : Options)
      → (get tv files now fname o.cache).1 ≡ none
      → apply_opt tv files now (config fname) o ≡ none
  unfolding apply_opt
  apply_config_failed fname o n = ground (arith, n)

  apply_config_found :
      (fname : Bytes) (o : Options) (s : S3Config)
      → (get tv files now fname o.cache).1 ≡ some s
      → apply_opt tv files now (config fname) o
        ≡ some (record o { file_config = some s; cache = (get tv files now fname o.cache).0 })
  unfolding apply_opt
  apply_config_found fname o s n = ground (arith, n)

  apply_opts_step :
      (opt : Opt) (opts : List Opt) (o p : Options)
      → apply_opt tv files now opt o ≡ some p
      → apply_opts tv files now (opt ∷ opts) o ≡ apply_opts tv files now opts p
  unfolding apply_opts
  apply_opts_step opt opts o p n = ground (arith, n)

  apply_opts_failed :
      (opt : Opt) (opts : List Opt) (o : Options)
      → apply_opt tv files now opt o ≡ none
      → apply_opts tv files now (opt ∷ opts) o ≡ none
  unfolding apply_opts
  apply_opts_failed opt opts o n = ground (arith, n)

  apply_config-OptionCollected :
      (fname : Bytes) (o : Options)
      → IsCollected o
      → OptionCollected (apply_opt tv files now (config fname) o)
  apply_config-OptionCollected fname o h =
      let kept = get-AreCached tv files fname now o.cache h.cached in
      let got = get tv files now fname o.cache in
      elim (Option-cases got.1) [
        | inl n ↦ subst OptionCollected (sym (apply_config_failed fname o n)) tt
        | inr (s, n) ↦
            let named : IsNamed s = subst OptionNamed n kept.1 in
            subst OptionCollected (sym (apply_config_found fname o s n)) (record {
              sized = h.sized;
              no_expiration = h.no_expiration;
              named = named;
              cached = kept.0;
            })
      ]

  apply_opt-OptionCollected :
      (opt : Opt) (o : Options) → IsCollected o → OptionCollected (apply_opt tv files now opt o)
  unfolding apply_opt set_secret set_keyid set_token set_virt_host set_version set_include_headers
      set_exclude_headers set_region_map
  apply_opt-OptionCollected (config fname) o h = apply_config-OptionCollected fname o h
  apply_opt-OptionCollected (access_key s) o h =
      with_s3 o (set_keyid s o.s3) h (set_keyid-IsSized s o.s3 h.sized) h.no_expiration
  apply_opt-OptionCollected (secret_key s) o h =
      with_s3 o (set_secret s o.s3) h (set_secret-IsSized s o.s3 h.sized) h.no_expiration
  apply_opt-OptionCollected (session_token s) o h =
      with_s3 o (set_token s o.s3) h (set_token-IsSized s o.s3 h.sized) h.no_expiration
  apply_opt-OptionCollected virtual_host o h =
      with_s3 o (set_virt_host o.s3) h
        (IsSized-same o.s3 (set_virt_host o.s3) h.sized (refl, refl, refl, refl, refl, refl))
        h.no_expiration
  apply_opt-OptionCollected (version s) o h =
      with_s3 o (set_version s o.s3) h
        (IsSized-same o.s3 (set_version s o.s3) h.sized (refl, refl, refl, refl, refl, refl))
        h.no_expiration
  apply_opt-OptionCollected (v4_include_headers s) o h =
      with_s3 o (set_include_headers s o.s3) h
        (IsSized-same o.s3 (set_include_headers s o.s3) h.sized
          (refl, refl, refl, refl, refl, refl))
        h.no_expiration
  apply_opt-OptionCollected (v4_exclude_headers s) o h =
      with_s3 o (set_exclude_headers s o.s3) h
        (IsSized-same o.s3 (set_exclude_headers s o.s3) h.sized
          (refl, refl, refl, refl, refl, refl))
        h.no_expiration
  apply_opt-OptionCollected (v4_region_map s) o h =
      with_s3 o (set_region_map files s o.s3) h
        (IsSized-same o.s3 (set_region_map files s o.s3) h.sized
          (refl, refl, refl, refl, refl, refl))
        h.no_expiration
  apply_opt-OptionCollected (config_path s) o h = record {
    sized = h.sized;
    no_expiration = h.no_expiration;
    named = h.named;
    cached = h.cached;
  }
  apply_opt-OptionCollected ignored o h = h

  apply_opts-OptionCollected :
      (opts : List Opt) (o : Options)
      → IsCollected o
      → OptionCollected (apply_opts tv files now opts o)
  unfolding apply_opts
  apply_opts-OptionCollected [] o h = h
  apply_opts-OptionCollected (opt ∷ opts) o h =
      let next = apply_opt-OptionCollected opt o h in
      elim (Option-cases (apply_opt tv files now opt o)) [
        | inl n ↦ subst OptionCollected (sym (apply_opts_failed opt opts o n)) tt
        | inr (p, n) ↦
            subst OptionCollected (sym (apply_opts_step opt opts o p n))
              (apply_opts-OptionCollected opts p (subst OptionCollected n next))
      ]

  module _ (actions : Actions) where
    reset-IsReloadable : (c : S3Config) → IsReloadable c → IsReloadable (reset_conf_reload_count c)
    unfolding reset_conf_reload_count
    reset-IsReloadable c h =
        let sized : IsSized (record c { conf_reload_count = 0 }) = record {
          secret_sized = h.sized.secret_sized;
          keyid_sized = h.sized.keyid_sized;
          token_sized = h.sized.token_sized;
        } in
        record {
          sized = sized;
          reloads = elim h.reloads [
            | inl e ↦ inl e
            | inr n ↦ inr (record { named = n.named; sized = sized })
          ];
        }

    reset-valid : (c : S3Config) → valid (reset_conf_reload_count c) ≡ valid c
    unfolding reset_conf_reload_count valid
    reset-valid c = refl

    schedule_first-IsReady :
        (i : Instance) → IsReady i.s3 → IsReady (schedule_first actions now i).0.s3
    unfolding schedule_first schedule_conf_reload
    schedule_first-IsReady i h = elim (Bool-cases (int_eq i.s3.expiration 0)) [
      | inl e ↦ rw e h
      | inr e ↦ elim (Bool-cases (is_positive (◌-ℤ◌ i.s3.expiration now))) [
        | inl p ↦
            rw (e, p)
              (record {
                usable = reset-valid i.s3 ∙ h.usable;
                reloadable = reset-IsReloadable i.s3 h.reloadable;
              })
        | inr p ↦ rw (e, p) h
      ]
    ]

    abbrev OptionReady : Option Instance → Type 0
    OptionReady none = Unit
    OptionReady (some i) = IsReady i.s3

    create_from-OptionReady :
        (opened : Bytes → Bool) (r : Option Options)
        → OptionCollected r
        → OptionReady (create_from tv files now actions opened r).rule
    unfolding create_from
    create_from-OptionReady opened none h = tt
    create_from-OptionReady opened (some o) h =
        let s3 = merged o.file_config o.s3 in
        let reloadable = merged-IsReloadable o.file_config o.s3 h.named h.sized h.no_expiration in
        elim (Bool-cases (opened o.lmdb_path)) [
          | inr b ↦ rw b tt
          | inl b ↦ elim (Bool-cases (valid s3)) [
            | inr v ↦ rw (b, v) tt
            | inl v ↦
                rw (b, v)
                  (schedule_first-IsReady (record { s3 = s3; conf_rld_act = none })
                    (record { usable = v; reloadable = reloadable }))
          ]
        ]

    -- A rule that `TSRemapNewInstance` makes, from a cache whose entries are idle, named and sized,
    -- has a valid configuration with the right lengths, and one that expires has the name of the file
    -- to read again.
    pub remap_new_instance-IsReady :
        (opened : Bytes → Bool) (opts : List Opt) (cache : Cache) (i : Instance)
        → AreCached cache
        → (remap_new_instance tv files now actions opened opts cache).rule ≡ some i
        → IsReady i.s3
    unfolding remap_new_instance
    remap_new_instance-IsReady opened opts cache i a e =
        let start : IsCollected (no_options cache) = record {
          sized = new_config-IsSized;
          no_expiration = refl;
          named = tt;
          cached = a;
        } in
        subst OptionReady e (
          create_from-OptionReady opened (apply_opts tv files now opts (no_options cache))
            (apply_opts-OptionCollected opts (no_options cache) start))
