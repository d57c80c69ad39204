-- ===== src/ObjStoreAuth/ConfigCache/Freshness.antt =====
-- When `get` reads the file again, and what it leaves in the cache.
use ats_plugin_experiment.Base.{
  ℕ, ◌+◌, ◌%◌, ◌^◌, ◌≤◌, true, false, ◌==◌, Option, none, some, [], ◌∷◌, Bytes, bytes_eq, ◌≡◌, inl,
  inr, sym, arith, ap, ◌∙◌, Bool-cases, Option-cases, bytes_eq_refl,
}
use ats_plugin_experiment.ObjStoreAuth.Files.{Files, make_config_path}
use ats_plugin_experiment.ObjStoreAuth.Config.{S3Config}
use ats_plugin_experiment.ObjStoreAuth.ConfigFile.{TextView}
use ats_plugin_experiment.ObjStoreAuth.ConfigCache.{
  ConfigData, Cache, find_data, update_data, is_stale, load_config, get,
}

pub find_data-update_data :
    (fname : Bytes) (d e : ConfigData) (cache : Cache)
    → find_data fname cache ≡ some e
    → find_data fname (update_data fname d cache) ≡ some d
unfolding find_data update_data
find_data-update_data fname d e [] h = ground (arith, h)
find_data-update_data fname d e ((k, x) ∷ cache) h = elim (Bool-cases (bytes_eq k fname)) [
  | inl b ↦ rw (b, b)
  | inr b ↦ rw (b, b) (find_data-update_data fname d e cache (rw b at h))
]

now_IsFresh :
    (now status : ℕ) (c : Option S3Config)
    → is_stale now (record { update_status = status; config = c; load_time = now }) ≡ false
unfolding is_stale
now_IsFresh now status c = ground arith

same_config : (x y : ConfigData) → some x ≡ some y → x.config ≡ y.config
same_config x y h = let e : x ≡ y = ground (arith, h) in ap (λ (d : ConfigData). d.config) e

module _ (tv : TextView) (files : Files) (now : ℕ) (fname : Bytes) (cache : Cache) where
  -- A fresh entry is returned as it is, and the cache stays.
  pub get_fresh :
      (d : ConfigData)
      → find_data (make_config_path files fname) cache ≡ some d
      → is_stale now d ≡ false
      → get tv files now fname cache ≡ (cache, d.config)
  unfolding get
  get_fresh d h s = ground (arith, h, s)

  pub get_busy :
      (d : ConfigData)
      → find_data (make_config_path files fname) cache ≡ some d
      → (d.update_status % 2 == 0) ≡ false
      → get tv files now fname cache ≡ (cache, d.config)
  unfolding get
  get_busy d h s = elim (Bool-cases (is_stale now d)) [
    | inl e ↦ ground (arith, h, e, s)
    | inr e ↦ ground (arith, h, e)
  ]

  abbrev reloaded : ConfigData → Cache
  reloaded d =
      update_data (make_config_path files fname)
        (record {
          update_status = (d.update_status + 1 + 1) % 2 ^ 32;
          config = load_config tv files fname;
          load_time = now;
        })
        cache

  pub get_stale :
      (d : ConfigData)
      → find_data (make_config_path files fname) cache ≡ some d
      → is_stale now d ≡ true
      → (d.update_status % 2 == 0) ≡ true
      → get tv files now fname cache ≡ (reloaded d, load_config tv files fname)
  unfolding get
  get_stale d h s e = ground (arith, h, s, e)

  abbrev created : S3Config → Cache
  created s3 =
      (
        make_config_path files fname,
        record { update_status = 0; config = some s3; load_time = now },
      )
      ∷ cache

  pub get_new :
      (s3 : S3Config)
      → find_data (make_config_path files fname) cache ≡ none
      → load_config tv files fname ≡ some s3
      → get tv files now fname cache ≡ (created s3, some s3)
  unfolding get
  get_new s3 h l = ground (arith, h, l)

  pub get_failed :
      find_data (make_config_path files fname) cache ≡ none
      → load_config tv files fname ≡ none
      → get tv files now fname cache ≡ (cache, none)
  unfolding get
  get_failed h l = ground (arith, h, l)

find_data_here :
    (fname : Bytes) (d : ConfigData) (cache : Cache) → find_data fname ((fname, d) ∷ cache) ≡ some d
unfolding find_data
find_data_here fname d cache = rw (bytes_eq_refl fname)

module _ (tv : TextView) (files : Files) (now : ℕ) (fname : Bytes) (cache : Cache) where
  -- After `get`, the entry of the file holds what `get` returned.
  pub get_entry :
      (d : ConfigData)
      → find_data (make_config_path files fname) (get tv files now fname cache).0 ≡ some d
      → (get tv files now fname cache).1 ≡ d.config
  get_entry d h =
      let path = make_config_path files fname in
      elim (Option-cases (find_data path cache)) [
        | inl n ↦ elim (Option-cases (load_config tv files fname)) [
          | inl l ↦
              let e = get_failed tv files now fname cache n l in
              absurd (cc (sym n ∙ ap (λ r. find_data path r.0) (sym e) ∙ h))
          | inr (s3, l) ↦
              let e = get_new tv files now fname cache s3 n l in
              let new : ConfigData = record {
                update_status = 0;
                config = some s3;
                load_time = now;
              } in
              let same : some new ≡ some d =
                sym (find_data_here path new cache) ∙ ap (λ r. find_data path r.0) (sym e) ∙ h in
              ap (λ r. r.1) e ∙ same_config new d same
        ]
        | inr (o, f) ↦ elim (Bool-cases (is_stale now o)) [
          | inr s ↦
              let e = get_fresh tv files now fname cache o f s in
              let same : some o ≡ some d = sym f ∙ ap (λ r. find_data path r.0) (sym e) ∙ h in
              ap (λ r. r.1) e ∙ same_config o d same
          | inl s ↦ elim (Bool-cases (o.update_status % 2 == 0)) [
            | inr b ↦
                let e = get_busy tv files now fname cache o f b in
                let same : some o ≡ some d = sym f ∙ ap (λ r. find_data path r.0) (sym e) ∙ h in
                ap (λ r. r.1) e ∙ same_config o d same
            | inl b ↦
                let e = get_stale tv files now fname cache o f s b in
                let new : ConfigData = record {
                  update_status = (o.update_status + 1 + 1) % 2 ^ 32;
                  config = load_config tv files fname;
                  load_time = now;
                } in
                let same : some new ≡ some d =
                  sym (find_data-update_data path new o cache f)
                  ∙ ap (λ r. find_data path r.0) (sym e)
                  ∙ h in
                ap (λ r. r.1) e ∙ same_config new d same
          ]
        ]
      ]

  -- Within the 60 seconds a file is not read again: a later `get` of the same name, at a time up to
  -- 60 seconds after the entry was loaded, returns what the first returned and leaves the cache,
  -- whatever the files hold by then, as long as the configuration directory stays.
  pub get_again :
      (files_later : Files) (later : ℕ) (d : ConfigData)
      → make_config_path files_later fname ≡ make_config_path files fname
      → find_data (make_config_path files fname) (get tv files now fname cache).0 ≡ some d
      → later ≤ d.load_time + 60
      → get tv files_later later fname (get tv files now fname cache).0
        ≡ get tv files now fname cache
  unfolding is_stale
  get_again files_later later d p h t =
      let after = (get tv files now fname cache).0 in
      get_fresh tv files_later later fname after d (ap (λ q. find_data q after) p ∙ h)
        (ground (arith, t))
      ∙ ap (λ c. (after, c)) (sym (get_entry d h))
