-- ===== src/Lmdb/Written.antt =====
-- What a run of src/lmdb_setup/lmdb_setup.cc that ends with the exit code 0 means for
-- `S3Request::authorizeV4` of src/obj_store_auth/obj_store_auth.cc.
use ats_plugin_experiment.Base.{
  codes, ℕ, true, false, if◌then◌else◌, Option, none, some, List, [], ◌∷◌, ◌++◌, Bytes, bytes_eq,
  bytes_eq_refl, Lacks, ◌≡◌, ◌∙◌, ap, sym, refl, arith,
}
use ats_plugin_experiment.ObjStoreAuth.Credentials.{BufferWriter, parse_user_config}
use ats_plugin_experiment.ObjStoreAuth.Credentials.RoundTrip.{parse_user_config-credential_value}
use ats_plugin_experiment.Lmdb.{
  open_dbi, Library, Attempt, ok, thrown, State, M, ◌>>◌, env_init, set_mapsize, set_maxreaders,
  set_maxdbs, env_open, do_begin_txn, with_txn, scope,
}
use ats_plugin_experiment.Lmdb.Handles.{committing}
use ats_plugin_experiment.Lmdb.Setup.{
  Credential, SetupConfig, Stop, finished, buffer_too_small, yaml_exception, is_finished, exit_code,
  value_of, put_all, use_txn, setup, main,
}
use ats_plugin_experiment.Lmdb.Stored.{Contents, latest, bind_inv, scope_inv, put_all-written}

-- None of the credentials is for this key.
abbrev pub AreOthers : Bytes → List (Option Credential) → Type 0
AreOthers k [] = Unit
AreOthers k (none ∷ cs) = AreOthers k cs
AreOthers k (some c ∷ cs) = (bytes_eq c.key k ≡ false) × AreOthers k cs

latest-others :
    (writer : BufferWriter) (cs : List (Option Credential)) (k : Bytes) (before : Option Bytes)
    → AreOthers k cs
    → latest writer cs k before ≡ before
latest-others writer [] k before others = refl
latest-others writer (none ∷ cs) k before others = latest-others writer cs k before others
latest-others writer (some c ∷ cs) k before (other, others) =
    rw other (latest-others writer cs k before others)

latest-last :
    (writer : BufferWriter) (early late : List (Option Credential)) (c : Credential)
    (before : Option Bytes)
    → AreOthers c.key late
    → latest writer (early ++ some c ∷ late) c.key before ≡ value_of writer c
latest-last writer [] late c before others =
    ap (λ b. latest writer late c.key (if b then value_of writer c else before))
      (bytes_eq_refl c.key)
    ∙ latest-others writer late c.key (value_of writer c) others
latest-last writer (none ∷ early) late c before others =
    latest-last writer early late c before others
latest-last writer (some d ∷ early) late c before others =
    latest-last writer early late c (if bytes_eq d.key c.key then value_of writer d else before)
      others

module _ {W : Type 0} (library : Library W) (writer : BufferWriter) where
  setup_inv :
      (c : SetupConfig) (s t : State W)
      → setup library writer c s ≡ (ok finished, t)
      → (u : State W) × (scope library
            (committing library is_finished (use_txn library writer c.credentials))
            u
          ≡ (ok finished, t))
  unfolding setup with_txn
  setup_inv c s t h =
      let body = committing library is_finished (use_txn library writer c.credentials) in
      let prepares : M W (Unit {0}) =
        env_init library
        >> set_mapsize library c.map_size
        >> set_maxreaders library c.max_readers
        >> set_maxdbs library c.max_dbs
        >> env_open library c.lmdb_path 0 384 in
      let (_, u, _, e) = bind_inv prepares (λ _. with_txn library true 0 body) s t finished h in
      let (_, v, _, f) =
        bind_inv (do_begin_txn library true 0) (λ _. scope library body) u t finished e in
      (v, f)

  exit_zero : (r : Attempt Stop) → exit_code r ≡ 0 → r ≡ ok finished
  exit_zero (thrown code) h = absurd (omega (arith, h))
  exit_zero (ok finished) h = refl
  exit_zero (ok buffer_too_small) h = absurd (omega (arith, h))
  exit_zero (ok yaml_exception) h = absurd (omega (arith, h))

  main_loads :
      (load : Bytes → Option SetupConfig) (program path : Bytes) (c : SetupConfig) (s : State W)
      → load path ≡ some c
      → main library writer load (program ∷ path ∷ []) s
        ≡ (exit_code (setup library writer c s).0, (setup library writer c s).1)
  unfolding main
  main_loads load program path c s l = rw (main, l) refl

  -- The exit code is 0 only where the file was read and the inner block ended at its end.
  main_inv :
      (load : Bytes → Option SetupConfig) (program path : Bytes) (c : SetupConfig) (s t : State W)
      → load path ≡ some c
      → main library writer load (program ∷ path ∷ []) s ≡ (0, t)
      → setup library writer c s ≡ (ok finished, t)
  main_inv load program path c s t l h =
      let ends = sym (main_loads load program path c s l) ∙ h in
      let r = setup library writer c s in
      ap (λ p. (p, r.1)) (exit_zero r.0 (ap (λ p. p.0) ends)) ∙ ap (λ p. (ok finished, p.1)) ends

  -- The number of the database that `open_dbi` returns in some state.
  abbrev pub IsOpened : ℕ → Type 0
  IsOpened dbi =
      (u v : State W) × (open_dbi library (codes "credentials") library.create u ≡ (ok dbi, v))

  -- Where the setup program ends with the exit code 0, the database holds, for a credential of its
  -- configuration file that no later one replaces, a value from which the plugin takes the access key
  -- and the secret key of that credential, if its bucket, endpoint, region and access key have no tab.
  pub main-parse_user_config :
      (contents : Contents library) (load : Bytes → Option SetupConfig) (program path : Bytes)
      (config : SetupConfig) (s t : State W) (early late : List (Option Credential))
      (c : Credential)
      → load path ≡ some config
      → config.credentials ≡ early ++ some c ∷ late
      → AreOthers c.key late
      → main library writer load (program ∷ path ∷ []) s ≡ (0, t)
      → Lacks 9 c.bucket
      → Lacks 9 c.endpoint
      → Lacks 9 c.region
      → Lacks 9 c.access_key
      → (dbi : ℕ) × IsOpened dbi
        × (value : Bytes) × (contents.held t.world dbi c.key ≡ some value)
        × (parse_user_config value ≡ some (c.access_key, c.secret_key))
  main-parse_user_config contents load program path config s t early late c l cs others h hb he hr
        ha =
      let (u, scoped) = setup_inv config s t (main_inv load program path config s t l h) in
      let (dbi, v, opens, held, w, puts) =
        scope_inv library writer contents config.credentials c.key u t scoped in
      let (value, written) =
        put_all-written library writer contents early late c dbi v w
          (ap (λ l. put_all library writer dbi l v) (sym cs) ∙ puts) in
      let last =
        ap (λ l. latest writer l c.key (contents.seen v.world dbi c.key)) cs
        ∙ latest-last writer early late c (contents.seen v.world dbi c.key) others in
      (
        dbi,
        (u, v, opens),
        value,
        held ∙ last ∙ written,
        parse_user_config-credential_value writer c.bucket c.endpoint c.region c.access_key
            c.secret_key value written hb he hr ha,
      )
