-- ===== src/Lmdb/Keys.antt =====
-- What src/obj_store_auth/obj_store_auth.cc does with LMDB: `doOpenLmdbDb`, and the transaction in
-- which `S3Request::authorizeV4` reads the keys of the user.
use ats_plugin_experiment.Base.{
  ℕ, Bool, true, false, Option, none, some, List, [], ◌∷◌, ◌++◌, Bytes, codes, Lacks, ◌≡◌, ◌∙◌, ap,
  sym,
}
use ats_plugin_experiment.ObjStoreAuth.Credentials.{BufferWriter, parse_user_config}
use ats_plugin_experiment.Lmdb.{
  Library, ok, State, M, pure, ◌>>=◌, ◌>>◌, is_success, may_throw, env_init, set_mapsize,
  set_maxreaders, set_maxdbs, env_open, open_dbi, get, commit, with_txn,
}
use ats_plugin_experiment.Lmdb.Handles.{
  committing, finishing, bind_ok, begun, with_txn-begun, committed, commit_code, commit_succeeds,
}
use ats_plugin_experiment.Lmdb.Setup.{Credential, SetupConfig, main}
use ats_plugin_experiment.Lmdb.Stored.{Contents}
use ats_plugin_experiment.Lmdb.Written.{AreOthers, IsOpened, main-parse_user_config}

-- `gLmdbUserKey`.
abbrev pub user_key : Bytes
user_key = codes "user1"

abbrev pub has_keys : Option (Bytes × Bytes) → Bool
has_keys none = false
has_keys (some keys) = true

module _ {W : Type 0} (library : Library W) where
  -- `doOpenLmdbDb`, once its file is read: the number of the database.
  unfoldable pub do_open_lmdb_db : SetupConfig → M W ℕ
  do_open_lmdb_db c =
      env_init library
      >> set_mapsize library c.map_size
      >> set_maxreaders library c.max_readers
      >> set_maxdbs library c.max_dbs
      >> env_open library c.lmdb_path library.rdonly 384
      >> with_txn library true library.rdonly
          (committing library (λ _. true) (open_dbi library (codes "credentials") 0))

  -- The access key and the secret key; `none` where "invalid LMDB data format" is thrown, which leaves
  -- the transaction without a commit.
  unfoldable pub user_keys : ℕ → M W (Option (Bytes × Bytes))
  user_keys dbi = with_txn library true library.rdonly (
      committing library has_keys
        (get library dbi user_key >>= λ value. pure (parse_user_config value)))

  -- Every commit succeeds.
  abbrev pub IsCommitting : Type 0
  IsCommitting = (txn : Option ℕ) (w : W) → is_success (library.txn_commit txn w).0 ≡ true

  module _ (contents : Contents library) where
    get_seen :
        (dbi : ℕ) (k value : Bytes) (s : State W)
        → contents.seen s.world dbi k ≡ some value
        → get library dbi k s ≡ (ok value, s)
    unfolding get may_throw
    get_seen dbi k value s h =
        ap (λ r. (may_throw r.0 >>= λ _. pure r.1) s)
          (contents.lookup-seen s.txn dbi k value s.world h)

    -- A value that the database holds for the user is read and taken apart.
    user_keys-held :
        (dbi : ℕ) (value : Bytes) (keys : Bytes × Bytes) (s : State W)
        → is_success (library.txn_begin library.rdonly s.world).0.0 ≡ true
        → IsCommitting
        → contents.held s.world dbi user_key ≡ some value
        → parse_user_config value ≡ some keys
        → (user_keys dbi s).0 ≡ ok (some keys)
    unfolding user_keys begun commit_code
    user_keys-held dbi value keys s begins commits held parsed =
        let u = begun library library.rdonly s in
        let reads : M W (Option (Bytes × Bytes)) =
          get library dbi user_key >>= λ v. pure (parse_user_config v) in
        let seen = contents.seen-txn_begin library.rdonly dbi user_key s.world begins ∙ held in
        let got : reads u ≡ (ok (some keys), u) =
          bind_ok (get library dbi user_key) (λ v. pure (parse_user_config v)) u u value
            (get_seen dbi user_key value u seen)
          ∙ ap (λ k. (ok k, u)) parsed in
        let done : State W = record (committed library u) { is_done = true } in
        let ends : committing library has_keys reads u ≡ (ok (some keys), done) =
          bind_ok reads (finishing library has_keys) u u (some keys) got
          ∙ bind_ok (commit library) (λ _. pure (some keys)) u done tt
              (commit_succeeds library u (commits u.txn u.world)) in
        ap (λ p. p.0)
          (with_txn-begun library library.rdonly (committing library has_keys reads) s begins)
        ∙ ap (λ p. p.0) ends

    -- The two programs together: where the setup program ends with the exit code 0, the plugin gets
    -- the access key and the secret key of the last credential for its user in the setup program's
    -- configuration file, from a transaction on what the setup program has left in the database that
    -- it opened, if bucket, endpoint, region and access key have no tab, the transaction can begin,
    -- and commits succeed.
    pub user_keys-main :
        (writer : BufferWriter) (load : Bytes → Option SetupConfig) (program path : Bytes)
        (config : SetupConfig) (s t : State W) (early late : List (Option Credential))
        (c : Credential)
        → load path ≡ some config
        → config.credentials ≡ early ++ some c ∷ late
        → c.key ≡ user_key
        → AreOthers c.key late
        → main library writer load (program ∷ path ∷ []) s ≡ (0, t)
        → Lacks 9 c.bucket
        → Lacks 9 c.endpoint
        → Lacks 9 c.region
        → Lacks 9 c.access_key
        → is_success (library.txn_begin library.rdonly t.world).0.0 ≡ true
        → IsCommitting
        → (dbi : ℕ) × IsOpened library writer dbi
          × ((user_keys dbi t).0 ≡ ok (some (c.access_key, c.secret_key)))
    user_keys-main writer load program path config s t early late c l cs user others h hb he hr ha
          begins commits =
        let (dbi, opened, value, held, parsed) =
          main-parse_user_config library writer contents load program path config s t early late c l
            cs others h hb he hr ha in
        (
          dbi,
          opened,
          user_keys-held dbi value (c.access_key, c.secret_key) t begins commits
              (ap (contents.held t.world dbi) (sym user) ∙ held) parsed,
        )
