-- ===== src/Lmdb/Setup.antt =====
-- The program src/lmdb_setup/lmdb_setup.cc, which stores the credentials of its configuration file.
-- Its output is left out; YAML and the directory are parameters.
use ats_plugin_experiment.Base.{
  ℕ, Bool, true, false, Option, none, some, List, [], ◌∷◌, Bytes, codes,
}
use ats_plugin_experiment.ObjStoreAuth.Credentials.{BufferWriter, credential_value}
use ats_plugin_experiment.Lmdb.{
  Library, Attempt, ok, thrown, State, M, pure, ◌>>=◌, ◌>>◌, env_init, set_mapsize, set_maxreaders,
  set_maxdbs, env_open, open_dbi, get, put, with_txn,
}
use ats_plugin_experiment.Lmdb.Handles.{committing}

pub record Credential : Type 0 where
  pub key : Bytes
  pub access_key : Bytes
  pub secret_key : Bytes
  pub bucket : Bytes
  pub endpoint : Bytes
  pub region : Bytes

-- What the file says; a credential is `none` where reading its fields throws a YAML exception.
pub record SetupConfig : Type 0 where
  pub lmdb_path : Bytes
  pub map_size : ℕ
  pub max_readers : ℕ
  pub max_dbs : ℕ
  pub credentials : List (Option Credential)

-- How the loop over the credentials is left: at its end, by `return 1`, by a YAML exception.
pub data Stop : Type 0 where
  finished : Stop
  buffer_too_small : Stop
  yaml_exception : Stop

abbrev pub is_finished : Stop → Bool
is_finished finished = true
is_finished _ = false

abbrev pub exit_code : Attempt Stop → ℕ
exit_code (thrown code) = 1
exit_code (ok finished) = 0
exit_code (ok buffer_too_small) = 1
exit_code (ok yaml_exception) = 1

abbrev pub value_of : BufferWriter → Credential → Option Bytes
value_of writer c = credential_value writer c.bucket c.endpoint c.region c.access_key c.secret_key

module _ {W : Type 0} (library : Library W) (writer : BufferWriter) where
  -- The loop. The value is read back, for the output.
  unfoldable pub put_all : ℕ → List (Option Credential) → M W Stop
  put_all dbi [] = pure finished
  put_all dbi (none ∷ cs) = pure yaml_exception
  put_all dbi (some c ∷ cs) = elim (value_of writer c) [
    | none ↦ pure buffer_too_small
    | some value ↦ put library dbi c.key value 0 >> (get library dbi c.key >>= λ _. put_all dbi cs)
  ]

  unfoldable pub use_txn : List (Option Credential) → M W Stop
  use_txn cs = open_dbi library (codes "credentials") library.create >>= λ dbi. put_all dbi cs

  -- The inner block; the mode of `open` is its default, 0600.
  unfoldable pub setup : SetupConfig → M W Stop
  setup c =
      env_init library
      >> set_mapsize library c.map_size
      >> set_maxreaders library c.max_readers
      >> set_maxdbs library c.max_dbs
      >> env_open library c.lmdb_path 0 384
      >> with_txn library true 0 (committing library is_finished (use_txn c.credentials))

  -- `main`: the exit code. `load` is `YAML::LoadFile` with the first five fields, `none` where one of
  -- them throws.
  unfoldable pub main : (Bytes → Option SetupConfig) → List Bytes → State W → ℕ × State W
  main load (program ∷ path ∷ []) s = elim (load path) [
    | none ↦ (1, s)
    | some c ↦ let (r, t) = setup c s in (exit_code r, t)
  ]
  main load _ s = (2, s)
