-- ===== src/Tests/Lmdb.antt =====
-- The theorems on include/lmdb-cpp.h and src/lmdb_setup/lmdb_setup.cc at concrete inputs.
use ats_plugin_experiment.Base.{
  ℕ, true, false, Option, none, some, List, [], ◌∷◌, Bytes, codes, bytes_eq, if◌then◌else◌, pos,
  negsuc, ℤ, ◌≡◌, ap, refl, arith,
}
use ats_plugin_experiment.ObjStoreAuth.Credentials.{credential_value}
use ats_plugin_experiment.Lmdb.{
  Library, ok, thrown, State, M, get, with_txn, do_begin_txn, may_throw, env_init, set_mapsize,
  set_maxreaders, set_maxdbs, env_open, open_dbi, put, commit, scope,
}
use ats_plugin_experiment.Lmdb.Handles.{committing, get-IsAccess, commit_code, begun, started}
use ats_plugin_experiment.Lmdb.Releases.{after_body, released_once, released_twice}
use ats_plugin_experiment.Lmdb.Setup.{Credential, SetupConfig, put_all, use_txn, setup, main}
use ats_plugin_experiment.Lmdb.Stored.{Contents}
use ats_plugin_experiment.Lmdb.Authorize.{with_keys, stored, can_commit, with_keys-user_keys}
use ats_plugin_experiment.ObjStoreAuth.S3Request.{authorize_v4}
use ats_plugin_experiment.Lmdb.Written.{IsOpened}
use ats_plugin_experiment.Lmdb.Keys.{user_keys, user_keys-main}
use ats_plugin_experiment.Tests.Values.{toy_writer, counting_mime, toy_sodium, toy_config}

-- What a transaction sees, and what the database holds.
abbrev Maps : Type 0
Maps = (Bytes → Option Bytes) × (Bytes → Option Bytes)

abbrev read_map : Option Bytes → ℤ × Bytes
read_map none = (negsuc 30797, [])
read_map (some value) = (pos 0, value)

-- A database of one map, whose commits return a code.
abbrev toy_library : ℤ → Library Maps
toy_library code = record {
  not_found = negsuc 30797;
  notls = 2097152;
  create = 262144;
  rdonly = 131072;
  env_create = λ w. (pos 0, w);
  env_set_mapsize = λ n w. (pos 0, w);
  env_set_maxreaders = λ n w. (pos 0, w);
  env_set_maxdbs = λ n w. (pos 0, w);
  env_open = λ name flags mode w. (pos 0, w);
  txn_begin = λ flags w. ((pos 0, 7), (w.1, w.1));
  dbi_open = λ txn name flags w. ((pos 0, 1), w);
  lookup = λ txn dbi key w. read_map (w.0 key);
  put = λ txn dbi key value flags w.
      (pos 0, (λ k. if bytes_eq key k then some value else w.0 k, w.1));
  del = λ txn dbi key w. (pos 0, w);
  txn_commit = λ txn w. (code, (w.0, w.0));
  txn_abort = λ txn w. w;
  txn_reset = λ txn w. w;
  txn_renew = λ txn w. (pos 0, w);
}

abbrev toy_contents : Contents (toy_library (pos 0))
toy_contents = record {
  seen = λ w dbi. w.0;
  held = λ w dbi. w.1;
  seen-txn_begin = λ flags dbi k w h. refl;
  lookup-seen = λ txn dbi k value w h. ap read_map h;
  seen-put = λ txn dbi key value k w h. refl;
  held-txn_commit = λ txn dbi k w h. refl;
}

abbrev toy_credential : Credential
toy_credential = record {
  key = codes "user1";
  access_key = codes "a";
  secret_key = codes "s";
  bucket = codes "b";
  endpoint = codes "e";
  region = codes "r";
}

abbrev toy_setup : SetupConfig
toy_setup = record {
  lmdb_path = codes "/d";
  map_size = 4096;
  max_readers = 2;
  max_dbs = 1;
  credentials = some toy_credential ∷ [];
}

abbrev toy_state : State Maps
toy_state = record { world = (λ k. none, λ k. none); txn = none; is_done = false; released = [] }

abbrev toy_args : List Bytes
toy_args = codes "lmdb_setup" ∷ codes "c.yaml" ∷ []

abbrev toy_end : State Maps
toy_end = (main (toy_library (pos 0)) toy_writer (λ path. some toy_setup) toy_args toy_state).1

toy_exit :
    main (toy_library (pos 0)) toy_writer (λ path. some toy_setup) toy_args toy_state ≡ (0, toy_end)
unfolding main setup env_init set_mapsize set_maxreaders set_maxdbs env_open with_txn do_begin_txn
    scope use_txn open_dbi put_all put get commit may_throw credential_value bytes_eq
toy_exit = refl

user_keys-main_example :
    (dbi : ℕ) × IsOpened (toy_library (pos 0)) toy_writer dbi
    × ((user_keys (toy_library (pos 0)) dbi toy_end).0 ≡ ok (some (codes "a", codes "s")))
user_keys-main_example =
    user_keys-main (toy_library (pos 0)) toy_contents toy_writer (λ path. some toy_setup)
      (codes "lmdb_setup") (codes "c.yaml") toy_setup toy_state toy_end [] [] toy_credential refl
      refl refl tt toy_exit (ground arith) (ground arith) (ground arith) (ground arith) refl
      (λ txn w. refl)

abbrev toy_held : State Maps
toy_held = record toy_state { world = (λ k. none, λ k. some (codes "v")) }

abbrev read_user : ℤ → M Maps Bytes
read_user code = get (toy_library code) 1 (codes "user1")

released_once_example :
    (with_txn
      (toy_library (pos 0))
      true
      0
      (committing (toy_library (pos 0)) (λ v. true) (read_user (pos 0)))
      toy_held).1.released
    ≡ some 7 ∷ []
unfolding commit_code
released_once_example =
    released_once (toy_library (pos 0)) true 0 (λ v. true) (read_user (pos 0)) toy_held
      (get-IsAccess (toy_library (pos 0)) 1 (codes "user1")) refl (λ a h g. refl)

released_twice_example :
    ((with_txn
        (toy_library (pos 5))
        true
        0
        (committing (toy_library (pos 5)) (λ v. true) (read_user (pos 5)))
        toy_held).0
      ≡ thrown (
          commit_code
            (toy_library (pos 5))
            (after_body (toy_library (pos 5)) true 0 (λ v. true) (read_user (pos 5)) toy_held)))
    × ((with_txn
          (toy_library (pos 5))
          true
          0
          (committing (toy_library (pos 5)) (λ v. true) (read_user (pos 5)))
          toy_held).1.released
        ≡ some 7 ∷ some 7 ∷ [])
unfolding commit_code get begun may_throw started
released_twice_example =
    released_twice (toy_library (pos 5)) true 0 (λ v. true) (read_user (pos 5)) toy_held
      (get-IsAccess (toy_library (pos 5)) 1 (codes "user1")) (codes "v") refl refl refl refl

with_keys-user_keys_example :
    with_keys counting_mime toy_sodium
      (toy_library (pos 5))
      20
      (codes "20240102T030405Z")
      (user_keys (toy_library (pos 5)) 1 toy_held).0
      toy_config
      0
    ≡ authorize_v4 counting_mime toy_sodium 20
        (codes "20240102T030405Z")
        (stored counting_mime toy_sodium (toy_library (pos 5)) 1 toy_held)
        (can_commit counting_mime toy_sodium (toy_library (pos 5)) 1 toy_held)
        toy_config
        0
with_keys-user_keys_example =
    with_keys-user_keys counting_mime toy_sodium (toy_library (pos 5)) 1 toy_held 20
      (codes "20240102T030405Z") toy_config 0
