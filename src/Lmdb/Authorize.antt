-- ===== src/Lmdb/Authorize.antt =====
-- `S3Request::authorizeV4` of src/obj_store_auth/obj_store_auth.cc together with the transaction object
-- of include/lmdb-cpp.h that it reads the keys with.
use mathlib.Core.Path.{ap₂}
use ats_plugin_experiment.Base.{
  ℕ, Bool, true, false, Option, none, some, Bytes, ℤ, if◌then◌else◌, ◌≡◌, ◌∙◌, ap, sym, refl, inl,
  inr, Bool-cases, Option-cases,
}
use ats_plugin_experiment.AwsAuthV4.Sodium.{Sodium}
use ats_plugin_experiment.ObjStoreAuth.Config.{S3Config}
use ats_plugin_experiment.ObjStoreAuth.Credentials.{parse_user_config}
use ats_plugin_experiment.ObjStoreAuth.S3Request.{
  Mime, HttpStatus, internal_server_error, sign_request, authorize_v4,
}
use ats_plugin_experiment.Lmdb.{
  Library, Attempt, ok, thrown, State, M, pure, ◌>>=◌, is_success, may_throw, get, commit, destroy,
  do_begin_txn, scope, with_txn,
}
use ats_plugin_experiment.Lmdb.Handles.{
  Attempt-cases, committing, finishing, bind_ok, bind_thrown, begun, with_txn-begun, committed,
  commit_code, commit_succeeds, commit_fails,
}
use ats_plugin_experiment.Lmdb.Keys.{user_key, has_keys, user_keys}

module _ {H L W : Type 0} (mime : Mime H L) (sodium : Sodium) (library : Library W) where
  -- What `authorizeV4` does with the keys; its handler answers every exception.
  abbrev pub with_keys :
      ℕ → Bytes → Attempt (Option (Bytes × Bytes)) → S3Config → H → Option (H × HttpStatus)
  with_keys rounds date_time (thrown code) s3 h = some (h, internal_server_error)
  with_keys rounds date_time (ok none) s3 h = some (h, internal_server_error)
  with_keys rounds date_time (ok (some (access_key, secret_key))) s3 h =
      sign_request mime sodium rounds date_time s3 access_key secret_key h

  abbrev pub got : Attempt Bytes → Option Bytes
  got (ok value) = some value
  got (thrown code) = none

  module _ (dbi : ℕ) (t : State W) where
    -- The transaction, where it begins; the result of `get` in it, and whether a commit succeeds.
    abbrev pub inside : State W
    inside = begun library library.rdonly t

    abbrev pub stored : Option Bytes
    stored =
        if is_success (library.txn_begin library.rdonly t.world).0.0
        then got (get library dbi user_key inside).0
        else none

    abbrev pub can_commit : Bool
    can_commit = is_success (commit_code library inside)

    abbrev reads : M W (Option (Bytes × Bytes))
    reads = get library dbi user_key >>= λ value. pure (parse_user_config value)

    get_keeps : (get library dbi user_key inside).1 ≡ inside
    unfolding get may_throw
    get_keeps =
        elim (Bool-cases (is_success (library.lookup inside.txn dbi user_key inside.world).0)) [
          | inl b ↦ rw b refl
          | inr b ↦ rw b refl
        ]

    begin_thrown :
        is_success (library.txn_begin library.rdonly t.world).0.0 ≡ false
        → do_begin_txn library true library.rdonly t ≡ (
          thrown (library.txn_begin library.rdonly t.world).0.0,
          destroy library (record t {
            world = (library.txn_begin library.rdonly t.world).1;
            txn = none;
            is_done = false;
          }),
        )
    unfolding do_begin_txn
    begin_thrown b = rw b refl

    begin_fails :
        is_success (library.txn_begin library.rdonly t.world).0.0 ≡ false
        → (user_keys library dbi t).0 ≡ thrown (library.txn_begin library.rdonly t.world).0.0
    unfolding user_keys with_txn
    begin_fails b =
        let unbegun : State W = record t {
          world = (library.txn_begin library.rdonly t.world).1;
          txn = none;
          is_done = false;
        } in
        ap (λ p. p.0)
          (bind_thrown (do_begin_txn library true library.rdonly)
            (λ _. scope library (committing library has_keys reads)) t (destroy library unbegun)
            (library.txn_begin library.rdonly t.world).0.0 (begin_thrown b))

    keys_after :
        (r : Attempt (Option (Bytes × Bytes))) (u : State W)
        → is_success (library.txn_begin library.rdonly t.world).0.0 ≡ true
        → committing library has_keys reads inside ≡ (r, u)
        → (user_keys library dbi t).0 ≡ r
    unfolding user_keys
    keys_after r u begins e =
        ap (λ p. p.0)
          (with_txn-begun library library.rdonly (committing library has_keys reads) t begins)
        ∙ ap (λ p. p.0) e

    unstored : is_success (library.txn_begin library.rdonly t.world).0.0 ≡ false → stored ≡ none
    unstored b = rw b refl

    module _ (begins : is_success (library.txn_begin library.rdonly t.world).0.0 ≡ true) where
      stored-got : stored ≡ got (get library dbi user_key inside).0
      stored-got = rw begins refl

      -- The library throws.
      get_throws :
          (e : ℤ)
          → (get library dbi user_key inside).0 ≡ thrown e
          → (user_keys library dbi t).0 ≡ thrown e
      get_throws e h =
          let found = ap₂ (λ r u. (r, u)) h get_keeps in
          let read =
            bind_thrown (get library dbi user_key) (λ v. pure (parse_user_config v)) inside inside e
              found in
          keys_after (thrown e) inside begins
            (bind_thrown reads (finishing library has_keys) inside inside e read)

      got_read :
          (value : Bytes)
          → (get library dbi user_key inside).0 ≡ ok value
          → reads inside ≡ (ok (parse_user_config value), inside)
      got_read value h =
          bind_ok (get library dbi user_key) (λ v. pure (parse_user_config v)) inside inside value
            (ap₂ (λ r u. (r, u)) h get_keeps)

      parse_throws :
          (value : Bytes)
          → (get library dbi user_key inside).0 ≡ ok value
          → parse_user_config value ≡ none
          → (user_keys library dbi t).0 ≡ ok none
      parse_throws value h n =
          let read = got_read value h ∙ ap (λ k. (ok k, inside)) n in
          keys_after (ok none) inside begins
            (bind_ok reads (finishing library has_keys) inside inside none read)

      commits :
          (value : Bytes) (keys : Bytes × Bytes)
          → (get library dbi user_key inside).0 ≡ ok value
          → parse_user_config value ≡ some keys
          → can_commit ≡ true
          → (user_keys library dbi t).0 ≡ ok (some keys)
      commits value keys h p c =
          let read = got_read value h ∙ ap (λ k. (ok k, inside)) p in
          let done : State W = record (committed library inside) { is_done = true } in
          keys_after (ok (some keys)) done begins (
            bind_ok reads (finishing library has_keys) inside inside (some keys) read
            ∙ bind_ok (commit library) (λ _. pure (some keys)) inside done tt
                (commit_succeeds library inside c))

      commit_throws :
          (value : Bytes) (keys : Bytes × Bytes)
          → (get library dbi user_key inside).0 ≡ ok value
          → parse_user_config value ≡ some keys
          → can_commit ≡ false
          → (user_keys library dbi t).0 ≡ thrown (commit_code library inside)
      commit_throws value keys h p c =
          let read = got_read value h ∙ ap (λ k. (ok k, inside)) p in
          keys_after (thrown (commit_code library inside)) (committed library inside) begins (
            bind_ok reads (finishing library has_keys) inside inside (some keys) read
            ∙ bind_thrown (commit library) (λ _. pure (some keys)) inside (committed library inside)
                _ (commit_fails library inside c))

    module _ (rounds : ℕ) (date_time : Bytes) (s3 : S3Config) (h : H) where
      signed_none :
          (can : Bool)
          → authorize_v4 mime sodium rounds date_time none can s3 h
            ≡ some (h, internal_server_error)
      unfolding authorize_v4
      signed_none can = refl

      signed_malformed :
          (value : Bytes) (can : Bool)
          → parse_user_config value ≡ none
          → authorize_v4 mime sodium rounds date_time (some value) can s3 h
            ≡ some (h, internal_server_error)
      unfolding authorize_v4
      signed_malformed value can n = rw (authorize_v4, n) refl

      signed_some :
          (value : Bytes) (keys : Bytes × Bytes)
          → parse_user_config value ≡ some keys
          → authorize_v4 mime sodium rounds date_time (some value) true s3 h
            ≡ with_keys rounds date_time (ok (some keys)) s3 h
      unfolding authorize_v4
      signed_some value keys p = rw (authorize_v4, p) refl

      signed_lost :
          (value : Bytes) (keys : Bytes × Bytes)
          → parse_user_config value ≡ some keys
          → authorize_v4 mime sodium rounds date_time (some value) false s3 h
            ≡ some (h, internal_server_error)
      unfolding authorize_v4
      signed_lost value keys p = rw (authorize_v4, p) refl

      -- `authorizeV4` answers as its model does for what `get` finds, in a transaction of its own, and for
      -- whether the commit succeeds: a transaction that does not begin, a key that is missing, a value of
      -- another format and a commit that fails all give the status 500, and nothing of the header is set.
      pub with_keys-user_keys :
          with_keys rounds date_time (user_keys library dbi t).0 s3 h
          ≡ authorize_v4 mime sodium rounds date_time stored can_commit s3 h
      with_keys-user_keys =
          let with : Attempt (Option (Bytes × Bytes)) → Option (H × HttpStatus) =
            λ r. with_keys rounds date_time r s3 h in
          let model : Option Bytes → Bool → Option (H × HttpStatus) =
            λ o c. authorize_v4 mime sodium rounds date_time o c s3 h in
          elim (Bool-cases (is_success (library.txn_begin library.rdonly t.world).0.0)) [
            | inr b ↦
                ap with (begin_fails b)
                ∙ sym (ap (λ o. model o can_commit) (unstored b) ∙ signed_none can_commit)
            | inl b ↦ elim (Attempt-cases (get library dbi user_key inside).0) [
              | inr (e, g) ↦
                  ap with (get_throws b e g)
                  ∙ sym (
                      ap (λ o. model o can_commit) (stored-got b ∙ ap got g)
                      ∙ signed_none can_commit)
              | inl (value, g) ↦
                  let is_stored = ap (λ o. model o can_commit) (stored-got b ∙ ap got g) in
                  elim (Option-cases (parse_user_config value)) [
                    | inl n ↦
                        ap with (parse_throws b value g n)
                        ∙ sym (is_stored ∙ signed_malformed value can_commit n)
                    | inr (keys, p) ↦ elim (Bool-cases can_commit) [
                      | inl c ↦
                          ap with (commits b value keys g p c)
                          ∙ sym (is_stored ∙ ap (model (some value)) c ∙ signed_some value keys p)
                      | inr c ↦
                          ap with (commit_throws b value keys g p c)
                          ∙ sym (is_stored ∙ ap (model (some value)) c ∙ signed_lost value keys p)
                    ]
                  ]
            ]
          ]
