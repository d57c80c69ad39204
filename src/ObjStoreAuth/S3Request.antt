-- ===== src/ObjStoreAuth/S3Request.antt =====
-- `S3Request::set_header`, `authorizeV4`, `authorize` and `event_handler` of
-- src/obj_store_auth/obj_store_auth.cc.
pub mod Signed
pub mod SetHeader
use ats_plugin_experiment.Base.{
  ℕ, zero, suc, Bool, true, false, not, ◌&&◌, ◌||◌, Option, none, some, [], ◌∷◌, ◌++◌, Bytes, codes,
  is_empty, ℤ, int_eq, ltb, ◌==◌, if◌then◌else◌,
}
use ats_plugin_experiment.AwsAuthV4.Sodium.{Sodium}
use ats_plugin_experiment.AwsAuthV4.Request.{TsInterface}
use ats_plugin_experiment.AwsAuthV4.Authorization.{
  AwsAuthV4, new_aws_auth_v4, get_payload_hash, get_authorization_header,
}
use ats_plugin_experiment.ObjStoreAuth.Config.{S3Config}
use ats_plugin_experiment.ObjStoreAuth.Credentials.{parse_user_config}

-- The calls on a request's header fields: `H` is the header's state, `L` the handles of its fields.
-- A call that creates or sets reports whether it returned `TS_SUCCESS`.
pub record Mime (H L : Type 0) : Type 0 where
  pub field_find : H → Bytes → Option L
  pub field_create_named : H → Bytes → H × Option L
  pub value_string_set : H → L → Bytes → H × Bool
  pub field_append : H → L → H
  pub field_next_dup : H → L → Option L
  pub field_destroy : H → L → H
  pub api_of : H → TsInterface

pub data HttpStatus : Type 0 where
  ok : HttpStatus
  internal_server_error : HttpStatus

module _ {H L : Type 0} (mime : Mime H L) where
  open mime use {
    field_find, field_create_named, value_string_set, field_append, field_next_dup, field_destroy,
  }

  -- The loop over the fields of one name, behind the first; `none` where it does not end within the
  -- rounds.
  unfoldable pub destroy_dups : ℕ → H → Option L → Option H
  destroy_dups zero h field_loc = none
  destroy_dups (suc rounds) h none = some h
  destroy_dups (suc rounds) h (some loc) =
      destroy_dups rounds (field_destroy h loc) (field_next_dup h loc)

  abbrev pub with_result : Bool → Option H → Option (H × Bool)
  with_result ret none = none
  with_result ret (some h) = some (h, ret)

  unfoldable pub set_found : ℕ → H → L → Bytes → Option (H × Bool)
  set_found rounds h loc val =
      let tmp = field_next_dup h loc in
      let set = value_string_set h loc val in with_result set.1 (destroy_dups rounds set.0 tmp)

  unfoldable pub create_field : H → Bytes → Bytes → H × Bool
  create_field h header val =
      let created = field_create_named h header in
      elim created.1 [
        | none ↦ (created.0, false)
        | some loc ↦
            let set = value_string_set created.0 loc val in
            if set.1 then (field_append set.0 loc, true) else (set.0, false)
      ]

  unfoldable pub set_header : ℕ → Bytes → Bytes → H → Option (H × Bool)
  set_header rounds header val h =
      if is_empty header || is_empty val then some (h, false) else elim (field_find h header) [
        | none ↦ some (create_field h header val)
        | some loc ↦ set_found rounds h loc val
      ]

  -- The early return where a header cannot be set.
  abbrev pub then_set : Option (H × Bool) → (H → Option (H × HttpStatus)) → Option (H × HttpStatus)
  then_set none next = none
  then_set (some (h, false)) next = some (h, internal_server_error)
  then_set (some (h, true)) next = next h

  -- The session token, where it is set and not empty.
  unfoldable pub set_token_header : ℕ → S3Config → H → Option (H × Bool)
  set_token_header rounds s3 h = elim s3.token [
    | none ↦ some (h, true)
    | some token ↦
        if is_empty token
        then some (h, true)
        else set_header rounds (codes "x-amz-security-token") token h
  ]

  -- The `AwsAuthV4` object, which reads the header of the request as it is when it is asked.
  unfoldable pub auth_of : Bytes → S3Config → Bytes → Bytes → H → AwsAuthV4
  auth_of date_time s3 access_key secret_key h =
      new_aws_auth_v4 (mime.api_of h) date_time false access_key secret_key (codes "s3")
        s3.v4_include_headers s3.v4_exclude_headers s3.region_map

  module _ (sodium : Sodium) where
    unfoldable pub set_authorization : ℕ → AwsAuthV4 → H → Option (H × HttpStatus)
    set_authorization rounds auth h = elim (get_authorization_header sodium rounds auth) [
      | none ↦ none
      | some value ↦
          if is_empty value
          then some (h, internal_server_error)
          else then_set (set_header rounds (codes "Authorization") value h) (λ g. some (g, ok))
    ]

    -- Behind the commit of the LMDB transaction.
    unfoldable pub sign_request : ℕ → Bytes → S3Config → Bytes → Bytes → H → Option (H × HttpStatus)
    sign_request rounds date_time s3 access_key secret_key h =
        let auth = auth_of date_time s3 access_key secret_key in
        then_set
          (set_header rounds (codes "x-amz-content-sha256") (get_payload_hash sodium (auth h)) h)
          (λ h1. then_set (set_header rounds (codes "x-amz-date") date_time h1) (λ h2.
            then_set (set_token_header rounds s3 h2) (λ h3. set_authorization rounds (auth h3) h3)))

    -- `stored` is what LMDB returns for the user's key, `none` where the library throws; `committed`
    -- is false where the commit throws. `date_time` is what `getIso8601Time` formats.
    unfoldable pub authorize_v4 :
        ℕ → Bytes → Option Bytes → Bool → S3Config → H → Option (H × HttpStatus)
    authorize_v4 rounds date_time none committed s3 h = some (h, internal_server_error)
    authorize_v4 rounds date_time (some user_config) committed s3 h =
        elim (parse_user_config user_config) [
          | none ↦ some (h, internal_server_error)
          | some (access_key, secret_key) ↦
              if committed
              then sign_request rounds date_time s3 access_key secret_key h
              else some (h, internal_server_error)
        ]

    unfoldable pub authorize :
        ℕ → Bytes → Option Bytes → Bool → S3Config → H → Option (H × HttpStatus)
    authorize rounds date_time stored committed s3 h =
        let signed = authorize_v4 rounds date_time stored committed s3 h in
        if int_eq s3.version 4 then signed else some (h, internal_server_error)
