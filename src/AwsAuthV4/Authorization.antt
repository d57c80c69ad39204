-- ===== src/AwsAuthV4/Authorization.antt =====
-- `AwsAuthV4`, `getStringToSign`, `hmacsha256` and `getSignature` of
-- src/obj_store_auth/aws_auth_v4.cc.
pub mod Scheme
pub mod Order
use ats_plugin_experiment.Base.{
  ℕ, Bool, Option, none, some, [], ◌∷◌, ◌++◌, Bytes, codes, take, is_empty, if◌then◌else◌,
}
use ats_plugin_experiment.Containers.StringSet.{StringSet}
use ats_plugin_experiment.Containers.StringMap.{StringMap}
use ats_plugin_experiment.AwsAuthV4.Sodium.{Sodium}
use ats_plugin_experiment.AwsAuthV4.Encode.{base16_encode}
use ats_plugin_experiment.AwsAuthV4.Region.{get_region}
use ats_plugin_experiment.AwsAuthV4.Defaults.{
  create_default_region_map, create_default_exclude_headers, create_default_include_headers,
}
use ats_plugin_experiment.AwsAuthV4.Request.{
  TsInterface, get_payload_sha256, get_canonical_request_sha256_hash,
}

-- The members of the class.
pub record AwsAuthV4 : Type 0 where
  pub api : TsInterface
  pub date_time : Bytes
  pub sign_payload : Bool
  pub aws_access_key_id : Bytes
  pub aws_secret_access_key : Bytes
  pub aws_service : Bytes
  pub included_headers : StringSet
  pub excluded_headers : StringSet
  pub region_map : StringMap

-- The constructor. `date_time` is what `getIso8601Time` formats.
unfoldable pub new_aws_auth_v4 :
    TsInterface
    → Bytes
    → Bool
    → Bytes
    → Bytes
    → Bytes
    → StringSet
    → StringSet
    → StringMap
    → AwsAuthV4
new_aws_auth_v4 api date_time sign_payload key_id secret service included excluded region_map =
    record {
      api = api;
      date_time = date_time;
      sign_payload = sign_payload;
      aws_access_key_id = key_id;
      aws_secret_access_key = secret;
      aws_service = service;
      included_headers = if is_empty included then create_default_include_headers else included;
      excluded_headers = if is_empty excluded then create_default_exclude_headers else excluded;
      region_map = if is_empty region_map then create_default_region_map else region_map;
    }

unfoldable pub get_string_to_sign : Bytes → Bytes → Bytes → Bytes → Bytes
get_string_to_sign date_time region service sha256_hash =
    let algorithm = [] ++ codes "AWS4-HMAC-SHA256\n" in
    let stamped = algorithm ++ date_time ++ codes "\n" in
    let scoped = stamped ++ take 8 date_time ++ codes "/" ++ region ++ codes "/" ++ service in
    scoped ++ codes "/aws4_request\n" ++ sha256_hash

module _ (sodium : Sodium) where
  open sodium use {hmac_init, hmac_update, hmac_final}

  unfoldable pub hmacsha256 : Bytes → Bytes → Bytes
  hmacsha256 key message = hmac_final (hmac_update (hmac_init key) message)

  -- No call of `hmacsha256` returns a null pointer, so the `&&` chain runs to its end.
  unfoldable pub get_signature : Bytes → Bytes → Bytes → Bytes → Bytes → Bytes
  get_signature aws_secret aws_region aws_service date string_to_sign =
      let date_key = hmacsha256 (codes "AWS4" ++ aws_secret) date in
      let date_region_key = hmacsha256 date_key aws_region in
      let date_region_service_key = hmacsha256 date_region_key aws_service in
      let signing_key = hmacsha256 date_region_service_key (codes "aws4_request") in
      hmacsha256 signing_key string_to_sign

  unfoldable pub get_payload_hash : AwsAuthV4 → Bytes
  get_payload_hash auth = get_payload_sha256 sodium auth.sign_payload

  -- `getAuthorizationHeader`, once the region is known.
  unfoldable pub authorization_header_in : AwsAuthV4 → Bytes → Bytes
  authorization_header_in auth aws_region =
      let (canonical_req, signed_headers) =
        get_canonical_request_sha256_hash sodium auth.api auth.sign_payload auth.included_headers
          auth.excluded_headers [] in
      let string_to_sign =
        get_string_to_sign auth.date_time aws_region auth.aws_service canonical_req in
      let signature =
        get_signature auth.aws_secret_access_key aws_region auth.aws_service (take 8 auth.date_time)
          string_to_sign in
      let credential =
        codes "AWS4-HMAC-SHA256 "
        ++ codes "Credential="
        ++ auth.aws_access_key_id
        ++ codes "/"
        ++ take 8 auth.date_time
        ++ codes "/"
        ++ aws_region
        ++ codes "/"
        ++ auth.aws_service
        ++ codes "/"
        ++ codes "aws4_request"
        ++ codes "," in
      credential
      ++ codes "SignedHeaders="
      ++ signed_headers
      ++ codes ","
      ++ codes "Signature="
      ++ base16_encode signature

  -- `none` where the loop of `getRegion` does not end within the rounds.
  unfoldable pub get_authorization_header : ℕ → AwsAuthV4 → Option Bytes
  get_authorization_header rounds auth = elim (get_region rounds auth.region_map auth.api.host) [
    | none ↦ none
    | some aws_region ↦ some (authorization_header_in auth aws_region)
  ]
