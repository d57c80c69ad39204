-- ===== src/AwsAuthV4/Request.antt =====
-- `getPayloadSha256` and `getCanonicalRequestSha256Hash` of src/obj_store_auth/aws_auth_v4.cc.
pub mod Document
use ats_plugin_experiment.Base.{
  Bool, true, false, not, List, [], ◌∷◌, ◌++◌, Bytes, codes, is_empty, if◌then◌else◌,
}
use ats_plugin_experiment.Containers.StringSet.{StringSet}
use ats_plugin_experiment.AwsAuthV4.Sodium.{Sodium, updates}
use ats_plugin_experiment.AwsAuthV4.Encode.{base16_encode, canonical_encode}
use ats_plugin_experiment.AwsAuthV4.Query.{canonical_query}
use ats_plugin_experiment.AwsAuthV4.Headers.{
  HeaderField, SignedHeaders, add_fields, no_headers, header_chunks, append_names,
}

-- What the methods of a `TsInterface` return; `headers` are the fields between `headerBegin` and
-- `headerEnd`.
pub record TsInterface : Type 0 where
  pub method : Bytes
  pub host : Bytes
  pub path : Bytes
  pub params : Bytes
  pub query : Bytes
  pub headers : List HeaderField

-- The local `path`, before it is encoded.
unfoldable pub request_path : TsInterface → Bytes
request_path api =
    let path = codes "/" ++ api.path in
    if is_empty api.params then path else path ++ codes ";" ++ api.params

module _ (sodium : Sodium) where
  open sodium use {sha256_init, sha256_update, sha256_final, sha256}

  unfoldable pub get_payload_sha256 : Bool → Bytes
  get_payload_sha256 sign_payload =
      if not sign_payload then codes "UNSIGNED-PAYLOAD" else base16_encode (sha256 [])

  -- The hash, and the list of signed headers behind what the caller's string held.
  unfoldable pub get_canonical_request_sha256_hash :
      TsInterface → Bool → StringSet → StringSet → Bytes → Bytes × Bytes
  get_canonical_request_sha256_hash api sign_payload include_headers exclude_headers
        signed_headers =
      let canonical_uri = canonical_encode (request_path api) true in
      let started = updates sha256_update sha256_init (
        api.method
        ∷ codes "\n"
        ∷ canonical_uri
        ∷ codes "\n"
        ∷ canonical_query api.query
        ∷ codes "\n"
        ∷ []) in
      let sh = add_fields include_headers exclude_headers no_headers api.headers in
      let with_headers =
        sha256_update (updates sha256_update started (header_chunks sh.values sh.names))
          (codes "\n") in
      let signed = append_names signed_headers sh.names in
      let done =
        updates sha256_update with_headers
          (signed ∷ codes "\n" ∷ get_payload_sha256 sign_payload ∷ []) in
      (base16_encode (sha256_final done), signed)
