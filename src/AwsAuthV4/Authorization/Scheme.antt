-- ===== src/AwsAuthV4/Authorization/Scheme.antt =====
-- The header that is built follows the scheme of AWS Signature Version 4.
use ats_plugin_experiment.Base.{
  ℕ, ◌<◌, some, ◌++◌, append_assoc, Bytes, codes, take, length, ◌≡◌, ap, ◌∙◌, arith,
}
use ats_plugin_experiment.AwsAuthV4.Sodium.{Sodium}
use ats_plugin_experiment.AwsAuthV4.Encode.{base16_encode}
use ats_plugin_experiment.AwsAuthV4.Encode.Base16.{length-base16_encode}
use ats_plugin_experiment.AwsAuthV4.Headers.Order.{signed_names}
use ats_plugin_experiment.AwsAuthV4.Region.{npos, or_default}
use ats_plugin_experiment.AwsAuthV4.Region.Candidates.{
  candidates, first_match, NoLeadingDot, get_region-first_match,
}
use ats_plugin_experiment.AwsAuthV4.Request.Document.{
  canonical_request, get_canonical_request_sha256_hash_lem,
}
use ats_plugin_experiment.AwsAuthV4.Authorization.{
  AwsAuthV4, get_string_to_sign, hmacsha256, get_signature, authorization_header_in,
  get_authorization_header,
}

-- <date>/<region>/<service>/aws4_request
unfoldable pub credential_scope : AwsAuthV4 → Bytes → Bytes
credential_scope auth region =
    take 8 auth.date_time
    ++ (codes "/" ++ (region ++ (codes "/" ++ (auth.aws_service ++ codes "/aws4_request"))))

module _ (sodium : Sodium) where
  open sodium use {sha256, hmac, hmac_in_one_part, hmac_length}

  -- The string to sign: the algorithm, the time, the scope and the hash of the canonical request.
  unfoldable pub string_to_sign : AwsAuthV4 → Bytes → Bytes
  string_to_sign auth region =
      codes "AWS4-HMAC-SHA256\n"
      ++ (auth.date_time
          ++ (codes "\n"
              ++ (credential_scope auth region
                  ++ (codes "\n"
                      ++ base16_encode (
                          sha256 (
                            canonical_request sodium auth.api auth.sign_payload
                              auth.included_headers auth.excluded_headers))))))

  -- The signing key, derived from the secret by four steps of HMAC-SHA256.
  unfoldable pub signing_key : AwsAuthV4 → Bytes → Bytes
  signing_key auth region =
      hmac
        (hmac
          (hmac (hmac (codes "AWS4" ++ auth.aws_secret_access_key) (take 8 auth.date_time)) region)
          auth.aws_service)
        (codes "aws4_request")

  unfoldable pub signature : AwsAuthV4 → Bytes → Bytes
  signature auth region =
      base16_encode (hmac (signing_key auth region) (string_to_sign auth region))

  -- The value of the Authorization header.
  unfoldable pub authorization : AwsAuthV4 → Bytes → Bytes
  authorization auth region =
      codes "AWS4-HMAC-SHA256 Credential="
      ++ (auth.aws_access_key_id
          ++ (codes "/"
              ++ (credential_scope auth region
                  ++ (codes ",SignedHeaders="
                      ++ (signed_names auth.included_headers auth.excluded_headers auth.api.headers
                          ++ (codes ",Signature=" ++ signature auth region))))))

  hmacsha256_lem : (key message : Bytes) → hmacsha256 sodium key message ≡ hmac key message
  unfolding hmacsha256
  hmacsha256_lem key message = hmac_in_one_part key message

  get_signature_lem :
      (auth : AwsAuthV4) (region text : Bytes)
      → get_signature sodium auth.aws_secret_access_key region auth.aws_service
          (take 8 auth.date_time)
          text
        ≡ hmac (signing_key auth region) text
  unfolding get_signature signing_key
  get_signature_lem auth region text = simp hmacsha256_lem

  get_string_to_sign_lem :
      (auth : AwsAuthV4) (region hash : Bytes)
      → get_string_to_sign auth.date_time region auth.aws_service hash
        ≡ codes "AWS4-HMAC-SHA256\n"
          ++ (auth.date_time
              ++ (codes "\n" ++ (credential_scope auth region ++ (codes "\n" ++ hash))))
  unfolding get_string_to_sign credential_scope
  get_string_to_sign_lem auth region hash = simp append_assoc

  -- The text that is built around the signature.
  header_text : AwsAuthV4 → Bytes → Bytes → Bytes → Bytes
  header_text auth region signed_headers sig =
      codes "AWS4-HMAC-SHA256 "
      ++ codes "Credential="
      ++ auth.aws_access_key_id
      ++ codes "/"
      ++ take 8 auth.date_time
      ++ codes "/"
      ++ region
      ++ codes "/"
      ++ auth.aws_service
      ++ codes "/"
      ++ codes "aws4_request"
      ++ codes ","
      ++ codes "SignedHeaders="
      ++ signed_headers
      ++ codes ","
      ++ codes "Signature="
      ++ sig

  header_text_lem :
      (auth : AwsAuthV4) (region signed_headers sig : Bytes)
      → header_text auth region signed_headers sig
        ≡ codes "AWS4-HMAC-SHA256 Credential="
          ++ (auth.aws_access_key_id
              ++ (codes "/"
                  ++ (credential_scope auth region
                      ++ (codes ",SignedHeaders="
                          ++ (signed_headers ++ (codes ",Signature=" ++ sig))))))
  unfolding header_text credential_scope
  header_text_lem auth region signed_headers sig = simp append_assoc

  hash_of : AwsAuthV4 → Bytes
  hash_of auth = base16_encode (
      sha256 (
        canonical_request sodium auth.api auth.sign_payload auth.included_headers
          auth.excluded_headers))

  authorization_header_in_lem :
      (auth : AwsAuthV4) (region : Bytes)
      → authorization_header_in sodium auth region ≡ authorization auth region
  unfolding authorization_header_in authorization signature string_to_sign header_text hash_of
  authorization_header_in_lem auth region =
      let names = signed_names auth.included_headers auth.excluded_headers auth.api.headers in
      rw
        (get_canonical_request_sha256_hash_lem sodium auth.api auth.sign_payload
          auth.included_headers auth.excluded_headers)
        (ap (λ t. header_text auth region names (base16_encode t))
            (get_signature_lem auth region
                (get_string_to_sign auth.date_time region auth.aws_service (hash_of auth))
              ∙ ap (hmac (signing_key auth region))
                  (get_string_to_sign_lem auth region (hash_of auth)))
          ∙ header_text_lem auth region names (signature auth region))

  -- The Authorization header is that of the scheme, for the region of the first candidate of the
  -- host name; a host name that does not begin with a dot, and one round more than it has bytes.
  pub get_authorization_header_lem :
      (rounds : ℕ) (auth : AwsAuthV4)
      → NoLeadingDot auth.api.host
      → length auth.api.host < npos
      → length auth.api.host < rounds
      → get_authorization_header sodium rounds auth
        ≡ some (
            authorization auth
              (or_default auth.region_map (first_match auth.region_map (candidates auth.api.host))))
  unfolding get_authorization_header
  get_authorization_header_lem rounds auth h small enough =
      let region =
        or_default auth.region_map (first_match auth.region_map (candidates auth.api.host)) in
      rw
        (
          get_region-first_match rounds auth.region_map auth.api.host h small enough,
          get_authorization_header,
        )
        (ap some (authorization_header_in_lem auth region))

  -- The signature has 64 hexadecimal digits.
  pub length-signature : (auth : AwsAuthV4) (region : Bytes) → length (signature auth region) ≡ 64
  unfolding signature
  length-signature auth region = omega (
    arith,
    length-base16_encode (hmac (signing_key auth region) (string_to_sign auth region)),
    hmac_length (signing_key auth region) (string_to_sign auth region),
  )
