-- ===== src/Tests/Signing.antt =====
-- The theorems on src/obj_store_auth/aws_auth_v4.cc at concrete inputs.
use ats_plugin_experiment.Base.{
  ℕ, ◌<◌, ◌*◌, Bool, true, false, ◌||◌, none, some, List, [], ◌∷◌, ◌++◌, Bytes, codes, length, map,
  any, getlines, bytes_eq, is_alnum, All, ◌≡◌, ◌≢◌, ◌↔◌, refl, arith,
}
use ats_plugin_experiment.Containers.StringMap.{find}
use ats_plugin_experiment.Containers.StringSet.{contains}
use ats_plugin_experiment.AwsAuthV4.Encode.{
  uri_encode, is_uri_encoded, canonical_encode, uri_encode_char, is_unreserved, char_to_int,
}
use ats_plugin_experiment.AwsAuthV4.Encode.Decode.{
  percent_decode, plus_to_space, percent_decode-uri_encode,
}
use ats_plugin_experiment.AwsAuthV4.Encode.Idempotent.{canonical_encode_idem}
use ats_plugin_experiment.AwsAuthV4.Encode.Detect.{FirstEscape, is_uri_encoded_iff}
use ats_plugin_experiment.AwsAuthV4.Trim.{
  trim_white_spaces, trim_white_spaces_and_squeeze_inner_spaces,
}
use ats_plugin_experiment.AwsAuthV4.Trim.Ends.{TrimOf, trim_white_spaces-TrimOf}
use ats_plugin_experiment.AwsAuthV4.Trim.Words.{words, join, squeeze-join-words}
use ats_plugin_experiment.AwsAuthV4.Query.{canonical_query, token_param}
use ats_plugin_experiment.AwsAuthV4.Query.Order.{canonical_query_swap}
use ats_plugin_experiment.AwsAuthV4.Headers.{add_fields, no_headers, is_mandatory, has_x_amz_prefix}
use ats_plugin_experiment.AwsAuthV4.Headers.Policy.{excluded_is_not_signed}
use ats_plugin_experiment.AwsAuthV4.Region.{get_region, or_default}
use ats_plugin_experiment.AwsAuthV4.Region.Candidates.{
  candidates, first_match, get_region-first_match, behind_dots, behind,
}
use ats_plugin_experiment.AwsAuthV4.Region.Diverges.{get_region_diverges}
use ats_plugin_experiment.AwsAuthV4.Authorization.{get_authorization_header}
use ats_plugin_experiment.AwsAuthV4.Authorization.Scheme.{
  authorization, get_authorization_header_lem,
}
use ats_plugin_experiment.Tests.Values.{toy_sodium, toy_api, toy_auth}

get_authorization_header_lem_example :
    get_authorization_header toy_sodium 20 toy_auth
    ≡ some (
        authorization toy_sodium toy_auth (
          or_default toy_auth.region_map
            (first_match toy_auth.region_map (candidates (codes "b.s3")))))
get_authorization_header_lem_example =
    get_authorization_header_lem toy_sodium 20 toy_auth (ground arith) (ground arith) (ground arith)

get_region-first_match_example :
    get_region 20 toy_auth.region_map (codes "b.s3")
    ≡ some (
        or_default toy_auth.region_map
          (first_match toy_auth.region_map (candidates (codes "b.s3"))))
get_region-first_match_example =
    get_region-first_match 20 toy_auth.region_map (codes "b.s3") (ground arith) (ground arith)
      (ground arith)

get_region_diverges_example : get_region 1000 [] (codes ".x") ≡ none
unfolding behind_dots behind find
get_region_diverges_example =
    get_region_diverges 1000 [] (codes ".x") refl (ground arith) (refl, tt)

percent_decode-uri_encode_example :
    percent_decode (uri_encode (codes "a/b+c%") false) ≡ codes "a/b c%"
unfolding plus_to_space
percent_decode-uri_encode_example = percent_decode-uri_encode (codes "a/b+c%") false (
  ground arith,
  (ground arith, (ground arith, (ground arith, (ground arith, (ground arith, tt))))),
)

canonical_encode_idem_example :
    canonical_encode (canonical_encode (codes "a b%20") true) true
    ≡ canonical_encode (codes "a b%20") true
canonical_encode_idem_example = canonical_encode_idem (codes "a b%20") true (
  ground arith,
  (ground arith, (ground arith, (ground arith, (ground arith, (ground arith, tt))))),
)

is_uri_encoded_iff_example :
    (is_uri_encoded (codes "a%2Fb") false ≡ true) ↔ FirstEscape (codes "a%2Fb") false
is_uri_encoded_iff_example = is_uri_encoded_iff (codes "a%2Fb") false

trim_white_spaces-TrimOf_example : TrimOf (codes " a b ") (trim_white_spaces (codes " a b "))
trim_white_spaces-TrimOf_example = trim_white_spaces-TrimOf (codes " a b ")

squeeze-join-words_example :
    trim_white_spaces_and_squeeze_inner_spaces (codes " a  b ") ≡ join (words (codes " a  b "))
squeeze-join-words_example = squeeze-join-words (codes " a  b ")

different_params :
    canonical_encode (token_param (codes "y=2")) false
    ≢ canonical_encode (token_param (codes "x=1")) false
unfolding canonical_encode token_param uri_encode uri_encode_char is_uri_encoded
    ats_plugin_experiment.Base.find is_unreserved char_to_int is_alnum
different_params = ground arith

canonical_query_swap_example : canonical_query (codes "y=2&x=1") ≡ canonical_query (codes "x=1&y=2")
unfolding getlines
canonical_query_swap_example =
    canonical_query_swap (codes "y=2&x=1") (codes "x=1&y=2") [] [] (codes "y=2") (codes "x=1") refl
      refl different_params

excluded_is_not_signed_example :
    contains (add_fields [] (codes "range" ∷ []) no_headers toy_api.headers).names (codes "range")
    ≡ false
unfolding is_mandatory has_x_amz_prefix bytes_eq contains
excluded_is_not_signed_example =
    excluded_is_not_signed [] (codes "range" ∷ []) toy_api.headers (codes "range") refl refl
