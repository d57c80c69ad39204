-- ===== src/AwsAuthV4/Query.antt =====
-- The canonical query string: the loops over the query parameters in
-- `getCanonicalRequestSha256Hash` of src/obj_store_auth/aws_auth_v4.cc.
pub mod Collected
pub mod Order
use ats_plugin_experiment.Base.{
  suc, Bool, true, false, List, [], ◌∷◌, ◌++◌, Option, none, some, Bytes, take, drop, is_empty,
  find, getlines, if◌then◌else◌, length,
}
use ats_plugin_experiment.Containers.StringSet.{StringSet, insert}
use ats_plugin_experiment.Containers.StringMap.{StringMap, index, assign}
use ats_plugin_experiment.AwsAuthV4.Encode.{canonical_encode}

-- The locals `paramNames` and `paramsMap`.
pub record Params : Type 0 where
  pub names : StringSet
  pub values : StringMap

-- `param` and `value` of a token, which ends at its first '='.
unfoldable pub token_param : Bytes → Bytes
token_param token = elim (find b'=' token) [ none ↦ token | some pos ↦ take pos token ]

unfoldable pub token_value : Bytes → Bytes
token_value token = elim (find b'=' token) [ none ↦ [] | some pos ↦ drop (suc pos) token ]

unfoldable pub add_token : Params → Bytes → Params
add_token ps token =
    let encoded_param = canonical_encode (token_param token) false in
    record {
      names = insert encoded_param ps.names;
      values = assign encoded_param (canonical_encode (token_value token) false) ps.values;
    }

unfoldable pub add_tokens : Params → List Bytes → Params
add_tokens ps [] = ps
add_tokens ps (token ∷ tokens) = add_tokens (add_token ps token) tokens

abbrev pub no_params : Params
no_params = record { names = []; values = [] }

-- One round of the loop over `paramNames`, and the loop; `query_str` is the source's `queryStr`.
unfoldable pub append_param : StringMap → Bytes → Bytes → Bytes
append_param values query_str name =
    let separated = if is_empty query_str then query_str else query_str ++ b'&' ∷ [] in
    separated ++ name ++ b'=' ∷ [] ++ index values name

unfoldable pub write_params : StringMap → StringSet → Bytes → Bytes
write_params values [] query_str = query_str
write_params values (name ∷ names) query_str =
    write_params values names (append_param values query_str name)

unfoldable pub canonical_query : Bytes → Bytes
canonical_query query =
    let ps = add_tokens no_params (getlines b'&' query) in write_params ps.values ps.names []
