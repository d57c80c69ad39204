-- ===== src/AwsAuthV4/Headers.antt =====
-- The canonical headers: the loops over the request's header fields in
-- `getCanonicalRequestSha256Hash` of src/obj_store_auth/aws_auth_v4.cc.
pub mod Collected
pub mod Policy
pub mod Order
use ats_plugin_experiment.Base.{
  ℕ, Bool, true, false, not, ◌&&◌, ◌||◌, List, [], ◌∷◌, ◌++◌, Option, none, some, map, Bytes, codes,
  take, length, is_empty, leb, ◌==◌, bytes_eq, to_lower, if◌then◌else◌,
}
use ats_plugin_experiment.Containers.StringSet.{StringSet, insert, contains}
use ats_plugin_experiment.Containers.StringMap.{StringMap, find, index, assign}
use ats_plugin_experiment.AwsAuthV4.Trim.{trim_white_spaces_and_squeeze_inner_spaces}

-- What `getName` and `getValue` of a `HeaderIterator` give; a null name is `none`.
pub record HeaderField : Type 0 where
  pub name : Option Bytes
  pub value : Bytes

-- The locals `signedHeadersSet` and `headersMap`.
pub record SignedHeaders : Type 0 where
  pub names : StringSet
  pub values : StringMap

unfoldable pub has_x_amz_prefix : Bytes → Bool
has_x_amz_prefix name =
    leb (length (codes "x-amz-")) (length name)
    && bytes_eq (take (length (codes "x-amz-")) name) (codes "x-amz-")

-- Host, content-type and x-amz-* headers.
unfoldable pub is_mandatory : Bytes → Bool
is_mandatory lowercase_name =
    has_x_amz_prefix lowercase_name
    || bytes_eq (codes "content-type") lowercase_name
    || bytes_eq (codes "host") lowercase_name

unfoldable pub starts_with_at : Bytes → Bool
starts_with_at [] = false
starts_with_at (c ∷ s) = c == b'@'

-- Whether the loop goes past its `continue` statements for a field of this name.
unfoldable pub is_signed : StringSet → StringSet → Bytes → Bool
is_signed include_headers exclude_headers name =
    let lowercase_name = map to_lower name in
    let include = not (is_empty include_headers) && contains include_headers lowercase_name in
    let exclude = not (is_empty exclude_headers) && contains exclude_headers lowercase_name in
    not (is_empty name)
    && (is_mandatory lowercase_name
        || (not (starts_with_at name)
            && not (
                (is_empty include_headers && exclude)
                || (not (is_empty include_headers) && (not include || exclude)))))

-- A new value of a header, behind the values that it has.
unfoldable pub combine : Option Bytes → Bytes → Bytes
combine none value = value
combine (some values) value = values ++ b',' ∷ value

unfoldable pub add_signed : SignedHeaders → Bytes → Bytes → SignedHeaders
add_signed sh lowercase_name trim_value = record {
  names = insert lowercase_name sh.names;
  values = assign lowercase_name (combine (find sh.values lowercase_name) trim_value) sh.values;
}

unfoldable pub add_named :
    StringSet → StringSet → SignedHeaders → Option Bytes → Bytes → SignedHeaders
add_named include_headers exclude_headers sh none value = sh
add_named include_headers exclude_headers sh (some name) value =
    if is_signed include_headers exclude_headers name
    then add_signed sh (map to_lower name) (trim_white_spaces_and_squeeze_inner_spaces value)
    else sh

unfoldable pub add_fields : StringSet → StringSet → SignedHeaders → List HeaderField → SignedHeaders
add_fields include_headers exclude_headers sh [] = sh
add_fields include_headers exclude_headers sh (f ∷ fs) =
    add_fields include_headers exclude_headers
      (add_named include_headers exclude_headers sh f.name f.value) fs

abbrev pub no_headers : SignedHeaders
no_headers = record { names = []; values = [] }

-- What the first loop over `signedHeadersSet` hands to the hash, piece by piece.
unfoldable pub header_chunks : StringMap → StringSet → List Bytes
header_chunks values [] = []
header_chunks values (name ∷ names) =
    name ∷ codes ":" ∷ index values name ∷ codes "\n" ∷ header_chunks values names

-- The second loop, which appends to `signedHeaders`.
unfoldable pub append_names : Bytes → StringSet → Bytes
append_names signed_headers [] = signed_headers
append_names signed_headers (name ∷ names) =
    append_names
      ((if is_empty signed_headers then signed_headers else signed_headers ++ codes ";") ++ name)
      names
