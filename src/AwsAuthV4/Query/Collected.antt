-- ===== src/AwsAuthV4/Query/Collected.antt =====
-- The parameters collected from a query: a parameter keeps the value of its last token.
use ats_plugin_experiment.Base.{
  Bool, true, false, List, [], ◌∷◌, Option, none, some, Bytes, ◌≡◌, refl, arith, ap, ◌∙◌, bytes_eq,
  if◌then◌else◌,
}
use ats_plugin_experiment.Containers.StringSet.{
  contains, contains-insert, IsSorted, insert-IsSorted,
}
use ats_plugin_experiment.Containers.StringMap.{find, find-assign}
use ats_plugin_experiment.AwsAuthV4.Encode.{canonical_encode}
use ats_plugin_experiment.AwsAuthV4.Query.{
  Params, token_param, token_value, add_token, add_tokens, no_params,
}

-- The canonical value of a token whose canonical name is `k`, and of the last such token of a list,
-- or else `earlier`.
unfoldable pub newer_value : Bytes → Option Bytes → Bytes → Option Bytes
newer_value k earlier t =
    if bytes_eq (canonical_encode (token_param t) false) k
    then some (canonical_encode (token_value t) false)
    else earlier

unfoldable pub last_value : Bytes → Option Bytes → List Bytes → Option Bytes
last_value k earlier [] = earlier
last_value k earlier (t ∷ ts) = last_value k (newer_value k earlier t) ts

abbrev pub is_some : Option Bytes → Bool
is_some none = false
is_some (some v) = true

-- The names are in ascending order, and are the keys of the map.
pub record IsConsistent (ps : Params) : Type 0 where
  pub sorted : IsSorted ps.names
  pub same_keys : (k : Bytes) → contains ps.names k ≡ is_some (find ps.values k)

pub no_params-IsConsistent : IsConsistent no_params
no_params-IsConsistent = record { sorted = tt; same_keys = λ k. unfold contains find in refl }

add_token-IsConsistent : (ps : Params) (t : Bytes) → IsConsistent ps → IsConsistent (add_token ps t)
unfolding add_token
add_token-IsConsistent ps t h = record {
  sorted = insert-IsSorted (canonical_encode (token_param t) false) ps.names h.sorted;
  same_keys = λ k. ground (
    arith,
    h.same_keys k,
    contains-insert (canonical_encode (token_param t) false) k ps.names,
    find-assign (canonical_encode (token_param t) false) k (canonical_encode (token_value t) false)
        ps.values,
  );
}

pub add_tokens-IsConsistent :
    (ps : Params) (ts : List Bytes) → IsConsistent ps → IsConsistent (add_tokens ps ts)
unfolding add_tokens
add_tokens-IsConsistent ps [] h = h
add_tokens-IsConsistent ps (t ∷ ts) h =
    add_tokens-IsConsistent (add_token ps t) ts (add_token-IsConsistent ps t h)

pub find-add_tokens :
    (ps : Params) (ts : List Bytes) (k : Bytes)
    → find (add_tokens ps ts).values k ≡ last_value k (find ps.values k) ts
unfolding add_tokens last_value add_token newer_value
find-add_tokens ps [] k = refl
find-add_tokens ps (t ∷ ts) k =
    find-add_tokens (add_token ps t) ts k
    ∙ ap (λ o. last_value k o ts)
        (find-assign (canonical_encode (token_param t) false) k
          (canonical_encode (token_value t) false) ps.values)
