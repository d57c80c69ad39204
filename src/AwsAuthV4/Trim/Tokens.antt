-- ===== src/AwsAuthV4/Trim/Tokens.antt =====
-- What `commaSeparateString` puts into the set.
use ats_plugin_experiment.Base.{
  Bool, ◌||◌, List, [], ◌∷◌, Bytes, ◌≡◌, arith, any, bytes_eq, getlines,
}
use ats_plugin_experiment.Containers.StringSet.{
  StringSet, insert, contains, contains-insert, IsSorted, insert-IsSorted,
}
use ats_plugin_experiment.AwsAuthV4.Trim.{separated_token, insert_tokens, comma_separate_string}

-- Whether a token of the list becomes `k`.
abbrev pub any_token : Bool → Bool → List Bytes → Bytes → Bool
any_token trim lower_case tokens k =
    any (λ token. bytes_eq (separated_token trim lower_case token) k) tokens

contains-insert_tokens :
    (trim lower_case : Bool) (ss : StringSet) (tokens : List Bytes) (k : Bytes)
    → contains (insert_tokens trim lower_case ss tokens) k
      ≡ (contains ss k || any_token trim lower_case tokens k)
unfolding insert_tokens
contains-insert_tokens trim lower_case ss [] k = ground arith
contains-insert_tokens trim lower_case ss (t ∷ ts) k = ground (
  arith,
  contains-insert_tokens trim lower_case (insert (separated_token trim lower_case t) ss) ts k,
  contains-insert (separated_token trim lower_case t) k ss,
)

insert_tokens-IsSorted :
    (trim lower_case : Bool) (ss : StringSet) (tokens : List Bytes)
    → IsSorted ss
    → IsSorted (insert_tokens trim lower_case ss tokens)
unfolding insert_tokens
insert_tokens-IsSorted trim lower_case ss [] h = h
insert_tokens-IsSorted trim lower_case ss (t ∷ ts) h =
    insert_tokens-IsSorted trim lower_case (insert (separated_token trim lower_case t) ss) ts
      (insert-IsSorted (separated_token trim lower_case t) ss h)

-- The set holds what it held and the comma-separated tokens, trimmed and in lower case as asked,
-- and nothing else; it stays in ascending order.
pub comma_separate_string_lem :
    (trim lower_case : Bool) (ss : StringSet) (input : Bytes)
    → IsSorted ss
    → IsSorted (comma_separate_string trim lower_case ss input)
      × ((k : Bytes)
          → contains (comma_separate_string trim lower_case ss input) k
            ≡ (contains ss k || any_token trim lower_case (getlines b',' input) k))
unfolding comma_separate_string
comma_separate_string_lem trim lower_case ss input h = (
  insert_tokens-IsSorted trim lower_case ss (getlines b',' input) h,
  contains-insert_tokens trim lower_case ss (getlines b',' input),
)
