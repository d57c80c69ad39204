-- ===== src/AwsAuthV4/Trim.antt =====
-- `trimWhiteSpaces` and `trimWhiteSpacesAndSqueezeInnerSpaces` of
-- src/obj_store_auth/aws_auth_v4.cc, and `commaSeparateString` of aws_auth_v4.h.
pub mod Ends
pub mod Words
pub mod Tokens
use mathlib.Core.Option
use ats_plugin_experiment.Base.{
  ℕ, suc, ◌+◌, ◌-◌, Bool, true, false, not, ◌&&◌, Option, none, some, List, [], ◌∷◌, map, ◌==◌,
  if◌then◌else◌, Bytes, take, drop, any, is_space, to_lower, getlines,
}
use ats_plugin_experiment.Containers.StringSet.{StringSet, insert}

-- " \t\n\v\f\r"
abbrev white_space : Bytes
white_space = 32 ∷ 9 ∷ 10 ∷ 11 ∷ 12 ∷ 13 ∷ []

unfoldable pub is_white : ℕ → Bool
is_white c = any (λ w. w == c) white_space

-- `s.find_first_not_of(whiteSpace)`
unfoldable pub find_first_not_white : Bytes → Option ℕ
find_first_not_white [] = none
find_first_not_white (c ∷ s) =
    if is_white c then Option.map suc (find_first_not_white s) else some 0

-- `s.find_last_not_of(whiteSpace)`
unfoldable pub find_last_not_white : Bytes → Option ℕ
find_last_not_white [] = none
find_last_not_white (c ∷ s) = elim (find_last_not_white s) [
  | some i ↦ some (suc i)
  | none ↦ if is_white c then none else some 0
]

-- `s.substr(start, stop - start + 1)`; where there is a `start` there is a `stop`.
unfoldable pub trim_white_spaces : Bytes → Bytes
trim_white_spaces s = elim (find_first_not_white s) [
  | none ↦ []
  | some start ↦ elim (find_last_not_white s) [
    | none ↦ []
    | some stop ↦ take (stop - start + 1) (drop start s)
  ]
]

-- The loop of `trimWhiteSpacesAndSqueezeInnerSpaces`. The counter `n` of the source is the length
-- of what was appended, so the final `resize` changes nothing.
unfoldable pub squeeze_go : ℕ → Bytes → Bytes
squeeze_go prev [] = []
squeeze_go prev (c ∷ s) =
    let rest = squeeze_go c s in
    if not (is_space c)
    then c ∷ rest
    else if is_space c && not (is_space prev)
    then b' ' ∷ rest
    else rest

unfoldable pub trim_white_spaces_and_squeeze_inner_spaces : Bytes → Bytes
trim_white_spaces_and_squeeze_inner_spaces [] = []
trim_white_spaces_and_squeeze_inner_spaces (c ∷ s) = squeeze_go 0 (trim_white_spaces (c ∷ s))

-- What `commaSeparateString` does to one token.
unfoldable pub separated_token : Bool → Bool → Bytes → Bytes
separated_token trim lower_case token =
    let trimmed = if trim then trim_white_spaces token else token in
    if lower_case then map to_lower trimmed else trimmed

unfoldable pub insert_tokens : Bool → Bool → StringSet → List Bytes → StringSet
insert_tokens trim lower_case ss [] = ss
insert_tokens trim lower_case ss (token ∷ tokens) =
    insert_tokens trim lower_case (insert (separated_token trim lower_case token) ss) tokens

unfoldable pub comma_separate_string : Bool → Bool → StringSet → Bytes → StringSet
comma_separate_string trim lower_case ss input =
    insert_tokens trim lower_case ss (getlines b',' input)
