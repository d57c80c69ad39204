-- ===== src/AwsAuthV4/Defaults/Buckets.antt =====
-- The default region map knows the region of every bucket below its entry points.
use ats_plugin_experiment.Base.{
  ℕ, ◌<◌, Bool, true, false, not, ◌&&◌, ◌||◌, String, List, [], ◌∷◌, ◌++◌, append_assoc, append-nil,
  none, some, Bytes, codes, ◌≡◌, refl, arith, ap, ◌∙◌, length, bytes_eq, bytes_eq_iff, bytes_lt,
  is_empty, Option-cases, inl, inr,
}
use ats_plugin_experiment.Containers.StringMap.{StringMap, find}
use ats_plugin_experiment.AwsAuthV4.Region.{npos, or_default, get_region}
use ats_plugin_experiment.AwsAuthV4.Region.Candidates.{
  behind, behind_dots, candidates, first_match, NoLeadingDot, get_region-first_match,
}
use ats_plugin_experiment.AwsAuthV4.Defaults.{default_entries, create_default_region_map}

-- The entry stands in the list.
abbrev pub is_listed : Bytes → Bytes → List (String × String) → Bool
is_listed entry_point region [] = false
is_listed entry_point region ((e, r) ∷ es) =
    (bytes_eq (codes e) entry_point && bytes_eq (codes r) region) || is_listed entry_point region es

is_unknown : StringMap → List Bytes → Bool
is_unknown m [] = true
is_unknown m (name ∷ names) = elim (find m name) [ none ↦ is_unknown m names | some r ↦ false ]

-- The map has the entry, and none for a shorter ending of its name.
is_reached : StringMap → Bytes → Bytes → Bool
is_reached m entry_point region =
    is_unknown m (behind_dots entry_point [])
    && not (is_empty region)
    && elim (find m entry_point) [ none ↦ false | some r ↦ bytes_eq r region ]

all_reached : StringMap → List (String × String) → Bool
all_reached m [] = true
all_reached m ((e, r) ∷ es) = is_reached m (codes e) (codes r) && all_reached m es

default_reached : all_reached create_default_region_map default_entries ≡ true
unfolding create_default_region_map find bytes_eq bytes_lt behind_dots behind all_reached is_reached
    is_unknown
default_reached = refl

is_listed-is_reached :
    (m : StringMap) (name region : Bytes) (es : List (String × String))
    → all_reached m es ≡ true
    → is_listed name region es ≡ true
    → is_reached m name region ≡ true
unfolding all_reached
is_listed-is_reached m name region [] h l = absurd (cc l)
is_listed-is_reached m name region ((e, r) ∷ es) h l = ground (
  arith,
  is_listed-is_reached m name region es,
  bytes_eq_iff (codes e) name,
  bytes_eq_iff (codes r) region,
)

first_match_unknown :
    (m : StringMap) (names rest : List Bytes)
    → is_unknown m names ≡ true
    → first_match m (names ++ rest) ≡ first_match m rest
unfolding is_unknown first_match
first_match_unknown m [] rest h = refl
first_match_unknown m (name ∷ names) rest h = ground (arith, first_match_unknown m names rest)

-- The endings behind the dots of a name in front of which something stands.
behind_dots-append_dot :
    (a b q : Bytes)
    → behind_dots (a ++ b'.' ∷ b) q ≡ behind_dots b q ++ (b ++ q) ∷ behind_dots a (b'.' ∷ (b ++ q))
unfolding behind_dots behind
behind_dots-append_dot [] b q = refl
behind_dots-append_dot (c ∷ a) b q =
    ap (λ t. t ++ behind c ((a ++ b'.' ∷ b) ++ q)) (behind_dots-append_dot a b q)
    ∙ append_assoc (behind_dots b q) ((b ++ q) ∷ behind_dots a (b'.' ∷ (b ++ q)))
        (behind c ((a ++ b'.' ∷ b) ++ q))
    ∙ ap (λ t. behind_dots b q ++ (b ++ q) ∷ (behind_dots a (b'.' ∷ (b ++ q)) ++ behind c t))
        (append_assoc a (b'.' ∷ b) q)

first_match_at :
    (m : StringMap) (name region : Bytes) (names : List Bytes)
    → find m name ≡ some region
    → first_match m (name ∷ names) ≡ region
unfolding first_match
first_match_at m name region names h = ground arith

is_reached_parts :
    (m : StringMap) (name region : Bytes)
    → is_reached m name region ≡ true
    → (is_unknown m (behind_dots name []) ≡ true)
      × (is_empty region ≡ false)
      × (find m name ≡ some region)
unfolding is_reached
is_reached_parts m name region h = elim (Option-cases (find m name)) [
  | inl e ↦ absurd (ground arith)
  | inr (r, e) ↦ (ground arith, ground arith, ground (arith, bytes_eq_iff r region))
]

first_match_bucket :
    (m : StringMap) (bucket name region : Bytes)
    → is_reached m name region ≡ true
    → first_match m (candidates (bucket ++ b'.' ∷ name)) ≡ region
unfolding candidates
first_match_bucket m bucket name region h =
    let (unknown, full, found) = is_reached_parts m name region h in
    let host = bucket ++ b'.' ∷ name in
    let before = behind_dots bucket (b'.' ∷ (name ++ [])) in
    ap (λ t. first_match m (t ++ host ∷ [])) (behind_dots-append_dot bucket name [])
    ∙ ap (first_match m) (append_assoc (behind_dots name []) ((name ++ []) ∷ before) (host ∷ []))
    ∙ first_match_unknown m (behind_dots name []) ((name ++ []) ∷ before ++ host ∷ []) unknown
    ∙ first_match_at m (name ++ []) region (before ++ host ∷ []) (rw append-nil found)

or_default_full : (m : StringMap) (r : Bytes) → is_empty r ≡ false → or_default m r ≡ r
unfolding or_default
or_default_full m [] h = absurd (cc h)
or_default_full m (c ∷ r) h = refl

-- A host name that is a bucket in front of an entry point of the default map gets the region of
-- that entry point; it does not begin with a dot and is shorter than the greatest `size_t`.
pub get_region_bucket :
    (bucket entry_point region : Bytes) (rounds : ℕ)
    → is_listed entry_point region default_entries ≡ true
    → NoLeadingDot (bucket ++ b'.' ∷ entry_point)
    → length (bucket ++ b'.' ∷ entry_point) < npos
    → length (bucket ++ b'.' ∷ entry_point) < rounds
    → get_region rounds create_default_region_map (bucket ++ b'.' ∷ entry_point) ≡ some region
get_region_bucket bucket name region rounds listed h small enough =
    let m = create_default_region_map in
    let reached : is_reached m name region ≡ true =
      is_listed-is_reached m name region default_entries default_reached listed in
    get_region-first_match rounds m (bucket ++ b'.' ∷ name) h small enough
    ∙ ap (λ r. some (or_default m r)) (first_match_bucket m bucket name region reached)
    ∙ ap some (or_default_full m region (is_reached_parts m name region reached).1)
