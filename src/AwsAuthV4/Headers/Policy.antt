-- ===== src/AwsAuthV4/Headers/Policy.antt =====
-- Which headers are signed, by the include and exclude sets.
use ats_plugin_experiment.Base.{
  Bool, true, false, not, ◌&&◌, ◌||◌, List, [], ◌∷◌, none, some, map, Bytes, ◌≡◌, refl, sym, arith,
  ◌∙◌, bytes_eq, bytes_eq_iff, any, to_lower, is_empty, Option-cases, Bool-cases, inl, inr,
}
use ats_plugin_experiment.Containers.StringSet.{StringSet, contains}
use ats_plugin_experiment.AwsAuthV4.Headers.{
  HeaderField, is_mandatory, is_signed, add_fields, no_headers,
}
use ats_plugin_experiment.AwsAuthV4.Headers.Collected.{signed_as, contains-add_fields}

-- The field has the name `k`, in whatever case.
unfoldable pub is_named : Bytes → HeaderField → Bool
is_named k f = elim f.name [
  | none ↦ false
  | some name ↦ not (is_empty name) && bytes_eq (map to_lower name) k
]

any_none :
    (p : HeaderField → Bool) (fs : List HeaderField)
    → ((f : HeaderField) → p f ≡ false)
    → any p fs ≡ false
any_none p [] h = refl
any_none p (f ∷ fs) h = ground (arith, h f, any_none p fs h)

contains-no_headers :
    (inc exc : StringSet) (fs : List HeaderField) (k : Bytes)
    → contains (add_fields inc exc no_headers fs).names k ≡ any (signed_as inc exc k) fs
unfolding contains
contains-no_headers inc exc fs k = contains-add_fields inc exc no_headers fs k

contains-empty : (s : StringSet) (k : Bytes) → is_empty s ≡ true → contains s k ≡ false
unfolding contains
contains-empty [] k h = refl
contains-empty (x ∷ s) k h = absurd (cc h)

is_signed_excluded :
    (inc exc : StringSet) (name : Bytes)
    → is_mandatory (map to_lower name) ≡ false
    → (contains exc (map to_lower name)
        || (not (is_empty inc) && not (contains inc (map to_lower name))))
      ≡ true
    → is_signed inc exc name ≡ false
unfolding is_signed
is_signed_excluded inc exc name m n = ground (arith, contains-empty exc (map to_lower name))

signed_as_excluded :
    (inc exc : StringSet) (k : Bytes) (f : HeaderField)
    → is_mandatory k ≡ false
    → (contains exc k || (not (is_empty inc) && not (contains inc k))) ≡ true
    → signed_as inc exc k f ≡ false
unfolding signed_as
signed_as_excluded inc exc k f m n = elim (Option-cases f.name) [
  | inl e ↦ rw e refl
  | inr (name, e) ↦ rw e (elim (Bool-cases (bytes_eq (map to_lower name) k)) [
    | inl same ↦
        let is_k : k ≡ map to_lower name = sym ((bytes_eq_iff (map to_lower name) k).0 same) in
        ground (arith, is_signed_excluded inc exc name (rw is_k at m) (rw is_k at n))
    | inr other ↦ ground arith
  ])
]

-- A header that is neither host nor content-type nor x-amz-* is not signed where it is in the
-- exclude set, or missing from an include set that is not empty.
pub excluded_is_not_signed :
    (include_headers exclude_headers : StringSet) (fs : List HeaderField) (k : Bytes)
    → is_mandatory k ≡ false
    → (contains exclude_headers k
        || (not (is_empty include_headers) && not (contains include_headers k)))
      ≡ true
    → contains (add_fields include_headers exclude_headers no_headers fs).names k ≡ false
excluded_is_not_signed inc exc fs k m h =
    contains-no_headers inc exc fs k
    ∙ any_none (signed_as inc exc k) fs (λ f. signed_as_excluded inc exc k f m h)
