-- ===== src/AwsAuthV4/Headers/Collected.antt =====
-- The headers collected from a request: which are signed, and the value that each has.
use ats_plugin_experiment.Base.{
  Bool, false, ◌&&◌, ◌||◌, List, [], ◌∷◌, Option, none, some, map, Bytes, ◌≡◌, refl, arith, ap, ◌∙◌,
  bytes_eq, bytes_eq_iff, if◌then◌else◌, any, to_lower, Bool-cases, inl, inr,
}
use ats_plugin_experiment.Containers.StringSet.{
  StringSet, contains, contains-insert, IsSorted, insert-IsSorted,
}
use ats_plugin_experiment.Containers.StringMap.{find, find-assign}
use ats_plugin_experiment.AwsAuthV4.Trim.{trim_white_spaces_and_squeeze_inner_spaces}
use ats_plugin_experiment.AwsAuthV4.Headers.{
  HeaderField, SignedHeaders, is_signed, combine, add_signed, add_named, add_fields,
}

-- A field is signed under the name `k`.
unfoldable pub signed_as : StringSet → StringSet → Bytes → HeaderField → Bool
signed_as inc exc k f = elim f.name [
  | none ↦ false
  | some name ↦ is_signed inc exc name && bytes_eq (map to_lower name) k
]

-- The value of a field, as it is signed.
unfoldable pub signed_value : HeaderField → Bytes
signed_value f = trim_white_spaces_and_squeeze_inner_spaces f.value

unfoldable pub joined_more :
    StringSet → StringSet → Bytes → Option Bytes → HeaderField → Option Bytes
joined_more inc exc k earlier f =
    if signed_as inc exc k f then some (combine earlier (signed_value f)) else earlier

-- The values of the fields signed under the name `k`, in their order with commas between, behind
-- those in `earlier`; `none` where there is no such field.
unfoldable pub joined_values :
    StringSet → StringSet → Bytes → Option Bytes → List HeaderField → Option Bytes
joined_values inc exc k earlier [] = earlier
joined_values inc exc k earlier (f ∷ fs) =
    joined_values inc exc k (joined_more inc exc k earlier f) fs

module _ (inc exc : StringSet) where
  find-add_name :
      (sh : SignedHeaders) (name : Bytes) (value k : Bytes)
      → find (add_named inc exc sh (some name) value).values k
        ≡ joined_more inc exc k (find sh.values k) (record { name = some name; value = value })
  unfolding add_named joined_more signed_as signed_value add_signed
  find-add_name sh name value k =
      let lower = map to_lower name in
      let v = trim_white_spaces_and_squeeze_inner_spaces value in
      ground (
        arith,
        find-assign lower k (combine (find sh.values lower) v) sh.values,
        bytes_eq_iff lower k,
      )

  contains-add_name :
      (sh : SignedHeaders) (name : Bytes) (value k : Bytes)
      → contains (add_named inc exc sh (some name) value).names k
        ≡ (contains sh.names k || signed_as inc exc k (record { name = some name; value = value }))
  unfolding add_named signed_as add_signed
  contains-add_name sh name value k = ground (arith, contains-insert (map to_lower name) k sh.names)

  IsSorted-add_name :
      (sh : SignedHeaders) (name : Bytes) (value : Bytes)
      → IsSorted sh.names
      → IsSorted (add_named inc exc sh (some name) value).names
  unfolding add_named add_signed
  IsSorted-add_name sh name value h = elim (Bool-cases (is_signed inc exc name)) [
    | inl signed ↦ rw signed (insert-IsSorted (map to_lower name) sh.names h)
    | inr skipped ↦ rw skipped h
  ]

  find-add_named :
      (sh : SignedHeaders) (name : Option Bytes) (value k : Bytes)
      → find (add_named inc exc sh name value).values k
        ≡ joined_more inc exc k (find sh.values k) (record { name = name; value = value })
  find-add_named sh none value k = unfold add_named joined_more signed_as in refl
  find-add_named sh (some name) value k = find-add_name sh name value k

  contains-add_named :
      (sh : SignedHeaders) (name : Option Bytes) (value k : Bytes)
      → contains (add_named inc exc sh name value).names k
        ≡ (contains sh.names k || signed_as inc exc k (record { name = name; value = value }))
  contains-add_named sh none value k = unfold add_named signed_as in ground arith
  contains-add_named sh (some name) value k = contains-add_name sh name value k

  IsSorted-add_named :
      (sh : SignedHeaders) (name : Option Bytes) (value : Bytes)
      → IsSorted sh.names
      → IsSorted (add_named inc exc sh name value).names
  IsSorted-add_named sh none value h = unfold add_named in h
  IsSorted-add_named sh (some name) value h = IsSorted-add_name sh name value h

  -- The map has the joined values of each signed header.
  pub find-add_fields :
      (sh : SignedHeaders) (fs : List HeaderField) (k : Bytes)
      → find (add_fields inc exc sh fs).values k ≡ joined_values inc exc k (find sh.values k) fs
  unfolding add_fields joined_values
  find-add_fields sh [] k = refl
  find-add_fields sh (f ∷ fs) k =
      find-add_fields (add_named inc exc sh f.name f.value) fs k
      ∙ ap (λ o. joined_values inc exc k o fs) (find-add_named sh f.name f.value k)

  -- The set has the names of the signed fields, and no other.
  pub contains-add_fields :
      (sh : SignedHeaders) (fs : List HeaderField) (k : Bytes)
      → contains (add_fields inc exc sh fs).names k
        ≡ (contains sh.names k || any (signed_as inc exc k) fs)
  unfolding add_fields
  contains-add_fields sh [] k = ground arith
  contains-add_fields sh (f ∷ fs) k = ground (
    arith,
    contains-add_fields (add_named inc exc sh f.name f.value) fs k,
    contains-add_named sh f.name f.value k,
  )

  pub IsSorted-add_fields :
      (sh : SignedHeaders) (fs : List HeaderField)
      → IsSorted sh.names
      → IsSorted (add_fields inc exc sh fs).names
  unfolding add_fields
  IsSorted-add_fields sh [] h = h
  IsSorted-add_fields sh (f ∷ fs) h =
      IsSorted-add_fields (add_named inc exc sh f.name f.value) fs
        (IsSorted-add_named sh f.name f.value h)
