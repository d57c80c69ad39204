-- ===== src/AwsAuthV4/Headers/Order.antt =====
-- The canonical headers are in the order of the names, whatever order the fields came in.
use ats_plugin_experiment.Base.{
  Bool, true, false, ◌||◌, ◌&&◌, List, [], ◌∷◌, ◌++◌, Option, none, some, map, Bytes, ◌≡◌, ◌≢◌,
  refl, sym, arith, ap, ◌∙◌, bytes_eq_iff, any, to_lower,
}
use ats_plugin_experiment.Containers.StringSet.{StringSet, contains}
use ats_plugin_experiment.Containers.StringMap.{StringMap, find, index-ext}
use ats_plugin_experiment.Containers.Extensionality.{IsSorted-ext}
use ats_plugin_experiment.AwsAuthV4.Headers.{
  HeaderField, add_fields, no_headers, header_chunks, append_names,
}
use ats_plugin_experiment.AwsAuthV4.Headers.Collected.{
  signed_as, joined_more, joined_values, find-add_fields, contains-add_fields, IsSorted-add_fields,
}

abbrev is_some : Option Bytes → Bool
is_some none = false
is_some (some v) = true

header_chunks-ext :
    (m n : StringMap) (names : StringSet)
    → ((k : Bytes) → find m k ≡ find n k)
    → header_chunks m names ≡ header_chunks n names
unfolding header_chunks
header_chunks-ext m n [] h = refl
header_chunks-ext m n (name ∷ names) h =
    cc (index-ext m n name (h name), header_chunks-ext m n names h)

-- The canonical headers of a request, piece by piece, and its list of signed headers.
unfoldable pub signed_chunks : StringSet → StringSet → List HeaderField → List Bytes
signed_chunks inc exc fs =
    header_chunks (add_fields inc exc no_headers fs).values (add_fields inc exc no_headers fs).names

unfoldable pub signed_names : StringSet → StringSet → List HeaderField → Bytes
signed_names inc exc fs = append_names [] (add_fields inc exc no_headers fs).names

module _ (inc exc : StringSet) where
  is_some-joined_values :
      (k : Bytes) (o : Option Bytes) (fs : List HeaderField)
      → is_some (joined_values inc exc k o fs) ≡ (is_some o || any (signed_as inc exc k) fs)
  unfolding joined_values joined_more
  is_some-joined_values k o [] = ground arith
  is_some-joined_values k o (f ∷ fs) =
      ground (arith, is_some-joined_values k (joined_more inc exc k o f) fs)

  abbrev SameValues : List HeaderField → List HeaderField → Type 0
  SameValues fs gs = (k : Bytes) → joined_values inc exc k none fs ≡ joined_values inc exc k none gs

  find-no_headers :
      (fs : List HeaderField) (k : Bytes)
      → find (add_fields inc exc no_headers fs).values k ≡ joined_values inc exc k none fs
  unfolding find
  find-no_headers fs k = find-add_fields inc exc no_headers fs k

  contains-is_some :
      (fs : List HeaderField) (k : Bytes)
      → contains (add_fields inc exc no_headers fs).names k
        ≡ is_some (joined_values inc exc k none fs)
  unfolding contains
  contains-is_some fs k =
      contains-add_fields inc exc no_headers fs k ∙ sym (is_some-joined_values k none fs)

  pub names_same :
      (fs gs : List HeaderField)
      → SameValues fs gs
      → (add_fields inc exc no_headers fs).names ≡ (add_fields inc exc no_headers gs).names
  names_same fs gs h =
      IsSorted-ext (add_fields inc exc no_headers fs).names (add_fields inc exc no_headers gs).names
        (IsSorted-add_fields inc exc no_headers fs tt)
        (IsSorted-add_fields inc exc no_headers gs tt)
        λ k. contains-is_some fs k ∙ ap is_some (h k) ∙ sym (contains-is_some gs k)

  chunks_same :
      (fs gs : List HeaderField)
      → SameValues fs gs
      → signed_chunks inc exc fs ≡ signed_chunks inc exc gs
  unfolding signed_chunks
  chunks_same fs gs h =
      ap (header_chunks (add_fields inc exc no_headers fs).values) (names_same fs gs h)
      ∙ header_chunks-ext (add_fields inc exc no_headers fs).values
          (add_fields inc exc no_headers gs).values (add_fields inc exc no_headers gs).names
          (λ k. find-no_headers fs k ∙ h k ∙ sym (find-no_headers gs k))

  joined_values-append :
      (k : Bytes) (o : Option Bytes) (us fs : List HeaderField)
      → joined_values inc exc k o (us ++ fs)
        ≡ joined_values inc exc k (joined_values inc exc k o us) fs
  unfolding joined_values
  joined_values-append k o [] fs = refl
  joined_values-append k o (u ∷ us) fs = joined_values-append k (joined_more inc exc k o u) us fs

  joined_values_swap :
      (k : Bytes) (o : Option Bytes) (f g : HeaderField) (vs : List HeaderField)
      → (signed_as inc exc k f && signed_as inc exc k g) ≡ false
      → joined_values inc exc k o (f ∷ g ∷ vs) ≡ joined_values inc exc k o (g ∷ f ∷ vs)
  unfolding joined_values joined_more
  joined_values_swap k o f g vs h = ap (λ p. joined_values inc exc k p vs) (ground arith)

  not_both_signed :
      (k : Bytes) (f g : HeaderField) (m n : Bytes)
      → f.name ≡ some m
      → g.name ≡ some n
      → map to_lower m ≢ map to_lower n
      → (signed_as inc exc k f && signed_as inc exc k g) ≡ false
  unfolding signed_as
  not_both_signed k f g m n fm gn h =
      rw (fm, gn) (ground (arith, bytes_eq_iff (map to_lower m) k, bytes_eq_iff (map to_lower n) k))

  swap_same :
      (us vs : List HeaderField) (f g : HeaderField) (m n : Bytes)
      → f.name ≡ some m
      → g.name ≡ some n
      → map to_lower m ≢ map to_lower n
      → SameValues (us ++ f ∷ g ∷ vs) (us ++ g ∷ f ∷ vs)
  swap_same us vs f g m n fm gn h k =
      joined_values-append k none us (f ∷ g ∷ vs)
      ∙ joined_values_swap k (joined_values inc exc k none us) f g vs
          (not_both_signed k f g m n fm gn h)
      ∙ sym (joined_values-append k none us (g ∷ f ∷ vs))

-- Two header fields whose names differ in more than case may be exchanged: the canonical headers
-- and the list of signed headers stay.
pub canonical_headers_swap :
    (include_headers exclude_headers : StringSet) (us vs : List HeaderField) (f g : HeaderField)
    (m n : Bytes)
    → f.name ≡ some m
    → g.name ≡ some n
    → map to_lower m ≢ map to_lower n
    → (signed_chunks include_headers exclude_headers (us ++ f ∷ g ∷ vs)
        ≡ signed_chunks include_headers exclude_headers (us ++ g ∷ f ∷ vs))
      × (signed_names include_headers exclude_headers (us ++ f ∷ g ∷ vs)
          ≡ signed_names include_headers exclude_headers (us ++ g ∷ f ∷ vs))
unfolding signed_names
canonical_headers_swap inc exc us vs f g m n fm gn h =
    let same = swap_same inc exc us vs f g m n fm gn h in
    (
      chunks_same inc exc (us ++ f ∷ g ∷ vs) (us ++ g ∷ f ∷ vs) same,
      ap (append_names []) (names_same inc exc (us ++ f ∷ g ∷ vs) (us ++ g ∷ f ∷ vs) same),
    )
