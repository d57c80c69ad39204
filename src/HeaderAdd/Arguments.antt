-- ===== src/HeaderAdd/Arguments.antt =====
-- What the arguments add to a request.
use ats_plugin_experiment.Base.{
  ℕ, suc, ◌+◌, ◌-◌, Bool, true, ltb, none, some, List, [], ◌∷◌, ◌++◌, Bytes, find-append, find-none,
  take, drop, length, take-length, drop-length, length-append, append_assoc, append-nil, Lacks, ◌≡◌,
  refl, sym, ap, ◌∙◌, arith,
}
use ats_plugin_experiment.HeaderAdd.{
  starts_with_quote, unquote, parse_arg_into_nv, parse_args, new_line, attach,
}

parse_split :
    (name value : Bytes)
    → Lacks b':' name
    → parse_arg_into_nv (name ++ b':' ∷ value) ≡ (some name, some (unquote value))
unfolding parse_arg_into_nv
parse_split name value h =
    let arg = name ++ b':' ∷ value in
    let long : suc (length name) ≡ length (name ++ b':' ∷ []) =
      omega (arith, length-append name (b':' ∷ [])) in
    let back : drop (suc (length name)) arg ≡ value =
      ap (drop (suc (length name))) (sym (append_assoc name (b':' ∷ []) value))
      ∙ ap (λ n. drop n ((name ++ b':' ∷ []) ++ value)) long
      ∙ drop-length (name ++ b':' ∷ []) value in
    ground (arith, find-append b':' name value h, take-length name (b':' ∷ value), back)

unquote_long :
    (v : Bytes)
    → ltb 1 (length v) ≡ true
    → starts_with_quote v ≡ true
    → starts_with_quote (drop (length v - 1) v) ≡ true
    → unquote v ≡ take (length v - 2) (drop 1 v)
unfolding unquote
unquote_long v l f e = rw (l, f, e) refl

unquote-quoted : (value : Bytes) → unquote (b'"' ∷ value ++ b'"' ∷ []) ≡ value
unfolding starts_with_quote
unquote-quoted value =
    let w = value ++ b'"' ∷ [] in
    let v = b'"' ∷ w in
    let len : length w ≡ length value + 1 = length-append value (b'"' ∷ []) in
    let behind : length v - 1 ≡ suc (length value) = omega (arith, len) in
    let inner : length v - 2 ≡ length value = omega (arith, len) in
    let last : drop (length v - 1) v ≡ b'"' ∷ [] =
      ap (λ n. drop n v) behind ∙ drop-length value (b'"' ∷ []) in
    unquote_long v (ground (arith, len)) refl (ap starts_with_quote last)
    ∙ ap (λ n. take n w) inner
    ∙ take-length value (b'"' ∷ [])

-- The arguments for fields, each value in quotes.
abbrev pub quoted_args : List (Bytes × Bytes) → List Bytes
quoted_args [] = []
quoted_args ((name, value) ∷ fs) = (name ++ b':' ∷ (b'"' ∷ value ++ b'"' ∷ [])) ∷ quoted_args fs

abbrev pub NamesLack : ℕ → List (Bytes × Bytes) → Type 0
NamesLack c [] = Unit
NamesLack c ((name, value) ∷ fs) = Lacks c name × NamesLack c fs

parsed_quoted :
    (name value : Bytes)
    → Lacks b':' name
    → parse_arg_into_nv (name ++ b':' ∷ (b'"' ∷ value ++ b'"' ∷ [])) ≡ (some name, some value)
parsed_quoted name value h =
    parse_split name (b'"' ∷ value ++ b'"' ∷ []) h
    ∙ ap (λ v. (some name, some v)) (unquote-quoted value)

attach-quoted_args :
    (created : ℕ → Bool) (i : ℕ) (fs fields : List (Bytes × Bytes))
    → ((j : ℕ) → created j ≡ true)
    → NamesLack b':' fs
    → attach created i (parse_args (quoted_args fs)) fields ≡ some (fields ++ fs)
unfolding attach parse_args
attach-quoted_args created i [] fields ok h = ap some (sym (append-nil fields))
attach-quoted_args created i ((name, value) ∷ fs) fields ok (hn, h) =
    rw
      (
        parsed_quoted name value hn,
        ok i,
        attach-quoted_args created (i + 1) fs (fields ++ (name, value) ∷ []) ok h,
      )
      (ap some (append_assoc fields ((name, value) ∷ []) fs))

-- Fields that are given to the plugin as name, colon and value in quotes, behind the two URLs, are
-- added to the request's fields as they are and in their order. No name contains a colon, and every
-- field can be created.
pub attach-new_line :
    (created : ℕ → Bool) (from to : Bytes) (fs fields : List (Bytes × Bytes))
    → ((j : ℕ) → created j ≡ true)
    → NamesLack b':' fs
    → attach created 0 (new_line (from ∷ to ∷ quoted_args fs)) fields ≡ some (fields ++ fs)
unfolding new_line
attach-new_line created from to fs fields ok h = attach-quoted_args created 0 fs fields ok h

-- A first argument without a colon is accepted, and a request then takes the length of a null
-- pointer, where the field for it can be created.
pub attach_malformed :
    (created : ℕ → Bool) (from to arg : Bytes) (args : List Bytes) (fields : List (Bytes × Bytes))
    → created 0 ≡ true
    → Lacks b':' arg
    → attach created 0 (new_line (from ∷ to ∷ arg ∷ args)) fields ≡ none
unfolding new_line parse_args attach parse_arg_into_nv
attach_malformed created from to arg args fields ok h = ground (arith, find-none b':' arg h, ok)
