-- ===== src/AddHeader/Delivery.antt =====
-- What src/add_header/add_header.cc adds to a request, and what becomes of the handles.
use mathlib.Core.Path.{ap₂, subst}
use ats_plugin_experiment.Base.{
  ℕ, suc, ◌+◌, Bool, true, false, ltb, some, List, [], ◌∷◌, ◌++◌, append_assoc, append-nil, Bytes,
  find, find-append, take, drop, take-length, length, is_space, Lacks, All, map, if◌then◌else◌, ◌≡◌,
  ◌∙◌, ap, sym, refl, arith, inl, inr, Bool-cases,
}
use ats_plugin_experiment.AddHeader.{
  Field, skip_spaces, parse_field, Making, has_value, makes, make_fields, plugin_init, Copying,
  Request, fetch, leave, make, add_each_field, fetch_next, add_header,
}

-- The results where every call succeeds.
abbrev pub all_made : Making
all_made = record { created = true; named = true; valued = true; appended = true }

abbrev pub all_copied : Copying
all_copied = record { created = true; copied = true; appended = true }

makes-all_made : (f : Field) → makes all_made f ≡ true
unfolding makes
makes-all_made f = elim (Bool-cases (has_value f.value)) [ inl b ↦ rw b refl | inr b ↦ rw b refl ]

make_fields_lem :
    (i : ℕ) (args : List Bytes) (fields : List Field)
    → make_fields (λ _. all_made) i args fields ≡ (fields ++ map parse_field args, true)
unfolding make_fields
make_fields_lem i [] fields = ap (λ l. (l, true)) (sym (append-nil fields))
make_fields_lem i (arg ∷ args) fields =
    let goes = makes-all_made (parse_field arg) in
    rw goes (
      make_fields_lem (i + 1) args (fields ++ parse_field arg ∷ [])
      ∙ ap (λ l. (l, true)) (append_assoc fields (parse_field arg ∷ []) (map parse_field args)))

-- The fields of the request after the loop of `add_header`: its own, and those whose calls succeed up
-- to the first failure.
abbrev pub goes_through : Copying → Bool
goes_through c = if c.created then if c.copied then c.appended else false else false

abbrev pub upto_failure : (ℕ → Copying) → ℕ → List Field → List Field
upto_failure copying i [] = []
upto_failure copying i (f ∷ fs) =
    let rest = upto_failure copying (i + 1) fs in if goes_through (copying i) then f ∷ rest else []

fetch_next-fields : (fs : List Field) (r : Request) → (fetch_next fs r).fields ≡ r.fields
fetch_next-fields [] r = refl
fetch_next-fields (f ∷ fs) r = refl

-- The request after a round whose calls succeed.
abbrev added : Field → Request → Request
added f r = leave (record (make r) { fields = r.fields ++ f ∷ []; made_let_go = r.made_let_go + 1 })

-- The request after a round in which a call fails.
abbrev broken : Copying → Request → Request
broken c r = if c.created then leave (make r) else leave r

add_each_field_on :
    (copying : ℕ → Copying) (i : ℕ) (f : Field) (fs : List Field) (r : Request)
    → goes_through (copying i) ≡ true
    → add_each_field copying i (f ∷ fs) r
      ≡ add_each_field copying (i + 1) fs (fetch_next fs (added f r))
unfolding add_each_field
add_each_field_on copying i f fs r h = elim (Bool-cases (copying i).created) [
  | inr a ↦ absurd (cc (rw a at h))
  | inl a ↦ elim (Bool-cases (copying i).copied) [
    | inr b ↦ absurd (cc (rw (a, b) at h))
    | inl b ↦ let c : (copying i).appended ≡ true = rw (a, b) at h in rw (a, b, c) refl
  ]
]

add_each_field_off :
    (copying : ℕ → Copying) (i : ℕ) (f : Field) (fs : List Field) (r : Request)
    → goes_through (copying i) ≡ false
    → add_each_field copying i (f ∷ fs) r ≡ broken (copying i) r
unfolding add_each_field
add_each_field_off copying i f fs r h = elim (Bool-cases (copying i).created) [
  | inr a ↦ rw a refl
  | inl a ↦ elim (Bool-cases (copying i).copied) [
    | inr b ↦ rw (a, b) refl
    | inl b ↦ let c : (copying i).appended ≡ false = rw (a, b) at h in rw (a, b, c) refl
  ]
]

broken-fields : (c : Copying) (r : Request) → (broken c r).fields ≡ r.fields
broken-fields c r = elim (Bool-cases c.created) [ inl b ↦ rw b refl | inr b ↦ rw b refl ]

pub add_each_field_lem :
    (copying : ℕ → Copying) (i : ℕ) (fs : List Field) (r : Request)
    → (add_each_field copying i fs r).fields ≡ r.fields ++ upto_failure copying i fs
unfolding add_each_field
add_each_field_lem copying i [] r = sym (append-nil r.fields)
add_each_field_lem copying i (f ∷ fs) r = elim (Bool-cases (goes_through (copying i))) [
  | inl b ↦
      let tail = upto_failure copying (i + 1) fs in
      ap (λ (q : Request). q.fields) (add_each_field_on copying i f fs r b)
      ∙ add_each_field_lem copying (i + 1) fs (fetch_next fs (added f r))
      ∙ ap (λ l. l ++ tail) (fetch_next-fields fs (added f r))
      ∙ append_assoc r.fields (f ∷ []) tail
      ∙ ap (λ (g : Bool). r.fields ++ (if g then f ∷ tail else [])) (sym b)
  | inr b ↦
      let tail = upto_failure copying (i + 1) fs in
      ap (λ (q : Request). q.fields) (add_each_field_off copying i f fs r b)
      ∙ broken-fields (copying i) r
      ∙ sym (append-nil r.fields)
      ∙ ap (λ (g : Bool). r.fields ++ (if g then f ∷ tail else [])) (sym b)
]

-- An argument as the usage text has it.
abbrev pub print_arg : Bytes × Bytes → Bytes
print_arg (name, value) = name ++ b':' ∷ b' ' ∷ value

abbrev pub field_of : Bytes × Bytes → Field
field_of (name, value) = record { name = name; value = some (skip_spaces value) }

abbrev record_field : Bytes → Bytes → Field
record_field n v = record { name = n; value = some v }

parse_at :
    (arg : Bytes) (colon : ℕ)
    → find b':' arg ≡ some colon
    → parse_field arg ≡ record_field (take colon arg) (skip_spaces (drop (suc colon) arg))
unfolding parse_field
parse_at arg colon h = rw (parse_field, h) refl

drop_after : (p : Bytes) (c : ℕ) (rest : Bytes) → drop (suc (length p)) (p ++ c ∷ rest) ≡ rest
drop_after [] c rest = refl
drop_after (x ∷ p) c rest = drop_after p c rest

skip_one : (value : Bytes) → skip_spaces (b' ' ∷ value) ≡ skip_spaces value
unfolding skip_spaces is_space
skip_one value = refl

parse_field-print_arg :
    (name value : Bytes)
    → Lacks b':' name
    → parse_field (print_arg (name, value)) ≡ field_of (name, value)
unfolding parse_field
parse_field-print_arg name value h =
    let text = print_arg (name, value) in
    let found = find-append b':' name (b' ' ∷ value) h in
    parse_at text (length name) found
    ∙ ap₂ (λ n v. record_field n (skip_spaces v)) (take-length name (b':' ∷ b' ' ∷ value))
        (drop_after name b':' (b' ' ∷ value))
    ∙ ap (record_field name) (skip_one value)

map-parse_field :
    (pairs : List (Bytes × Bytes))
    → All (λ (p : Bytes × Bytes). Lacks b':' p.0) pairs
    → map parse_field (map print_arg pairs) ≡ map field_of pairs
map-parse_field [] h = refl
map-parse_field ((name, value) ∷ pairs) (hn, h) =
    ap₂ ◌∷◌ (parse_field-print_arg name value hn) (map-parse_field pairs h)

plugin_init_lem :
    (program : Bytes) (args : List Bytes)
    → (plugin_init true true (λ _. all_made) (program ∷ args)).0 ≡ map parse_field args
unfolding plugin_init
plugin_init_lem program [] = refl
plugin_init_lem program (arg ∷ args) =
    let two : ltb (suc (suc (length args))) 2 ≡ false = ground arith in
    rw two (ap (λ p. p.0) (make_fields_lem 0 (arg ∷ args) []))

-- A client request leaves with its own fields and, behind them in the order of the arguments, the
-- fields that the arguments `name: value` of the plugin spell, up to the first one whose calls fail:
-- where the plugin was initialised without an error and no name has a colon.
pub add_header-plugin_init :
    (copying : ℕ → Copying) (program : Bytes) (pairs : List (Bytes × Bytes)) (r : Request)
    → All (λ (p : Bytes × Bytes). Lacks b':' p.0) pairs
    → (add_header true copying
        (plugin_init true true (λ _. all_made) (program ∷ map print_arg pairs)).0
        r).fields
      ≡ r.fields ++ upto_failure copying 0 (map field_of pairs)
unfolding add_header
add_header-plugin_init copying program pairs r h =
    let fs = plugin_init_lem program (map print_arg pairs) ∙ map-parse_field pairs h in
    ap (λ l. (add_header true copying l r).fields) fs
    ∙ add_each_field_lem copying 0 (map field_of pairs) (fetch_next (map field_of pairs) r)
    ∙ ap (λ l. l ++ upto_failure copying 0 (map field_of pairs))
        (fetch_next-fields (map field_of pairs) r)

-- The handles that are lost: 1 where the first field whose calls fail had been created, and none
-- where there is no such field.
abbrev pub lost : (ℕ → Copying) → ℕ → List Field → ℕ
lost copying i [] = 0
lost copying i (f ∷ fs) =
    let rest = lost copying (i + 1) fs in
    if goes_through (copying i) then rest else if (copying i).created then 1 else 0

-- The handles of the plugin's header are all released, and those of the new fields but for `n`.
pub record IsSettled (n : ℕ) (r : Request) : Type 0 where
  pub settled : r.fetched ≡ r.let_go
  pub but_for : r.made ≡ r.made_let_go + n

broken-IsSettled :
    (c : Copying) (r : Request)
    → r.fetched ≡ r.let_go
    → r.made ≡ r.made_let_go
    → IsSettled (if c.created then 1 else 0) (broken c (fetch r))
broken-IsSettled c r h m = elim (Bool-cases c.created) [
  | inl b ↦ rw b (record { settled = omega (arith, h); but_for = omega (arith, m) })
  | inr b ↦ rw b (record { settled = omega (arith, h); but_for = omega (arith, m) })
]

add_each_field-IsSettled :
    (copying : ℕ → Copying) (i : ℕ) (fs : List Field) (r : Request)
    → r.fetched ≡ r.let_go
    → r.made ≡ r.made_let_go
    → IsSettled (lost copying i fs) (add_each_field copying i fs (fetch_next fs r))
unfolding add_each_field
add_each_field-IsSettled copying i [] r h m = record { settled = h; but_for = omega (arith, m) }
add_each_field-IsSettled copying i (f ∷ fs) r h m = elim (Bool-cases (goes_through (copying i))) [
  | inl b ↦
      let rest = lost copying (i + 1) fs in
      let on = subst (IsSettled rest) (sym (add_each_field_on copying i f fs (fetch r) b)) (
        add_each_field-IsSettled copying (i + 1) fs (added f (fetch r)) (omega (arith, h))
          (omega (arith, m))) in
      subst
        (λ (g : Bool).
          IsSettled (if g then rest else if (copying i).created then 1 else 0)
            (add_each_field copying i (f ∷ fs) (fetch r)))
        (sym b) on
  | inr b ↦
      let rest = lost copying (i + 1) fs in
      let off =
        subst (IsSettled (if (copying i).created then 1 else 0))
          (sym (add_each_field_off copying i f fs (fetch r) b))
          (broken-IsSettled (copying i) r h m) in
      subst
        (λ (g : Bool).
          IsSettled (if g then rest else if (copying i).created then 1 else 0)
            (add_each_field copying i (f ∷ fs) (fetch r)))
        (sym b) off
]

-- Whatever fails, `add_header` releases every handle that it has fetched from the plugin's header,
-- and every handle of the fields that it creates in the request but for one, where the first call to
-- fail is the copy or the append of a field that was created. None is lost where every call succeeds,
-- where the first call to fail is a creation, and where the request's header cannot be had. The counts
-- of fetched and released, and of made and released, are even at first.
pub add_header-IsSettled :
    (given : Bool) (copying : ℕ → Copying) (fs : List Field) (r : Request)
    → r.fetched ≡ r.let_go
    → r.made ≡ r.made_let_go
    → IsSettled (if given then lost copying 0 fs else 0) (add_header given copying fs r)
unfolding add_header
add_header-IsSettled true copying fs r h m = add_each_field-IsSettled copying 0 fs r h m
add_header-IsSettled false copying fs r h m = record { settled = h; but_for = omega (arith, m) }
